-- ===== src/Flood/Stack.antt =====
-- The stack of src/mapgen.c holds a list of numbers, the last one pushed first.
use thirty.Prelude.{
  ℕ, zero, suc, ◌+◌, ◌-◌, ◌*◌, ◌^◌, ◌≤◌, ◌<◌, ◌≡◌, refl, sym, ap, ◌∙◌, arith, inl, inr, Bool-cases,
  true, none, some, List, [], ◌∷◌, ◌++◌, length, length-set, length-replicate, length-take,
  length-overwrite, get_elem?, get_elem?-eq_some, get_elem?-set_self, set, take, drop, replicate,
  overwrite, ltb, ◌==◌,
}
use thirty.Word.{uint32}
use thirty.Flood.{IntStack, stack_create, stack_pop, grown, stack_push}

-- The first `k` values, the last one first.
abbrev pub elements : List ℕ → ℕ → List ℕ
elements vs zero = []
elements vs (suc k) = elim (get_elem? vs k) [ none ↦ elements vs k | some v ↦ v ∷ elements vs k ]

-- The stack holds `xs`, within its capacity.
pub record Holds (s : IntStack) (xs : List ℕ) : Type 0 where
  pub size : s.size ≡ length xs
  pub room : length s.values ≡ s.capacity
  pub fits : length xs ≤ s.capacity
  pub some_room : 0 < s.capacity
  pub content : elements s.values s.size ≡ xs

get_elem?-set_above : (vs : List ℕ) (n k v : ℕ) → k < n → get_elem? (set vs n v) k ≡ get_elem? vs k
get_elem?-set_above [] n k v h = refl
get_elem?-set_above (x ∷ vs) (suc n) zero v h = refl
get_elem?-set_above (x ∷ vs) (suc n) (suc k) v h = get_elem?-set_above vs n k v (omega (arith, h))
get_elem?-set_above (x ∷ vs) zero k v h = absurd (omega (arith, h))

elements-eq :
    (vs ws : List ℕ) (n : ℕ)
    → ((k : ℕ) → k < n → get_elem? vs k ≡ get_elem? ws k)
    → elements vs n ≡ elements ws n
elements-eq vs ws zero h = refl
elements-eq vs ws (suc n) h =
    let rest = elements-eq vs ws n (λ k l. h k (omega (arith, l))) in
    ap (λ o. elim o [ none ↦ elements vs n | some v ↦ v ∷ elements vs n ]) (h n (omega arith))
    ∙ ap (λ es. elim (get_elem? ws n) [ none ↦ es | some v ↦ v ∷ es ]) rest

get_elem?-take_append :
    (n k : ℕ) (vs ws : List ℕ)
    → k < n
    → n ≤ length vs
    → get_elem? (take n vs ++ ws) k ≡ get_elem? vs k
get_elem?-take_append (suc n) zero (x ∷ vs) ws h l = refl
get_elem?-take_append (suc n) (suc k) (x ∷ vs) ws h l =
    get_elem?-take_append n k vs ws (omega (arith, h)) (omega (arith, l))
get_elem?-take_append zero k vs ws h l = absurd (omega (arith, h))
get_elem?-take_append (suc n) k [] ws h l = absurd (omega (arith, l))

grown-Holds :
    (s : IntStack) (xs : List ℕ)
    → Holds s xs
    → length xs < 2 ^ 30
    → length xs ≡ s.capacity
    → Holds (grown s) xs × (length xs < (grown s).capacity)
grown-Holds s xs h few full = (
  record {
    size = h.size;
    room =
        length-overwrite (replicate (uint32 (s.capacity * 2)) 0) 0 (take s.size s.values)
          (omega (arith, copied, wide, twice))
        ∙ wide;
    fits = omega (arith, twice, full);
    some_room = omega (arith, twice, h.some_room);
    content =
        elements-eq (overwrite (replicate (uint32 (s.capacity * 2)) 0) 0 (take s.size s.values))
          s.values s.size
          (λ k l.
            get_elem?-take_append s.size k s.values _ l (omega (arith, h.size, h.room, h.fits)))
        ∙ h.content;
  },
  omega (arith, twice, full, h.some_room),
)
  where
    twice : uint32 (s.capacity * 2) ≡ s.capacity * 2
    twice = omega (arith, few, full)

    wide : length {A = ℕ} (replicate (uint32 (s.capacity * 2)) 0) ≡ uint32 (s.capacity * 2)
    wide = length-replicate (uint32 (s.capacity * 2)) 0

    copied : length {A = ℕ} (take s.size s.values) ≤ s.capacity
    copied = omega (arith, length-take s.size s.values, h.size, h.fits, h.room)

-- With room for one more.
store-Holds :
    (s : IntStack) (xs : List ℕ) (v : ℕ)
    → Holds s xs
    → length xs < 2 ^ 30
    → length xs < s.capacity
    → Holds (record s { values = set s.values s.size v; size = uint32 (s.size + 1) }) (v ∷ xs)
store-Holds s xs v h few room = record {
  size = omega (arith, next, h.size);
  room = length-set s.values s.size v ∙ h.room;
  fits = omega (arith, room);
  some_room = h.some_room;
  content =
      ap (elements (set s.values s.size v)) next
      ∙ ap
          (λ o. elim o [
            | none ↦ elements (set s.values s.size v) s.size
            | some w ↦ w ∷ elements (set s.values s.size v) s.size
          ])
          (get_elem?-set_self s.values s.size v (omega (arith, h.size, h.room, room)))
      ∙ ap (◌∷◌ v) (
          elements-eq (set s.values s.size v) s.values s.size
            (λ k l. get_elem?-set_above s.values s.size k v l)
          ∙ h.content);
}
  where
    next : uint32 (s.size + 1) ≡ suc s.size
    next = omega (arith, few, h.size)

pub stack_push-Holds :
    (s : IntStack) (xs : List ℕ) (v : ℕ)
    → Holds s xs
    → length xs < 2 ^ 30
    → (t : IntStack) × (stack_push v s ≡ some t) × Holds t (v ∷ xs)
unfolding stack_push
stack_push-Holds s xs v h few = elim (Bool-cases (s.size == s.capacity)) [
  | inl full ↦
      let (g, more) = grown-Holds s xs h few (ground (arith, full, h.size)) in
      let below : ltb (grown s).size (length (grown s).values) ≡ true =
        ground (arith, more, h.size, g.room) in
      (_, rw full (rw below refl), store-Holds (grown s) xs v g few more)
  | inr other ↦
      let more : length xs < s.capacity = ground (arith, other, h.size, h.fits) in
      let below : ltb s.size (length s.values) ≡ true = ground (arith, more, h.size, h.room) in
      (_, rw other (rw below refl), store-Holds s xs v h few more)
]

pub stack_pop-Holds :
    (s : IntStack) (v : ℕ) (xs : List ℕ)
    → Holds s (v ∷ xs)
    → (t : IntStack) × (stack_pop s ≡ some (v, t)) × Holds t xs
unfolding stack_pop
stack_pop-Holds s v xs h =
    let (w, found) = get_elem?-eq_some s.values (length xs) (omega (arith, h.room, h.fits)) in
    let last : s.size - 1 ≡ length xs = omega (arith, h.size) in
    let whole : w ∷ elements s.values (length xs) ≡ v ∷ xs =
      sym (
        ap
          (λ o. elim o [
            | none ↦ elements s.values (length xs)
            | some u ↦ u ∷ elements s.values (length xs)
          ])
          found)
      ∙ sym (ap (elements s.values) h.size)
      ∙ h.content in
    let same : w ≡ v = ap (λ (l : List ℕ). elim l [ [] ↦ v | u ∷ us ↦ u ]) whole in
    let rest : elements s.values (length xs) ≡ xs = ap (drop 1) whole in
    (
      record s { size = s.size - 1 },
      rw (last, found) (ap (λ u. some (u, record s { size = length xs })) same),
      record {
        size = last;
        room = h.room;
        fits = omega (arith, h.fits);
        some_room = h.some_room;
        content = ap (elements s.values) last ∙ rest;
      },
    )

pub stack_create-Holds : Holds (stack_create 4) []
unfolding stack_create
stack_create-Holds = record {
  size = refl;
  room = refl;
  fits = omega arith;
  some_room = omega arith;
  content = refl;
}
