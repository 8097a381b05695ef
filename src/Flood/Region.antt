-- ===== src/Flood/Region.antt =====
-- What the flood fill of src/mapgen.c fills.
use thirty.Prelude.{
  ℕ, zero, suc, ◌^◌, ◌<◌, ◌≡◌, ◌⊎◌, refl, sym, ap, subst, ◌∙◌, arith, inl, inr, Bool-cases, true,
  false, some, List, [], ◌∷◌, length, length-set, get_elem?, get_elem?-set_self, get_elem?-set_ne,
  set, if◌then◌else◌,
}
use native.Mathlib.Decide.{ℕ_discrete}
use mathlib.Core.Option.{some-injective}
use thirty.Map.{Map}
use thirty.Map.Index.{volume}
use thirty.Flood.{is_open}
use thirty.Flood.Cells.{Next, In, pushed, pushed-In, pushed_later, pushed-Next}

-- A cell of air or magenta wool.
abbrev pub Open : List ℕ → ℕ → Type 0
Open blocks i = (b : ℕ) × (get_elem? blocks i ≡ some b) × (is_open b ≡ true)

-- The open cells that are reached from the start over open cells beside and below.
pub data Reach (m : Map) (start : ℕ) : ℕ → Type 0 where
  here : Open m.blocks start → Reach m start start
  step : {i j : ℕ} → Reach m start i → Next m i j → Open m.blocks j → Reach m start j

abbrev pub count_open : List ℕ → ℕ
count_open [] = 0
count_open (b ∷ bs) = let rest = count_open bs in if is_open b then suc rest else rest

pub count_open-set :
    (bs : List ℕ) (i b block : ℕ)
    → get_elem? bs i ≡ some b
    → is_open b ≡ true
    → is_open block ≡ false
    → suc (count_open (set bs i block)) ≡ count_open bs
count_open-set [] i b block e h k = absurd (cc)
count_open-set (x ∷ bs) zero b block e h k =
    let same : is_open x ≡ true = ap is_open (some-injective _ _ e) ∙ h in rw (same, k) refl
count_open-set (x ∷ bs) (suc i) b block e h k =
    let rest = count_open-set bs i b block e h k in
    elim (Bool-cases (is_open x)) [ inl o ↦ rw o (ap suc rest) | inr o ↦ rw o rest ]

module _ (m : Map) (block start : ℕ) (filled : length m.blocks ≡ volume m)
    (small : volume m < 2 ^ 27) (solid : is_open block ≡ false) where
  -- The blocks `bs` in the middle of the fill, with the indexes `xs` on the stack.
  pub record Inv (xs bs : List ℕ) : Type 0 where
    pub size : length bs ≡ length m.blocks
    pub changed :
        (i : ℕ)
        → (get_elem? bs i ≡ get_elem? m.blocks i)
          ⊎ (Reach m start i × (get_elem? bs i ≡ some block))
    pub pending : (i : ℕ) → In i xs → Open m.blocks i → Reach m start i
    pub closed :
        (i j : ℕ)
        → Reach m start i
        → get_elem? bs i ≡ some block
        → Next m i j
        → Open m.blocks j
        → (get_elem? bs j ≡ some block) ⊎ In j xs
    pub first : Open m.blocks start → (get_elem? bs start ≡ some block) ⊎ In start xs

  pub Inv-start : Inv (start ∷ []) m.blocks
  Inv-start = record {
    size = refl;
    changed = λ i. inl refl;
    pending = λ i h o. elim h [
      | inl e ↦ subst (Reach m start) (sym e) (here (subst (Open m.blocks) e o))
      | inr n ↦ absurd n
    ];
    closed = λ i j r e n o. absurd (not_open i r e);
    first = λ o. inr (inl refl);
  }
    where
      reach_open : {i : ℕ} → Reach m start i → Open m.blocks i
      reach_open (here o) = o
      reach_open (step r n o) = o

      not_open : (i : ℕ) → Reach m start i → get_elem? m.blocks i ≡ some block → ⊥
      not_open i r e =
          let (b, found, open_) = reach_open r in
          let same : block ≡ b = some-injective _ _ (sym e ∙ found) in
          ground (arith, ap is_open same, open_, solid)

  -- An index that needs no fill is dropped.
  pub Inv-skip :
      (i : ℕ) (xs bs : List ℕ)
      → Inv (i ∷ xs) bs
      → (Open m.blocks i → get_elem? bs i ≡ some block)
      → Inv xs bs
  Inv-skip i xs bs v settled = record {
    size = v.size;
    changed = v.changed;
    pending = λ j h. v.pending j (inr h);
    closed = λ a j r e n o. pass j o (v.closed a j r e n o);
    first = λ o. pass start o (v.first o);
  }
    where
      pass :
          (j : ℕ)
          → Open m.blocks j
          → (get_elem? bs j ≡ some block) ⊎ In j (i ∷ xs)
          → (get_elem? bs j ≡ some block) ⊎ In j xs
      pass j o (inl e) = inl e
      pass j o (inr (inl e)) =
          inl
            (subst (λ k. get_elem? bs k ≡ some block) (sym e) (settled (subst (Open m.blocks) e o)))
      pass j o (inr (inr h)) = inr h

  -- A cell that is not open in the middle of the fill was not open at first, or is filled.
  pub settled_closed :
      (xs bs : List ℕ) (i b : ℕ)
      → Inv xs bs
      → get_elem? bs i ≡ some b
      → is_open b ≡ false
      → Open m.blocks i
      → get_elem? bs i ≡ some block
  settled_closed xs bs i b v e c (d, found, open_) = elim (v.changed i) [
    | inr (r, done) ↦ done
    | inl same ↦
        let eq : b ≡ d = some-injective _ _ (sym e ∙ same ∙ found) in
        absurd (ground (arith, ap is_open eq, open_, c))
  ]

  -- An open cell in the middle of the fill was open at first.
  air_at_first :
      (xs bs : List ℕ) (i b : ℕ)
      → Inv xs bs
      → get_elem? bs i ≡ some b
      → is_open b ≡ true
      → Open m.blocks i
  air_at_first xs bs i b v e o = elim (v.changed i) [
    | inl same ↦ (b, sym same ∙ e, o)
    | inr (r, done) ↦
        let eq : b ≡ block = some-injective _ _ (sym e ∙ done) in
        absurd (ground (arith, ap is_open eq, o, solid))
  ]

  pub Inv-fill :
      (i b : ℕ) (xs bs : List ℕ)
      → Inv (i ∷ xs) bs
      → i < volume m
      → get_elem? bs i ≡ some b
      → is_open b ≡ true
      → Inv (pushed m i xs) (set bs i block)
  Inv-fill i b xs bs v inside found open_ = record {
    size = length-set bs i block ∙ v.size;
    changed = λ j. elim (ℕ_discrete i j) [
      | yes e ↦ inr (
          subst (λ k. Reach m start k × (get_elem? (set bs i block) k ≡ some block)) e
            (reached, painted))
      | no ne ↦ elim (v.changed j) [
        | inl same ↦ inl (get_elem?-set_ne bs i j block ne ∙ same)
        | inr (r, done) ↦ inr (r, get_elem?-set_ne bs i j block ne ∙ done)
      ]
    ];
    pending = λ j h o. elim (pushed-In m i j xs inside h) [
      | inl old ↦ v.pending j (inr old) o
      | inr n ↦ step reached n o
    ];
    closed = λ a j r e n o. elim (ℕ_discrete i a) [
      | yes same ↦ inr (pushed-Next m i j xs (subst (λ k. Next m k j) (sym same) n))
      | no ne ↦ keep j (v.closed a j r (sym (get_elem?-set_ne bs i a block ne) ∙ e) n o)
    ];
    first = λ o. keep start (v.first o);
  }
    where
      reached : Reach m start i
      reached = v.pending i (inl refl) (air_at_first (i ∷ xs) bs i b v found open_)

      painted : get_elem? (set bs i block) i ≡ some block
      painted = get_elem?-set_self bs i block (omega (arith, v.size, filled, inside))

      keep :
          (j : ℕ)
          → (get_elem? bs j ≡ some block) ⊎ In j (i ∷ xs)
          → (get_elem? (set bs i block) j ≡ some block) ⊎ In j (pushed m i xs)
      keep j (inr (inl e)) =
          inl (subst (λ k. get_elem? (set bs i block) k ≡ some block) (sym e) painted)
      keep j (inr (inr h)) = inr (pushed_later m i j xs h)
      keep j (inl e) = elim (ℕ_discrete i j) [
        | yes same ↦ inl (subst (λ k. get_elem? (set bs i block) k ≡ some block) same painted)
        | no ne ↦ inl (get_elem?-set_ne bs i j block ne ∙ e)
      ]

  -- Every cell that is reached is filled when the stack is empty.
  pub Inv-end : (bs : List ℕ) → Inv [] bs → {i : ℕ} → Reach m start i → get_elem? bs i ≡ some block
  Inv-end bs v (here o) = elim (v.first o) [ inl e ↦ e | inr n ↦ absurd n ]
  Inv-end bs v (step {i} {j} r n o) = elim (v.closed i j r (Inv-end bs v r) n o) [
    | inl e ↦ e
    | inr none_ ↦ absurd none_
  ]
