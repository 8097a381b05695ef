-- ===== src/Flood/Cells.antt =====
-- The indexes that the flood fill of src/mapgen.c pushes are those of the cells beside and below.
use thirty.Prelude.{
  ℕ, zero, suc, ◌+◌, ◌-◌, ◌*◌, ◌/◌, ◌%◌, ◌^◌, ◌≤◌, ◌<◌, ◌≡◌, ◌⊎◌, refl, sym, ap, subst, ◌∙◌, arith,
  inl, inr, Bool, true, false, some, List, [], ◌∷◌, length, ltb,
}
use native.Mathlib.Nat.{div-div-eq-div-mul, div-add-mod', div-lt_iff_lt-mul}
use thirty.Map.{Map}
use thirty.Map.Index.{Inside, volume, flat, div_unique}
use thirty.Flood.{IntStack, stack_push, push_if}
use thirty.Flood.Stack.{Holds, stack_push-Holds}

-- From a cell of the map to one beside it or below it.
pub data Next (m : Map) : ℕ → ℕ → Type 0 where
  left : (x y z : ℕ) → Inside m (suc x) y z → Next m (flat m (suc x) y z) (flat m x y z)
  right : (x y z : ℕ) → Inside m (suc x) y z → Next m (flat m x y z) (flat m (suc x) y z)
  back : (x y z : ℕ) → Inside m x y (suc z) → Next m (flat m x y (suc z)) (flat m x y z)
  front : (x y z : ℕ) → Inside m x y (suc z) → Next m (flat m x y z) (flat m x y (suc z))
  down : (x y z : ℕ) → Inside m x (suc y) z → Next m (flat m x (suc y) z) (flat m x y z)

abbrev pub In : ℕ → List ℕ → Type 0
In v [] = ⊥
In v (x ∷ xs) = (v ≡ x) ⊎ In v xs

unfoldable pub add_if : Bool → ℕ → List ℕ → List ℕ
add_if true v xs = v ∷ xs
add_if false v xs = xs

In-add_if :
    (b : Bool) (j v : ℕ) (xs : List ℕ) → In j (add_if b v xs) → ((b ≡ true) × (v ≡ j)) ⊎ In j xs
unfolding add_if
In-add_if true j v xs (inl e) = inl (refl, sym e)
In-add_if true j v xs (inr h) = inr h
In-add_if false j v xs h = inr h

later : (b : Bool) (j v : ℕ) (xs : List ℕ) → In j xs → In j (add_if b v xs)
unfolding add_if
later true j v xs h = inr h
later false j v xs h = h

first : (b : Bool) (j v : ℕ) (xs : List ℕ) → b ≡ true → j ≡ v → In j (add_if b v xs)
unfolding add_if
first true j v xs h e = inl e
first false j v xs h e = absurd (cc)

pub length-add_if : (b : Bool) (v : ℕ) (xs : List ℕ) → length (add_if b v xs) ≤ length xs + 1
unfolding add_if
length-add_if true v xs = omega arith
length-add_if false v xs = omega arith

-- A push that is made for the same reason, of the same number if it is made.
pub push_if-Holds :
    (b b' : Bool) (v v' : ℕ) (s : IntStack) (xs : List ℕ)
    → b ≡ b'
    → (b' ≡ true → v ≡ v')
    → Holds s xs
    → length xs < 2 ^ 30
    → (t : IntStack) × (push_if b v s ≡ some t) × Holds t (add_if b' v' xs)
unfolding add_if push_if
push_if-Holds true true v v' s xs e same h few =
    subst (λ u. (t : IntStack) × (stack_push v s ≡ some t) × Holds t (u ∷ xs)) (same refl)
      (stack_push-Holds s xs v h few)
push_if-Holds false false v v' s xs e same h few = (s, refl, h)
push_if-Holds true false v v' s xs e same h few = absurd (cc)
push_if-Holds false true v v' s xs e same h few = absurd (cc)

module _ (m : Map) where
  -- The list after the pushes for the index `i`, with no wrapping.
  abbrev pub pushed : ℕ → List ℕ → List ℕ
  pushed i xs = add_if (ltb 0 (i / (m.width * m.height))) (i - m.width * m.height) (
      add_if (ltb (i / m.width % m.height) (m.height - 1)) (i + m.width) (
        add_if (ltb 0 (i / m.width % m.height)) (i - m.width) (
          add_if (ltb (i % m.width) (m.width - 1)) (i + 1)
            (add_if (ltb 0 (i % m.width)) (i - 1) xs))))

  -- The same at a position.
  abbrev pushed_at : ℕ → ℕ → ℕ → List ℕ → List ℕ
  pushed_at x y z xs =
      let i = flat m x y z in
      add_if (ltb 0 y) (i - m.width * m.height) (
        add_if (ltb z (m.height - 1)) (i + m.width) (
          add_if (ltb 0 z) (i - m.width)
            (add_if (ltb x (m.width - 1)) (i + 1) (add_if (ltb 0 x) (i - 1) xs))))

  flat_parts :
      (x y z : ℕ)
      → Inside m x y z
      → (flat m x y z % m.width ≡ x)
        × (flat m x y z / m.width % m.height ≡ z)
        × (flat m x y z / (m.width * m.height) ≡ y)
  flat_parts x y z i =
      let (row, column) = div_unique (y * m.height + z) x m.width i.0 in
      (
        column,
        ap (λ n. n % m.height) row ∙ (div_unique y z m.height i.2).1,
        sym (div-div-eq-div-mul (flat m x y z) m.width m.height)
            ∙ ap (λ n. n / m.height) row
            ∙ (div_unique y z m.height i.2).0,
      )

  pub index_parts :
      (i : ℕ) → i < volume m → (x : ℕ) × (y : ℕ) × (z : ℕ) × Inside m x y z × (i ≡ flat m x y z)
  index_parts i h =
      let q = i / m.width in
      (
        i % m.width,
        q / m.height,
        q % m.height,
        (omega (arith, wide), deep, omega (arith, high)),
        sym (div-add-mod' i m.width)
            ∙ ap (λ n. n * m.width + i % m.width) (sym (div-add-mod' q m.height)),
      )
    where
      wide : 0 < m.width
      wide = ground (arith, h)

      high : 0 < m.height
      high = ground (arith, h)

      rows : i / m.width < m.depth * m.height
      rows = (div-lt_iff_lt-mul wide).1 (omega (arith, h))

      deep : i / m.width / m.height < m.depth
      deep = (div-lt_iff_lt-mul high).1 rows

  pushed-flat :
      (x y z : ℕ) (xs : List ℕ) → Inside m x y z → pushed (flat m x y z) xs ≡ pushed_at x y z xs
  pushed-flat x y z xs i =
      let (column, line, level) = flat_parts x y z i in rw (column, line, level) refl

  near_left :
      (x y z : ℕ) → Inside m x y z → ltb 0 x ≡ true → Next m (flat m x y z) (flat m x y z - 1)
  near_left zero y z i h = absurd (ground arith)
  near_left (suc x) y z i h = subst (Next m (flat m (suc x) y z)) (omega arith) (left x y z i)

  near_right :
      (x y z : ℕ)
      → Inside m x y z
      → ltb x (m.width - 1) ≡ true
      → Next m (flat m x y z) (flat m x y z + 1)
  near_right x y z i h =
      let more : suc x < m.width = ground (arith, h) in
      subst (Next m (flat m x y z)) (omega arith) (right x y z (more, i.1, i.2))

  near_back :
      (x y z : ℕ) → Inside m x y z → ltb 0 z ≡ true → Next m (flat m x y z) (flat m x y z - m.width)
  near_back x y zero i h = absurd (ground arith)
  near_back x y (suc z) i h = subst (Next m (flat m x y (suc z))) (omega arith) (back x y z i)

  near_front :
      (x y z : ℕ)
      → Inside m x y z
      → ltb z (m.height - 1) ≡ true
      → Next m (flat m x y z) (flat m x y z + m.width)
  near_front x y z i h =
      let more : suc z < m.height = ground (arith, h) in
      subst (Next m (flat m x y z)) (omega arith) (front x y z (i.0, i.1, more))

  near_down :
      (x y z : ℕ)
      → Inside m x y z
      → ltb 0 y ≡ true
      → Next m (flat m x y z) (flat m x y z - m.width * m.height)
  near_down x zero z i h = absurd (ground arith)
  near_down x (suc y) z i h = subst (Next m (flat m x (suc y) z)) (omega arith) (down x y z i)

  -- What is pushed is a cell next to it, or was there before.
  pushed_at-In :
      (x y z j : ℕ) (xs : List ℕ)
      → Inside m x y z
      → In j (pushed_at x y z xs)
      → In j xs ⊎ Next m (flat m x y z) j
  pushed_at-In x y z j xs i h =
      let here = Next m (flat m x y z) in
      elim (In-add_if _ j _ _ h) [
        | inl (b, e) ↦ inr (subst here e (near_down x y z i b))
        | inr h1 ↦ elim (In-add_if _ j _ _ h1) [
          | inl (b, e) ↦ inr (subst here e (near_front x y z i b))
          | inr h2 ↦ elim (In-add_if _ j _ _ h2) [
            | inl (b, e) ↦ inr (subst here e (near_back x y z i b))
            | inr h3 ↦ elim (In-add_if _ j _ _ h3) [
              | inl (b, e) ↦ inr (subst here e (near_right x y z i b))
              | inr h4 ↦ elim (In-add_if _ j _ _ h4) [
                | inl (b, e) ↦ inr (subst here e (near_left x y z i b))
                | inr h5 ↦ inl h5
              ]
            ]
          ]
        ]
      ]

  pub pushed-In : (i j : ℕ) (xs : List ℕ) → i < volume m → In j (pushed i xs) → In j xs ⊎ Next m i j
  pushed-In i j xs l h =
      let (x, y, z, inside, e) = index_parts i l in
      subst (λ k. In j xs ⊎ Next m k j) (sym e)
        (pushed_at-In x y z j xs inside
          (subst (In j) (pushed-flat x y z xs inside) (subst (λ k. In j (pushed k xs)) e h)))

  pub pushed_later : (i j : ℕ) (xs : List ℕ) → In j xs → In j (pushed i xs)
  pushed_later i j xs h =
      later _ _ _ _ (later _ _ _ _ (later _ _ _ _ (later _ _ _ _ (later _ _ _ _ h))))

  -- And each cell next to it is pushed.
  pub pushed-Next : (i j : ℕ) (xs : List ℕ) → Next m i j → In j (pushed i xs)
  pushed-Next i j xs (left x y z h) = subst (In j) (sym (pushed-flat (suc x) y z xs h)) (
      later _ _ _ _ (
        later _ _ _ _ (later _ _ _ _ (later _ _ _ _ (first _ _ _ _ (ground arith) (omega arith))))))
  pushed-Next i j xs (right x y z h) =
      let i' : Inside m x y z = (omega (arith, h.0), h.1, h.2) in
      subst (In j) (sym (pushed-flat x y z xs i')) (
        later _ _ _ _
          (later _ _ _ _ (later _ _ _ _ (first _ _ _ _ (ground (arith, h.0)) (omega arith)))))
  pushed-Next i j xs (back x y z h) =
      subst (In j) (sym (pushed-flat x y (suc z) xs h))
        (later _ _ _ _ (later _ _ _ _ (first _ _ _ _ (ground arith) (omega arith))))
  pushed-Next i j xs (front x y z h) =
      let i' : Inside m x y z = (h.0, h.1, omega (arith, h.2)) in
      subst (In j) (sym (pushed-flat x y z xs i'))
        (later _ _ _ _ (first _ _ _ _ (ground (arith, h.2)) (omega arith)))
  pushed-Next i j xs (down x y z h) =
      subst (In j) (sym (pushed-flat x (suc y) z xs h)) (first _ _ _ _ (ground arith) (omega arith))
