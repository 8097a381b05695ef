-- ===== src/World/Defines.antt =====
-- Changes of the world that are defined, and what they keep.
use thirty.Prelude.{
  ℕ, zero, suc, ◌<◌, ◌≤◌, ◌+◌, ◌-◌, ◌≡◌, refl, ap, ◌∙◌, inl, inr, arith, Bool, Bool-cases, Option,
  some, List, [], ◌∷◌, All, leb, if◌then◌else◌,
}
use thirty.Prelude.Options.{◌>>=◌}
use thirty.Word.{add_size, sub_size}
use thirty.World.{World, Change, count_up, around, for_each, for_box}
use thirty.World.Keeps.{IsSound, Kept, Kept-refl, Kept-trans, Preserves}

-- In every sound world with some property.
abbrev pub Defines : (World → Type 0) → Change → Type 0
Defines P c = (w : World) → IsSound w → P w → (w' : World) × (c w ≡ some w') × Kept w w'

pub Preserves-Defines :
    (P : World → Type 0) (c : Change)
    → Preserves c
    → ((w : World) → IsSound w → P w → (w' : World) × (c w ≡ some w'))
    → Defines P c
Preserves-Defines P c k d w s p = let (w', e) = d w s p in (w', e, k w w' s e)

pub Defines-some : (P : World → Type 0) → Defines P (λ w. some w)
Defines-some P w s p = (w, refl, Kept-refl s)

-- A step that looks at the world first.
pub Defines-asks :
    {A : Type 0} (P : World → Type 0) (ask : World → Option A) (g : A → Change)
    → ((w : World)
        → IsSound w
        → P w
        → (a : A) × (ask w ≡ some a) × (w' : World) × (g a w ≡ some w') × Kept w w')
    → Defines P (λ w. ask w >>= λ a. g a w)
Defines-asks P ask g h w s p =
    let (a, e1, w', e2, k) = h w s p in (w', ap (λ o. o >>= λ b. g b w) e1 ∙ e2, k)

pub Defines-if :
    (P : World → Type 0) (t : World → Bool) (f g : Change)
    → Defines P f
    → Defines P g
    → Defines P (λ w. if t w then f w else g w)
Defines-if P t f g p q w s h = elim (Bool-cases (t w)) [
  | inl yes_ ↦ let (w', e, k) = p w s h in (w', ap (λ b. if b then f w else g w) yes_ ∙ e, k)
  | inr no_ ↦ let (w', e, k) = q w s h in (w', ap (λ b. if b then f w else g w) no_ ∙ e, k)
]

-- The numbers of such a loop stay within its bound.
count_up-bounded : (lo n top : ℕ) → lo + n ≤ top → All (λ i. i < top) (count_up lo n)
count_up-bounded lo zero top h = tt
count_up-bounded lo (suc n) top h =
    (omega (arith, h), count_up-bounded (lo + 1) n top (omega (arith, h)))

around-bounded : (c r side : ℕ) → c + r < side → All (λ i. i < side) (around c r)
around-bounded c r side h =
    let lo = sub_size c r in
    let hi = add_size c r in
    let top : hi ≤ c + r = omega arith in
    elim (Bool-cases (leb lo hi)) [
      | inr none_ ↦ rw none_ tt
      | inl some_ ↦
          rw some_ (count_up-bounded lo (hi - lo + 1) side (ground (arith, some_, top, h)))
    ]

-- A property that changes keep.
module _ (P : World → Type 0) (keeps : (w w' : World) → Kept w w' → P w → P w') where
  pub Defines-then : (f g : Change) → Defines P f → Defines P g → Defines P (λ w. f w >>= g)
  Defines-then f g p q w s h =
      let (v, e1, k1) = p w s h in
      let (w', e2, k2) = q v k1.sound (keeps w v k1 h) in
      (w', ap (λ o. o >>= g) e1 ∙ e2, Kept-trans k1 k2)

  pub for_each-Defines :
      (B : ℕ → Type 0) (is : List ℕ) (body : ℕ → Change)
      → All B is
      → ((i : ℕ) → B i → Defines P (body i))
      → Defines P (for_each is body)
  for_each-Defines B [] body h p = Defines-some P
  for_each-Defines B (i ∷ is) body h p =
      Defines-then (body i) (for_each is body) (p i h.0) (for_each-Defines B is body h.1 p)

  pub count_up-Defines :
      (lo n : ℕ) (body : ℕ → Change)
      → ((i : ℕ) → i < lo + n → Defines P (body i))
      → Defines P (for_each (count_up lo n) body)
  count_up-Defines lo n body =
      for_each-Defines (λ i. i < lo + n) (count_up lo n) body
        (count_up-bounded lo n (lo + n) (omega arith))

  -- The loop around a position stays below the sides that it may not reach.
  pub for_box-Defines :
      (x y z r width depth height : ℕ) (body : ℕ → ℕ → ℕ → Change)
      → x + r < width
      → y + r < depth
      → z + r < height
      → ((xx yy zz : ℕ) → xx < width → yy < depth → zz < height → Defines P (body xx yy zz))
      → Defines P (for_box x y z r body)
  for_box-Defines x y z r width depth height body hx hy hz p =
      for_each-Defines (λ i. i < width) (around x r) _ (around-bounded x r width hx)
        (λ xx bx.
          for_each-Defines (λ i. i < depth) (around y r) _ (around-bounded y r depth hy)
            (λ yy b_y.
              for_each-Defines (λ i. i < height) (around z r) _ (around-bounded z r height hz)
                (λ zz bz. p xx yy zz bx b_y bz)))
