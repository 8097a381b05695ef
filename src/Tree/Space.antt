-- ===== src/Tree/Space.antt =====
-- What the test for the space of a tree finds, src/mapgen.c.
use thirty.Prelude.{
  ℕ, zero, suc, ◌+◌, ◌-◌, ◌≤◌, ◌<◌, ◌≡◌, ◌⊎◌, ◌↔◌, refl, sym, subst, ◌∙◌, arith, inl, inr, Bool,
  Bool-cases, true, false, ◌||◌, Option, some, List, [], ◌∷◌, ◌++◌, map, All,
}
use native.Mathlib.Decide.{ℕ_discrete}
use mathlib.Core.Option.{some-injective}
use thirty.Word.{add_size, sub_size, size_mod}
use thirty.Block.{num_blocks, init_info}
use thirty.Block.Table.{blockinfo_known}
use thirty.Map.{Map, get, pos_valid}
use thirty.Map.Index.{IsWf, Inside, pos_valid-Inside, Inside-pos_valid, get_lem}
use thirty.World.{Pos, count_up}
use thirty.Tree.{tree_test_block, spread, columns, planes, cells, is_free, all_free}

-- A position of the map with a block that is neither solid nor liquid.
pub record Free (m : Map) (p : Pos) : Type 0 where
  pub inside : Inside m p.0 p.1 p.2
  pub block : ℕ
  pub found : get m p.0 p.1 p.2 ≡ some block
  pub open_ : tree_test_block block ≡ some false

-- A test that is answered, and yes exactly if it holds.
abbrev pub Answers : Option Bool → Type 0 → Type 0
Answers r p = ((r ≡ some true) × p) ⊎ ((r ≡ some false) × ¬ p)

module _ (m : Map) (wf : IsWf m) where
  is_free-Answers : (p : Pos) → Answers (is_free m p) (Free m p)
  unfolding is_free tree_test_block
  is_free-Answers (x, y, z) = elim (Bool-cases (pos_valid m x y z)) [
    | inr off ↦ inr (rw off refl, λ f. let ok = Inside-pos_valid m x y z f.inside in absurd (cc))
    | inl ok ↦
        let i = pos_valid-Inside m x y z ok in
        let (b, found, known) = get_lem m x y z wf i in
        let info = blockinfo_known b known in
        elim (Bool-cases ((init_info b).solid || (init_info b).liquid)) [
          | inl taken ↦ inr (
            rw (ok, found, info, taken) refl,
            λ f.
                let same : f.block ≡ b = some-injective _ _ (sym f.found ∙ found) in
                taken_lem f.block b same known taken f.open_,
          )
          | inr free ↦ inl (
            rw (ok, found, info, free) refl,
            record { inside = i; block = b; found = found; open_ = rw (info, free) refl },
          )
        ]
  ]
    where
      taken_lem :
          (c b : ℕ)
          → c ≡ b
          → b < num_blocks
          → ((init_info b).solid || (init_info b).liquid) ≡ true
          → tree_test_block c ≡ some false
          → ⊥
      taken_lem c b same known taken e =
          let at_b : tree_test_block b ≡ some true = rw (blockinfo_known b known, taken) refl in
          absurd (cc (at_b, same, e))

  pub all_free-Answers : (ps : List Pos) → Answers (all_free m ps) (All (Free m) ps)
  unfolding all_free
  all_free-Answers [] = inl (refl, tt)
  all_free-Answers (p ∷ ps) = elim (is_free-Answers p) [
    | inr (e, no_) ↦ inr (rw e refl, λ h. no_ h.0)
    | inl (e, f) ↦ elim (all_free-Answers ps) [
      | inl (e', fs) ↦ inl (rw e e', (f, fs))
      | inr (e', no_) ↦ inr (rw e e', λ h. no_ h.1)
    ]
  ]

module _ {ℓ} {A : Type ℓ} where
  All-append : (P : A → Type 0) (xs ys : List A) → All P (xs ++ ys) ↔ (All P xs × All P ys)
  All-append P [] ys = (λ h. (tt, h), λ h. h.1)
  All-append P (x ∷ xs) ys = (
    λ h. let (a, b) = (All-append P xs ys).0 h.1 in ((h.0, a), b),
    λ h. (h.0.0, (All-append P xs ys).1 (h.0.1, h.1)),
  )

-- A test of all numbers of a list.
abbrev pub Each : List ℕ → (ℕ → Type 0) → Type 0
Each xs q = All q xs

columns-Each :
    (P : Pos → Type 0) (x y : ℕ) (zs : List ℕ) → All P (columns x y zs) ↔ Each zs (λ z. P (x, y, z))
columns-Each P x y [] = (λ h. h, λ h. h)
columns-Each P x y (z ∷ zs) =
    (λ h. (h.0, (columns-Each P x y zs).0 h.1), λ h. (h.0, (columns-Each P x y zs).1 h.1))

planes-Each :
    (P : Pos → Type 0) (x : ℕ) (ys zs : List ℕ)
    → All P (planes x ys zs) ↔ Each ys (λ y. Each zs (λ z. P (x, y, z)))
planes-Each P x [] zs = (λ h. h, λ h. h)
planes-Each P x (y ∷ ys) zs = (
  λ h.
      let (a, b) = (All-append P (columns x y zs) (planes x ys zs)).0 h in
      ((columns-Each P x y zs).0 a, (planes-Each P x ys zs).0 b),
  λ h.
      (All-append P (columns x y zs) (planes x ys zs)).1
        ((columns-Each P x y zs).1 h.0, (planes-Each P x ys zs).1 h.1),
)

pub cells-Each :
    (P : Pos → Type 0) (xs ys zs : List ℕ)
    → All P (cells xs ys zs) ↔ Each xs (λ x. Each ys (λ y. Each zs (λ z. P (x, y, z))))
cells-Each P [] ys zs = (λ h. h, λ h. h)
cells-Each P (x ∷ xs) ys zs = (
  λ h.
      let (a, b) = (All-append P (planes x ys zs) (cells xs ys zs)).0 h in
      ((planes-Each P x ys zs).0 a, (cells-Each P xs ys zs).0 b),
  λ h.
      (All-append P (planes x ys zs) (cells xs ys zs)).1
        ((planes-Each P x ys zs).1 h.0, (cells-Each P xs ys zs).1 h.1),
)

pub count_up-Each :
    (lo n : ℕ) (q : ℕ → Type 0) → Each (count_up lo n) q ↔ ((i : ℕ) → lo ≤ i → i < lo + n → q i)
count_up-Each lo zero q = (λ h i l k. absurd (omega (arith, l, k)), λ h. tt)
count_up-Each lo (suc n) q = (
  λ h i l k. elim (ℕ_discrete lo i) [
    | yes same ↦ subst q same h.0
    | no ne ↦ (count_up-Each (lo + 1) n q).0 h.1 i (omega (arith, l, ne)) (omega (arith, k))
  ],
  λ h. (
    h lo (omega arith) (omega arith),
    (count_up-Each (lo + 1) n q).1 (λ i l k. h i (omega (arith, l)) (omega (arith, k))),
  ),
)

map-Each : (f : ℕ → ℕ) (xs : List ℕ) (q : ℕ → Type 0) → Each (map f xs) q ↔ Each xs (λ x. q (f x))
map-Each f [] q = (λ h. h, λ h. h)
map-Each f (x ∷ xs) q = (λ h. (h.0, (map-Each f xs q).0 h.1), λ h. (h.0, (map-Each f xs q).1 h.1))

-- Where the spread does not reach below 0.
pub spread-Each :
    (x r : ℕ) (q : ℕ → Type 0)
    → r ≤ x
    → x + r < size_mod
    → Each (spread x r) q ↔ ((a : ℕ) → x ≤ a + r → a ≤ x + r → q a)
spread-Each x r q low small = (
  λ h a l k.
      let all =
        (count_up-Each 0 (suc (r + r)) _).0 ((map-Each _ (count_up 0 (suc (r + r))) q).0 h) in
      subst q (omega (arith, l, k, low, small))
        (all (a + r - x) (omega arith) (omega (arith, l, k))),
  λ h. (map-Each _ (count_up 0 (suc (r + r))) q).1 (
      (count_up-Each 0 (suc (r + r)) _).1 (λ i l k.
        h (sub_size (add_size x i) r) (omega (arith, k, low, small))
          (omega (arith, k, low, small)))),
)
