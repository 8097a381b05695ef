-- ===== src/Tree/Room.antt =====
-- When there is space for a tree, src/mapgen.c.
use thirty.Prelude.{
  ℕ, ◌+◌, ◌-◌, ◌*◌, ◌^◌, ◌≤◌, ◌<◌, ◌≡◌, ◌⊎◌, refl, sym, ap, ◌∙◌, arith, inl, inr, Bool-cases, true,
  false, ◌||◌, some, List, All, ◌==◌,
}
use mathlib.Core.Option.{some-injective}
use thirty.Word.{sub_size}
use thirty.Block.{dirt, grass}
use thirty.Map.{Map, get, pos_valid}
use thirty.Map.Index.{IsWf, Inside, le-mul, pos_valid-Inside, Inside-pos_valid, get_lem}
use thirty.World.{Pos, count_up}
use thirty.Tree.{spread, cells, all_free, space_for_tree}
use thirty.Tree.Space.{Free, Answers, all_free-Answers, cells-Each, count_up-Each, spread-Each}

-- The positions within `r` of a column, on `n` levels from `lo` up, lie in the map and are free.
pub record Clear (m : Map) (x z lo n r : ℕ) : Type 0 where
  pub west : r ≤ x
  pub north : r ≤ z
  pub free :
      (a b c : ℕ)
      → x ≤ a + r
      → a ≤ x + r
      → lo ≤ b
      → b < lo + n
      → z ≤ c + r
      → c ≤ z + r
      → Free m (a, b, c)

-- Space for a tree: soil under it, room for the trunk, and more room for the four levels of leaves on top.
pub record Room (m : Map) (x y z height : ℕ) : Type 0 where
  pub here : Inside m x y z
  pub raised : 1 ≤ y
  pub soil : (get m x (y - 1) z ≡ some dirt) ⊎ (get m x (y - 1) z ≡ some grass)
  pub trunk : Clear m x z y height 1
  pub leaves : Clear m x z (y + (height - 4)) 4 2

abbrev box : ℕ → ℕ → ℕ → ℕ → ℕ → List Pos
box x z lo n r = cells (spread x r) (count_up lo n) (spread z r)

module _ (m : Map) (wf : IsWf m) where
  sides :
      (x y z : ℕ) → Inside m x y z → (m.width < 2 ^ 63) × (m.depth < 2 ^ 63) × (m.height < 2 ^ 63)
  sides x y z i =
      let plane = le-mul m.depth m.height (omega (arith, i.2)) in
      let front = le-mul m.height m.depth (omega (arith, i.1)) in
      let whole = le-mul (m.depth * m.height) m.width (omega (arith, i.0)) in
      (
        omega (arith, wf.small, le-mul m.width (m.depth * m.height) (omega (arith, plane, i.1))),
        omega (arith, wf.small, plane, whole),
        omega (arith, wf.small, front, whole),
      )

  module _ (x z lo n r : ℕ) (xs : x < 2 ^ 63) (zs : z < 2 ^ 63) (near : r ≤ 2) where
    Clear-box : Clear m x z lo n r → All (Free m) (box x z lo n r)
    Clear-box c = (cells-Each (Free m) (spread x r) (count_up lo n) (spread z r)).1 (
        (spread-Each x r _ c.west (omega (arith, xs, near))).1 (λ a l k.
          (count_up-Each lo n _).1 (λ b l' k'.
            (spread-Each z r _ c.north (omega (arith, zs, near))).1
              (λ d l'' k''. c.free a b d l k l' k' l'' k''))))

    box-Clear :
        0 < n
        → m.width < 2 ^ 63
        → m.height < 2 ^ 63
        → All (Free m) (box x z lo n r)
        → Clear m x z lo n r
    box-Clear some_ wide high h =
        let each = (cells-Each (Free m) (spread x r) (count_up lo n) (spread z r)).0 h in
        let first = (count_up-Each lo n _).0 each.0 lo (omega arith) (omega (arith, some_)) in
        let corner = first.0.inside in
        let west : r ≤ x = omega (arith, corner.0, wide, near, xs) in
        let north : r ≤ z = omega (arith, corner.2, high, near, zs) in
        record {
          west = west;
          north = north;
          free = λ a b c l k l' k' l'' k''.
              (spread-Each z r _ north (omega (arith, zs, near))).0
                ((count_up-Each lo n _).0
                  ((spread-Each x r _ west (omega (arith, xs, near))).0 each a l k) b l' k')
                c l'' k'';
        }

  module _ (x y z height : ℕ) (tall : 4 ≤ height) where
    -- The two boxes, once the place and the soil are right.
    boxes-Answers :
        (i : Inside m x y z)
        → 1 ≤ y
        → (get m x (y - 1) z ≡ some dirt) ⊎ (get m x (y - 1) z ≡ some grass)
        → (((all_free m (box x z y height 1) ≡ some true)
              × (all_free m (box x z (y + (height - 4)) 4 2) ≡ some true)
              × Room m x y z height)
            ⊎ ((all_free m (box x z y height 1) ≡ some true)
                × (all_free m (box x z (y + (height - 4)) 4 2) ≡ some false)
                × ¬ Room m x y z height)
            ⊎ ((all_free m (box x z y height 1) ≡ some false) × ¬ Room m x y z height))
    boxes-Answers i up soil =
        let (w, d, h) = sides x y z i in
        let xs : x < 2 ^ 63 = omega (arith, i.0, w) in
        let zs : z < 2 ^ 63 = omega (arith, i.2, h) in
        elim (all_free-Answers m wf (box x z y height 1)) [
          | inr (e, no_) ↦
              inr (inr (e, λ r. no_ (Clear-box x z y height 1 xs zs (omega arith) r.trunk)))
          | inl (e, f) ↦ elim (all_free-Answers m wf (box x z (y + (height - 4)) 4 2)) [
            | inr (e', no_) ↦ inr (
                inl (
                  e,
                  e',
                  λ r. no_ (Clear-box x z (y + (height - 4)) 4 2 xs zs (omega arith) r.leaves),
                ))
            | inl (e', f') ↦ inl (
              e,
              e',
              record {
                here = i;
                raised = up;
                soil = soil;
                trunk = box-Clear x z y height 1 xs zs (omega arith) (omega (arith, tall)) w h f;
                leaves =
                    box-Clear x z (y + (height - 4)) 4 2 xs zs (omega arith) (omega arith) w h f';
              },
            )
          ]
        ]

    -- On a well-formed map, for a height of four or more, the test for the space of a tree is defined, and it says
    -- yes exactly if the place and the one under it lie in the map, there is dirt or grass under it, and all
    -- places up to one beside the trunk on each level, and up to two beside it on the four uppermost ones, lie in
    -- the map and hold neither a solid nor a liquid block.
    pub space_for_tree-Answers : Answers (space_for_tree m x y z height) (Room m x y z height)
    unfolding space_for_tree
    space_for_tree-Answers = elim (Bool-cases (pos_valid m x y z)) [
      | inr off ↦ inr (rw off refl, λ r. let ok = Inside-pos_valid m x y z r.here in absurd (cc))
      | inl ok ↦
          let i = pos_valid-Inside m x y z ok in
          let (w, d, h) = sides x y z i in
          let y_small : y < 2 ^ 63 = omega (arith, i.1, d) in
          elim (Bool-cases (pos_valid m x (sub_size y 1) z)) [
            | inr off ↦ inr (
              rw (ok, off) refl,
              λ r.
                  let down : sub_size y 1 ≡ y - 1 = omega (arith, r.raised, y_small) in
                  let in_map =
                    Inside-pos_valid m x (sub_size y 1) z (i.0, omega (arith, down, i.1), i.2) in
                  absurd (cc),
            )
            | inl ok' ↦
                let j = pos_valid-Inside m x (sub_size y 1) z ok' in
                let up : 1 ≤ y = omega (arith, j.1, d, y_small) in
                let down : sub_size y 1 ≡ y - 1 = omega (arith, up, y_small) in
                let (b, found, known) = get_lem m x (sub_size y 1) z wf j in
                let found' : get m x (y - 1) z ≡ some b =
                  ap (λ k. get m x k z) (sym down) ∙ found in
                elim (Bool-cases ((b == dirt) || (b == grass))) [
                  | inr bare ↦ inr (
                    rw (ok, ok', found, bare) refl,
                    λ r. bare_lem b bare (soil_is b found' r.soil),
                  )
                  | inl soil ↦ elim (boxes-Answers i up (soil_of b found' soil)) [
                    | inl (e, e', r) ↦ inl (rw (ok, ok', found, soil, e) e', r)
                    | inr (inl (e, e', no_)) ↦ inr (rw (ok, ok', found, soil, e) e', no_)
                    | inr (inr (e, no_)) ↦ inr (rw (ok, ok', found, soil, e) refl, no_)
                  ]
                ]
          ]
    ]
      where
        bare_lem : (b : ℕ) → ((b == dirt) || (b == grass)) ≡ false → (b ≡ dirt) ⊎ (b ≡ grass) → ⊥
        bare_lem b e h = ground (arith, e, h)

        soil_is :
            (b : ℕ)
            → get m x (y - 1) z ≡ some b
            → (get m x (y - 1) z ≡ some dirt) ⊎ (get m x (y - 1) z ≡ some grass)
            → (b ≡ dirt) ⊎ (b ≡ grass)
        soil_is b e (inl h) = inl (some-injective _ _ (sym e ∙ h))
        soil_is b e (inr h) = inr (some-injective _ _ (sym e ∙ h))

        soil_of :
            (b : ℕ)
            → get m x (y - 1) z ≡ some b
            → ((b == dirt) || (b == grass)) ≡ true
            → (get m x (y - 1) z ≡ some dirt) ⊎ (get m x (y - 1) z ≡ some grass)
        soil_of b e h = elim (Bool-cases (b == dirt)) [
          | inl d ↦ inl (e ∙ ap some (ground (arith, d)))
          | inr n ↦ inr (e ∙ ap some (ground (arith, h, n)))
        ]
