-- ===== src/Flood/Loop.antt =====
-- The pushes of one round of the flood fill of src/mapgen.c.
use thirty.Prelude.{
  ℕ, ◌+◌, ◌-◌, ◌*◌, ◌/◌, ◌%◌, ◌^◌, ◌≤◌, ◌<◌, ◌≡◌, ap, ◌∙◌, arith, true, some, List, length, ltb,
}
use thirty.Word.{uint32, sub_size}
use thirty.Map.{Map}
use thirty.Map.Index.{volume, le-mul}
use thirty.Flood.{IntStack, one_y, push_neighbours}
use thirty.Flood.Stack.{Holds}
use thirty.Flood.Cells.{pushed, add_if, length-add_if, push_if-Holds, index_parts}

mod_pos : (a b : ℕ) → ltb 0 (a % b) ≡ true → 0 < a
mod_pos a b h = ground (arith, h)

reaches : (a b : ℕ) → 0 < a / b → b ≤ a
reaches a b h = omega (arith, le-mul b (a / b) h)

module _ (m : Map) (block : ℕ) (small : volume m < 2 ^ 27) (i : ℕ) (inside : i < volume m) where
  plane_le : m.width * m.height ≤ volume m
  plane_le =
      let (x, y, z, h, e) = index_parts m i inside in
      omega (arith, le-mul (m.width * m.height) m.depth (omega (arith, h.1)))

  sides : (0 < m.width) × (0 < m.height) × (m.width ≤ volume m) × (m.height ≤ volume m)
  sides =
      let (x, y, z, h, e) = index_parts m i inside in
      let high : 0 < m.height = omega (arith, h.2) in
      let wide : 0 < m.width = omega (arith, h.0) in
      (
        wide,
        high,
        omega (arith, plane_le, le-mul m.width m.height high),
        omega (arith, plane_le, le-mul m.height m.width wide),
      )

  one_y-flat : one_y m block ≡ m.width * m.height
  one_y-flat = omega (arith, plane_le, small)

  column_small : uint32 (i % m.width) ≡ i % m.width
  column_small = omega (arith, inside, small, sides.0, sides.2)

  line_small : uint32 (i / m.width % m.height) ≡ i / m.width % m.height
  line_small = omega (arith, small, sides.1, sides.3)

  one_less : sub_size m.width 1 ≡ m.width - 1
  one_less = omega (arith, small, sides.0, sides.2)

  one_lower : sub_size m.height 1 ≡ m.height - 1
  one_lower = omega (arith, small, sides.1, sides.3)

  pub push_neighbours-Holds :
      (s : IntStack) (xs : List ℕ)
      → Holds s xs
      → length xs + 5 < 2 ^ 30
      → (t : IntStack) × (push_neighbours m block i s ≡ some t) × Holds t (pushed m i xs)
  unfolding push_neighbours
  push_neighbours-Holds s xs h few =
      let xs1 = add_if (ltb 0 (i % m.width)) (i - 1) xs in
      let xs2 = add_if (ltb (i % m.width) (m.width - 1)) (i + 1) xs1 in
      let xs3 = add_if (ltb 0 (i / m.width % m.height)) (i - m.width) xs2 in
      let (t1, e1, h1) =
        push_if-Holds (ltb 0 (uint32 (i % m.width))) (ltb 0 (i % m.width)) (uint32 (i + 2 ^ 32 - 1))
          (i - 1) s xs (ap (ltb 0) column_small)
          (λ b. omega (arith, inside, small, mod_pos i m.width b)) h (omega (arith, few)) in
      let l1 = length-add_if (ltb 0 (i % m.width)) (i - 1) xs in
      let (t2, e2, h2) =
        push_if-Holds _ (ltb (i % m.width) (m.width - 1)) (uint32 (i + 1)) (i + 1) t1 _
          (ap (λ x. ltb x (sub_size m.width 1)) column_small ∙ ap (ltb (i % m.width)) one_less)
          (λ b. omega (arith, inside, small)) h1 (omega (arith, few, l1)) in
      let l2 = length-add_if (ltb (i % m.width) (m.width - 1)) (i + 1) xs1 in
      let (t3, e3, h3) =
        push_if-Holds _ (ltb 0 (i / m.width % m.height)) (uint32 (i + 2 ^ 32 - uint32 m.width))
          (i - m.width) t2 _ (ap (ltb 0) line_small)
          (λ b. omega (
            arith,
            inside,
            small,
            sides.2,
            reaches i m.width (omega (arith, mod_pos (i / m.width) m.height b)),
          ))
          h2 (omega (arith, few, l1, l2)) in
      let l3 = length-add_if (ltb 0 (i / m.width % m.height)) (i - m.width) xs2 in
      let (t4, e4, h4) =
        push_if-Holds _ (ltb (i / m.width % m.height) (m.height - 1)) (uint32 (i + m.width))
          (i + m.width) t3 _
          (ap (λ z. ltb z (sub_size m.height 1)) line_small
            ∙ ap (ltb (i / m.width % m.height)) one_lower)
          (λ b. omega (arith, inside, small, sides.2)) h3 (omega (arith, few, l1, l2, l3)) in
      let l4 = length-add_if (ltb (i / m.width % m.height) (m.height - 1)) (i + m.width) xs3 in
      let (t5, e5, h5) =
        push_if-Holds _ (ltb 0 (i / (m.width * m.height))) (uint32 (i + 2 ^ 32 - one_y m block))
          (i - m.width * m.height) t4 _ (ap (λ o. ltb 0 (i / o)) one_y-flat)
          (λ b. omega (
            arith,
            inside,
            small,
            one_y-flat,
            plane_le,
            reaches i (m.width * m.height) (ground (arith, b)),
          ))
          h4 (omega (arith, few, l1, l2, l3, l4)) in
      (t5, rw (e1, e2, e3, e4) e5, h5)

pub length-pushed : (m : Map) (i : ℕ) (xs : List ℕ) → length (pushed m i xs) ≤ length xs + 5
length-pushed m i xs =
    let xs1 = add_if (ltb 0 (i % m.width)) (i - 1) xs in
    let xs2 = add_if (ltb (i % m.width) (m.width - 1)) (i + 1) xs1 in
    let xs3 = add_if (ltb 0 (i / m.width % m.height)) (i - m.width) xs2 in
    let xs4 = add_if (ltb (i / m.width % m.height) (m.height - 1)) (i + m.width) xs3 in
    omega (
      arith,
      length-add_if (ltb 0 (i % m.width)) (i - 1) xs,
      length-add_if (ltb (i % m.width) (m.width - 1)) (i + 1) xs1,
      length-add_if (ltb 0 (i / m.width % m.height)) (i - m.width) xs2,
      length-add_if (ltb (i / m.width % m.height) (m.height - 1)) (i + m.width) xs3,
      length-add_if (ltb 0 (i / (m.width * m.height))) (i - m.width * m.height) xs4,
    )
