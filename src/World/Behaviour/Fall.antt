-- ===== src/World/Behaviour/Fall.antt =====
-- Where falling sand and gravel come to rest.
use thirty.Prelude.{
  ℕ, zero, suc, ◌+◌, ◌-◌, ◌^◌, ◌≤◌, ◌<◌, true, false, ◌≡◌, arith, none, some, ◌*◌, sym, ap, ◌∙◌,
  get_elem?-eq_none,
}
use native.Mathlib.Decide.{ℕ_discrete}
use thirty.Word.{size_mod, sub_size, mul_size, add_size}
use thirty.Map.{Map, get, block_index}
use thirty.Map.Index.{IsWf, Inside, volume, le-mul}
use thirty.Buffer.{Allocator}
use thirty.World.{World}
use thirty.World.Behaviour.{is_solid, rest_level, blocktick_gravity}

-- A block at level `y` over a gap that ends at a solid block of level `s` comes to rest upon it.
pub rest_level_lem :
    (m : Map) (x z s y : ℕ)
    → s < y
    → is_solid m x s z ≡ some true
    → ((l : ℕ) → s < l → l < y → is_solid m x l z ≡ some false)
    → rest_level m x z y ≡ some (suc s)
unfolding rest_level
rest_level_lem m x z s zero h solid gap = elim h [ ]
rest_level_lem m x z s (suc y) h solid gap = elim (ℕ_discrete s y) [
  | yes e ↦ rw (← e) (rw solid)
  | no ne ↦
      rw (gap y (omega arith) (omega arith))
        (rest_level_lem m x z s y (omega arith) solid (λ l p q. gap l p (omega arith)))
]

-- The cell under level 0 of a column, as the index computes it, lies outside the array.
module _ (m : Map) (x z : ℕ) (wf : IsWf m) (x_in : x < m.width) (z_in : z < m.height)
    (deep : 0 < m.depth) where
  plane_le : m.height * m.width ≤ volume m
  plane_le = omega (arith, le-mul (m.height * m.width) m.depth deep)

  height_le : m.height ≤ m.height * m.width
  height_le = le-mul m.height m.width (omega arith)

  rows_le : (m.height - z) * m.width ≤ m.height * m.width
  rows_le = grind arith

  one_row : m.width ≤ (m.height - z) * m.width
  one_row = grind arith

  below_index : block_index m x (size_mod - 1) z ≡ size_mod - (m.height - z) * m.width + x
  unfolding block_index
  below_index = rw rows (rw row (rw plane (omega (arith, wf.small, plane_le, rows_le, one_row))))
    where
      large : m.height < 2 ^ 63
      large = omega (arith, height_le, plane_le, wf.small)

      rows : mul_size (size_mod - 1) m.height ≡ size_mod - m.height
      rows = omega (arith, large)

      row : add_size (size_mod - m.height) z ≡ size_mod - (m.height - z)
      row = omega (arith, large)

      distrib : (k : ℕ) → (size_mod - k + k) * m.width ≡ (size_mod - k) * m.width + k * m.width
      distrib k = omega arith

      product :
          (size_mod - (m.height - z)) * m.width + (m.height - z) * m.width ≡ size_mod * m.width
      product = sym (distrib (m.height - z)) ∙ ap (λ (t : ℕ). t * m.width) (omega (arith, large))

      plane : mul_size (size_mod - (m.height - z)) m.width ≡ size_mod - (m.height - z) * m.width
      plane = omega (arith, product, rows_le, one_row, plane_le, wf.small)

  get_below : get m x (sub_size 0 1) z ≡ none
  unfolding get
  get_below =
      get_elem?-eq_none m.blocks _
        (omega (arith, below_index, wf.filled, wf.small, plane_le, rows_le))

-- Over a gap down to the bottom of the map the code reads outside the map's blocks.
rest_level_open :
    (m : Map) (x z y : ℕ)
    → ((l : ℕ) → l < y → is_solid m x l z ≡ some false)
    → get m x (sub_size 0 1) z ≡ none
    → rest_level m x z y ≡ none
unfolding rest_level
rest_level_open m x z zero gap outside = rw outside
rest_level_open m x z (suc y) gap outside =
    rw (gap y (omega arith)) (rest_level_open m x z y (λ l p. gap l (omega arith)) outside)

-- A falling block with no solid block under it makes the code read outside the block array, in any
-- column of any well-formed map.
pub blocktick_gravity_open :
    (heap : Allocator) (fuel x y z block : ℕ) (w : World)
    → IsWf w.map
    → Inside w.map x y z
    → ((l : ℕ) → l < y → is_solid w.map x l z ≡ some false)
    → blocktick_gravity heap fuel x y z block w ≡ none
unfolding blocktick_gravity
blocktick_gravity_open heap fuel x y z block w wf i gap =
    rw (rest_level_open w.map x z y gap (get_below w.map x z wf i.0 i.2 (omega (arith, i.1))))
