-- ===== src/Map/Index.antt =====
-- Positions and indexes of the block array.
use thirty.Prelude.{
  ℕ, ◌+◌, ◌*◌, ◌/◌, ◌%◌, ◌^◌, ◌≤◌, ◌<◌, true, ◌≡◌, sym, ap, ◌∙◌, arith, length, All, some,
  get_elem?-eq_some, All-get_elem?,
}
use native.Mathlib.Nat.{mod-eq_of_lt, mul-add-div_right, div-eq_of_lt, mul-add-mod_self_right}
use thirty.Word.{size_mod, sub_size, mul_size}
use thirty.Block.{num_blocks}
use thirty.Map.{Map, pos_valid, block_index, index_to_pos, get}

abbrev pub volume : Map → ℕ
volume m = m.width * m.depth * m.height

-- The array holds a block of the table for each position, and its size is that of an object.
pub record IsWf (m : Map) : Type 0 where
  pub filled : length m.blocks ≡ volume m
  pub small : volume m < 2 ^ 63
  pub known : All (λ b. b < num_blocks) m.blocks

-- A position of the map.
abbrev pub Inside : Map → ℕ → ℕ → ℕ → Type 0
Inside m x y z = (x < m.width) × (y < m.depth) × (z < m.height)

pub pos_valid-Inside : (m : Map) (x y z : ℕ) → pos_valid m x y z ≡ true → Inside m x y z
unfolding pos_valid
pos_valid-Inside m x y z h = ground arith

pub Inside-pos_valid : (m : Map) (x y z : ℕ) → Inside m x y z → pos_valid m x y z ≡ true
unfolding pos_valid
Inside-pos_valid m x y z h = ground arith

-- The index with no wrapping.
abbrev pub flat : Map → ℕ → ℕ → ℕ → ℕ
flat m x y z = (y * m.height + z) * m.width + x

row_lt : (y z d h : ℕ) → y < d → z < h → y * h + z < d * h
row_lt y z d h p q = grind arith

pub flat-lt : (m : Map) (x y z : ℕ) → Inside m x y z → flat m x y z < volume m
flat-lt m x y z i = omega (
  arith,
  row_lt (y * m.height + z) x (m.depth * m.height) m.width (row_lt y z m.depth m.height i.1 i.2)
      i.0,
)

pub le-mul : (a b : ℕ) → 0 < b → a ≤ a * b
le-mul a b h = grind arith

-- Inside the map no step of the index wraps.
pub block_index-flat :
    (m : Map) (x y z : ℕ) → IsWf m → Inside m x y z → block_index m x y z ≡ flat m x y z
unfolding block_index
block_index-flat m x y z wf i =
    rw (mod-eq_of_lt column) (rw (mod-eq_of_lt row) (rw (mod-eq_of_lt rows) (mod-eq_of_lt whole)))
  where
    last : flat m x y z < 2 ^ 63
    last = omega (arith, flat-lt m x y z i, wf.small)

    whole : flat m x y z < size_mod
    whole = omega (arith, last)

    rows : (y * m.height + z) * m.width < size_mod
    rows = omega (arith, last)

    row : y * m.height + z < size_mod
    row = omega (arith, rows, le-mul (y * m.height + z) m.width (omega arith))

    column : y * m.height < size_mod
    column = omega (arith, row)

-- At a position inside a well-formed map the index is one of the array's, and a block of the table
-- is read.
pub get_lem :
    (m : Map) (x y z : ℕ)
    → IsWf m
    → Inside m x y z
    → (b : ℕ) × (get m x y z ≡ some b) × (b < num_blocks)
unfolding get
get_lem m x y z wf i =
    let (b, found) =
      get_elem?-eq_some m.blocks (block_index m x y z)
        (omega (arith, block_index-flat m x y z wf i, flat-lt m x y z i, wf.filled)) in
    (b, found, All-get_elem? _ m.blocks (block_index m x y z) wf.known found)

pub div_unique : (q r w : ℕ) → r < w → ((q * w + r) / w ≡ q) × ((q * w + r) % w ≡ r)
div_unique q r w h = (
  omega (arith, mul-add-div_right {m = w} (omega arith) q r, div-eq_of_lt h),
  omega (arith, mul-add-mod_self_right q w r, mod-eq_of_lt h),
)

-- Two positions inside a well-formed map have one index only if they are the same.
pub block_index-injective :
    (m : Map) (x y z x' y' z' : ℕ)
    → IsWf m
    → Inside m x y z
    → Inside m x' y' z'
    → block_index m x y z ≡ block_index m x' y' z'
    → (x ≡ x') × (y ≡ y') × (z ≡ z')
block_index-injective m x y z x' y' z' wf i i' e = (
  omega (arith, column, column', same_column),
  omega (arith, plane, plane', same_plane),
  omega (arith, line, line', same_line),
)
  where
    same : flat m x y z ≡ flat m x' y' z'
    same = sym (block_index-flat m x y z wf i) ∙ e ∙ block_index-flat m x' y' z' wf i'

    column : flat m x y z % m.width ≡ x
    column = (div_unique (y * m.height + z) x m.width i.0).1

    column' : flat m x' y' z' % m.width ≡ x'
    column' = (div_unique (y' * m.height + z') x' m.width i'.0).1

    same_column : flat m x y z % m.width ≡ flat m x' y' z' % m.width
    same_column = ap (λ n. n % m.width) same

    row : y * m.height + z ≡ y' * m.height + z'
    row =
        sym (div_unique (y * m.height + z) x m.width i.0).0
        ∙ ap (λ n. n / m.width) same
        ∙ (div_unique (y' * m.height + z') x' m.width i'.0).0

    line : (y * m.height + z) % m.height ≡ z
    line = (div_unique y z m.height i.2).1

    line' : (y' * m.height + z') % m.height ≡ z'
    line' = (div_unique y' z' m.height i'.2).1

    same_line : (y * m.height + z) % m.height ≡ (y' * m.height + z') % m.height
    same_line = ap (λ n. n % m.height) row

    plane : (y * m.height + z) / m.height ≡ y
    plane = (div_unique y z m.height i.2).0

    plane' : (y' * m.height + z') / m.height ≡ y'
    plane' = (div_unique y' z' m.height i'.2).0

    same_plane : (y * m.height + z) / m.height ≡ (y' * m.height + z') / m.height
    same_plane = ap (λ n. n / m.height) row

-- A position of a slice: the index in the slice, which is taken apart by the width.
slice_lt : (x z w d : ℕ) → x < w → z < d → z * w + x < w * d
slice_lt x z w d p q = omega (arith, row_lt z x d w q p)

-- What `index_to_pos` makes of the index `y * (w * d) + (z * w + x)`: it cuts the array into slices
-- of `width * depth` blocks.
module _ (m : Map) (x y z : ℕ) (p : x < m.width) (q : z < m.depth)
    (plane_small : m.width * m.depth < size_mod)
    (index_small : y * (m.width * m.depth) + (z * m.width + x) < size_mod) where
  in_slice : z * m.width + x < m.width * m.depth
  in_slice = slice_lt x z m.width m.depth p q

  slice : (y * (m.width * m.depth) + (z * m.width + x)) / (m.width * m.depth) ≡ y
  slice = (div_unique y (z * m.width + x) (m.width * m.depth) in_slice).0

  before : mul_size (mul_size y m.width) m.depth ≡ y * (m.width * m.depth)
  before = rw (mod-eq_of_lt {n = y * m.width} {m = size_mod} rows) (
      rw (mod-eq_of_lt {n = y * m.width * m.depth} {m = size_mod} (omega (arith, index_small)))
        (omega arith))
    where
      rows : y * m.width < size_mod
      rows = omega (arith, index_small, le-mul (y * m.width) m.depth (omega arith))

  remains :
      sub_size (y * (m.width * m.depth) + (z * m.width + x)) (y * (m.width * m.depth))
      ≡ z * m.width + x
  remains = omega (arith, index_small)

  index_to_pos_slices : index_to_pos m (y * (m.width * m.depth) + (z * m.width + x)) ≡ (x, y, z)
  unfolding index_to_pos
  index_to_pos_slices = rw (mod-eq_of_lt plane_small) (
      rw slice
        (rw before (rw remains (rw ((div_unique z x m.width p).0, (div_unique z x m.width p).1)))))

index_to_pos_at :
    (m : Map) (x y z x' y' z' : ℕ)
    → IsWf m
    → Inside m x y z
    → x' < m.width
    → z' < m.depth
    → flat m x y z ≡ y' * (m.width * m.depth) + (z' * m.width + x')
    → index_to_pos m (block_index m x y z) ≡ (x', y', z')
index_to_pos_at m x y z x' y' z' wf i p q e =
    ap (index_to_pos m) (block_index-flat m x y z wf i ∙ e)
    ∙ index_to_pos_slices m x' y' z' p q plane_small (omega (arith, inside, e))
  where
    inside : flat m x y z < size_mod
    inside = omega (arith, flat-lt m x y z i, wf.small)

    plane_small : m.width * m.depth < size_mod
    plane_small = omega (arith, le-mul (m.width * m.depth) m.height (omega (arith, i.2)), wf.small)

-- On a well-formed map as deep as it is high, the position of the index of a position inside is
-- that position.
pub index_to_pos-block_index :
    (m : Map) (x y z : ℕ)
    → IsWf m
    → Inside m x y z
    → m.depth ≡ m.height
    → index_to_pos m (block_index m x y z) ≡ (x, y, z)
index_to_pos-block_index m x y z wf i e =
    index_to_pos_at m x y z x y z wf i i.0 (omega (arith, i.2, e))
      (omega (arith, ap (λ t. y * (m.width * t)) e))

-- On a well-formed map that is higher than deep and not empty, the index of the position (0, 0,
-- depth) is taken for the position (0, 1, 0).
pub index_to_pos_wrong :
    (m : Map)
    → IsWf m
    → 0 < m.depth
    → m.depth < m.height
    → 0 < m.width
    → index_to_pos m (block_index m 0 0 m.depth) ≡ (0, 1, 0)
index_to_pos_wrong m wf d h w =
    index_to_pos_at m 0 0 m.depth 0 1 0 wf (omega arith) w d (omega arith)
