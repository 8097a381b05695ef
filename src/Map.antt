-- ===== src/Map.antt =====
-- The map of src/map.c and src/map.h: a box of blocks, one byte each, and the ticks that wait.
-- `none` stands for a read outside the block array or the block table.
pub mod Index
pub mod Top
use thirty.Prelude.{
  ℕ, zero, suc, ◌+◌, ◌-◌, ◌/◌, ◌%◌, Bool, true, false, not, ◌&&◌, Option, none, some, List, [], ltb,
  ◌==◌, if◌then◌else◌, get_elem?, replicate,
}
use thirty.Prelude.Options.{◌>>=◌}
use thirty.Word.{add_size, sub_size, mul_size}
use thirty.Block.{air, blockinfo}

-- `scheduledtick_t`
pub record Tick : Type 0 where
  pub x : ℕ
  pub y : ℕ
  pub z : ℕ
  pub time : ℕ

pub record Map : Type 0 where
  pub name : List ℕ
  pub width : ℕ
  pub depth : ℕ
  pub height : ℕ
  pub blocks : List ℕ
  pub generating : Bool
  pub modified : Bool
  pub ticks : List Tick

unfoldable pub create : List ℕ → ℕ → ℕ → ℕ → Map
create name width depth height = record {
  name = name;
  width = width;
  depth = depth;
  height = height;
  blocks = replicate (mul_size (mul_size width depth) height) air;
  generating = false;
  modified = true;
  ticks = [];
}

unfoldable pub pos_valid : Map → ℕ → ℕ → ℕ → Bool
pos_valid m x y z = ltb x m.width && (ltb y m.depth && ltb z m.height)

unfoldable pub block_index : Map → ℕ → ℕ → ℕ → ℕ
block_index m x y z = add_size (mul_size (add_size (mul_size y m.height) z) m.width) x

-- `*x`, `*y` and `*z`. A map of no width or depth, where the source divides by zero, is not asked.
unfoldable pub index_to_pos : Map → ℕ → ℕ × ℕ × ℕ
index_to_pos m index =
    let y = index / mul_size m.width m.depth in
    let rest = sub_size index (mul_size (mul_size y m.width) m.depth) in
    (rest % m.width, y, rest / m.width)

unfoldable pub get : Map → ℕ → ℕ → ℕ → Option ℕ
get m x y z = get_elem? m.blocks (block_index m x y z)

-- The loop that `get_top` and `get_top_lit` share, from `yy` down, with the test that breaks it.
unfoldable pub top_where : (ℕ → Option Bool) → Map → ℕ → ℕ → ℕ → Option ℕ
top_where stops m x z zero = some zero
top_where stops m x z (suc yy) =
    let below = top_where stops m x z yy in
    get m x (suc yy) z >>= λ block. stops block >>= λ stop. if stop then some (suc yy) else below

abbrev pub is_not_air : ℕ → Option Bool
is_not_air block = some (not (block == air))

abbrev pub blocks_light : ℕ → Option Bool
blocks_light block = blockinfo block >>= λ info. some info.block_light

-- A map of no depth, where the loop starts from the largest `size_t`, is not asked.
unfoldable pub get_top : Map → ℕ → ℕ → Option ℕ
get_top m x z = top_where is_not_air m x z (m.depth - 1)

unfoldable pub get_top_lit : Map → ℕ → ℕ → Option ℕ
get_top_lit m x z = top_where blocks_light m x z (m.depth - 1)
