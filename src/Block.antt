-- ===== src/Block.antt =====
-- The table of src/blocks.c: what each block does. A function pointer is the constructor of the
-- function's name, or `none`.
mod Ids
pub mod Fallback
pub mod Table
pub use Ids.*
use thirty.Prelude.{
  ℕ, Bool, true, false, not, ◌||◌, Option, none, some, List, [], ◌∷◌, ◌==◌, ltb, if◌then◌else◌,
}

-- `blocktick_gravity`, `blocktick_flow`
pub data TickFunc : Type 0 where
  gravity flow : TickFunc

-- `blocktick_grass_die`, `blocktick_grass_grow`, `blocktick_tree_grow`
pub data RandomTickFunc : Type 0 where
  grass_die grass_grow tree_grow : RandomTickFunc

-- `blockplace_sponge`, `blockplace_liquid`
pub data PlaceFunc : Type 0 where
  place_sponge place_liquid : PlaceFunc

-- `blockbreak_sponge`
pub data BreakFunc : Type 0 where
  break_sponge : BreakFunc

pub record BlockInfo : Type 0 where
  pub solid : Bool
  pub block_light : Bool
  pub liquid : Bool
  pub op_only_place : Bool
  pub op_only_break : Bool
  pub colour : ℕ
  pub tickfunc : Option TickFunc
  pub ticktime : ℕ
  pub random_tickfunc : Option RandomTickFunc
  pub placefunc : Option PlaceFunc
  pub breakfunc : Option BreakFunc

abbrev pub one_of : ℕ → List ℕ → Bool
one_of b [] = false
one_of b (c ∷ cs) = b == c || one_of b cs

-- The last assignment to a field of the table wins; no block but water is given two here.
abbrev pub assigned {ℓ} : {A : Type ℓ} → List (ℕ × A) → A → ℕ → A
assigned [] start b = start
assigned ((c, v) ∷ cs) start b = assigned cs (if b == c then v else start) b

abbrev not_solid : List ℕ
not_solid =
    air ∷ sapling ∷ water ∷ lava ∷ rose ∷ dandelion ∷ brown_mushroom ∷ red_mushroom ∷ rope ∷ fire
    ∷ snow ∷ []

abbrev not_block_light : List ℕ
not_block_light =
    air ∷ sapling ∷ leaves ∷ glass ∷ rose ∷ dandelion ∷ brown_mushroom ∷ red_mushroom ∷ rope ∷ fire
    ∷ []

abbrev colours : List (ℕ × ℕ)
colours =
    (air, 0x000000)
    ∷ (stone, 0x7f7f7f)
    ∷ (grass, 0x86b556)
    ∷ (dirt, 0x966c4a)
    ∷ (cobblestone, 0x515151)
    ∷ (wood_planks, 0xbc9862)
    ∷ (sapling, 0x168700)
    ∷ (bedrock, 0x333333)
    ∷ (water, 0x0000FF)
    ∷ (water_still, 0x0000FF)
    ∷ (lava, 0xFF8000)
    ∷ (lava_still, 0xFF8000)
    ∷ (sand, 0xE7DBAF)
    ∷ (gravel, 0x9A8285)
    ∷ (gold_ore, 0xFCEE4B)
    ∷ (iron_ore, 0xE2C0AA)
    ∷ (coal_ore, 0x373737)
    ∷ (wood, 0x6A5534)
    ∷ (leaves, 0x5cfc3c)
    ∷ (sponge, 0xCECE46)
    ∷ (glass, 0xC0F5FE)
    ∷ (red_wool, 0xE73434)
    ∷ (orange_wool, 0xE58C34)
    ∷ (yellow_wool, 0xEEEE36)
    ∷ (lime_wool, 0x9CFF3A)
    ∷ (green_wool, 0x34E834)
    ∷ (aquagreen_wool, 0x34E58C)
    ∷ (cyan_wool, 0x34E8E8)
    ∷ (blue_wool, 0x69A5E0)
    ∷ (purple_wool, 0x7B7BE4)
    ∷ (indigo_wool, 0x8F35EB)
    ∷ (violet_wool, 0xA144CD)
    ∷ (magenta_wool, 0xFF3AFF)
    ∷ (pink_wool, 0xE8348E)
    ∷ (black_wool, 0x525252)
    ∷ (grey_wool, 0x9B9B9B)
    ∷ (white_wool, 0xFFFFFF)
    ∷ (dandelion, 0xCCD302)
    ∷ (rose, 0xD10609)
    ∷ (brown_mushroom, 0x916D55)
    ∷ (red_mushroom, 0xFE2A2A)
    ∷ (gold_block, 0xFFFE73)
    ∷ (iron_block, 0xFF0000)
    ∷ (double_slab, 0xCDCDCD)
    ∷ (slab, 0xCDCDCD)
    ∷ (bricks, 0xDB441A)
    ∷ (tnt, 0xDB441A)
    ∷ (bookshelf, 0xBC9862)
    ∷ (mossy_cobblestoe, 0x214B21)
    ∷ (obsidian, 0x3C3056)
    ∷ []

-- The entry that `blocks_init` leaves for a block.
unfoldable pub init_info : ℕ → BlockInfo
init_info b = record {
  solid = not (one_of b not_solid);
  block_light = not (one_of b not_block_light);
  liquid = one_of b (water ∷ water_still ∷ lava ∷ lava_still ∷ []);
  op_only_place = one_of b (bedrock ∷ water ∷ water_still ∷ lava ∷ lava_still ∷ []);
  op_only_break = one_of b (bedrock ∷ []);
  colour = assigned colours 0xFF00FF b;
  tickfunc =
      assigned
        ((sand, some gravity)
          ∷ (gravel, some gravity)
          ∷ (water, some flow)
          ∷ (lava, some flow)
          ∷ [])
        none b;
  ticktime = assigned ((water, 4) ∷ (lava, 8) ∷ []) 0 b;
  random_tickfunc =
      assigned ((grass, some grass_die) ∷ (dirt, some grass_grow) ∷ (sapling, some tree_grow) ∷ [])
        none b;
  placefunc =
      assigned
        ((water, some place_liquid)
          ∷ (water, some place_liquid)
          ∷ (water, some place_liquid)
          ∷ (water, some place_liquid)
          ∷ (sponge, some place_sponge)
          ∷ [])
        none b;
  breakfunc = assigned ((sponge, some break_sponge) ∷ []) none b;
}

-- `blockinfo[b]`: `none` is a read past the end of the table.
unfoldable pub blockinfo : ℕ → Option BlockInfo
blockinfo b = if ltb b num_blocks then some (init_info b) else none
