-- ===== src/Block/Fallback.antt =====
-- What a block becomes for a client without custom blocks: block_get_fallback of src/blocks.c.
use thirty.Prelude.{ℕ, ◌<◌, ◌≤◌, ◌≡◌, arith, ◌==◌, if◌then◌else◌}
use thirty.Block.Ids.{
  air, stone, dirt, wood_planks, lava, sand, glass, green_wool, cyan_wool, blue_wool, pink_wool,
  white_wool, brown_mushroom, iron_block, slab, obsidian, num_blocks, cobblestone_slab, rope,
  sandstone, snow, fire, light_pink_wool, forest_green_wool, brown_wool, deep_blue, turquoise, ice,
  ceramic_tile, magma, pillar, crate, stone_brick,
}

unfoldable pub get_fallback : ℕ → ℕ
get_fallback b =
    if b == cobblestone_slab
    then slab
    else if b == rope
    then brown_mushroom
    else if b == sandstone
    then sand
    else if b == snow
    then air
    else if b == fire
    then lava
    else if b == light_pink_wool
    then pink_wool
    else if b == forest_green_wool
    then green_wool
    else if b == brown_wool
    then dirt
    else if b == deep_blue
    then blue_wool
    else if b == turquoise
    then cyan_wool
    else if b == ice
    then glass
    else if b == ceramic_tile
    then iron_block
    else if b == magma
    then obsidian
    else if b == pillar
    then white_wool
    else if b == crate
    then wood_planks
    else if b == stone_brick
    then stone
    else b

-- Every block of the table falls back to one of the original fifty, each of which stays as it is.
pub get_fallback_lem :
    (b : ℕ) → b < num_blocks → (get_fallback b ≤ obsidian) × (b ≤ obsidian → get_fallback b ≡ b)
unfolding get_fallback
get_fallback_lem b h = ground arith
