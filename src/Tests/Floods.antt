-- ===== src/Tests/Floods.antt =====
-- The flood fill and the generators of src/mapgen.c on concrete input.
use thirty.Prelude.{
  ℕ, ◌+◌, ◌^◌, ◌≡◌, refl, arith, none, some, List, [], ◌∷◌, get_elem?, replicate, true, false,
}
use thirty.Text.{codes, str_eq}
use thirty.Block.{water_still}
use thirty.Map.{Map, get, pos_valid, block_index}
use thirty.Map.Index.{Inside}
use thirty.World.{World, map_set, set_with, react, announce, store_block}
use thirty.World.Keeps.{IsSound, Kept}
use thirty.Flood.{
  stack_create, stack_pop, stack_push, push_if, push_neighbours, flood_loop, flood_fill,
}
use thirty.Flood.Region.{Reach}
use thirty.Flood.Whole.{flood_fill-Reach}
use thirty.Generate.{flat_block, mapgen_flat, generator, map_generate}
use thirty.Generate.Sound.{Generated, map_generate-Generated}
use thirty.Generate.Layers.{Layered, mapgen_flat-Layered}
use thirty.Tests.Heap.{zeroing}

-- Two wide, deep and high; stone at one place.
abbrev cave : Map
cave = record {
  name = [];
  width = 2;
  depth = 2;
  height = 2;
  blocks = 1 ∷ 0 ∷ 0 ∷ 0 ∷ 0 ∷ 1 ∷ 1 ∷ 0 ∷ [];
  generating = true;
  modified = false;
  ticks = [];
}

-- The cell over the start is not reached.
flooded : flood_fill cave water_still 42 1 ≡ some (1 ∷ 9 ∷ 9 ∷ 9 ∷ 0 ∷ 1 ∷ 1 ∷ 0 ∷ [])
unfolding flood_fill flood_loop stack_create stack_push stack_pop push_if push_neighbours
flooded = refl

flood_fill-Reach_example :
    (out : List ℕ) × (flood_fill cave water_still 42 1 ≡ some out)
    × ((i : ℕ) → Reach cave 1 i → get_elem? out i ≡ some water_still)
    × ((i : ℕ) → ¬ Reach cave 1 i → get_elem? out i ≡ get_elem? cave.blocks i)
flood_fill-Reach_example =
    flood_fill-Reach cave water_still 1 refl (omega arith) refl 42 (omega arith)

-- One wide and high and ten deep.
abbrev shaft : Map
shaft = record cave { width = 1; depth = 10; height = 1; blocks = replicate 10 0 }

abbrev world : World
world = record { map = shaft; tick = 0; clients = [] }

world-IsSound : IsSound world
world-IsSound = record {
  wf = record { filled = refl; small = omega arith; known = omega arith };
  ticks = tt;
}

mapgen_flat-Layered_example :
    (w' : World) × (mapgen_flat zeroing 1 1 world ≡ some w')
    × Kept world w'
    × ((x y z : ℕ) → Inside shaft x y z → Layered 4 shaft w'.map x y z)
mapgen_flat-Layered_example =
    mapgen_flat-Layered zeroing 0 1 world world-IsSound refl (omega arith) (omega arith)

-- The world after the flat generator.
abbrev layers : World
layers = record world {
  map = record shaft {
    blocks = 3 ∷ 3 ∷ 3 ∷ 3 ∷ 2 ∷ 0 ∷ 0 ∷ 0 ∷ 0 ∷ 0 ∷ [];
    generating = false;
    modified = true;
  };
}

made :
    map_generate zeroing 1 (2 ^ 47 + 1) (λ w. some w) (λ w. some w) (codes "flat") world
    ≡ some layers
unfolding map_generate generator mapgen_flat flat_block map_set set_with react announce store_block
    get pos_valid block_index
made = refl

other_name :
    (str_eq (codes "flat") (codes "classic") ≡ false)
    × (str_eq (codes "flat") (codes "seantest") ≡ false)
other_name = (refl, refl)

map_generate-Generated_example :
    (w' : World) × (map_generate zeroing 1 (2 ^ 47 + 1) (λ w. none) (λ w. none) (codes "flat") world
      ≡ some w')
    × Generated world w'
map_generate-Generated_example =
    map_generate-Generated zeroing 0 (2 ^ 47 + 1) (λ w. none) (λ w. none) (omega arith)
      (codes "flat") other_name.0 other_name.1 world world-IsSound
