-- ===== src/Tests/Maps.antt =====
-- The map of src/map.c and the blocks of src/blocks.c on concrete input.
use thirty.Prelude.{
  ℕ, zero, suc, ◌<◌, ◌≤◌, true, false, ◌≡◌, refl, inl, inr, arith, none, some, List, [], ◌∷◌, ◌++◌,
  map, All, take, drop, false, replicate, set,
}
use thirty.Buffer.{allocate_memory}
use thirty.Block.{air, sand, obsidian, init_info, blockinfo}
use thirty.Map.{
  Map, get, get_top, get_top_lit, top_where, is_not_air, blocks_light, block_index, index_to_pos,
}
use thirty.Map.Index.{IsWf, Inside, index_to_pos_wrong}
use thirty.Map.Top.{IsTop, get_tops_lem}
use thirty.World.{World, map_set}
use thirty.World.Quiet.{map_set_idle}
use thirty.World.Behaviour.{is_solid, blocktick_gravity}
use thirty.World.Behaviour.Fall.{blocktick_gravity_open}
use thirty.World.Behaviour.Land.{blocktick_gravity_lem}
use thirty.Endian.{big, encode}
use thirty.SendMap.{num_blocks_of, replace_block, sent_level}
use thirty.SendMap.Bounds.{sent_level-bounded}
use thirty.Tests.Heap.{zeroing}

-- Two wide, four deep and two high: a floor of stone, and sand on top of the first column.
abbrev blocks : List ℕ
blocks = 1 ∷ 1 ∷ 1 ∷ 1 ∷ 0 ∷ 0 ∷ 0 ∷ 0 ∷ 0 ∷ 0 ∷ 0 ∷ 0 ∷ 12 ∷ 0 ∷ 0 ∷ 0 ∷ []

abbrev tower : Map
tower = record {
  name = [];
  width = 2;
  depth = 4;
  height = 2;
  blocks = blocks;
  generating = false;
  modified = false;
  ticks = [];
}

-- As deep as it is high.
abbrev cube : Map
cube = record tower { depth = 2; height = 2; blocks = replicate 8 0 }

-- Higher than it is deep.
abbrev slab_map : Map
slab_map = record tower { depth = 1; height = 3; width = 2; blocks = replicate 6 0 }

-- No floor: sand over a gap.
abbrev open_tower : Map
open_tower = record tower { blocks = set (replicate 16 0) 12 12 }

tower-IsWf : IsWf tower
tower-IsWf = record { filled = refl; small = omega arith; known = omega arith }

cube-IsWf : IsWf cube
cube-IsWf = record { filled = refl; small = omega arith; known = omega arith }

slab_map-IsWf : IsWf slab_map
slab_map-IsWf = record { filled = refl; small = omega arith; known = omega arith }

open_tower-IsWf : IsWf open_tower
open_tower-IsWf = record { filled = refl; small = omega arith; known = omega arith }

abbrev world : World
world = record { map = tower; tick = 10; clients = allocate_memory 64 false ∷ [] }

abbrev open_world : World
open_world = record { map = open_tower; tick = 10; clients = [] }

sand_at : get tower 0 3 0 ≡ some sand
unfolding get block_index
sand_at = refl

sent_level-bounded_example :
    (sent : List ℕ) × (sent_level false 7 tower
      ≡ map (replace_block 7) (encode big 4 (num_blocks_of tower)) ++ sent)
    × All (λ b. b ≤ obsidian) (take 12 sent)
    × (drop 12 sent ≡ 12 ∷ 0 ∷ 0 ∷ 0 ∷ [])
sent_level-bounded_example = sent_level-bounded 7 tower tower-IsWf (omega arith) (omega arith)

index_to_pos_wrong_example : index_to_pos slab_map (block_index slab_map 0 0 1) ≡ (0, 1, 0)
index_to_pos_wrong_example =
    index_to_pos_wrong slab_map slab_map-IsWf (omega arith) (omega arith) (omega arith)

get_tops_lem_example :
    ((t : ℕ) × (get_top tower 1 1 ≡ some t) × IsTop is_not_air tower 1 1 3 t)
    × ((t : ℕ) × (get_top_lit tower 1 1 ≡ some t) × IsTop blocks_light tower 1 1 3 t)
get_tops_lem_example = get_tops_lem tower 1 1 tower-IsWf (omega arith) (omega arith) (omega arith)

top_of_sand : (get_top tower 0 0 ≡ some 3) × (get_top tower 1 0 ≡ some 0)
unfolding get_top top_where get block_index
top_of_sand = (refl, refl)

air_at : get tower 1 1 1 ≡ some air
unfolding get block_index
air_at = refl

map_set_idle_example : map_set zeroing 2 1 1 1 air world ≡ some world
map_set_idle_example = map_set_idle zeroing world 1 1 1 air 1 (inr air_at)

floor_at : is_solid tower 0 0 0 ≡ some true
unfolding get block_index blockinfo init_info
floor_at = refl

free_at : (l : ℕ) → 0 < l → l < 3 → is_solid tower 0 l 0 ≡ some false
unfolding get block_index blockinfo init_info
free_at zero h k = absurd (omega arith)
free_at (suc zero) h k = refl
free_at (suc (suc zero)) h k = refl
free_at (suc (suc (suc l))) h k = absurd (omega arith)

blocktick_gravity_lem_example :
    (w' : World) × (blocktick_gravity zeroing 2 0 3 0 sand world ≡ some w')
    × (get w'.map 0 1 0 ≡ some sand)
    × (get w'.map 0 3 0 ≡ some air)
    × ((x' y' z' : ℕ)
        → Inside tower x' y' z'
        → ¬ ((0 ≡ x') × (3 ≡ y') × (0 ≡ z'))
        → ¬ ((0 ≡ x') × (1 ≡ y') × (0 ≡ z'))
        → get w'.map x' y' z' ≡ get tower x' y' z')
blocktick_gravity_lem_example =
    blocktick_gravity_lem zeroing 1 0 3 0 0 sand world tower-IsWf tt (omega arith) (inl refl)
      sand_at (omega arith) floor_at free_at

free_below : (l : ℕ) → l < 3 → is_solid open_tower 0 l 0 ≡ some false
unfolding get block_index blockinfo init_info
free_below zero k = refl
free_below (suc zero) k = refl
free_below (suc (suc zero)) k = refl
free_below (suc (suc (suc l))) k = absurd (omega arith)

blocktick_gravity_open_example : blocktick_gravity zeroing 2 0 3 0 sand open_world ≡ none
blocktick_gravity_open_example =
    blocktick_gravity_open zeroing 2 0 3 0 sand open_world open_tower-IsWf (omega arith) free_below
