-- ===== src/World/Behaviour.antt =====
-- The tick functions of src/blocks.c but for the growth of trees. `fuel` bounds the nesting of
-- `map_set`.
pub mod Fall
pub mod Land
use thirty.Prelude.{
  ℕ, zero, suc, ◌+◌, ◌-◌, Bool, true, false, Option, none, some, List, [], ◌∷◌, ltb, ◌==◌,
  if◌then◌else◌,
}
use thirty.Prelude.Options.{◌>>=◌}
use thirty.Word.{add_size, sub_size}
use thirty.Buffer.{Allocator}
use thirty.Block.{
  air, grass, dirt, sponge, BlockInfo, blockinfo, TickFunc, gravity, flow, RandomTickFunc,
  grass_die, grass_grow,
}
use thirty.Map.{Map, get, get_top_lit}
use thirty.World.{World, Change, around, map_set}

abbrev pub is_solid : Map → ℕ → ℕ → ℕ → Option Bool
is_solid m x y z = get m x y z >>= λ block. blockinfo block >>= λ info. some info.solid

-- The loop of `blocktick_gravity` from `yy` down: the level where the block comes to rest. At
-- level 0 the test still reads the block below, at the largest `size_t`.
unfoldable pub rest_level : Map → ℕ → ℕ → ℕ → Option ℕ
rest_level m x z zero = is_solid m x (sub_size 0 1) z >>= λ solid. some zero
rest_level m x z (suc yy) =
    let lower = rest_level m x z yy in
    is_solid m x yy z >>= λ solid. if solid then some (suc yy) else lower

-- Whether a cell within two steps holds a sponge, as the loops find it.
unfoldable pub sponge_in : Map → ℕ → ℕ → List ℕ → Option Bool
sponge_in m x y [] = some false
sponge_in m x y (z ∷ zs) =
    let later = sponge_in m x y zs in
    get m x y z >>= λ block. if block == sponge then some true else later

unfoldable pub sponge_in_rows : Map → ℕ → List ℕ → List ℕ → Option Bool
sponge_in_rows m x [] zs = some false
sponge_in_rows m x (y ∷ ys) zs =
    let later = sponge_in_rows m x ys zs in
    sponge_in m x y zs >>= λ found. if found then some true else later

unfoldable pub sponge_in_box : Map → List ℕ → List ℕ → List ℕ → Option Bool
sponge_in_box m [] ys zs = some false
sponge_in_box m (x ∷ xs) ys zs =
    let later = sponge_in_box m xs ys zs in
    sponge_in_rows m x ys zs >>= λ found. if found then some true else later

unfoldable pub can_liquid_flow_to : Map → ℕ → ℕ → ℕ → Option Bool
can_liquid_flow_to m x y z = is_solid m x y z >>= λ solid.
    if solid
    then some false
    else (sponge_in_box m (around x 2) (around y 2) (around z 2) >>= λ found.
        some (if found then false else true))

module _ (heap : Allocator) (fuel : ℕ) where
  unfoldable pub blocktick_gravity : ℕ → ℕ → ℕ → ℕ → Change
  blocktick_gravity x y z block w = rest_level w.map x z y >>= λ yy.
      if yy == y then some w else (map_set heap fuel x y z air w >>= map_set heap fuel x yy z block)

  unfoldable pub flow_to : ℕ → ℕ → ℕ → ℕ → Change
  flow_to x y z block w = can_liquid_flow_to w.map x y z >>= λ flows.
      if flows then map_set heap fuel x y z block w else some w

  unfoldable pub blocktick_flow : ℕ → ℕ → ℕ → ℕ → Change
  blocktick_flow x y z block w =
      flow_to (sub_size x 1) y z block w
      >>= flow_to (add_size x 1) y z block
      >>= flow_to x y (sub_size z 1) block
      >>= flow_to x y (add_size z 1) block
      >>= flow_to x (sub_size y 1) z block

  unfoldable pub blocktick_grass_die : ℕ → ℕ → ℕ → ℕ → Change
  blocktick_grass_die x y z block w =
      if block == grass
      then (get_top_lit w.map x z >>= λ top.
          if ltb y top then map_set heap fuel x y z dirt w else some w)
      else some w

  unfoldable pub blocktick_grass_grow : ℕ → ℕ → ℕ → ℕ → Change
  blocktick_grass_grow x y z block w =
      if block == dirt
      then (get_top_lit w.map x z >>= λ top.
          if top == y then map_set heap fuel x y z grass w else some w)
      else some w

  unfoldable pub run_tick : Option TickFunc → ℕ → ℕ → ℕ → ℕ → Change
  run_tick none x y z block w = some w
  run_tick (some gravity) x y z block w = blocktick_gravity x y z block w
  run_tick (some flow) x y z block w = blocktick_flow x y z block w
