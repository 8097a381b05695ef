-- ===== src/World/Quiet.antt =====
-- `map_set` with a block that does nothing where it is placed, over one that does nothing where it
-- is broken.
use thirty.Prelude.{
  ℕ, suc, ◌<◌, Bool, true, false, ◌≡◌, ◌≢◌, refl, ◌⊎◌, arith, none, some, List, map, length, ◌==◌,
  set, length-set, All-set, get_elem?-set_self, get_elem?-set_ne,
}
use thirty.Buffer.{Allocator}
use thirty.Block.{init_info, num_blocks}
use thirty.Block.Table.{blockinfo_known}
use thirty.Map.{Map, Tick, get, pos_valid, block_index}
use thirty.Map.Index.{
  IsWf, Inside, Inside-pos_valid, block_index-flat, flat-lt, block_index-injective,
}
use thirty.World.{
  World, Change, neighbourhood, run_break, run_place, store_block, react, announce, set_with,
  map_set, send_set_block, tick_distance,
}
use thirty.World.Ticks.{with_ticks, TicksInside, add_ticks-Schedules}

module _ (w : World) (wf : IsWf w.map) (x y z block : ℕ) (i : Inside w.map x y z)
    (known : block < num_blocks) where
  in_array : block_index w.map x y z < length w.map.blocks
  in_array = omega (arith, block_index-flat w.map x y z wf i, flat-lt w.map x y z i, wf.filled)

  -- Storing a block of the table keeps the map well formed.
  pub store_block-IsWf : IsWf (store_block x y z block w).map
  unfolding store_block
  store_block-IsWf = record {
    filled = omega (arith, length-set w.map.blocks (block_index w.map x y z) block, wf.filled);
    small = wf.small;
    known = All-set _ w.map.blocks (block_index w.map x y z) block wf.known known;
  }

  -- The stored block is read at its position, and the old blocks everywhere else.
  pub get-store_block : get (store_block x y z block w).map x y z ≡ some block
  unfolding get store_block block_index
  get-store_block = get_elem?-set_self w.map.blocks (block_index w.map x y z) block in_array

  pub get-store_block_ne :
      (x' y' z' : ℕ)
      → Inside w.map x' y' z'
      → ¬ ((x ≡ x') × (y ≡ y') × (z ≡ z'))
      → get (store_block x y z block w).map x' y' z' ≡ get w.map x' y' z'
  unfolding get store_block block_index
  get-store_block_ne x' y' z' i' ne =
      get_elem?-set_ne w.map.blocks (block_index w.map x y z) (block_index w.map x' y' z') block
        (λ e. ne (block_index-injective w.map x y z x' y' z' wf i i' e))

-- The world after such a change, with the ticks `ts`.
abbrev pub changed : Allocator → World → ℕ → ℕ → ℕ → ℕ → List Tick → World
changed heap w x y z block ts =
    let m : Map = w.map in
    record w {
      map = record m {
        blocks = set m.blocks (block_index m x y z) block;
        ticks = ts;
        modified = true;
      };
      clients = map (send_set_block heap x y z block) w.clients;
    }

module _ (heap : Allocator) (w : World) (x y z block old : ℕ) (wf : IsWf w.map)
    (ticks_inside : TicksInside w.map w.map.ticks) (i : Inside w.map x y z)
    (known : block < num_blocks) (old_known : old < num_blocks)
    (unbroken : (init_info old).breakfunc ≡ none) (quiet : (init_info block).placefunc ≡ none) where
  react_lem :
      (inner : ℕ → ℕ → ℕ → ℕ → Change) (generating : Bool)
      → (ts : List Tick) × (react generating inner x y z old block (store_block x y z block w)
          ≡ some (with_ticks (store_block x y z block w) ts))
        × TicksInside w.map ts
  unfolding react run_break run_place store_block
  react_lem inner true = (w.map.ticks, refl, ticks_inside)
  react_lem inner false =
      let (ts, e, h) =
        add_ticks-Schedules (store_block x y z block w) (store_block-IsWf w wf x y z block i known)
          (neighbourhood x y z) (tick_distance w.tick (init_info block).ticktime) w.map.ticks
          ticks_inside in
      (
        ts,
        rw (blockinfo_known old old_known, blockinfo_known block known) (rw (unbroken, quiet) e),
        h,
      )

  announce_lem :
      (ts : List Tick)
      → announce heap x y z (with_ticks (store_block x y z block w) ts)
        ≡ some (changed heap w x y z block ts)
  unfolding announce store_block get block_index
  announce_lem ts = rw (
      get_elem?-set_self w.map.blocks (block_index w.map x y z) block
        (in_array w wf x y z block i known))

  pub map_set_quiet :
      (fuel : ℕ)
      → get w.map x y z ≡ some old
      → old ≢ block
      → (ts : List Tick) × (map_set heap (suc fuel) x y z block w
          ≡ some (changed heap w x y z block ts))
        × TicksInside w.map ts
  unfolding map_set set_with
  map_set_quiet fuel found differs =
      let (ts, e, h) = react_lem (map_set heap fuel) w.map.generating in
      (ts, rw (Inside-pos_valid w.map x y z i, found, other) (rw e (announce_lem ts)), h)
    where
      other : (old == block) ≡ false
      other = ground arith

-- Outside the map, and where the block is there already, nothing changes.
pub map_set_idle :
    (heap : Allocator) (w : World) (x y z block fuel : ℕ)
    → (pos_valid w.map x y z ≡ false) ⊎ (get w.map x y z ≡ some block)
    → map_set heap (suc fuel) x y z block w ≡ some w
unfolding map_set set_with
map_set_idle heap w x y z block fuel h = ground arith
