-- ===== src/Ticking.antt =====
-- `map_tick` of src/map.c, but for the image of the map: random ticks, then the scheduled ones. `rounds` bounds
-- each loop of the random numbers, `fuel` the nesting of `map_set`.
pub mod Keeps
pub mod Whole
use thirty.Prelude.{
  ℕ, zero, suc, ◌+◌, ◌*◌, ◌/◌, Option, none, some, List, get_elem?, ltb, if◌then◌else◌,
}
use thirty.Prelude.Options.{◌>>=◌}
use thirty.Word.{mul_size}
use thirty.Buffer.{Allocator}
use thirty.Block.{BlockInfo, blockinfo, RandomTickFunc, grass_die, grass_grow, tree_grow}
use thirty.Map.{Map, Tick, get}
use thirty.World.{World, Change}
use thirty.World.Behaviour.{blocktick_grass_die, blocktick_grass_grow, run_tick}
use thirty.Server.{remove_at}
use thirty.Rng.{rng_next}
use thirty.Tree.{Growth, blocktick_tree_grow}

abbrev pub with_seed : Change → Growth
with_seed c (w, seed) = c w >>= λ w'. some (w', seed)

abbrev pub repeat_ : ℕ → Growth → Growth
repeat_ zero g ws = some ws
repeat_ (suc n) g ws = g ws >>= repeat_ n g

-- The scheduled tick at `i` is taken out.
abbrev pub drop_tick : ℕ → World → World
drop_tick i w = let m : Map = w.map in record w { map = record m { ticks = remove_at i m.ticks } }

module _ (heap : Allocator) (fuel rounds : ℕ) where
  unfoldable pub run_random_tick : Option RandomTickFunc → ℕ → ℕ → ℕ → ℕ → Growth
  run_random_tick none x y z block ws = some ws
  run_random_tick (some grass_die) x y z block ws =
      with_seed (blocktick_grass_die heap fuel x y z block) ws
  run_random_tick (some grass_grow) x y z block ws =
      with_seed (blocktick_grass_grow heap fuel x y z block) ws
  run_random_tick (some tree_grow) x y z block ws =
      blocktick_tree_grow heap fuel rounds x y z block ws

  unfoldable pub random_tick : Growth
  random_tick (w, seed) = rng_next rounds w.map.width seed >>= λ (x, seed1).
      rng_next rounds w.map.depth seed1 >>= λ (y, seed2).
      rng_next rounds w.map.height seed2 >>= λ (z, seed3). get w.map x y z >>= λ block.
      blockinfo block >>= λ info. run_random_tick info.random_tickfunc x y z block (w, seed3)

  -- The loop over the scheduled ticks from index `i` on, in at most so many rounds. A round that takes a tick
  -- out moves on all the same, and the ticks that a tick adds are at the end of the list. `none` also where the
  -- rounds are too few.
  unfoldable pub run_ticks : ℕ → ℕ → Change
  run_ticks zero i w = none
  run_ticks (suc n) i w = elim (get_elem? w.map.ticks i) [
    | none ↦ some w
    | some t ↦
        let next = run_ticks n (i + 1) in
        if ltb w.tick t.time
        then next w
        else (get w.map t.x t.y t.z >>= λ block. blockinfo block >>= λ info.
            run_tick heap fuel info.tickfunc t.x t.y t.z block w >>= λ w'. next (drop_tick i w'))
  ]

  unfoldable pub map_tick : ℕ → Growth
  map_tick n (w, seed) =
      let m : Map = w.map in
      let random_ticks = mul_size (mul_size m.width m.depth) m.height / (16 * 16 * 16) in
      repeat_ random_ticks random_tick (w, seed) >>= with_seed (run_ticks n 0)
