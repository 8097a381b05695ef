-- ===== src/World.antt =====
-- What src/map.c changes when a block changes: the map, the ticks that wait, and the packets put
-- into the clients' output buffers; with the place and break functions of src/blocks.c.
pub mod Ticks
pub mod Quiet
pub mod Keeps
pub mod Defines
pub mod Safe
pub mod Depth
pub mod Behaviour
use thirty.Prelude.{
  ℕ, zero, suc, ◌+◌, ◌-◌, ◌*◌, ◌/◌, ◌%◌, Bool, true, false, not, ◌||◌, Option, none, some, List, [],
  ◌∷◌, ◌++◌, map, leb, ltb, ◌==◌, if◌then◌else◌, set,
}
use thirty.Prelude.Options.{◌>>=◌}
use thirty.Word.{size_mod, add_size, sub_size, mul_size, uint16}
use thirty.Buffer.{Allocator, Buffer}
use thirty.Buffer.Typed.{write_uint8, write_uint16be}
use thirty.Block.{
  air, sponge, grass, dirt, BlockInfo, blockinfo, PlaceFunc, place_sponge, place_liquid, BreakFunc,
  break_sponge, TickFunc, gravity, flow,
}
use thirty.Map.{Map, Tick, pos_valid, block_index, get, get_top_lit}

-- The map, `server.tick` and the output buffers of `server.clients`.
pub record World : Type 0 where
  pub map : Map
  pub tick : ℕ
  pub clients : List Buffer

-- A change of the world; `none` is undefined behaviour in the source.
abbrev pub Change : Type 0
Change = World → Option World

abbrev pub unchanged : Change
unchanged w = some w

-- `n` numbers from `lo` on.
abbrev pub count_up : ℕ → ℕ → List ℕ
count_up lo zero = []
count_up lo (suc n) = lo ∷ count_up (lo + 1) n

-- The values of `for (i = c - r; i <= c + r; i++)` over `size_t`: none if `c - r` wraps.
abbrev pub around : ℕ → ℕ → List ℕ
around c r =
    let lo = sub_size c r in
    let hi = add_size c r in if leb lo hi then count_up lo (hi - lo + 1) else []

abbrev pub for_each : List ℕ → (ℕ → Change) → Change
for_each [] body w = some w
for_each (i ∷ is) body w = body i w >>= for_each is body

abbrev pub for_box : ℕ → ℕ → ℕ → ℕ → (ℕ → ℕ → ℕ → Change) → Change
for_box x y z r body =
    for_each (around x r)
      (λ xx. for_each (around y r) (λ yy. for_each (around z r) (λ zz. body xx yy zz)))

unfoldable pub map_add_tick : ℕ → ℕ → ℕ → ℕ → Change
map_add_tick x y z until w =
    if pos_valid w.map x y z
    then (get w.map x y z >>= λ block. blockinfo block >>= λ info. elim info.tickfunc [
      | none ↦ some w
      | some _ ↦
          let t : Tick = record { x = x; y = y; z = z; time = add_size w.tick until } in
          let m : Map = w.map in some (record w { map = record m { ticks = m.ticks ++ (t ∷ []) } })
    ])
    else some w

-- `blockbreak_sponge`
unfoldable pub blockbreak_sponge : ℕ → ℕ → ℕ → Change
blockbreak_sponge x y z = for_box x y z 3 (λ xx yy zz w. get w.map xx yy zz >>= λ block.
    blockinfo block >>= λ info.
    if info.liquid then map_add_tick xx yy zz info.ticktime w else some w)

unfoldable pub run_break : Option BreakFunc → ℕ → ℕ → ℕ → Change
run_break none x y z w = some w
run_break (some break_sponge) x y z w = blockbreak_sponge x y z w

-- The place functions call `map_set`, which is handed in as `inner`.
module _ (inner : ℕ → ℕ → ℕ → ℕ → Change) where
  unfoldable pub blockplace_sponge : ℕ → ℕ → ℕ → Change
  blockplace_sponge x y z = for_box x y z 2 (λ xx yy zz w. get w.map xx yy zz >>= λ block.
      blockinfo block >>= λ info. if info.liquid then inner xx yy zz air w else some w)

  unfoldable pub blockplace_liquid : ℕ → ℕ → ℕ → Change
  blockplace_liquid x y z = for_box x y z 2 (λ xx yy zz w.
      get w.map xx yy zz >>= λ block. if block == sponge then inner x y z air w else some w)

  unfoldable pub run_place : Option PlaceFunc → ℕ → ℕ → ℕ → Change
  run_place none x y z w = some w
  run_place (some place_sponge) x y z w = blockplace_sponge x y z w
  run_place (some place_liquid) x y z w = blockplace_liquid x y z w

-- The ticks until the next multiple of `ticktime`; all in `uint64_t`.
abbrev pub tick_distance : ℕ → ℕ → ℕ
tick_distance tick ticktime =
    if ticktime == 0 then 0 else sub_size (mul_size (add_size (tick / ticktime) 1) ticktime) tick

abbrev pub Pos : Type 0
Pos = ℕ × ℕ × ℕ

-- The block and its six neighbours, in the order of `map_set`.
abbrev pub neighbourhood : ℕ → ℕ → ℕ → List Pos
neighbourhood x y z =
    (x, y, z)
    ∷ (add_size x 1, y, z)
    ∷ (sub_size x 1, y, z)
    ∷ (x, sub_size y 1, z)
    ∷ (x, add_size y 1, z)
    ∷ (x, y, sub_size z 1)
    ∷ (x, y, add_size z 1)
    ∷ []

unfoldable pub add_ticks : List Pos → ℕ → Change
add_ticks [] dist w = some w
add_ticks ((x, y, z) ∷ ps) dist w = map_add_tick x y z dist w >>= add_ticks ps dist

unfoldable pub store_block : ℕ → ℕ → ℕ → ℕ → World → World
store_block x y z block w =
    let m : Map = w.map in
    record w { map = record m { blocks = set m.blocks (block_index m x y z) block } }

-- The part of `map_set` under `!map->generating`, whose value is handed in.
unfoldable pub react : Bool → (ℕ → ℕ → ℕ → ℕ → Change) → ℕ → ℕ → ℕ → ℕ → ℕ → Change
react true inner x y z old block w = some w
react false inner x y z old block w = blockinfo old >>= λ old_info. blockinfo block >>= λ info.
    run_break old_info.breakfunc x y z w
    >>= run_place inner info.placefunc x y z
    >>= add_ticks (neighbourhood x y z) (tick_distance w.tick info.ticktime)

module _ (heap : Allocator) where
  -- The packet `packet_set_block_server`.
  unfoldable pub send_set_block : ℕ → ℕ → ℕ → ℕ → Buffer → Buffer
  send_set_block x y z block b =
      let b1 = write_uint8 heap b 6 in
      let b2 = write_uint16be heap b1 (uint16 x) in
      let b3 = write_uint16be heap b2 (uint16 y) in
      let b4 = write_uint16be heap b3 (uint16 z) in write_uint8 heap b4 block

  unfoldable pub announce : ℕ → ℕ → ℕ → Change
  announce x y z w = get w.map x y z >>= λ block.
      let m : Map = w.map in
      some (record w {
        map = record m { modified = true };
        clients = map (send_set_block x y z block) w.clients;
      })

  unfoldable pub set_with : (ℕ → ℕ → ℕ → ℕ → Change) → ℕ → ℕ → ℕ → ℕ → Change
  set_with inner x y z block w =
      if pos_valid w.map x y z
      then (get w.map x y z >>= λ old.
          if old == block
          then some w
          else (react w.map.generating inner x y z old block (store_block x y z block w)
              >>= announce x y z))
      else some w

  -- `map_set` and the calls of it that its place functions make, nested at most `fuel` deep; `none` also where
  -- that is not deep enough, which a fuel of two always is.
  unfoldable pub map_set : ℕ → ℕ → ℕ → ℕ → ℕ → Change
  map_set zero x y z block w = none
  map_set (suc fuel) x y z block w = set_with (map_set fuel) x y z block w
