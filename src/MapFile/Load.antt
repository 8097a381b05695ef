-- ===== src/MapFile/Load.antt =====
-- map_load of src/mapsave.c on the tags that map_save writes: the ticks, the blocks, the map.
use thirty.Prelude.{
  ℕ, ◌*◌, ◌≤◌, ◌<◌, ◌^◌, ◌≡◌, ◌≢◌, refl, sym, ap, ◌∙◌, arith, true, false, some, List, [], ◌∷◌,
  length, map, take_all, length-map, length-replicate, ◌==◌,
}
use thirty.Prelude.Options.{◌>>=◌}
use native.Mathlib.Nat.{mul-le-mul_left}
use thirty.Block.{air}
use thirty.Word.{uint16, uint32, mul_size, sub_size}
use thirty.Map.{Map, Tick, create, block_index, index_to_pos}
use thirty.Map.Index.{IsWf, volume}
use thirty.World.{World}
use thirty.World.Ticks.{with_ticks, TicksInside, Schedules, map_add_tick-Schedules}
use thirty.Nbt.{Tag}
use thirty.MapFile.{
  map_of_tag, load_blocks, load_metadata, load_ticks, ticks_from, extend32, extend16,
}
use thirty.MapFile.Tags.{
  stored_tag, indices_of, times_of, map_of_tag-stored_tag, load_metadata-stored_tag,
}

-- Scheduling the saved ticks never fails on a map with a width and a depth.
load_ticks-Schedules :
    (w : World) (wf : IsWf w.map) (is ts : List ℕ)
    → mul_size w.map.width w.map.depth ≢ 0
    → Schedules w wf (load_ticks is ts)
unfolding load_ticks
load_ticks-Schedules w wf [] ts some_area us h = (us, refl, h)
load_ticks-Schedules w wf (i ∷ is) [] some_area us h = (us, refl, h)
load_ticks-Schedules w wf (i ∷ is) (t ∷ ts) some_area us h =
    let (x, y, z) = index_to_pos (record w.map { ticks = us }) (extend32 i) in
    let (us1, e, h1) = map_add_tick-Schedules w wf x y z (extend32 t) us h in
    let (us2, f, h2) = load_ticks-Schedules w wf is ts some_area us1 h1 in
    let area : (mul_size w.map.width w.map.depth == 0) ≡ false = ground (arith, some_area) in
    (us2, rw (area, e) f, h2)

product_small : (a b : ℕ) → a < 2 ^ 15 → b < 2 ^ 15 → a * b < 2 ^ 30
product_small a b h k =
    omega (arith, mul-le-mul_left a (let k' : b ≤ 2 ^ 15 = omega (arith, k) in k'))

product_pos : (a b : ℕ) → 0 < a → 0 < b → a * b ≢ 0
product_pos a b h k e = omega (arith, e, mul-le-mul_left a (let k' : 1 ≤ b = k in k'))

short_kept : (n : ℕ) → n < 2 ^ 15 → extend16 (uint16 n) ≡ n
short_kept n h = ground (arith, h)

-- The product of the sides does not wrap.
pub volume_lem :
    (m : Map)
    → IsWf m
    → m.width < 2 ^ 15
    → m.depth < 2 ^ 15
    → mul_size (mul_size m.width m.depth) m.height ≡ volume m
volume_lem m wf x y =
    let area : mul_size m.width m.depth ≡ m.width * m.depth =
      omega (arith, product_small m.width m.depth x y) in
    ap (λ a. mul_size a m.height) area ∙ omega (arith, wf.small)

module _ (uuid name : List ℕ) (m : Map) (now : ℕ) (w : World) (wf : IsWf m) (x : m.width < 2 ^ 15)
    (y : m.depth < 2 ^ 15) (z : m.height < 2 ^ 15) (inside : TicksInside m m.ticks) where
  -- The world in which the ticks are scheduled.
  abbrev emptied : World
  emptied = record w { map = record (create name m.width m.depth m.height) { blocks = m.blocks } }

  emptied-IsWf : IsWf emptied.map
  unfolding create
  emptied-IsWf = record { filled = wf.filled; small = wf.small; known = wf.known }

  blocks_fit : length (create name m.width m.depth m.height).blocks ≡ length m.blocks
  unfolding create
  blocks_fit =
      length-replicate (mul_size (mul_size m.width m.depth) m.height) air
      ∙ (volume_lem m wf x y ∙ sym wf.filled)

  load_blocks_kept :
      (root : Tag)
      → load_blocks name root (uint16 m.width) (uint16 m.depth) (uint16 m.height) m.blocks w ≡ (
          load_metadata root emptied >>= λ w'.
          let m' : Map = w'.map in some (some (record m' { modified = false })))
  unfolding load_blocks
  load_blocks_kept root =
      rw (short_kept m.width x, short_kept m.depth y, short_kept m.height z)
        (ground (
          arith,
          blocks_fit,
          take_all (length (create name m.width m.depth m.height).blocks) m.blocks
              (omega (arith, blocks_fit)),
          x,
          y,
          z,
        ))

  saved_ticks :
      (f g : Tick → ℕ) (ticks : List Tick)
      → TicksInside m ticks
      → (ts : List Tick) × (load_ticks (map f ticks) (map g ticks) emptied
          ≡ some (with_ticks emptied ts))
        × TicksInside m ts
  unfolding create load_ticks
  saved_ticks f g [] h = ([], refl, tt)
  saved_ticks f g (t ∷ ticks) h =
      let area : mul_size m.width m.depth ≢ 0 = λ e.
        product_pos m.width m.depth (omega arith) (omega arith)
          (omega (arith, e, product_small m.width m.depth x y)) in
      load_ticks-Schedules emptied emptied-IsWf (map f (t ∷ ticks)) (map g (t ∷ ticks)) area [] tt

  -- The map of the stored tag.
  pub map_of_stored_tag :
      (ts : List Tick) × (map_of_tag name (stored_tag uuid m now) w
        ≡ some (some (record m { name = name; modified = false; generating = false; ticks = ts })))
      × TicksInside m ts
  unfolding create
  map_of_stored_tag =
      let f = λ (t : Tick). uint32 (block_index m t.x t.y t.z) in
      let g = λ (t : Tick). uint32 (sub_size t.time now) in
      let (ts, e, h) = saved_ticks f g m.ticks inside in
      let same : (length (indices_of m) == length (times_of m now)) ≡ true =
        ground (arith, length-map f m.ticks, length-map g m.ticks) in
      let all : ticks_from (some (indices_of m)) (some (times_of m now)) emptied
          ≡ some (with_ticks emptied ts) =
        rw same e in
      (
        ts,
        map_of_tag-stored_tag uuid name m now w
            ∙ (load_blocks_kept (stored_tag uuid m now)
                ∙ ap
                    (λ o. o >>= λ w'.
                      let m' : Map = w'.map in some (some (record m' { modified = false })))
                    (load_metadata-stored_tag uuid m now emptied ∙ all)),
        h,
      )
