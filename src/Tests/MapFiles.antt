-- ===== src/Tests/MapFiles.antt =====
-- The map files of src/mapsave.c on concrete input.
use thirty.Buffer.McStr.{c_string}
use thirty.Prelude.{ℕ, ◌≡◌, refl, arith, true, false, some, List, [], ◌∷◌, replicate}
use thirty.Map.{Map, Tick, block_index}
use thirty.Map.Index.{IsWf}
use thirty.World.{World}
use thirty.World.Ticks.{TicksInside}
use thirty.Nbt.{nbt_add_tag, set_value, nbt_create, add_value, add_to}
use thirty.Nbt.Write.{tag_bytes}
use thirty.MapFile.{Gzip, map_tag, scheduled_ticks, map_save, map_load}
use thirty.MapFile.Back.{IsSavable, map_load-save}
use thirty.Tests.Heap.{zeroing}

-- In place of zlib, a code that leaves the data as it is.
abbrev stored : Gzip
stored = record { deflate = λ bs. bs; inflate = λ bs. bs; inflate-deflate = λ bs. refl }

-- A map with one tick, at the upper block of its second column.
abbrev room : Map
room = record {
  name = b'r' ∷ [];
  width = 2;
  depth = 2;
  height = 1;
  blocks = 1 ∷ 1 ∷ 0 ∷ 12 ∷ [];
  generating = false;
  modified = true;
  ticks = record { x = 1; y = 1; z = 0; time = 14 } ∷ [];
}

abbrev idle : World
idle = record { map = room; tick = 3; clients = [] }

abbrev zeros : List ℕ
zeros = replicate 16 0

room-IsWf : IsWf room
room-IsWf = record { filled = refl; small = omega arith; known = omega arith }

room-IsSavable : IsSavable (λ x. x) zeros room 10
unfolding c_string tag_bytes map_tag scheduled_ticks block_index nbt_add_tag set_value nbt_create
    add_value add_to
room-IsSavable = record {
  sides = (omega arith, omega arith, omega arith);
  blocks = omega arith;
  title = omega arith;
  few_ticks = omega arith;
  id = refl;
  room = omega arith;
}

map_load-save_example :
    (file : List ℕ) × (ts : List Tick) × (map_save zeroing (λ x. x) stored false zeros 10 room
      ≡ some (some file, record room { modified = false }))
    × (map_load zeroing (λ n. []) stored 32 0 (b'q' ∷ []) (some file) idle
        ≡ some (
            some
              (record room { name = b'q' ∷ []; modified = false; generating = false; ticks = ts })))
    × TicksInside room ts
map_load-save_example =
    map_load-save zeroing (λ n. []) (λ x. x) stored zeros (b'q' ∷ []) room 10 32 0 idle room-IsWf
      refl (omega arith) room-IsSavable (omega arith)
