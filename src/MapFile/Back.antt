-- ===== src/MapFile/Back.antt =====
-- A map that map_save of src/mapsave.c wrote is loaded again by map_load.
use thirty.Prelude.{
  ℕ, ◌+◌, ◌≤◌, ◌<◌, ◌^◌, ◌≡◌, refl, sym, ap, ◌∙◌, arith, true, false, none, some, List, ◌++◌,
  length, drop, take_all, length-replicate, inr, if◌then◌else◌,
}
use thirty.Prelude.Options.{◌>>=◌}
use thirty.Word.{mul_size}
use thirty.Buffer.{Allocator, Buffer, size, allocate_memory, seek, write}
use thirty.Buffer.Valid.{IsValid, HasRoom, seek_within}
use thirty.Buffer.Transfer.{Appended, write-Appended}
use thirty.Map.{Map, Tick}
use thirty.Map.Index.{IsWf, volume}
use thirty.World.{World}
use thirty.World.Ticks.{TicksInside}
use thirty.Nbt.{Tag, nbt_write}
use thirty.Nbt.Write.{tag_bytes}
use thirty.Nbt.Layout.{nbt_write-Appended}
use thirty.Buffer.Stands.{Stands}
use thirty.Nbt.Read.Stands.{Gives}
use thirty.Nbt.Read.Readable.{IsNamed, compact, cost}
use thirty.Nbt.Read.Tags.{named-Gives}
use thirty.Nbt.Read.RoundTrip.{named-IsShort, split_at}
use thirty.MapFile.{Gzip, map_tag, map_save, map_load, map_of_tag, map_of_root}
use thirty.MapFile.Tags.{compact-map_tag, cost-map_tag, map_tag-IsNamed}
use thirty.MapFile.Load.{volume_lem, map_of_stored_tag}

-- The bytes of a file stand at the start of the buffer that they were decompressed into.
loaded_lem :
    (heap : Allocator) (bytes bs rest : List ℕ)
    → bytes ≡ bs ++ rest
    → length bytes < 2 ^ 62
    → let d = seek (write heap (allocate_memory 0 true) bytes).1 0 in IsValid d × Stands d bs
unfolding allocate_memory
loaded_lem heap bytes bs rest e small =
    let out = allocate_memory 0 true in
    let v : IsValid out = record { within = omega arith; small = omega arith; allocated = refl } in
    let d = (write heap out bytes).1 in
    let a : Appended out bytes d =
      (write-Appended heap bytes v (omega (arith, small), inr refl)).1 in
    let whole : d.bytes ≡ bytes =
      sym (take_all d.offset d.bytes (omega (arith, a.moved, a.no_larger))) ∙ a.holds in
    rw (seek_within d 0 (omega arith)) (
      record { within = omega arith; small = a.valid.small; allocated = a.valid.allocated },
      record { rest = rest; ahead = whole ∙ e },
    )

-- What memory and the file format have room for.
pub record IsSavable (widen : ℕ → ℕ) (uuid : List ℕ) (m : Map) (now : ℕ) : Type 0 where
  pub sides : (m.width < 2 ^ 15) × (m.depth < 2 ^ 15) × (m.height < 2 ^ 15)
  pub blocks : length m.blocks < 2 ^ 31
  pub title : length m.name < 2 ^ 15
  pub few_ticks : length m.ticks < 2 ^ 31
  pub id : length uuid ≡ 16
  pub room : volume m + length (tag_bytes widen (map_tag uuid m now)) < 2 ^ 62

-- The bytes that map_save writes begin with those of the tag.
saved_lem :
    (heap : Allocator) (widen : ℕ → ℕ) (uuid : List ℕ) (m : Map) (now : ℕ)
    → IsWf m
    → IsSavable widen uuid m now
    → IsNamed (map_tag uuid m now)
    → (c : Buffer) × (nbt_write heap widen
          (map_tag uuid m now)
          (allocate_memory (mul_size (mul_size m.width m.depth) m.height) true)
        ≡ some c)
      × (c.bytes ≡ tag_bytes widen (map_tag uuid m now) ++ drop c.offset c.bytes)
      × (length c.bytes < 2 ^ 62)
unfolding allocate_memory
saved_lem heap widen uuid m now wf s named =
    let n = mul_size (mul_size m.width m.depth) m.height in
    let out = allocate_memory n true in
    let all = volume_lem m wf s.sides.0 s.sides.1 in
    let held : size out ≡ volume m = length-replicate n 0 ∙ all in
    let v : IsValid out = record {
      within = omega arith;
      small = omega (arith, held, wf.small);
      allocated = refl;
    } in
    let room : HasRoom out (length (tag_bytes widen (map_tag uuid m now))) =
      (omega (arith, held, s.room), inr refl) in
    let (c, wrote, a) =
      nbt_write-Appended heap widen (map_tag uuid m now) out
        (named-IsShort (map_tag uuid m now) named) v room in
    (
      c,
      wrote,
      split_at c.offset c.bytes ∙ ap (λ t. t ++ drop c.offset c.bytes) a.holds,
      omega (arith, a.no_larger, held, s.room),
    )

-- The file leads to the tag without its free slots.
loaded_tag :
    (heap : Allocator) (fresh : ℕ → List ℕ) (widen : ℕ → ℕ) (zlib : Gzip) (name : List ℕ) (t : Tag)
    (fuel e : ℕ) (w : World) (bytes rest : List ℕ)
    → IsNamed t
    → cost t ≤ fuel
    → bytes ≡ tag_bytes widen t ++ rest
    → length bytes < 2 ^ 62
    → map_load heap fresh zlib fuel e name (some (zlib.deflate bytes)) w
      ≡ map_of_tag name (compact t) w
unfolding Gives map_load
loaded_tag heap fresh widen zlib name t fuel e w bytes rest named enough whole small =
    let (valid, stands) = loaded_lem heap bytes (tag_bytes widen t) rest whole small in
    let d = seek (write heap (allocate_memory 0 true) bytes).1 0 in
    let back = named-Gives fresh widen t fuel e named enough d valid stands in
    rw (zlib.inflate-deflate bytes) (ap (λ o. o >>= λ (root, e', c). map_of_root name root w) back)

map_save_lem :
    (heap : Allocator) (widen : ℕ → ℕ) (zlib : Gzip) (uuid : List ℕ) (now : ℕ) (m : Map)
    (c : Buffer)
    → m.modified ≡ true
    → nbt_write heap widen
        (map_tag uuid m now)
        (allocate_memory (mul_size (mul_size m.width m.depth) m.height) true)
      ≡ some c
    → map_save heap widen zlib false uuid now m
      ≡ some (some (zlib.deflate c.bytes), record m { modified = false })
unfolding map_save
map_save_lem heap widen zlib uuid now m c changed wrote =
    ap
      (λ b.
        if b
        then (nbt_write heap widen (map_tag uuid m now)
              (allocate_memory (mul_size (mul_size m.width m.depth) m.height) true)
            >>= λ d. some (some (zlib.deflate d.bytes), record m { modified = false }))
        else some (none, m))
      changed
    ∙ ap (λ o. o >>= λ d. some (some (zlib.deflate d.bytes), record m { modified = false })) wrote

-- A well-formed map that was modified, whose ticks stand inside it and which the format has room for, is
-- saved with saving enabled, and loading the file at any later tick, with 32 of fuel or more, gives a
-- map under the given name with the same sides and the same blocks, whose ticks stand inside it.
pub map_load-save :
    (heap : Allocator) (fresh : ℕ → List ℕ) (widen : ℕ → ℕ) (zlib : Gzip) (uuid name : List ℕ)
    (m : Map) (now fuel e : ℕ) (w : World)
    → IsWf m
    → m.modified ≡ true
    → TicksInside m m.ticks
    → IsSavable widen uuid m now
    → 32 ≤ fuel
    → (file : List ℕ) × (ts : List Tick) × (map_save heap widen zlib false uuid now m
        ≡ some (some file, record m { modified = false }))
      × (map_load heap fresh zlib fuel e name (some file) w
          ≡ some
              (some (record m { name = name; modified = false; generating = false; ticks = ts })))
      × TicksInside m ts
map_load-save heap fresh widen zlib uuid name m now fuel e w wf changed inside s enough =
    let t = map_tag uuid m now in
    let named = map_tag-IsNamed uuid m now (omega (arith, s.id)) s.title s.blocks s.few_ticks in
    let (c, wrote, whole, small) = saved_lem heap widen uuid m now wf s named in
    let (ts, found, h) =
      map_of_stored_tag uuid name m now w wf s.sides.0 s.sides.1 s.sides.2 inside in
    let few : cost t ≤ fuel = omega (arith, cost-map_tag uuid m now, enough) in
    let loaded =
      loaded_tag heap fresh widen zlib name t fuel e w c.bytes (drop c.offset c.bytes) named few
        whole small in
    (
      zlib.deflate c.bytes,
      ts,
      map_save_lem heap widen zlib uuid now m c changed wrote,
      loaded ∙ (ap (λ r. map_of_tag name r w) (compact-map_tag uuid m now) ∙ found),
      h,
    )
