-- ===== src/MapFile.antt =====
-- Map files, src/mapsave.c: the tags of a map, and the map of the tags. What zlib and the file do
-- between map_save and map_load is a pair of functions. A NULL result is `some none`; `none` is
-- undefined behaviour in the source.
pub mod Tags
pub mod Load
pub mod Back
use thirty.Prelude.{
  ℕ, zero, suc, ◌+◌, ◌-◌, ◌*◌, ◌^◌, ◌≡◌, Bool, true, false, Option, none, some, List, [], ◌∷◌,
  length, take, map, ltb, leb, ◌==◌, if◌then◌else◌,
}
use thirty.Prelude.Options.{◌>>=◌}
use thirty.Text.{codes}
use thirty.Word.{uint16, uint32, mul_size, sub_size}
use thirty.Buffer.{Allocator, Buffer, allocate_memory, seek, write}
use thirty.Map.{Map, Tick, create, block_index, index_to_pos}
use thirty.World.{World, Change, map_add_tick}
use thirty.Nbt.{
  Tag, tag, Value, tag_byte, tag_short, tag_byte_array, tag_int_array, tag_compound, nbt_create,
  nbt_create_compound, nbt_create_string, nbt_create_bytearray, nbt_create_intarray, nbt_set_int8,
  nbt_set_int16, nbt_add_tag, nbt_get_tag, nbt_write,
}
use thirty.Nbt.Read.{nbt_read}

-- zlib and the file: decompressing what was compressed gives it back.
pub record Gzip : Type 0 where
  pub deflate : List ℕ → List ℕ
  pub inflate : List ℕ → List ℕ
  pub inflate-deflate : (bs : List ℕ) → inflate (deflate bs) ≡ bs

unfoldable pub scheduled_ticks : Map → ℕ → Tag
scheduled_ticks m now =
    let indices = map (λ t. uint32 (block_index m t.x t.y t.z)) m.ticks in
    let times = map (λ t. uint32 (sub_size t.time now)) m.ticks in
    nbt_add_tag
      (nbt_add_tag (nbt_create_compound (some (codes "ScheduledTicks")))
        (nbt_create_intarray (some (codes "Indices")) indices))
      (nbt_create_intarray (some (codes "Times")) times)

-- The tags of a map at the tick `now`. The array `uuid` is not initialised.
unfoldable pub map_tag : List ℕ → Map → ℕ → Tag
unfolding scheduled_ticks
map_tag uuid m now =
    let create = λ (name : List ℕ). nbt_create (some name) in
    let software_data =
      nbt_add_tag (nbt_create_compound (some (codes "Thirty"))) (scheduled_ticks m now) in
    let metadata = nbt_add_tag (nbt_create_compound (some (codes "Metadata"))) software_data in
    let t0 = nbt_create_compound (some (codes "ClassicWorld")) in
    let t1 = nbt_add_tag t0 (nbt_set_int8 (create (codes "FormatVersion")) 1) in
    let t2 = nbt_add_tag t1 (nbt_create_string (some (codes "Name")) m.name) in
    let t3 = nbt_add_tag t2 (nbt_create_bytearray (some (codes "UUID")) uuid) in
    let t4 = nbt_add_tag t3 (nbt_set_int16 (create (codes "X")) (uint16 m.width)) in
    let t5 = nbt_add_tag t4 (nbt_set_int16 (create (codes "Y")) (uint16 m.depth)) in
    let t6 = nbt_add_tag t5 (nbt_set_int16 (create (codes "Z")) (uint16 m.height)) in
    let t7 = nbt_add_tag t6 (nbt_create_bytearray (some (codes "BlockArray")) m.blocks) in
    nbt_add_tag t7 metadata

-- The contents of the file that map_save writes, and the map afterwards: nothing is written for a map
-- that is not modified or with saving disabled. All of the buffer's block is compressed.
unfoldable pub map_save :
    Allocator → (ℕ → ℕ) → Gzip → Bool → List ℕ → ℕ → Map → Option (Option (List ℕ) × Map)
map_save heap widen zlib disable_save uuid now m =
    let out = allocate_memory (mul_size (mul_size m.width m.depth) m.height) true in
    let saved = nbt_write heap widen (map_tag uuid m now) out >>= λ b.
    some (some (zlib.deflate b.bytes), record m { modified = false }) in
    if m.modified then (if disable_save then some (none, m) else saved) else some (none, m)

-- `(size_t)` of a signed 16-bit and 32-bit number.
abbrev pub extend16 : ℕ → ℕ
extend16 n = if ltb n (2 ^ 15) then n else 2 ^ 64 - 2 ^ 16 + n

abbrev pub extend32 : ℕ → ℕ
extend32 n = if ltb n (2 ^ 31) then n else 2 ^ 64 - 2 ^ 32 + n

-- The values of a tag that was found, by its type.
abbrev pub as_byte : Option Tag → Option ℕ
as_byte (some (tag name bare (tag_byte n))) = some n
as_byte _ = none

abbrev pub as_short : Option Tag → Option ℕ
as_short (some (tag name bare (tag_short n))) = some n
as_short _ = none

abbrev pub as_bytes : Option Tag → Option (List ℕ)
as_bytes (some (tag name bare (tag_byte_array bs))) = some bs
as_bytes _ = none

abbrev pub as_ints : Option Tag → Option (List ℕ)
as_ints (some (tag name bare (tag_int_array is))) = some is
as_ints _ = none

abbrev pub as_compound : Option Tag → Option Tag
as_compound (some (tag name bare (tag_compound ts))) = some (tag name bare (tag_compound ts))
as_compound _ = none

-- A tag by its name, where the tag to search may be NULL.
abbrev pub get_in_tag : Option Tag → List ℕ → Option (Option Tag)
get_in_tag none n = some none
get_in_tag (some t) n = nbt_get_tag t n

-- A map of no width or depth makes the code divide by zero.
unfoldable pub load_ticks : List ℕ → List ℕ → Change
load_ticks (i ∷ is) (t ∷ ts) w =
    let (x, y, z) = index_to_pos w.map (extend32 i) in
    if mul_size w.map.width w.map.depth == 0
    then none
    else (map_add_tick x y z (extend32 t) w >>= load_ticks is ts)
load_ticks _ _ w = some w

abbrev pub ticks_from : Option (List ℕ) → Option (List ℕ) → Change
ticks_from (some is) (some ts) w = if length is == length ts then load_ticks is ts w else some w
ticks_from _ _ w = some w

unfoldable pub load_metadata : Tag → Change
load_metadata root w = nbt_get_tag root (codes "Metadata") >>= λ metadata.
    get_in_tag (as_compound metadata) (codes "Thirty") >>= λ software_data.
    get_in_tag software_data (codes "ScheduledTicks") >>= λ ticks.
    get_in_tag ticks (codes "Indices") >>= λ indices.
    get_in_tag ticks (codes "Times") >>= λ times. ticks_from (as_ints indices) (as_ints times) w

-- The map of the given sides. The source copies as many bytes as the map has blocks, however many the
-- array holds. A side that was negative is beyond every allocation.
unfoldable pub load_blocks : List ℕ → Tag → ℕ → ℕ → ℕ → List ℕ → World → Option (Option Map)
load_blocks name root x y z blocks w =
    let m = create name (extend16 x) (extend16 y) (extend16 z) in
    let n = length m.blocks in
    if ltb x (2 ^ 15)
    then (if ltb y (2 ^ 15)
        then (if ltb z (2 ^ 15)
            then (if leb n (length blocks)
                then (load_metadata root (record w { map = record m { blocks = take n blocks } })
                    >>= λ w'. let m' : Map = w'.map in some (some (record m' { modified = false })))
                else none)
            else none)
        else none)
    else none

abbrev pub sizes_and_blocks :
    Option ℕ
    → Option ℕ
    → Option ℕ
    → Option (List ℕ)
    → (ℕ → ℕ → ℕ → List ℕ → Option (Option Map))
    → Option (Option Map)
sizes_and_blocks (some x) (some y) (some z) (some bs) k = k x y z bs
sizes_and_blocks _ _ _ _ k = some none

unfoldable pub load_sizes : List ℕ → Tag → World → Option (Option Map)
load_sizes name root w = nbt_get_tag root (codes "X") >>= λ x. nbt_get_tag root (codes "Y") >>= λ y.
    nbt_get_tag root (codes "Z") >>= λ z. nbt_get_tag root (codes "BlockArray") >>= λ blocks.
    sizes_and_blocks (as_short x) (as_short y) (as_short z) (as_bytes blocks)
      (λ x' y' z' bs. load_blocks name root x' y' z' bs w)

abbrev pub of_version : Option ℕ → Option (Option Map) → Option (Option Map)
of_version none loaded = some none
of_version (some v) loaded = if v == 1 then loaded else some none

-- The map of a tag; its ticks are scheduled from `server.tick` on.
unfoldable pub map_of_tag : List ℕ → Tag → World → Option (Option Map)
map_of_tag name root w = nbt_get_tag root (codes "FormatVersion") >>= λ v.
    of_version (as_byte v) (load_sizes name root w)

abbrev pub map_of_root : List ℕ → Option Tag → World → Option (Option Map)
map_of_root name none w = none
map_of_root name (some root) w = map_of_tag name root w

-- The file's contents, decompressed into a growing buffer, as a map.
unfoldable pub map_load :
    Allocator → (ℕ → List ℕ) → Gzip → ℕ → ℕ → List ℕ → Option (List ℕ) → World → Option (Option Map)
map_load heap fresh zlib fuel expected name none w = some none
map_load heap fresh zlib fuel expected name (some file) w =
    let b = seek (write heap (allocate_memory 0 true) (zlib.inflate file)).1 0 in
    nbt_read fresh fuel true expected b >>= λ (root, e, c). map_of_root name root w
