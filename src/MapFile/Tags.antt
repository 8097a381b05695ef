-- ===== src/MapFile/Tags.antt =====
-- The tags that map_save of src/mapsave.c writes, and what map_load finds in them.
use thirty.Prelude.{
  ◌++◌, true, ℕ, ◌≤◌, ◌<◌, ◌^◌, ◌≡◌, refl, arith, false, some, List, [], ◌∷◌, length, map,
  length-map, All,
}
use thirty.Text.{codes}
use thirty.Word.{uint16, uint32, sub_size}
use thirty.Buffer.McStr.{c_string}
use thirty.Map.{Map, Tick, block_index}
use thirty.World.{World}
use thirty.Nbt.{
  Tag, tag, done, slot, tag_byte, tag_short, tag_string, tag_byte_array, tag_int_array,
  tag_compound, nbt_create, set_value, add_to, add_value, nbt_add_tag, get_in, get_value,
  nbt_get_tag, is_terminated,
}
use thirty.Nbt.Read.Readable.{
  IsReadable, IsNamed, AreNamed, AreItems, compact, compact_value, compact_slots, cost, cost_value,
  cost_slots,
}
use thirty.MapFile.{map_tag, map_of_tag, load_blocks, load_sizes, load_metadata, ticks_from}

abbrev pub indices_of : Map → List ℕ
indices_of m = map (λ t. uint32 (block_index m t.x t.y t.z)) m.ticks

abbrev pub times_of : Map → ℕ → List ℕ
times_of m now = map (λ t. uint32 (sub_size t.time now)) m.ticks

-- The tags without their free slots.
abbrev pub stored_tag : List ℕ → Map → ℕ → Tag
stored_tag uuid m now =
    let ticks = tag (some (codes "ScheduledTicks")) false (
      tag_compound (
        slot (tag (some (codes "Indices")) false (tag_int_array (indices_of m)))
          (slot (tag (some (codes "Times")) false (tag_int_array (times_of m now))) done))) in
    let software_data = tag (some (codes "Thirty")) false (tag_compound (slot ticks done)) in
    let metadata = tag (some (codes "Metadata")) false (tag_compound (slot software_data done)) in
    tag (some (codes "ClassicWorld")) false (
      tag_compound (
        slot (tag (some (codes "FormatVersion")) false (tag_byte 1)) (
          slot (tag (some (codes "Name")) false (tag_string (c_string m.name))) (
            slot (tag (some (codes "UUID")) false (tag_byte_array uuid)) (
              slot (tag (some (codes "X")) false (tag_short (uint16 m.width))) (
                slot (tag (some (codes "Y")) false (tag_short (uint16 m.depth))) (
                  slot (tag (some (codes "Z")) false (tag_short (uint16 m.height))) (
                    slot (tag (some (codes "BlockArray")) false (tag_byte_array m.blocks))
                      (slot metadata done)))))))))

-- A text with a 0 behind it.
c_string-closed : (s : List ℕ) → c_string (c_string s ++ (0 ∷ [])) ≡ c_string s
unfolding c_string
c_string-closed [] = refl
c_string-closed (c ∷ cs) = ground (arith, c_string-closed cs)

is_terminated-closed : (s : List ℕ) → is_terminated (s ++ (0 ∷ [])) ≡ true
unfolding is_terminated
is_terminated-closed [] = refl
is_terminated-closed (c ∷ cs) = ground (arith, is_terminated-closed cs)

length-c_string : (s : List ℕ) → length (c_string s) ≤ length s
unfolding c_string
length-c_string [] = omega arith
length-c_string (c ∷ cs) = ground (arith, length-c_string cs)

pub compact-map_tag :
    (uuid : List ℕ) (m : Map) (now : ℕ) → compact (map_tag uuid m now) ≡ stored_tag uuid m now
unfolding map_tag compact compact_value compact_slots nbt_create set_value add_to add_value
    nbt_add_tag
compact-map_tag uuid m now = rw (c_string-closed m.name) refl

pub cost-map_tag : (uuid : List ℕ) (m : Map) (now : ℕ) → cost (map_tag uuid m now) ≤ 32
unfolding map_tag cost cost_value cost_slots nbt_create set_value add_to add_value nbt_add_tag
cost-map_tag uuid m now = omega arith

words_small :
    (ticks : List Tick) (f : Tick → ℕ) → All (λ i. i < 256 ^ 4) (map (λ t. uint32 (f t)) ticks)
words_small [] f = tt
words_small (t ∷ ts) f = (omega arith, words_small ts f)

pub map_tag-IsNamed :
    (uuid : List ℕ) (m : Map) (now : ℕ)
    → length uuid < 2 ^ 31
    → length m.name < 2 ^ 15
    → length m.blocks < 2 ^ 31
    → length m.ticks < 2 ^ 31
    → IsNamed (map_tag uuid m now)
unfolding map_tag IsNamed AreNamed AreItems IsReadable nbt_create set_value add_to add_value
    nbt_add_tag c_string
map_tag-IsNamed uuid m now u n b t =
    let index = λ (t : Tick). block_index m t.x t.y t.z in
    let time = λ (t : Tick). sub_size t.time now in
    let is_few : length (indices_of m) < 2 ^ 31 =
      omega (arith, length-map (λ (t : Tick). uint32 (index t)) m.ticks) in
    let ts_few : length (times_of m now) < 2 ^ 31 =
      omega (arith, length-map (λ (t : Tick). uint32 (time t)) m.ticks) in
    ground (
      arith,
      c_string-closed m.name,
      length-c_string m.name,
      is_terminated-closed (c_string m.name),
      is_few,
      ts_few,
      words_small m.ticks index,
      words_small m.ticks time,
    )

pub map_of_tag-stored_tag :
    (uuid name : List ℕ) (m : Map) (now : ℕ) (w : World)
    → map_of_tag name (stored_tag uuid m now) w
      ≡ load_blocks name
          (stored_tag uuid m now)
          (uint16 m.width)
          (uint16 m.depth)
          (uint16 m.height)
          m.blocks
          w
unfolding map_of_tag load_sizes nbt_get_tag get_value get_in
map_of_tag-stored_tag uuid name m now w = refl

pub load_metadata-stored_tag :
    (uuid : List ℕ) (m : Map) (now : ℕ) (w : World)
    → load_metadata (stored_tag uuid m now) w
      ≡ ticks_from (some (indices_of m)) (some (times_of m now)) w
unfolding load_metadata nbt_get_tag get_value get_in
load_metadata-stored_tag uuid m now w = refl
