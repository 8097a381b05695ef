-- ===== src/Tests/Tags.antt =====
-- The named tags of src/nbt.c on concrete input.
use thirty.Prelude.{
  ◌≤◌, ℕ, ◌≡◌, ◌≢◌, List, refl, ap, inr, arith, none, some, [], ◌∷◌, length, true, false,
}
use thirty.Text.{codes, str_eq}
use thirty.Buffer.{Buffer, live, seek}
use thirty.Buffer.Valid.{IsValid, HasRoom}
use thirty.Buffer.Transfer.{Appended}
use thirty.Nbt.{
  tag_list, nbt_add_tag, Slots, free, tag_short, nbt_get_tag, Tag, tag, tag_byte, tag_compound,
  tag_string, is_terminated, nbt_create, nbt_create_compound, nbt_set_int16, nbt_write, done, slot,
}
use thirty.Nbt.Write.{tag_bytes}
use thirty.Nbt.Layout.{IsShort, nbt_write-Appended}
use thirty.Nbt.Lookup.{HaveOtherNames, nbt_get_tag-add_tag}
use thirty.Buffer.McStr.{c_string}
use thirty.Nbt.Read.{nbt_read}
use thirty.Nbt.Read.Readable.{
  IsReadable, AreItems, AreNamed, IsNamed, HasNoList, compact, after_tag, cost,
}
use thirty.Nbt.Read.RoundTrip.{nbt_read-write}
use thirty.Nbt.Add.{add_all, packed, nbt_add_tag-create_compound}
use thirty.Tests.Heap.{zeroing}

abbrev output : Buffer
output = record { owned = true; grows = true; block = live; bytes = 0 ∷ []; offset = 0 }

output-IsValid : IsValid output
output-IsValid = record { within = omega arith; small = omega arith; allocated = refl }

abbrev height_tag : Tag
height_tag = nbt_set_int16 (nbt_create (some (codes "Y"))) 64

abbrev world_tag : Tag
world_tag = tag (some (codes "W")) false (
    tag_compound (
      slot (tag (some (codes "N")) false (tag_string (b'a' ∷ b'b' ∷ 0 ∷ b'c' ∷ [])))
        (slot (tag none true (tag_byte 7)) done)))

world_tag-tag_bytes :
    tag_bytes (λ x. x) world_tag
    ≡ 10 ∷ 0 ∷ 1 ∷ b'W' ∷ 8 ∷ 0 ∷ 1 ∷ b'N' ∷ 0 ∷ 2 ∷ b'a' ∷ b'b' ∷ 7 ∷ 0 ∷ []
unfolding tag_bytes c_string
world_tag-tag_bytes = refl

world_tag-IsShort : IsShort world_tag
unfolding IsShort is_terminated c_string
world_tag-IsShort = (omega arith, ((omega arith, (refl, omega arith)), ((tt, tt), tt)))

world_tag_room : HasRoom output (length (tag_bytes (λ x. x) world_tag))
unfolding tag_bytes c_string
world_tag_room = (omega arith, inr refl)

nbt_write-Appended_example :
    (c : Buffer) × (nbt_write zeroing (λ x. x) world_tag output ≡ some c)
    × Appended output (tag_bytes (λ x. x) world_tag) c
nbt_write-Appended_example =
    nbt_write-Appended zeroing (λ x. x) world_tag output world_tag-IsShort output-IsValid
      world_tag_room

nbt_add_tag-create_compound_example :
    add_all (nbt_create_compound none) (height_tag ∷ world_tag ∷ [])
    ≡ tag none true (tag_compound (packed (height_tag ∷ world_tag ∷ []) 30))
nbt_add_tag-create_compound_example = nbt_add_tag-create_compound none (height_tag ∷ world_tag ∷ [])

abbrev player : Slots
player = slot (tag (some (codes "Y")) false (tag_short 64)) (free (free done))

other_letter : str_eq (codes "Y") (codes "X") ≢ true
other_letter = ground arith

player-HaveOtherNames : HaveOtherNames (codes "X") player
player-HaveOtherNames = (λ e. other_letter (ap (λ t. str_eq t (codes "X")) e), tt)

nbt_get_tag-add_tag_example :
    let t = tag (some (codes "X")) false (tag_short 8) in
    let c = tag none true (tag_compound player) in
    (nbt_get_tag (nbt_add_tag c t) (codes "X") ≡ some (some t))
    × ((m : List ℕ) → codes "X" ≢ m → nbt_get_tag (nbt_add_tag c t) m ≡ nbt_get_tag c m)
nbt_get_tag-add_tag_example =
    nbt_get_tag-add_tag none true player (codes "X") false (tag_short 8) player-HaveOtherNames tt

-- A compound with a free slot and a list of two numbers.
abbrev level_tag : Tag
level_tag = tag (some (codes "L")) false (
    tag_compound (
      slot
        (tag (some (codes "N")) false (
          tag_list 2
            (slot (tag none true (tag_short 5)) (slot (tag none true (tag_short 6)) done))))
        (free (slot (tag (some (codes "T")) false (tag_string (b'a' ∷ 0 ∷ []))) done))))

level_tag-IsNamed : IsNamed level_tag
unfolding IsNamed IsReadable AreNamed AreItems HasNoList c_string is_terminated
level_tag-IsNamed = ground arith

level_tag_room : HasRoom output (length (tag_bytes (λ x. x) level_tag))
unfolding tag_bytes c_string
level_tag_room = (omega arith, inr refl)

level_tag-cost : cost level_tag ≤ 12
unfolding cost
level_tag-cost = omega arith

nbt_read-write_example :
    (c : Buffer) × (nbt_write zeroing (λ x. x) level_tag output ≡ some c)
    × (nbt_read (λ n. []) 12 true 0 (seek c 0)
        ≡ some (some (compact level_tag), after_tag level_tag 0, c))
nbt_read-write_example =
    nbt_read-write zeroing (λ n. []) (λ x. x) level_tag output 12 0 level_tag-IsNamed output-IsValid
      level_tag_room level_tag-cost
