-- ===== src/Nbt/Layout.antt =====
-- nbt_write of src/nbt.c writes the layout of the tag.
use thirty.Prelude.{
  ℕ, ◌<◌, ◌^◌, ◌≡◌, refl, if◌then◌else◌, Bool, true, false, Option, none, some, List, ◌++◌, length,
}
use thirty.Prelude.Options.{◌>>=◌}
use thirty.Word.{uint32}
use thirty.Endian.{little, big, encode}
use thirty.Buffer.{Allocator, Buffer, write}
use thirty.Buffer.Valid.{IsValid, HasRoom}
use thirty.Buffer.Transfer.{Appended}
use thirty.Buffer.McStr.{c_string}
use thirty.Buffer.Emits.{Emits, Emits-same, Emits-then, Emits-nil, word-Emits, bytes-Emits}
use thirty.Buffer.Typed.{write_uint8, write_uint32be}
use thirty.Nbt.{
  Tag, tag, Value, Slots, type_number, array_size, write_len_str, write_ints, write_longs,
  write_header, is_terminated, nbt_write, write_value, write_slots, tag_end, tag_byte, tag_short,
  tag_int, tag_long, tag_float, tag_double, tag_byte_array, tag_string, tag_int_array,
  tag_long_array, tag_list, tag_compound, done, free, slot,
}
use thirty.Nbt.Write.{
  text_bytes, word_bytes, header_bytes, tag_bytes, value_bytes, slot_bytes, write_len_str-Emits,
  write_ints-Emits, write_longs-Emits,
}

-- Names and texts up to their first 0 are shorter than 2^15, and the bytes of a text hold a 0.
abbrev IsShortName : Option (List ℕ) → Type 0
IsShortName none = Unit
IsShortName (some name) = length (c_string name) < 2 ^ 15

unfoldable mutual
  pub IsShort : Tag → Type 0
  IsShort (tag name bare v) = IsShortName name × IsShortValue v

  pub IsShortValue : Value → Type 0
  IsShortValue tag_end = Unit
  IsShortValue (tag_byte n) = Unit
  IsShortValue (tag_short n) = Unit
  IsShortValue (tag_int n) = Unit
  IsShortValue (tag_long n) = Unit
  IsShortValue (tag_float n) = Unit
  IsShortValue (tag_double n) = Unit
  IsShortValue (tag_byte_array bs) = Unit
  IsShortValue (tag_string s) = (is_terminated s ≡ true) × (length (c_string s) < 2 ^ 15)
  IsShortValue (tag_list type ts) = IsShortSlots ts
  IsShortValue (tag_compound ts) = IsShortSlots ts
  IsShortValue (tag_int_array is) = Unit
  IsShortValue (tag_long_array ls) = Unit

  pub IsShortSlots : Slots → Type 0
  IsShortSlots done = Unit
  IsShortSlots (free ts) = IsShortSlots ts
  IsShortSlots (slot t ts) = IsShort t × IsShortSlots ts

module _ (heap : Allocator) (widen : ℕ → ℕ) where
  write_header-Emits :
      (name : Option (List ℕ)) (bare : Bool) (v : Value)
      → IsShortName name
      → Emits (write_header heap widen name bare v) (header_bytes name bare v)
  unfolding write_header
  write_header-Emits none true v h = Emits-nil
  write_header-Emits (some name) true v h = Emits-nil
  write_header-Emits none false v h = word-Emits heap little 1 (type_number v)
  write_header-Emits (some name) false v h =
      Emits-then (λ b. some (write_uint8 heap b (type_number v))) (write_len_str heap widen name)
        (encode little 1 (type_number v)) (text_bytes (c_string name))
        (word-Emits heap little 1 (type_number v)) (write_len_str-Emits heap widen name h)

  mutual
    unfolding nbt_write write_value write_slots tag_bytes value_bytes slot_bytes IsShort
        IsShortValue IsShortSlots

    tag-Emits : (t : Tag) → IsShort t → Emits (nbt_write heap widen t) (tag_bytes widen t)
    tag-Emits (tag name bare v) h =
        Emits-then (write_header heap widen name bare v) (write_value heap widen v)
          (header_bytes name bare v) (value_bytes widen v) (write_header-Emits name bare v h.0)
          (value-Emits v h.1)

    value-Emits :
        (v : Value) → IsShortValue v → Emits (write_value heap widen v) (value_bytes widen v)
    value-Emits tag_end h = Emits-nil
    value-Emits (tag_byte n) h = word-Emits heap little 1 n
    value-Emits (tag_short n) h = word-Emits heap big 2 n
    value-Emits (tag_int n) h = word-Emits heap big 4 n
    value-Emits (tag_long n) h = word-Emits heap big 8 n
    value-Emits (tag_float n) h = word-Emits heap big 4 n
    value-Emits (tag_double n) h = word-Emits heap big 8 (widen (uint32 n))
    value-Emits (tag_byte_array bs) h =
        Emits-then (λ b. some (write_uint32be heap b (length bs))) (λ c. some (write heap c bs).1)
          (encode big 4 (length bs)) bs (word-Emits heap big 4 (length bs)) (bytes-Emits heap bs)
    value-Emits (tag_string s) h =
        Emits-same (λ b. if is_terminated s then write_len_str heap widen s b else none)
          (write_len_str heap widen s) (text_bytes (c_string s)) (λ b. rw (h.0) refl)
          (write_len_str-Emits heap widen s h.1)
    value-Emits (tag_list type ts) h =
        Emits-then (λ b. some (write_uint8 heap b type))
          (λ c. some (write_uint32be heap c (array_size ts)) >>= λ d. write_slots heap widen ts d)
          (encode little 1 type) (encode big 4 (array_size ts) ++ slot_bytes widen ts)
          (word-Emits heap little 1 type)
          (Emits-then (λ c. some (write_uint32be heap c (array_size ts)))
            (write_slots heap widen ts) (encode big 4 (array_size ts)) (slot_bytes widen ts)
            (word-Emits heap big 4 (array_size ts)) (slots-Emits ts h))
    value-Emits (tag_compound ts) h =
        Emits-then (write_slots heap widen ts) (λ c. some (write_uint8 heap c 0))
          (slot_bytes widen ts) (encode little 1 0) (slots-Emits ts h) (word-Emits heap little 1 0)
    value-Emits (tag_int_array is) h =
        Emits-then (λ b. some (write_uint32be heap b (length is)))
          (λ b. some (write_ints heap widen is b)) (encode big 4 (length is)) (word_bytes 4 is)
          (word-Emits heap big 4 (length is)) (write_ints-Emits heap widen is)
    value-Emits (tag_long_array ls) h =
        Emits-then (λ b. some (write_uint32be heap b (length ls)))
          (λ b. some (write_longs heap widen ls b)) (encode big 4 (length ls)) (word_bytes 8 ls)
          (word-Emits heap big 4 (length ls)) (write_longs-Emits heap widen ls)

    slots-Emits :
        (ts : Slots) → IsShortSlots ts → Emits (write_slots heap widen ts) (slot_bytes widen ts)
    slots-Emits done h = Emits-nil
    slots-Emits (free ts) h = slots-Emits ts h
    slots-Emits (slot t ts) h =
        Emits-then (nbt_write heap widen t) (write_slots heap widen ts) (tag_bytes widen t)
          (slot_bytes widen ts) (tag-Emits t h.0) (slots-Emits ts h.1)

  -- A tag whose names and texts up to their first 0 are shorter than 2^15 and whose texts hold a 0, with all
  -- it holds, is written to a valid
  -- buffer that has room for its layout: header, value, and for a list or compound the tags
  -- inside in order. Exactly the bytes of the layout are appended, and the buffer stays valid.
  pub nbt_write-Appended :
      (t : Tag) (b : Buffer)
      → IsShort t
      → IsValid b
      → HasRoom b (length (tag_bytes widen t))
      → (c : Buffer) × (nbt_write heap widen t b ≡ some c) × Appended b (tag_bytes widen t) c
  unfolding Emits
  nbt_write-Appended t b h v room = tag-Emits t h b v room
