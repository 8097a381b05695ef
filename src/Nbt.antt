-- ===== src/Nbt.antt =====
-- Named binary tags, src/nbt.c and src/nbt.h: building, finding and writing them. The member of the
-- union that is in use is the one that the type of the tag says. Signed numbers and floats are their
-- words. The arrays of a tag are as long as its `array_size` says; those of a text are the bytes allocated for
-- it, with the terminating 0 where the code puts one.
pub mod Write
pub mod Layout
pub mod Add
pub mod Lookup
pub mod Read
use thirty.Prelude.{
  ℕ, suc, zero, ◌^◌, ◌%◌, Bool, true, false, Option, none, some, List, [], ◌∷◌, length, ltb,
  if◌then◌else◌, replicate, take, ◌==◌, ◌++◌,
}
use thirty.Prelude.Options.{◌>>=◌}
use thirty.Text.{str_eq}
use thirty.Word.{uint16, uint32}
use thirty.Buffer.{Allocator, Buffer, write}
use thirty.Buffer.McStr.{c_string}
use thirty.Buffer.Typed.{write_uint8, write_uint16be, write_uint32be, write_uint64be}

-- `tag_t`: its name unless NULL, `no_header`, and its value. A list holds `array_type` and its slots.
mutual
  pub data Tag : Type 0 where
    tag : Option (List ℕ) → Bool → Value → Tag

  pub data Value : Type 0 where
    tag_end : Value
    tag_byte tag_short tag_int tag_long tag_float tag_double : ℕ → Value
    tag_byte_array tag_string tag_int_array tag_long_array : List ℕ → Value
    tag_list : ℕ → Slots → Value
    tag_compound : Slots → Value

  -- The array of pointers to the tags inside, NULL where a slot is free.
  pub data Slots : Type 0 where
    done : Slots
    free : Slots → Slots
    slot : Tag → Slots → Slots

-- `enum tag_e`
abbrev pub type_number : Value → ℕ
type_number tag_end = 0
type_number (tag_byte n) = 1
type_number (tag_short n) = 2
type_number (tag_int n) = 3
type_number (tag_long n) = 4
type_number (tag_float n) = 5
type_number (tag_double n) = 6
type_number (tag_byte_array bs) = 7
type_number (tag_string cs) = 8
type_number (tag_list t ts) = 9
type_number (tag_compound ts) = 10
type_number (tag_int_array is) = 11
type_number (tag_long_array ls) = 12

abbrev pub array_size : Slots → ℕ
array_size done = 0
array_size (free ts) = suc (array_size ts)
array_size (slot t ts) = suc (array_size ts)

abbrev pub calloc_slots : ℕ → Slots
calloc_slots zero = done
calloc_slots (suc n) = free (calloc_slots n)

unfoldable pub nbt_create : Option (List ℕ) → Tag
nbt_create none = tag none true tag_end
nbt_create (some name) = tag (some name) false tag_end

unfoldable pub set_value : Tag → Value → Tag
set_value (tag name bare v) v' = tag name bare v'

abbrev pub nbt_create_compound : Option (List ℕ) → Tag
nbt_create_compound name = set_value (nbt_create name) (tag_compound (calloc_slots 32))

abbrev pub nbt_create_list : Option (List ℕ) → ℕ → ℕ → Tag
nbt_create_list name type n = set_value (nbt_create name) (tag_list type (calloc_slots n))

abbrev pub nbt_create_string : Option (List ℕ) → List ℕ → Tag
nbt_create_string name val = set_value (nbt_create name) (tag_string (c_string val ++ (0 ∷ [])))

abbrev pub nbt_create_bytearray : Option (List ℕ) → List ℕ → Tag
nbt_create_bytearray name val = set_value (nbt_create name) (tag_byte_array val)

abbrev pub nbt_create_intarray : Option (List ℕ) → List ℕ → Tag
nbt_create_intarray name val = set_value (nbt_create name) (tag_int_array val)

abbrev pub nbt_create_longarray : Option (List ℕ) → List ℕ → Tag
nbt_create_longarray name val = set_value (nbt_create name) (tag_long_array val)

abbrev pub nbt_set_int8 : Tag → ℕ → Tag
nbt_set_int8 t n = set_value t (tag_byte n)

abbrev pub nbt_set_int16 : Tag → ℕ → Tag
nbt_set_int16 t n = set_value t (tag_short n)

abbrev pub nbt_set_int32 : Tag → ℕ → Tag
nbt_set_int32 t n = set_value t (tag_int n)

abbrev pub nbt_set_int64 : Tag → ℕ → Tag
nbt_set_int64 t n = set_value t (tag_long n)

-- The first free slot takes the tag; without one nothing changes.
unfoldable pub add_to : Slots → Tag → Slots
add_to done new = done
add_to (free ts) new = slot new ts
add_to (slot t ts) new = slot t (add_to ts new)

unfoldable pub add_value : Value → Tag → Value
add_value (tag_list type ts) new = tag_list type (add_to ts new)
add_value (tag_compound ts) new = tag_compound (add_to ts new)
add_value v new = v

unfoldable pub nbt_add_tag : Tag → Tag → Tag
nbt_add_tag (tag name bare v) new = tag name bare (add_value v new)

-- The lookup by name. The name of every tag on the way goes to `strcmp`: a NULL there is outside the
-- model, `none`.
unfoldable pub get_in : Slots → List ℕ → Option (Option Tag)
get_in done n = some none
get_in (free ts) n = get_in ts n
get_in (slot (tag none bare v) ts) n = none
get_in (slot (tag (some m) bare v) ts) n =
    if str_eq m n then some (some (tag (some m) bare v)) else get_in ts n

unfoldable pub get_value : Value → List ℕ → Option (Option Tag)
get_value (tag_compound ts) n = get_in ts n
get_value v n = some none

unfoldable pub nbt_get_tag : Tag → List ℕ → Option (Option Tag)
nbt_get_tag (tag name bare v) n = get_value v n

-- Whether `strlen` finds a 0 within the bytes allocated for a text.
unfoldable pub is_terminated : List ℕ → Bool
is_terminated [] = false
is_terminated (c ∷ cs) = if c == 0 then true else is_terminated cs

-- Writing. A text whose bytes hold no 0, as nbt_read leaves one, is read beyond its end by `strlen`: outside
-- the model, `none`. `widen` is the conversion of a float to a double.
module _ (heap : Allocator) (widen : ℕ → ℕ) where
  -- The length is cast to `int16_t`: from 2^15 on it is negative, and as a `size_t` far beyond the text.
  unfoldable pub write_len_str : List ℕ → Buffer → Option Buffer
  write_len_str s b =
      let text = c_string s in
      let len = uint16 (length text) in
      let c = write_uint16be heap b len in
      if ltb len (2 ^ 15) then some (write heap c (take len text)).1 else none

  unfoldable pub write_ints : List ℕ → Buffer → Buffer
  write_ints [] b = b
  write_ints (i ∷ is) b = write_ints is (write_uint32be heap b i)

  unfoldable pub write_longs : List ℕ → Buffer → Buffer
  write_longs [] b = b
  write_longs (l ∷ ls) b = write_longs ls (write_uint64be heap b l)

  unfoldable pub write_header : Option (List ℕ) → Bool → Value → Buffer → Option Buffer
  write_header name true v b = some b
  write_header none false v b = some (write_uint8 heap b (type_number v))
  write_header (some name) false v b = write_len_str name (write_uint8 heap b (type_number v))

  unfoldable mutual
    pub nbt_write : Tag → Buffer → Option Buffer
    nbt_write (tag name bare v) b = write_header name bare v b >>= λ c. write_value v c

    pub write_value : Value → Buffer → Option Buffer
    write_value tag_end b = some b
    write_value (tag_byte n) b = some (write_uint8 heap b n)
    write_value (tag_short n) b = some (write_uint16be heap b n)
    write_value (tag_int n) b = some (write_uint32be heap b n)
    write_value (tag_long n) b = some (write_uint64be heap b n)
    write_value (tag_float n) b = some (write_uint32be heap b n)
    write_value (tag_double n) b = some (write_uint64be heap b (widen (uint32 n)))
    write_value (tag_byte_array bs) b = some (write heap (write_uint32be heap b (length bs)) bs).1
    write_value (tag_string s) b = if is_terminated s then write_len_str s b else none
    write_value (tag_list type ts) b =
        write_slots ts (write_uint32be heap (write_uint8 heap b type) (array_size ts))
    write_value (tag_compound ts) b = write_slots ts b >>= λ c. some (write_uint8 heap c 0)
    write_value (tag_int_array is) b = some (write_ints is (write_uint32be heap b (length is)))
    write_value (tag_long_array ls) b = some (write_longs ls (write_uint32be heap b (length ls)))

    pub write_slots : Slots → Buffer → Option Buffer
    write_slots done b = some b
    write_slots (free ts) b = write_slots ts b
    write_slots (slot t ts) b = nbt_write t b >>= λ c. write_slots ts c
