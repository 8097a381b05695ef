-- ===== src/Nbt/Read.antt =====
-- Reading tags, nbt_read of src/nbt.c. The static variable `expected` is passed on beside the buffer.
-- `none` is outside the model: a read that fails and leaves a variable undefined, a text or array
-- whose size is negative or beyond the buffer, NULL among the tags of a compound, or no more fuel.
pub mod Stands
pub mod Readable
pub mod Parts
pub mod Tags
pub mod RoundTrip
use thirty.Prelude.{
  ℕ, zero, suc, ◌+◌, ◌-◌, ◌*◌, ◌^◌, Bool, true, false, not, Option, none, some, List, [], ◌∷◌, ◌++◌,
  length, ltb, leb, ◌==◌, if◌then◌else◌, take,
}
use thirty.Prelude.Options.{◌>>=◌}
use thirty.Buffer.{Buffer, read, seek, tell}
use thirty.Buffer.Typed.{read_uint8, read_uint16be, read_uint32be, read_uint64be}
use thirty.Buffer.McStr.{c_string}
use thirty.Nbt.{
  Tag, tag, Value, Slots, tag_end, tag_byte, tag_short, tag_int, tag_long, tag_float, tag_double,
  tag_byte_array, tag_string, tag_int_array, tag_long_array, tag_list, tag_compound, done, free,
  slot, array_size, type_number, calloc_slots,
}

-- What is read, `expected`, and the buffer.
abbrev pub Reader {ℓ} : Type ℓ → Type ℓ
Reader A = ℕ → Buffer → Option (A × ℕ × Buffer)

-- A read that leaves `expected` alone.
abbrev pub plain {ℓ} : {A : Type ℓ} → (Buffer → Option (A × Buffer)) → Reader A
plain f e b = f b >>= λ (a, c). some (a, e, c)

abbrev pub and_then {ℓ κ} : {A : Type ℓ} {B : Type κ} → Reader A → (A → Reader B) → Reader B
and_then p k e b = p e b >>= λ (a, e', c). k a e' c

abbrev pub give {ℓ} : {A : Type ℓ} → A → Reader A
give a e b = some (a, e, b)

abbrev pub fail {ℓ} : {A : Type ℓ} → Reader A
fail e b = none

-- `enum tag_e`, with the numbers that it does not name.
pub data TagType : Type 0 where
  end byte short int long float double byte_array string list compound int_array long_array
        unknown :
      TagType

unfoldable pub type_of : ℕ → TagType
type_of n =
    if n == 0
    then end
    else if n == 1
    then byte
    else if n == 2
    then short
    else if n == 3
    then int
    else if n == 4
    then long
    else if n == 5
    then float
    else if n == 6
    then double
    else if n == 7
    then byte_array
    else if n == 8
    then string
    else if n == 9
    then list
    else if n == 10
    then compound
    else if n == 11
    then int_array
    else if n == 12
    then long_array
    else unknown

unfoldable pub read_bytes : ℕ → Reader (List ℕ)
read_bytes n e b = let (bs, c) = read b n in if length bs == n then some (bs, e, c) else none

unfoldable pub read_text : Reader (List ℕ)
read_text = and_then (plain read_uint16be) (λ n. if ltb n (2 ^ 15) then read_bytes n else fail)

unfoldable pub read_size : Reader ℕ
read_size = and_then (plain read_uint32be) (λ n. if ltb n (2 ^ 31) then give n else fail)

unfoldable pub repeat {ℓ} : {A : Type ℓ} → Reader A → ℕ → Reader (List A)
repeat r zero = give []
repeat r (suc n) = and_then r (λ a. and_then (repeat r n) (λ as'. give (a ∷ as')))

-- The type of the tag, and its name.
unfoldable pub read_header : Bool → Reader (ℕ × Option (List ℕ))
read_header false e b = some ((e, none), e, b)
read_header true e b =
    and_then (plain read_uint8)
      (λ type.
        if type == 0
        then give (type, none)
        else and_then read_text (λ name. give (type, some (c_string name))))
      e b

-- Memory that holds 32-bit words, as 64-bit words.
abbrev pub longs_of : List ℕ → List ℕ
longs_of (a ∷ b ∷ ws) = (a + 2 ^ 32 * b) ∷ longs_of ws
longs_of _ = []

abbrev put_item : Option Tag → Slots → Slots
put_item none ts = free ts
put_item (some t) ts = slot t ts

-- The items of a list, by the reader of one.
unfoldable pub read_items : Reader (Option Tag) → ℕ → Reader Slots
read_items r zero = give done
read_items r (suc n) = and_then r (λ t. and_then (read_items r n) (λ ts. give (put_item t ts)))

abbrev pub is_end : Tag → Bool
is_end (tag name bare v) = type_number v == 0

-- What follows the reading of a tag of a compound.
abbrev pub on_subtag : Reader Slots → Option Tag → Reader Slots
on_subtag rest none = fail
on_subtag rest (some t) = if is_end t then give done else and_then rest (λ ts. give (slot t ts))

-- The tags of a compound up to the end tag.
unfoldable pub read_subtags : Reader (Option Tag) → ℕ → Reader Slots
read_subtags r zero = fail
read_subtags r (suc n) = let rest = read_subtags r n in and_then r (on_subtag rest)

abbrev pub pad : Slots → ℕ → Slots
pad done n = calloc_slots n
pad (free ts) n = free (pad ts n)
pad (slot t ts) n = slot t (pad ts n)

-- The tags are read twice: once to count them, once to keep them.
unfoldable pub read_compound : Reader (Option Tag) → ℕ → Reader Slots
read_compound r n e b = read_subtags r n e b >>= λ (counted, e1, c).
    read_subtags r n e1 (seek c (tell b)) >>= λ (ts, e2, d).
    if leb (array_size ts) (array_size counted)
    then some (pad ts (array_size counted - array_size ts), e2, d)
    else none

abbrev set_expected : ℕ → Reader ℕ
set_expected type e b = some (type, type, b)

-- `fresh n` is what memory for `n` 64-bit words holds in its second half before it is written.
module _ (fresh : ℕ → List ℕ) where
  unfoldable pub read_value : (ℕ → Reader Slots) → Reader Slots → TagType → Reader (Option Value)
  read_value items subtags end = give (some tag_end)
  read_value items subtags byte = and_then (plain read_uint8) (λ n. give (some (tag_byte n)))
  read_value items subtags short = and_then (plain read_uint16be) (λ n. give (some (tag_short n)))
  read_value items subtags int = and_then (plain read_uint32be) (λ n. give (some (tag_int n)))
  read_value items subtags long = and_then (plain read_uint64be) (λ n. give (some (tag_long n)))
  read_value items subtags float = and_then (plain read_uint32be) (λ n. give (some (tag_float n)))
  read_value items subtags double = and_then (plain read_uint64be) (λ n. give (some (tag_double n)))
  read_value items subtags byte_array =
      and_then read_size (λ n. and_then (read_bytes n) (λ bs. give (some (tag_byte_array bs))))
  read_value items subtags string = and_then read_text (λ s. give (some (tag_string s)))
  read_value items subtags list = and_then (plain read_uint8) (λ type. and_then read_size (λ n.
      and_then (set_expected type)
        (λ _. and_then (items n) (λ ts. give (some (tag_list type ts))))))
  read_value items subtags compound = and_then subtags (λ ts. give (some (tag_compound ts)))
  read_value items subtags int_array =
      and_then read_size
        (λ n. and_then (repeat (plain read_uint32be) n) (λ is. give (some (tag_int_array is))))
  read_value items subtags long_array = and_then read_size (λ n.
      and_then (repeat (plain read_uint32be) n)
        (λ ws. give (some (tag_long_array (longs_of (ws ++ fresh n))))))
  read_value items subtags unknown = give none

  abbrev with_header : Option (List ℕ) → Bool → Option Value → Option Tag
  with_header name bare none = none
  with_header name bare (some v) = some (tag name bare v)

  unfoldable pub nbt_read : ℕ → Bool → Reader (Option Tag)
  nbt_read zero named = fail
  nbt_read (suc fuel) named = and_then (read_header named) (λ (type, name).
      and_then
        (read_value (read_items (nbt_read fuel false)) (read_compound (nbt_read fuel true) fuel)
          (type_of type))
        (λ v. give (with_header name (not named) v)))
