-- ===== src/Nbt/Read/Readable.antt =====
-- Which tags the code reads back, what it makes of them, and with how much fuel.
use thirty.Prelude.{ℕ, suc, ◌+◌, ◌<◌, ◌^◌, ◌≡◌, ◌≢◌, none, some, true, false, All, length}
use thirty.Buffer.McStr.{c_string}
use thirty.Nbt.{
  Tag, tag, Value, Slots, type_number, array_size, is_terminated, tag_end, tag_byte, tag_short,
  tag_int, tag_long, tag_float, tag_double, tag_byte_array, tag_string, tag_int_array,
  tag_long_array, tag_list, tag_compound, done, free, slot,
}

-- No list inside.
unfoldable mutual
  pub HasNoList : Value → Type 0
  HasNoList (tag_list type ts) = ⊥
  HasNoList (tag_compound ts) = HaveNoList ts
  HasNoList tag_end = Unit
  HasNoList (tag_byte n) = Unit
  HasNoList (tag_short n) = Unit
  HasNoList (tag_int n) = Unit
  HasNoList (tag_long n) = Unit
  HasNoList (tag_float n) = Unit
  HasNoList (tag_double n) = Unit
  HasNoList (tag_byte_array bs) = Unit
  HasNoList (tag_string s) = Unit
  HasNoList (tag_int_array is) = Unit
  HasNoList (tag_long_array ls) = Unit

  pub HaveNoList : Slots → Type 0
  HaveNoList done = Unit
  HaveNoList (free ts) = HaveNoList ts
  HaveNoList (slot (tag name bare v) ts) = HasNoList v × HaveNoList ts

-- What the code reads back: no double, no long array, numbers that fit their types, short texts with a 0 behind them; in a
-- compound named tags, and in a list unnamed ones of its type, all slots taken, with no list inside.
unfoldable mutual
  pub IsReadable : Value → Type 0
  IsReadable tag_end = Unit
  IsReadable (tag_byte n) = n < 256
  IsReadable (tag_short n) = n < 2 ^ 16
  IsReadable (tag_int n) = n < 2 ^ 32
  IsReadable (tag_long n) = n < 2 ^ 64
  IsReadable (tag_float n) = n < 2 ^ 32
  IsReadable (tag_double n) = ⊥
  IsReadable (tag_byte_array bs) = length bs < 2 ^ 31
  IsReadable (tag_string s) = (is_terminated s ≡ true) × (length (c_string s) < 2 ^ 15)
  IsReadable (tag_list type ts) = (type < 256) × (array_size ts < 2 ^ 31) × AreItems type ts
  IsReadable (tag_compound ts) = AreNamed ts
  IsReadable (tag_int_array is) = (length is < 2 ^ 31) × All (λ i. i < 256 ^ 4) is
  IsReadable (tag_long_array ls) = ⊥

  pub AreItems : ℕ → Slots → Type 0
  AreItems type done = Unit
  AreItems type (free ts) = ⊥
  AreItems type (slot (tag none true v) ts) =
      (type_number v ≡ type) × HasNoList v × IsReadable v × AreItems type ts
  AreItems type (slot (tag none false v) ts) = ⊥
  AreItems type (slot (tag (some name) bare v) ts) = ⊥

  pub AreNamed : Slots → Type 0
  AreNamed done = Unit
  AreNamed (free ts) = AreNamed ts
  AreNamed (slot t ts) = IsNamed t × AreNamed ts

  pub IsNamed : Tag → Type 0
  IsNamed (tag none bare v) = ⊥
  IsNamed (tag (some name) true v) = ⊥
  IsNamed (tag (some name) false v) =
      (length name < 2 ^ 15) × (c_string name ≡ name) × (type_number v ≢ 0) × IsReadable v

-- The free slots of the compounds are gone, and what stands in a text from its first 0 on.
unfoldable mutual
  pub compact : Tag → Tag
  compact (tag name bare v) = tag name bare (compact_value v)

  pub compact_value : Value → Value
  compact_value (tag_list type ts) = tag_list type (compact_slots ts)
  compact_value (tag_compound ts) = tag_compound (compact_slots ts)
  compact_value tag_end = tag_end
  compact_value (tag_byte n) = tag_byte n
  compact_value (tag_short n) = tag_short n
  compact_value (tag_int n) = tag_int n
  compact_value (tag_long n) = tag_long n
  compact_value (tag_float n) = tag_float n
  compact_value (tag_double n) = tag_double n
  compact_value (tag_byte_array bs) = tag_byte_array bs
  compact_value (tag_string s) = tag_string (c_string s)
  compact_value (tag_int_array is) = tag_int_array is
  compact_value (tag_long_array ls) = tag_long_array ls

  pub compact_slots : Slots → Slots
  compact_slots done = done
  compact_slots (free ts) = compact_slots ts
  compact_slots (slot t ts) = slot (compact t) (compact_slots ts)

-- What `expected` holds after a tag was read.
unfoldable mutual
  pub after : Value → ℕ → ℕ
  after (tag_list type ts) e = type
  after (tag_compound ts) e = after_slots ts (after_slots ts e)
  after tag_end e = e
  after (tag_byte n) e = e
  after (tag_short n) e = e
  after (tag_int n) e = e
  after (tag_long n) e = e
  after (tag_float n) e = e
  after (tag_double n) e = e
  after (tag_byte_array bs) e = e
  after (tag_string s) e = e
  after (tag_int_array is) e = e
  after (tag_long_array ls) e = e

  pub after_slots : Slots → ℕ → ℕ
  after_slots done e = e
  after_slots (free ts) e = after_slots ts e
  after_slots (slot t ts) e = after_slots ts (after_tag t e)

  pub after_tag : Tag → ℕ → ℕ
  after_tag (tag name bare v) e = after v e

-- How deep the reader calls itself, and how often it goes round.
unfoldable mutual
  pub cost : Tag → ℕ
  cost (tag name bare v) = suc (cost_value v)

  pub cost_value : Value → ℕ
  cost_value (tag_list type ts) = cost_slots ts
  cost_value (tag_compound ts) = cost_slots ts
  cost_value tag_end = 0
  cost_value (tag_byte n) = 0
  cost_value (tag_short n) = 0
  cost_value (tag_int n) = 0
  cost_value (tag_long n) = 0
  cost_value (tag_float n) = 0
  cost_value (tag_double n) = 0
  cost_value (tag_byte_array bs) = 0
  cost_value (tag_string s) = 0
  cost_value (tag_int_array is) = 0
  cost_value (tag_long_array ls) = 0

  pub cost_slots : Slots → ℕ
  cost_slots done = 1
  cost_slots (free ts) = cost_slots ts
  cost_slots (slot t ts) = suc (cost t + cost_slots ts)
