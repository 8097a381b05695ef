-- ===== src/Nbt/Write.antt =====
-- What nbt_write appends to a buffer: the layout of a tag.
use thirty.Prelude.{
  ℕ, ◌<◌, ◌^◌, ◌≡◌, arith, Bool, true, false, Option, none, some, List, [], ◌∷◌, ◌++◌, length,
  take_all,
}
use thirty.Prelude.Options.{◌>>=◌}
use thirty.Word.{uint32}
use thirty.Endian.{little, big, encode}
use thirty.Buffer.{Allocator, Buffer, write}
use thirty.Buffer.McStr.{c_string}
use thirty.Buffer.Emits.{Emits, Emits-then, Emits-same, Emits-nil, word-Emits, bytes-Emits}
use thirty.Buffer.Typed.{write_uint16be, write_uint32be, write_uint64be}
use thirty.Nbt.{
  Tag, tag, Value, Slots, type_number, array_size, write_len_str, write_ints, write_longs, tag_end,
  tag_byte, tag_short, tag_int, tag_long, tag_float, tag_double, tag_byte_array, tag_string,
  tag_int_array, tag_long_array, tag_list, tag_compound, done, free, slot,
}

-- A text with its length in front.
abbrev pub text_bytes : List ℕ → List ℕ
text_bytes s = encode big 2 (length s) ++ s

abbrev pub word_bytes : ℕ → List ℕ → List ℕ
word_bytes w [] = []
word_bytes w (x ∷ xs) = encode big w x ++ word_bytes w xs

abbrev pub header_bytes : Option (List ℕ) → Bool → Value → List ℕ
header_bytes name true v = []
header_bytes none false v = encode little 1 (type_number v)
header_bytes (some name) false v = encode little 1 (type_number v) ++ text_bytes (c_string name)

module _ (widen : ℕ → ℕ) where
  unfoldable mutual
    pub tag_bytes : Tag → List ℕ
    tag_bytes (tag name bare v) = header_bytes name bare v ++ value_bytes v

    pub value_bytes : Value → List ℕ
    value_bytes tag_end = []
    value_bytes (tag_byte n) = encode little 1 n
    value_bytes (tag_short n) = encode big 2 n
    value_bytes (tag_int n) = encode big 4 n
    value_bytes (tag_long n) = encode big 8 n
    value_bytes (tag_float n) = encode big 4 n
    value_bytes (tag_double n) = encode big 8 (widen (uint32 n))
    value_bytes (tag_byte_array bs) = encode big 4 (length bs) ++ bs
    value_bytes (tag_string s) = text_bytes (c_string s)
    value_bytes (tag_list type ts) =
        encode little 1 type ++ (encode big 4 (array_size ts) ++ slot_bytes ts)
    value_bytes (tag_compound ts) = slot_bytes ts ++ encode little 1 0
    value_bytes (tag_int_array is) = encode big 4 (length is) ++ word_bytes 4 is
    value_bytes (tag_long_array ls) = encode big 4 (length ls) ++ word_bytes 8 ls

    pub slot_bytes : Slots → List ℕ
    slot_bytes done = []
    slot_bytes (free ts) = slot_bytes ts
    slot_bytes (slot t ts) = tag_bytes t ++ slot_bytes ts

module _ (heap : Allocator) where
  pub write_len_str-Emits :
      (widen : ℕ → ℕ) (s : List ℕ)
      → length (c_string s) < 2 ^ 15
      → Emits (write_len_str heap widen s) (text_bytes (c_string s))
  unfolding write_len_str
  write_len_str-Emits widen s h =
      let t = c_string s in
      let same : (b : Buffer)
          → write_len_str heap widen s b
            ≡ (some (write_uint16be heap b (length t)) >>= λ c. some (write heap c t).1) =
        λ b. ground (arith, h, take_all (length t) t (omega arith)) in
      Emits-same (write_len_str heap widen s)
        (λ b. some (write_uint16be heap b (length t)) >>= λ c. some (write heap c t).1)
        (text_bytes t) same
        (Emits-then (λ b. some (write_uint16be heap b (length t))) (λ c. some (write heap c t).1)
          (encode big 2 (length t)) t (word-Emits heap big 2 (length t)) (bytes-Emits heap t))

  pub write_ints-Emits :
      (widen : ℕ → ℕ) (is : List ℕ)
      → Emits (λ b. some (write_ints heap widen is b)) (word_bytes 4 is)
  unfolding write_ints
  write_ints-Emits widen [] = Emits-nil
  write_ints-Emits widen (i ∷ is) =
      Emits-then (λ b. some (write_uint32be heap b i)) (λ b. some (write_ints heap widen is b))
        (encode big 4 i) (word_bytes 4 is) (word-Emits heap big 4 i) (write_ints-Emits widen is)

  pub write_longs-Emits :
      (widen : ℕ → ℕ) (ls : List ℕ)
      → Emits (λ b. some (write_longs heap widen ls b)) (word_bytes 8 ls)
  unfolding write_longs
  write_longs-Emits widen [] = Emits-nil
  write_longs-Emits widen (l ∷ ls) =
      Emits-then (λ b. some (write_uint64be heap b l)) (λ b. some (write_longs heap widen ls b))
        (encode big 8 l) (word_bytes 8 ls) (word-Emits heap big 8 l) (write_longs-Emits widen ls)
