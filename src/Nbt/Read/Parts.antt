-- ===== src/Nbt/Read/Parts.antt =====
-- Headers, compounds and the static variable: the parts of nbt_read of src/nbt.c on written tags.
use thirty.Prelude.{
  ◌++◌, sym, ℕ, ◌<◌, ◌^◌, ◌≡◌, ◌≢◌, refl, ap, subst, ◌==◌, if◌then◌else◌, ◌∙◌, arith, true, false,
  Option, none, some, List, length,
}
use thirty.Endian.{little, encode}
use thirty.Buffer.{seek, tell}
use thirty.Buffer.Valid.{seek_within}
use thirty.Buffer.McStr.{c_string}
use thirty.Buffer.Typed.{generic_read}
use thirty.Nbt.{
  Tag, tag, Value, Slots, type_number, tag_end, tag_byte, tag_short, tag_int, tag_long, tag_float,
  tag_double, tag_byte_array, tag_string, tag_int_array, tag_long_array, tag_list, tag_compound,
  done, free, slot,
}
use thirty.Nbt.Write.{text_bytes, header_bytes}
use thirty.Nbt.Read.{
  Reader, plain, and_then, give, read_text, read_header, read_subtags, read_compound, pad,
}
use thirty.Buffer.Stands.{moved}
use thirty.Nbt.Read.Stands.{Gives, Gives-then, Gives-map, word-Gives, text-Gives}
use thirty.Nbt.Read.Readable.{HasNoList, HaveNoList, compact_value, after, after_slots, after_tag}

mutual
  unfolding HasNoList HaveNoList after after_slots after_tag

  pub after-HasNoList : (v : Value) (e : ℕ) → HasNoList v → after v e ≡ e
  after-HasNoList (tag_list type ts) e h = absurd h
  after-HasNoList (tag_compound ts) e h =
      ap (after_slots ts) (after-HaveNoList ts e h) ∙ after-HaveNoList ts e h
  after-HasNoList tag_end e h = refl
  after-HasNoList (tag_byte n) e h = refl
  after-HasNoList (tag_short n) e h = refl
  after-HasNoList (tag_int n) e h = refl
  after-HasNoList (tag_long n) e h = refl
  after-HasNoList (tag_float n) e h = refl
  after-HasNoList (tag_double n) e h = refl
  after-HasNoList (tag_byte_array bs) e h = refl
  after-HasNoList (tag_string s) e h = refl
  after-HasNoList (tag_int_array is) e h = refl
  after-HasNoList (tag_long_array ls) e h = refl

  after-HaveNoList : (ts : Slots) (e : ℕ) → HaveNoList ts → after_slots ts e ≡ e
  after-HaveNoList done e h = refl
  after-HaveNoList (free ts) e h = after-HaveNoList ts e h
  after-HaveNoList (slot (tag name bare v) ts) e h =
      ap (after_slots ts) (after-HasNoList v e h.0) ∙ after-HaveNoList ts e h.1

pub number_compact : (v : Value) → type_number (compact_value v) ≡ type_number v
unfolding compact_value
number_compact (tag_list type ts) = refl
number_compact (tag_compound ts) = refl
number_compact tag_end = refl
number_compact (tag_byte n) = refl
number_compact (tag_short n) = refl
number_compact (tag_int n) = refl
number_compact (tag_long n) = refl
number_compact (tag_float n) = refl
number_compact (tag_double n) = refl
number_compact (tag_byte_array bs) = refl
number_compact (tag_string s) = refl
number_compact (tag_int_array is) = refl
number_compact (tag_long_array ls) = refl

number_small : (v : Value) → type_number v < 256
number_small (tag_list type ts) = omega arith
number_small (tag_compound ts) = omega arith
number_small (tag_byte n) = omega arith
number_small (tag_short n) = omega arith
number_small (tag_int n) = omega arith
number_small (tag_long n) = omega arith
number_small (tag_float n) = omega arith
number_small (tag_double n) = omega arith
number_small (tag_byte_array bs) = omega arith
number_small (tag_string s) = omega arith
number_small (tag_int_array is) = omega arith
number_small (tag_long_array ls) = omega arith
number_small tag_end = omega arith

pad_zero : (ts : Slots) → pad ts 0 ≡ ts
pad_zero done = refl
pad_zero (free ts) = ap free (pad_zero ts)
pad_zero (slot t ts) = ap (slot t) (pad_zero ts)

-- Two passes over the same bytes.
pub read_compound-Gives :
    (r : Reader (Option Tag)) (k e e1 e2 : ℕ) (bs : List ℕ) (ts : Slots)
    → Gives (read_subtags r k) e bs ts e1
    → Gives (read_subtags r k) e1 bs ts e2
    → Gives (read_compound r k) e bs ts e2
unfolding Gives read_compound
read_compound-Gives r k e e1 e2 bs ts p q b v s =
    let back : seek (moved b (length bs)) (tell b) ≡ b =
      seek_within (moved b (length bs)) b.offset v.within in
    rw (p b v s, back, q b v s) (ground (arith, pad_zero ts))

Gives-unless :
    {A : Type 0} (n : ℕ) (f g : Reader A) (bs : List ℕ) (a : A) (e e' : ℕ)
    → n ≢ 0
    → Gives g e bs a e'
    → Gives (if n == 0 then f else g) e bs a e'
unfolding Gives
Gives-unless n f g bs a e e' h p b v s = ground (arith, h, p b v s)

pub read_header-Gives :
    (name : List ℕ) (v : Value) (e : ℕ)
    → length name < 2 ^ 15
    → c_string name ≡ name
    → type_number v ≢ 0
    → Gives (read_header true) e (header_bytes (some name) false v) (type_number v, some name) e
unfolding read_header
read_header-Gives name v e short ends h =
    let n = type_number v in
    let named : Gives {A = ℕ × Option (List ℕ)}
        (and_then read_text (λ t. give (n, some (c_string t)))) e (text_bytes name) (n, some name)
        e =
      subst
        (λ t.
          Gives {A = ℕ × Option (List ℕ)} (and_then read_text (λ t'. give (n, some (c_string t'))))
            e (text_bytes name) (n, some t) e)
        ends
        (Gives-map read_text (λ t. (n, some (c_string t))) (text_bytes name) name e e
          (text-Gives name e short)) in
    subst (λ t. Gives (read_header true) e (encode little 1 n ++ text_bytes t) (n, some name) e)
      (sym ends)
      (Gives-then (plain (generic_read little 1))
        (λ type.
          if type == 0
          then give (type, none)
          else and_then read_text (λ t. give (type, some (c_string t))))
        (encode little 1 n) (text_bytes name) n (n, some name) e e e
        (word-Gives little 1 n e (number_small v))
        (Gives-unless n (give (n, none)) (and_then read_text (λ t. give (n, some (c_string t))))
          (text_bytes name) (n, some name) e e h named))
