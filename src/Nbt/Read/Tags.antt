-- ===== src/Nbt/Read/Tags.antt =====
-- nbt_read of src/nbt.c takes the bytes of a tag and gives the tag.
use thirty.Prelude.{
  ℕ, zero, suc, ◌≤◌, ◌<◌, ◌≡◌, refl, sym, ap, subst, arith, Bool, not, true, false, Option, none,
  some, List, [], ◌++◌, length,
}
use mathlib.Core.List.{append_assoc}
use thirty.Endian.{little, big, encode}
use thirty.Buffer.Typed.{generic_read}
use thirty.Buffer.McStr.{c_string}
use thirty.Nbt.{
  Tag, tag, Value, Slots, type_number, array_size, tag_end, tag_byte, tag_short, tag_int, tag_long,
  tag_float, tag_double, tag_byte_array, tag_string, tag_int_array, tag_long_array, tag_list,
  tag_compound, done, free, slot,
}
use thirty.Nbt.Write.{text_bytes, word_bytes, header_bytes, tag_bytes, value_bytes, slot_bytes}
use thirty.Nbt.Read.{
  Reader, plain, and_then, give, type_of, read_text, read_size, read_bytes, repeat, read_header,
  read_items, read_subtags, read_compound, read_value, nbt_read, set_expected, with_header, is_end,
  put_item, on_subtag,
}
use thirty.Nbt.Read.Stands.{
  Gives, Gives-give, Gives-then, Gives-map, word-Gives, bytes-Gives, text-Gives, size-Gives,
  repeat-Gives,
}
use thirty.Nbt.Read.Readable.{
  HasNoList, IsReadable, AreItems, AreNamed, IsNamed, compact, compact_value, compact_slots, after,
  after_slots, after_tag, cost, cost_value, cost_slots,
}
use thirty.Nbt.Read.Parts.{after-HasNoList, number_compact, read_compound-Gives, read_header-Gives}

module _ (fresh : ℕ → List ℕ) (widen : ℕ → ℕ) where
  abbrev reads_value : ℕ → Value → Reader (Option Value)
  reads_value f v =
      read_value fresh (read_items (nbt_read fresh f false))
        (read_compound (nbt_read fresh f true) f) (type_of (type_number v))

  -- A tag is its header and its value.
  header-value-Gives :
      (f : ℕ) (named : Bool) (name : Option (List ℕ)) (v v' : Value) (hs vs : List ℕ) (e e2 : ℕ)
      → Gives (read_header named) e hs (type_number v, name) e
      → Gives (reads_value f v) e vs (some v') e2
      → Gives (nbt_read fresh (suc f) named) e (hs ++ vs) (some (tag name (not named) v')) e2
  unfolding nbt_read
  header-value-Gives f named name v v' hs vs e e2 p q =
      Gives-then (read_header named)
        (λ x.
          and_then
            (read_value fresh (read_items (nbt_read fresh f false))
              (read_compound (nbt_read fresh f true) f) (type_of x.0))
            (λ w. give (with_header fresh x.1 (not named) w)))
        hs vs (type_number v, name) (some (tag name (not named) v')) e e e2 p
        (Gives-map (reads_value f v) (λ w. with_header fresh name (not named) w) vs (some v') e e2
          q)

  end-Gives :
      (f e : ℕ)
      → 0 < f
      → Gives (nbt_read fresh f true) e (encode little 1 0) (some (tag none false tag_end)) e
  unfolding nbt_read read_header read_value type_of Gives
  end-Gives zero e h b v s = absurd (omega (arith, h))
  end-Gives (suc f) e h b v s = rw (word-Gives little 1 0 e (omega arith) b v s) refl

  plain_item : (e : ℕ) → Gives (read_header false) e [] (e, none) e
  unfolding read_header Gives
  plain_item e b v s = ap (λ o. some ((e, none), e, record b { offset = o })) (omega arith)

  expecting :
      {A : Type 0} (type : ℕ) (g : Reader A) (bs : List ℕ) (a : A) (e e' : ℕ)
      → Gives g type bs a e'
      → Gives (and_then (set_expected type) (λ _. g)) e bs a e'
  unfolding Gives
  expecting type g bs a e e' p b v s = p b v s

  item-Gives :
      (v : Value) (f type : ℕ)
      → type_number v ≡ type
      → HasNoList v
      → Gives
          (reads_value f v)
          (type_number v)
          (value_bytes widen v)
          (some (compact_value v))
          (after v (type_number v))
      → Gives
          (nbt_read fresh (suc f) false)
          type
          (value_bytes widen v)
          (some (tag none true (compact_value v)))
          type
  item-Gives v f type same single p =
      let n = type_number v in
      let bs = value_bytes widen v in
      let quiet =
        subst (λ e. Gives (reads_value f v) n bs (some (compact_value v)) e)
          (after-HasNoList v n single) p in
      subst
        (λ e. Gives (nbt_read fresh (suc f) false) e bs (some (tag none true (compact_value v))) e)
        same (header-value-Gives f false none v (compact_value v) [] bs n n (plain_item n) quiet)

  not_end : (t : Tag) → IsNamed t → is_end (compact t) ≡ false
  unfolding IsNamed compact
  not_end (tag none bare v) h = absurd h
  not_end (tag (some name) true v) h = absurd h
  not_end (tag (some name) false v) h = ground (arith, number_compact v, h.2)

  on_subtag-Gives :
      (rest : Reader Slots) (t : Tag) (e : ℕ) (bs : List ℕ) (ts : Slots) (e2 : ℕ)
      → is_end t ≡ false
      → Gives rest e bs ts e2
      → Gives (on_subtag rest (some t)) e bs (slot t ts) e2
  on_subtag-Gives rest t e bs ts e2 h p = rw h (Gives-map rest (λ us. slot t us) bs ts e e2 p)

  cost_slots_pos : (ts : Slots) → 0 < cost_slots ts
  unfolding cost_slots
  cost_slots_pos done = omega arith
  cost_slots_pos (free ts) = cost_slots_pos ts
  cost_slots_pos (slot t ts) = omega arith

  mutual
    unfolding IsReadable AreItems AreNamed IsNamed compact compact_value compact_slots after
        after_slots after_tag cost cost_value cost_slots tag_bytes value_bytes slot_bytes read_value
        type_of read_items read_subtags

    pub named-Gives :
        (t : Tag) (f e : ℕ)
        → IsNamed t
        → cost t ≤ f
        → Gives (nbt_read fresh f true) e (tag_bytes widen t) (some (compact t)) (after_tag t e)
    named-Gives (tag none bare v) f e h c = absurd h
    named-Gives (tag (some name) true v) f e h c = absurd h
    named-Gives (tag (some name) false v) zero e h c = absurd (omega (arith, c))
    named-Gives (tag (some name) false v) (suc f) e h c =
        header-value-Gives f true (some name) v (compact_value v) (header_bytes (some name) false v)
          (value_bytes widen v) e (after v e) (read_header-Gives name v e h.0 h.1 h.2)
          (value-Gives v f e h.3 (omega (arith, c)))

    value-Gives :
        (v : Value) (f e : ℕ)
        → IsReadable v
        → cost_value v ≤ f
        → Gives (reads_value f v) e (value_bytes widen v) (some (compact_value v)) (after v e)
    value-Gives tag_end f e h c = Gives-give (some tag_end) e
    value-Gives (tag_byte n) f e h c =
        Gives-map (plain (generic_read little 1)) (λ m. some (tag_byte m)) (encode little 1 n) n e e
          (word-Gives little 1 n e (omega (arith, h)))
    value-Gives (tag_short n) f e h c =
        Gives-map (plain (generic_read big 2)) (λ m. some (tag_short m)) (encode big 2 n) n e e
          (word-Gives big 2 n e (omega (arith, h)))
    value-Gives (tag_int n) f e h c =
        Gives-map (plain (generic_read big 4)) (λ m. some (tag_int m)) (encode big 4 n) n e e
          (word-Gives big 4 n e (omega (arith, h)))
    value-Gives (tag_long n) f e h c =
        Gives-map (plain (generic_read big 8)) (λ m. some (tag_long m)) (encode big 8 n) n e e
          (word-Gives big 8 n e (omega (arith, h)))
    value-Gives (tag_float n) f e h c =
        Gives-map (plain (generic_read big 4)) (λ m. some (tag_float m)) (encode big 4 n) n e e
          (word-Gives big 4 n e (omega (arith, h)))
    value-Gives (tag_double n) f e h c = absurd h
    value-Gives (tag_long_array ls) f e h c = absurd h
    value-Gives (tag_byte_array bs) f e h c =
        Gives-then read_size (λ n. and_then (read_bytes n) (λ cs. give (some (tag_byte_array cs))))
          (encode big 4 (length bs)) bs (length bs) (some (tag_byte_array bs)) e e e
          (size-Gives (length bs) e h)
          (Gives-map (read_bytes (length bs)) (λ cs. some (tag_byte_array cs)) bs bs e e
            (bytes-Gives bs e))
    value-Gives (tag_string s) f e h c =
        let t = c_string s in
        Gives-map read_text (λ t'. some (tag_string t')) (text_bytes t) t e e (text-Gives t e h.1)
    value-Gives (tag_int_array is) f e h c =
        let words = repeat (plain (generic_read big 4)) in
        Gives-then read_size (λ n. and_then (words n) (λ xs. give (some (tag_int_array xs))))
          (encode big 4 (length is)) (word_bytes 4 is) (length is) (some (tag_int_array is)) e e e
          (size-Gives (length is) e h.0)
          (Gives-map (words (length is)) (λ xs. some (tag_int_array xs)) (word_bytes 4 is) is e e
            (repeat-Gives 4 is e h.1))
    value-Gives (tag_list type ts) f e h c =
        let n = array_size ts in
        let r = some (tag_list type (compact_slots ts)) in
        let items = read_items (nbt_read fresh f false) in
        let k = λ (m : ℕ).
          and_then (set_expected type)
            (λ _. and_then (items m) (λ us. give (some (tag_list type us)))) in
        Gives-then (plain (generic_read little 1))
          (λ t. and_then read_size (λ m.
            and_then (set_expected t)
              (λ _. and_then (items m) (λ us. give (some (tag_list t us))))))
          (encode little 1 type) (encode big 4 n ++ slot_bytes widen ts) type r e e type
          (word-Gives little 1 type e (omega (arith, h.0)))
          (Gives-then read_size k (encode big 4 n) (slot_bytes widen ts) n r e e type
            (size-Gives n e h.1)
            (expecting type (and_then (items n) (λ us. give (some (tag_list type us))))
              (slot_bytes widen ts) r e type
              (Gives-map (items n) (λ us. some (tag_list type us)) (slot_bytes widen ts)
                (compact_slots ts) type type (items-Gives ts type f h.2 c))))
    value-Gives (tag_compound ts) f e h c =
        let bs = slot_bytes widen ts ++ encode little 1 0 in
        let r = nbt_read fresh f true in
        Gives-map (read_compound r f) (λ us. some (tag_compound us)) bs (compact_slots ts) e
          (after (tag_compound ts) e)
          (read_compound-Gives r f e (after_slots ts e) (after (tag_compound ts) e) bs
            (compact_slots ts) (subtags-Gives ts f f e h c c)
            (subtags-Gives ts f f (after_slots ts e) h c c))

    items-Gives :
        (ts : Slots) (type f : ℕ)
        → AreItems type ts
        → cost_slots ts ≤ f
        → Gives
            (read_items (nbt_read fresh f false) (array_size ts))
            type
            (slot_bytes widen ts)
            (compact_slots ts)
            type
    items-Gives done type f h c = Gives-give done type
    items-Gives (free ts) type f h c = absurd h
    items-Gives (slot (tag (some name) bare v) ts) type f h c = absurd h
    items-Gives (slot (tag none false v) ts) type f h c = absurd h
    items-Gives (slot (tag none true v) ts) type zero h c = absurd (omega (arith, c))
    items-Gives (slot (tag none true v) ts) type (suc f) h c =
        let r = nbt_read fresh (suc f) false in
        let n = array_size ts in
        Gives-then r (λ t. and_then (read_items r n) (λ us. give (put_item t us)))
          (value_bytes widen v) (slot_bytes widen ts) (some (compact (tag none true v)))
          (compact_slots (slot (tag none true v) ts)) type type type
          (item-Gives v f type h.0 h.1 (value-Gives v f (type_number v) h.2 (omega (arith, c))))
          (Gives-map (read_items r n) (λ us. slot (compact (tag none true v)) us)
            (slot_bytes widen ts) (compact_slots ts) type type
            (items-Gives ts type (suc f) h.3 (omega (arith, c))))

    subtags-Gives :
        (ts : Slots) (f k e : ℕ)
        → AreNamed ts
        → cost_slots ts ≤ f
        → cost_slots ts ≤ k
        → Gives
            (read_subtags (nbt_read fresh f true) k)
            e
            (slot_bytes widen ts ++ encode little 1 0)
            (compact_slots ts)
            (after_slots ts e)
    subtags-Gives ts f zero e h c d = absurd (omega (arith, d, cost_slots_pos ts))
    subtags-Gives done f (suc k) e h c d =
        Gives-then (nbt_read fresh f true) (on_subtag (read_subtags (nbt_read fresh f true) k))
          (encode little 1 0) [] (some (tag none false tag_end)) done e e e
          (end-Gives f e (omega (arith, c))) (Gives-give done e)
    subtags-Gives (free ts) f (suc k) e h c d = subtags-Gives ts f (suc k) e h c d
    subtags-Gives (slot t ts) f (suc k) e h c d =
        let r = nbt_read fresh f true in
        let ends = slot_bytes widen ts ++ encode little 1 0 in
        let us = compact_slots ts in
        let e1 = after_tag t e in
        let e2 = after_slots ts e1 in
        subst (λ bs. Gives (read_subtags r (suc k)) e bs (slot (compact t) us) e2)
          (sym (append_assoc (tag_bytes widen t) (slot_bytes widen ts) (encode little 1 0)))
          (Gives-then r (on_subtag (read_subtags r k)) (tag_bytes widen t) ends (some (compact t))
            (slot (compact t) us) e e1 e2 (named-Gives t f e h.0 (omega (arith, c)))
            (on_subtag-Gives (read_subtags r k) (compact t) e1 ends us e2 (not_end t h.0)
              (subtags-Gives ts f k e1 h.1 (omega (arith, c)) (omega (arith, d)))))
