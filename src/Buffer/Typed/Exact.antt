-- ===== src/Buffer/Typed/Exact.antt =====
-- A typed write stores exactly the bytes of the word in its order, and a typed read of them gives
-- the word back.
use thirty.Prelude.{
  ℕ, ◌+◌, ◌^◌, ◌≤◌, ◌<◌, true, false, ◌≡◌, refl, inl, inr, Bool-cases, ltb, arith, List, ◌++◌, none,
  some, length, take, drop, ap, ◌∙◌,
}
use thirty.Word.{add_size}
use thirty.Endian.{
  ByteOrder, of_bytes, to_order, encode, length-encode, to_bytes-to_order, to_order-encode,
}
use thirty.Buffer.{Allocator, Buffer, size, tell, seek, read, resize, write}
use thirty.Buffer.Valid.{IsValid, HasRoom, CanHold, seek_within}
use thirty.Buffer.Transfer.{written, Appended, Appended-lem, write-Appended, size-write_fits}
use thirty.Buffer.Typed.{generic_read, generic_write}

-- A read of a word that the block does not hold is refused.
pub generic_read-none :
    (o : ByteOrder) (w : ℕ) {b : Buffer}
    → IsValid b
    → b.offset + w < 2 ^ 63
    → size b < b.offset + w
    → generic_read o w b ≡ none
unfolding generic_read
generic_read-none o w v small h = ground arith

pub generic_read-some :
    (o : ByteOrder) (w : ℕ) {b : Buffer}
    → IsValid b
    → b.offset + w ≤ size b
    → generic_read o w b
      ≡ some (
        to_order o w (of_bytes (take w (drop b.offset b.bytes))),
        record b { offset = b.offset + w },
      )
unfolding generic_read read
generic_read-some o w v h = ground arith

module _ (heap : Allocator) where
  -- A fixed buffer refuses a word that does not fit, and is left as it was.
  pub generic_write-refused :
      (o : ByteOrder) (w x : ℕ) {b : Buffer}
      → IsValid b
      → b.grows ≡ false
      → size b < b.offset + w
      → b.offset + w < 2 ^ 63
      → generic_write heap o w b x ≡ (false, b)
  unfolding generic_write
  generic_write-refused o w x v g h small = ground arith

  -- The state that the word is copied into when the buffer has to grow.
  grown_lem :
      (w : ℕ) {b : Buffer}
      → IsValid b
      → size b + w < 2 ^ 63
      → b.grows ≡ true
      → IsValid (resize heap b (add_size (size b) w))
        × (size (resize heap b (add_size (size b) w)) ≡ size b + w)
        × ((resize heap b (add_size (size b) w)).offset ≡ b.offset)
        × (written (resize heap b (add_size (size b) w)) ≡ written b)
        × ((resize heap b (add_size (size b) w)).grows ≡ b.grows)
  unfolding resize
  grown_lem w {b} v h g = ground (
    arith,
    heap.length-realloc b.bytes (size b + w),
    heap.take-realloc b.bytes (size b + w) b.offset,
  )

  -- A write into the grown buffer appends to the old one.
  write_grown :
      (w : ℕ) {b : Buffer} (src : List ℕ)
      → length src ≡ w
      → IsValid b
      → size b + w < 2 ^ 62
      → b.grows ≡ true
      → Appended b src (write heap (resize heap b (add_size (size b) w)) src).1
  write_grown w {b} src e v h g =
      let (valid, larger, offset, before, kind) = grown_lem w v (omega arith) g in
      let room : CanHold (resize heap b (add_size (size b) w)) (length src) =
        (omega arith, inl (omega arith)) in
      let stored = (write-Appended heap src valid room).1 in
      record {
        holds = stored.holds ∙ ap (λ t. t ++ src) before;
        moved = omega (arith, stored.moved);
        valid = stored.valid;
        same_kind = stored.same_kind ∙ kind;
        no_smaller = omega (arith, stored.no_smaller);
        no_larger = omega (arith, size-write_fits heap src valid room (omega arith));
      }

  -- A typed write to a valid buffer with room succeeds and appends the bytes of the word in the
  -- order asked for; the buffer stays valid.
  pub generic_write-Appended :
      (o : ByteOrder) (w x : ℕ) {b : Buffer}
      → IsValid b
      → HasRoom b w
      → ((generic_write heap o w b x).0 ≡ true)
        × Appended b (encode o w x) (generic_write heap o w b x).1
  unfolding generic_write
  generic_write-Appended o w x {b} v room = elim (Bool-cases (ltb (size b) (add_size (tell b) w))) [
    | inl full ↦
        ground
          (arith, to_bytes-to_order o w x, write_grown w (encode o w x) (length-encode o w x) v)
    | inr fits ↦
        rw (fits, to_bytes-to_order o w x)
          (refl, (write-Appended heap (encode o w x) v (rw length-encode (omega arith, room.1))).1)
  ]

  -- A word that fits its width, written to a valid buffer with room, is read back from the old
  -- position by the read of the same width and order.
  pub generic_read-write :
      (o : ByteOrder) (w x : ℕ) {b : Buffer}
      → IsValid b
      → HasRoom b w
      → x < 256 ^ w
      → (c : Buffer) × (generic_read o w (seek (generic_write heap o w b x).1 b.offset)
          ≡ some (x, c))
  generic_read-write o w x {b} v room h =
      let stored = (generic_write-Appended o w x v room).1 in
      let d = (generic_write heap o w b x).1 in
      let placed : take w (drop b.offset d.bytes) ≡ encode o w x =
        rw length-encode at (Appended-lem b (encode o w x) d v stored) in
      let held : b.offset + w ≤ size d =
        omega (arith, stored.moved, stored.valid, length-encode o w x) in
      let valid : IsValid (record d { offset = b.offset }) = ground (arith, stored.valid) in
      (
        record d { offset = b.offset + w },
        ap (generic_read o w) (seek_within d b.offset (omega arith))
            ∙ generic_read-some o w valid held
            ∙ rw placed (rw (to_order-encode o w x h)),
      )
