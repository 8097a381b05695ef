-- ===== src/Buffer/Transfer.antt =====
-- What `write` stores is what `read` returns.
use mathlib.Core.List.{append-nil, append_assoc}
use thirty.Prelude.{
  ℕ, ◌+◌, ◌^◌, ◌≤◌, ◌<◌, min, false, ◌-◌, ◌≡◌, ◌∙◌, ap, sym, subst, drop-take, drop-append, arith,
  List, [], ◌++◌, length, take, drop, overwrite, length-append, length-take, length-drop,
  length-overwrite, take-splice_end, take_all, take-drop-splice,
}
use thirty.Buffer.{Allocator, Buffer, size, seek, read, make_room, write}
use thirty.Buffer.Valid.{
  IsValid, HasRoom, CanHold, seek_within, read_within, make_room-IsValid, make_room_lem,
}

-- Everything before the position, which is what an output buffer sends.
abbrev pub written : Buffer → List ℕ
written b = take b.offset b.bytes

-- `c` is `b` with `bs` written behind what it held: the block has grown by no more than that, and
-- is valid.
pub record Appended (b : Buffer) (bs : List ℕ) (c : Buffer) : Type 0 where
  pub holds : written c ≡ written b ++ bs
  pub moved : c.offset ≡ b.offset + length bs
  pub valid : IsValid c
  pub same_kind : c.grows ≡ b.grows
  pub no_smaller : size b ≤ size c
  pub no_larger : size c ≤ size b + length bs

pub Appended-nil : {b : Buffer} → IsValid b → Appended b [] b
Appended-nil {b} v = ground (arith, append-nil (written b))

pub Appended-append :
    (b : Buffer) (xs : List ℕ) (c : Buffer) (ys : List ℕ) (d : Buffer)
    → Appended b xs c
    → Appended c ys d
    → Appended b (xs ++ ys) d
Appended-append b xs c ys d p q = record {
  holds = q.holds ∙ ap (λ t. t ++ ys) p.holds ∙ append_assoc (written b) xs ys;
  moved = omega (arith, p.moved, q.moved, length-append xs ys);
  valid = q.valid;
  same_kind = q.same_kind ∙ p.same_kind;
  no_smaller = omega (arith, p.no_smaller, q.no_smaller);
  no_larger = omega (arith, p.no_larger, q.no_larger, length-append xs ys);
}

-- What was appended stands behind the old position.
pub Appended-lem :
    (b : Buffer) (bs : List ℕ) (c : Buffer)
    → IsValid b
    → Appended b bs c
    → take (length bs) (drop b.offset c.bytes) ≡ bs
Appended-lem b bs c v p =
    sym (drop-take b.offset (length bs) c.offset c.bytes p.moved)
    ∙ ap (drop b.offset) p.holds
    ∙ subst (λ i. drop i (written b ++ bs) ≡ bs) before (drop-append (written b) bs)
  where
    before : length (written b) ≡ b.offset
    before = omega (arith, length-take b.offset b.bytes, v.within)

-- Reading from there returns it.
pub read_back :
    (b : Buffer) (bs : List ℕ) (c : Buffer) (n : ℕ)
    → IsValid b
    → Appended b bs c
    → length bs ≡ n
    → read (seek c b.offset) n ≡ (bs, record c { offset = b.offset + n })
read_back b bs c n v p e =
    ap (λ s. read s n) (seek_within c b.offset (omega (arith, p.moved, p.valid)))
    ∙ read_within (record c { offset = b.offset }) n (ground (arith, p.valid))
        (omega (arith, p.moved, p.valid))
    ∙ ap (λ cs. (cs, record c { offset = b.offset + n })) (rw e at (Appended-lem b bs c v p))

-- Room for two pieces is room for the second once the first is written.
pub Appended-HasRoom :
    (b : Buffer) (xs : List ℕ) (c : Buffer) (n : ℕ)
    → Appended b xs c
    → HasRoom b (length xs + n)
    → HasRoom c n
Appended-HasRoom b xs c n p room = ground arith

pub HasRoom-le : (b : Buffer) (n m : ℕ) → HasRoom b n → m ≤ n → HasRoom b m
HasRoom-le b n m room h = ground arith

module _ (heap : Allocator) {b : Buffer} (src : List ℕ) (v : IsValid b)
    (room : CanHold b (length src)) where
  -- All of `src` is copied to the position, in the block that `make_room` gives.
  pub write_eq : write heap b src ≡ (
    length src,
    record (make_room heap b (length src)) {
      bytes = overwrite (make_room heap b (length src)).bytes b.offset src;
      offset = b.offset + length src;
    },
  )
  unfolding write
  write_eq = ground (
    arith,
    make_room_lem heap (length src) v room,
    make_room-IsValid heap (length src) v room.0,
    take_all (length src) src,
  )

  -- In a valid buffer that can hold them, all bytes are stored behind what was written, and the
  -- buffer stays valid.
  pub write-Appended : ((write heap b src).0 ≡ length src) × Appended b src (write heap b src).1
  write-Appended = rw write_eq (
      ground (
        arith,
        make_room_lem heap (length src) v room,
        make_room-IsValid heap (length src) v room.0,
        length-overwrite (make_room heap b (length src)).bytes b.offset src,
        take-splice_end (make_room heap b (length src)).bytes b.offset src
            (drop (b.offset + length src) (make_room heap b (length src)).bytes),
      ))

  -- What was written is read back from the old position.
  pub read-write : (read (seek (write heap b src).1 b.offset) (length src)).0 ≡ src
  unfolding read seek
  read-write = rw write_eq (
      ground (
        arith,
        v,
        make_room_lem heap (length src) v room,
        make_room-IsValid heap (length src) v room.0,
        length-overwrite (make_room heap b (length src)).bytes b.offset src,
        take-drop-splice (make_room heap b (length src)).bytes b.offset src
            (drop (b.offset + length src) (make_room heap b (length src)).bytes),
      ))

-- A write inside the block leaves its size.
pub size-write_fits :
    (heap : Allocator) {b : Buffer} (src : List ℕ)
    → IsValid b
    → CanHold b (length src)
    → b.offset + length src ≤ size b
    → size (write heap b src).1 ≡ size b
unfolding make_room
size-write_fits heap {b} src v room h =
    rw (write_eq heap src v room) (ground (arith, length-overwrite b.bytes b.offset src))

-- A valid buffer that does not grow takes the bytes that fit and drops the rest: what stands before
-- the position and behind the bytes taken stays.
pub write_fixed :
    (heap : Allocator) {b : Buffer} (src : List ℕ)
    → IsValid b
    → b.grows ≡ false
    → length src < 2 ^ 63
    → let n = min (length src) (size b - b.offset) in
      (write heap b src).0 ≡ n
      × ((write heap b src).1.bytes
          ≡ take b.offset b.bytes ++ (take n src ++ drop (b.offset + n) b.bytes))
      × ((write heap b src).1.offset ≡ b.offset + n)
      × IsValid (write heap b src).1
unfolding write make_room
write_fixed heap {b} src v g small =
    let n = min (length src) (size b - b.offset) in
    ground (
      arith,
      length-take n src,
      length-append (take b.offset b.bytes) (take n src ++ drop (b.offset + n) b.bytes),
      length-append (take n src) (drop (b.offset + n) b.bytes),
      length-take b.offset b.bytes,
      length-drop (b.offset + n) b.bytes,
    )
