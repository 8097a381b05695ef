-- ===== src/Buffer/Valid.antt =====
-- The invariant of a memory buffer, and what moves its position.
use thirty.Prelude.{
  ℕ, ◌+◌, ◌^◌, ◌≤◌, ◌<◌, Bool, true, ◌≡◌, ◌⊎◌, arith, List, length, take, drop, length-replicate,
}
use thirty.Buffer.{
  Allocator, live, Buffer, size, create_memory, allocate_memory, seek, read, resize, make_room,
}

-- The position lies in the block, the block is allocated, and it is no larger than an object can
-- be.
pub record IsValid (b : Buffer) : Type 0 where
  pub within : b.offset ≤ size b
  pub small : size b < 2 ^ 63
  pub allocated : b.block ≡ live

-- `len` bytes fit behind the position, or the buffer can grow to hold them.
abbrev pub CanHold : Buffer → ℕ → Type 0
CanHold b len = (size b + len < 2 ^ 63) × ((b.offset + len ≤ size b) ⊎ (b.grows ≡ true))

-- The same, with a bound that leaves room for a typed write, which grows the block by the width
-- of its word whatever the position.
abbrev pub HasRoom : Buffer → ℕ → Type 0
HasRoom b len = (size b + len < 2 ^ 62) × ((b.offset + len ≤ size b) ⊎ (b.grows ≡ true))

pub create_memory-IsValid :
    (grows : Bool) (memory : List ℕ) → length memory < 2 ^ 63 → IsValid (create_memory grows memory)
unfolding create_memory
create_memory-IsValid grows memory h = ground arith

pub allocate_memory-IsValid :
    (n : ℕ) (grows : Bool) → n < 2 ^ 63 → IsValid (allocate_memory n grows)
unfolding allocate_memory
allocate_memory-IsValid n grows h = ground (arith, length-replicate {A = ℕ} n 0)

pub seek-IsValid : {b : Buffer} (n : ℕ) → IsValid b → IsValid (seek b n)
unfolding seek
seek-IsValid n v = ground arith

-- Seeking inside the block.
pub seek_within : (b : Buffer) (n : ℕ) → n ≤ size b → seek b n ≡ record b { offset = n }
unfolding seek
seek_within b n h = ground arith

pub read-IsValid : {b : Buffer} (len : ℕ) → IsValid b → IsValid (read b len).1
unfolding read
read-IsValid len v = ground arith

-- A read inside the block takes all that was asked for.
pub read_within :
    (b : Buffer) (len : ℕ)
    → IsValid b
    → b.offset + len ≤ size b
    → read b len ≡ (take len (drop b.offset b.bytes), record b { offset = b.offset + len })
unfolding read
read_within b len v h = ground arith

module _ (heap : Allocator) where
  pub make_room-IsValid :
      {b : Buffer} (len : ℕ) → IsValid b → size b + len < 2 ^ 63 → IsValid (make_room heap b len)
  unfolding make_room resize
  make_room-IsValid {b} len v h = ground (arith, heap.length-realloc b.bytes (b.offset + len))

  -- Growing keeps the position and what stands before it, and makes the room.
  pub make_room_lem :
      {b : Buffer} (len : ℕ)
      → IsValid b
      → CanHold b len
      → ((make_room heap b len).offset ≡ b.offset)
        × (b.offset + len ≤ size (make_room heap b len))
        × (take b.offset (make_room heap b len).bytes ≡ take b.offset b.bytes)
        × (size b ≤ size (make_room heap b len))
        × (size (make_room heap b len) ≤ size b + len)
        × ((make_room heap b len).grows ≡ b.grows)
  unfolding make_room resize
  make_room_lem {b} len v h = ground (
    arith,
    heap.length-realloc b.bytes (b.offset + len),
    heap.take-realloc b.bytes (b.offset + len) b.offset,
  )
