-- ===== src/Buffer.antt =====
-- The memory buffers of src/buffer.c and src/buffer.h: a block of bytes with a position, which may
-- grow. `mem.size` is the length of the block. A buffer over a file is not modelled.
pub mod Valid
pub mod Transfer
pub mod Stands
pub mod Emits
pub mod Typed
pub mod McStr
pub mod Later
use thirty.Prelude.{
  ℕ, zero, suc, ◌+◌, ◌-◌, ◌≤◌, Bool, true, false, not, ◌&&◌, List, [], ◌∷◌, ◌≡◌, ltb, ◌==◌,
  if◌then◌else◌, length, take, drop, replicate, overwrite,
}
use thirty.Word.{add_size, sub_size, util_min}

-- What the C library's `realloc` is relied on for: the new block has the wanted size and begins
-- with the old contents. The bytes beyond those are its own choice.
pub record Allocator : Type 0 where
  pub realloc : List ℕ → ℕ → List ℕ
  pub length-realloc : (old : List ℕ) (n : ℕ) → length (realloc old n) ≡ n
  pub take-realloc :
      (old : List ℕ) (n k : ℕ) → k ≤ length old → k ≤ n → take k (realloc old n) ≡ take k old

-- What `mem.data` points to: allocated memory, memory that was freed, or, after such a pointer was
-- handed to `free` or `realloc`, nothing that the language defines.
pub data Block : Type 0 where
  live dangling corrupt : Block

pub record Buffer : Type 0 where
  pub owned : Bool
  pub grows : Bool
  pub block : Block
  pub bytes : List ℕ
  pub offset : ℕ

abbrev pub size : Buffer → ℕ
size b = length b.bytes

abbrev pub tell : Buffer → ℕ
tell b = b.offset

-- The field `grows` is not set here: it has whatever value the allocated memory holds, which is handed in.
unfoldable pub create_memory : Bool → List ℕ → Buffer
create_memory grows memory = record {
  owned = false;
  grows = grows;
  block = live;
  bytes = memory;
  offset = 0;
}

unfoldable pub allocate_memory : ℕ → Bool → Buffer
allocate_memory n grows = record {
  owned = true;
  grows = grows;
  block = live;
  bytes = replicate n 0;
  offset = 0;
}

unfoldable pub seek : Buffer → ℕ → Buffer
seek b n = record b { offset = util_min n (size b) }

abbrev pub freed : Block → Block
freed live = dangling
freed _ = corrupt

abbrev pub reallocated : Block → Block
reallocated live = live
reallocated _ = corrupt

-- The bytes copied out, whose number is the result of the call, and the buffer moved on.
unfoldable pub read : Buffer → ℕ → List ℕ × Buffer
read b len =
    let n = util_min len (sub_size (size b) b.offset) in
    (take n (drop b.offset b.bytes), record b { offset = add_size b.offset n })

module _ (heap : Allocator) where
  unfoldable pub resize : Buffer → ℕ → Buffer
  resize b n =
      if n == 0 && not (size b == 0)
      then record b { block = freed b.block; bytes = []; offset = 0 }
      else record b {
        block = reallocated b.block;
        bytes = heap.realloc b.bytes n;
        offset = util_min b.offset n;
      }

  unfoldable pub make_room : Buffer → ℕ → Buffer
  make_room b len =
      let end = add_size b.offset len in if b.grows && ltb (size b) end then resize b end else b

  -- The number of bytes written, and the buffer after it.
  unfoldable pub write : Buffer → List ℕ → ℕ × Buffer
  write b src =
      let c = make_room b (length src) in
      let n = util_min (length src) (sub_size (size c) c.offset) in
      (
        n,
        record c { bytes = overwrite c.bytes c.offset (take n src); offset = add_size c.offset n },
      )
