-- ===== src/Buffer/Typed.antt =====
-- The typed reads and writes of src/buffer.c, one for each width and byte order: the macros
-- GENERIC_READ and GENERIC_WRITE, the functions for single bytes, which swap nothing, and
-- buffer_write_mc.
pub mod Exact
use thirty.Prelude.{
  ℕ, zero, suc, ◌-◌, Bool, true, false, Option, none, some, List, ltb, if◌then◌else◌, length, take,
}
use thirty.Word.{add_size, util_min}
use thirty.Endian.{ByteOrder, little, big, to_bytes, of_bytes, to_order}
use thirty.Buffer.{Allocator, Buffer, size, tell, read, resize, write}

-- `none` is the result false, with the buffer and `*data` as they were.
unfoldable pub generic_read : ByteOrder → ℕ → Buffer → Option (ℕ × Buffer)
generic_read o w b =
    if ltb (size b) (add_size (tell b) w)
    then none
    else (let (cs, b') = read b w in some (to_order o w (of_bytes cs), b'))

abbrev pub read_uint8 : Buffer → Option (ℕ × Buffer)
read_uint8 = generic_read little 1

abbrev pub read_uint16be : Buffer → Option (ℕ × Buffer)
read_uint16be = generic_read big 2

abbrev pub read_uint32be : Buffer → Option (ℕ × Buffer)
read_uint32be = generic_read big 4

abbrev pub read_uint64be : Buffer → Option (ℕ × Buffer)
read_uint64be = generic_read big 8

-- A typed read into a variable, which keeps its value if the buffer holds too little.
abbrev pub read_into : (Buffer → Option (ℕ × Buffer)) → ℕ → Buffer → ℕ × Buffer
read_into f old b = elim (f b) [ none ↦ (old, b) | some r ↦ r ]

module _ (heap : Allocator) where
  -- The result of the call, and the buffer after it.
  unfoldable pub generic_write : ByteOrder → ℕ → Buffer → ℕ → Bool × Buffer
  generic_write o w b x =
      let image = to_bytes w (to_order o w x) in
      if ltb (size b) (add_size (tell b) w)
      then (if b.grows
          then (true, (write heap (resize heap b (add_size (size b) w)) image).1)
          else (false, b))
      else (true, (write heap b image).1)

  abbrev pub write_uint8 : Buffer → ℕ → Buffer
  write_uint8 b x = (generic_write little 1 b x).1

  abbrev pub write_uint16be : Buffer → ℕ → Buffer
  write_uint16be b x = (generic_write big 2 b x).1

  abbrev pub write_uint32be : Buffer → ℕ → Buffer
  write_uint32be b x = (generic_write big 4 b x).1

  abbrev pub write_uint64be : Buffer → ℕ → Buffer
  write_uint64be b x = (generic_write big 8 b x).1

  -- The loop of `write_mc`: `n` more zero bytes.
  unfoldable pub write_zeros : ℕ → Buffer → Buffer
  write_zeros zero b = b
  write_zeros (suc n) b = write_zeros n (write_uint8 b 0)

  unfoldable pub write_mc : Buffer → List ℕ → Buffer
  write_mc b src =
      write_zeros (1024 - length src) (write heap b (take (util_min (length src) 1024) src)).1
