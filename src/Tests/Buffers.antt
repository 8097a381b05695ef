-- ===== src/Tests/Buffers.antt =====
-- The buffers of src/buffer.c on concrete input.
use thirty.Prelude.{
  ℕ, ◌+◌, ◌-◌, min, true, false, ◌≡◌, refl, inr, arith, none, some, List, [], ◌∷◌, ◌++◌, length,
  take, drop, replicate,
}
use thirty.Endian.{big, swap, swap-swap, to_order}
use thirty.Buffer.{Buffer, live, size, seek, read, resize, make_room, write}
use thirty.Buffer.Valid.{IsValid}
use thirty.Buffer.Transfer.{Appended, write-Appended, write_fixed, read-write}
use thirty.Buffer.Typed.{generic_read, generic_write}
use thirty.Buffer.Typed.Exact.{generic_read-write, generic_write-refused}
use thirty.Buffer.McStr.{read_mcstr, spaces}
use thirty.Buffer.McStr.RoundTrip.{read_mcstr_blank}
use thirty.Tests.Heap.{zeroing}

-- A growing buffer of four bytes, one of them written.
abbrev growing : Buffer
growing = record {
  owned = true;
  grows = true;
  block = live;
  bytes = 1 ∷ 2 ∷ 3 ∷ 4 ∷ [];
  offset = 1;
}

-- A fixed buffer with two bytes left.
abbrev fixed : Buffer
fixed = record { owned = true; grows = false; block = live; bytes = 1 ∷ 2 ∷ 3 ∷ 4 ∷ []; offset = 2 }

abbrev field_buffer : Buffer
field_buffer = record {
  owned = true;
  grows = false;
  block = live;
  bytes = replicate 80 7;
  offset = 8;
}

abbrev blank_buffer : Buffer
blank_buffer = record { owned = false; grows = false; block = live; bytes = spaces 64; offset = 0 }

growing-IsValid : IsValid growing
growing-IsValid = record { within = omega arith; small = omega arith; allocated = refl }

fixed-IsValid : IsValid fixed
fixed-IsValid = record { within = omega arith; small = omega arith; allocated = refl }

blank_buffer-IsValid : IsValid blank_buffer
blank_buffer-IsValid = record { within = omega arith; small = omega arith; allocated = refl }

grown_by_four :
    write zeroing growing (9 ∷ 8 ∷ 7 ∷ 6 ∷ [])
    ≡ (4, record growing { bytes = 1 ∷ 9 ∷ 8 ∷ 7 ∷ 6 ∷ []; offset = 5 })
unfolding write make_room resize
grown_by_four = refl

-- A typed write grows the block by the width of its word, not by what is missing.
growing_word :
    (generic_write zeroing big 4 growing 0x01020304).1
    ≡ record growing { bytes = 1 ∷ 1 ∷ 2 ∷ 3 ∷ 4 ∷ 0 ∷ 0 ∷ 0 ∷ []; offset = 5 }
unfolding generic_write write make_room resize to_order swap
growing_word = refl

write-Appended_example :
    ((write zeroing growing (9 ∷ 8 ∷ 7 ∷ 6 ∷ [])).0 ≡ 4)
    × Appended growing (9 ∷ 8 ∷ 7 ∷ 6 ∷ []) (write zeroing growing (9 ∷ 8 ∷ 7 ∷ 6 ∷ [])).1
write-Appended_example =
    write-Appended zeroing (9 ∷ 8 ∷ 7 ∷ 6 ∷ []) growing-IsValid (omega arith, inr refl)

read-write_example :
    (read (seek (write zeroing growing (9 ∷ 8 ∷ 7 ∷ 6 ∷ [])).1 1) 4).0 ≡ 9 ∷ 8 ∷ 7 ∷ 6 ∷ []
read-write_example = read-write zeroing (9 ∷ 8 ∷ 7 ∷ 6 ∷ []) growing-IsValid (omega arith, inr refl)

abbrev three : List ℕ
three = 9 ∷ 8 ∷ 7 ∷ []

write_fixed_example :
    let n = min (length three) (size fixed - fixed.offset) in
    (write zeroing fixed three).0 ≡ n
    × ((write zeroing fixed three).1.bytes
        ≡ take fixed.offset fixed.bytes ++ (take n three ++ drop (fixed.offset + n) fixed.bytes))
    × ((write zeroing fixed three).1.offset ≡ fixed.offset + n)
    × IsValid (write zeroing fixed three).1
write_fixed_example = write_fixed zeroing three fixed-IsValid refl (omega arith)

generic_read-write_example :
    (c : Buffer) × (generic_read big 4 (seek (generic_write zeroing big 4 growing 0x01020304).1 1)
      ≡ some (0x01020304, c))
generic_read-write_example =
    generic_read-write zeroing big 4 0x01020304 growing-IsValid (omega arith, inr refl)
      (omega arith)

generic_write-refused_example : generic_write zeroing big 4 fixed 5 ≡ (false, fixed)
generic_write-refused_example =
    generic_write-refused zeroing big 4 5 fixed-IsValid refl (omega arith) (omega arith)

swap-swap_example : swap 4 (swap 4 0x01020304) ≡ 0x01020304
swap-swap_example = swap-swap 4 0x01020304 (omega arith)

read_mcstr_blank_example : read_mcstr (replicate 65 0) blank_buffer ≡ none
read_mcstr_blank_example =
    read_mcstr_blank blank_buffer (replicate 65 0) blank_buffer-IsValid (omega arith) refl
