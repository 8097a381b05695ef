-- ===== src/Word.antt =====
-- Machine integers: `size_t` arithmetic, which wraps at 2^64, narrowing casts, and the macro
-- `util_min` of src/util.h.
use thirty.Prelude.{ℕ, ◌+◌, ◌-◌, ◌*◌, ◌%◌, ◌^◌, ltb, if◌then◌else◌}

abbrev pub size_mod : ℕ
size_mod = 2 ^ 64

abbrev pub add_size : ℕ → ℕ → ℕ
add_size a b = (a + b) % size_mod

abbrev pub sub_size : ℕ → ℕ → ℕ
sub_size a b = (a + size_mod - b) % size_mod

abbrev pub mul_size : ℕ → ℕ → ℕ
mul_size a b = (a * b) % size_mod

abbrev pub uint8 : ℕ → ℕ
uint8 x = x % 256

abbrev pub uint16 : ℕ → ℕ
uint16 x = x % 2 ^ 16

abbrev pub uint32 : ℕ → ℕ
uint32 x = x % 2 ^ 32

abbrev pub util_min : ℕ → ℕ → ℕ
util_min x y = if ltb x y then x else y
