-- ===== src/Rng.antt =====
-- The generator of random numbers, src/rng.c. Its signed arithmetic is read as wrapping; `none` is a loop
-- that goes on past the fuel.
pub mod Period
use Prim.Native.Nat.{bit_and, bit_xor}
use thirty.Prelude.{
  ℕ, zero, suc, ◌+◌, ◌-◌, ◌*◌, ◌/◌, ◌%◌, ◌^◌, Bool, Option, none, some, leb, ltb, ◌==◌,
  if◌then◌else◌,
}
use thirty.Prelude.Options.{◌>>=◌}

-- `value` of `rng_create`; `mask` keeps 48 bits.
abbrev pub multiplier : ℕ
multiplier = 0x5DEECE66D

-- `rng_create` and `rng_set_seed`, for a seed as the bits of an `int` or a `long long`.
unfoldable pub rng_create : ℕ → ℕ
rng_create seed = bit_xor seed multiplier % 2 ^ 48

-- The line that moves the seed on.
unfoldable pub step : ℕ → ℕ
step seed = (seed * multiplier + 0xB) % 2 ^ 48

-- The do loop of `rng_next`, whose test asks whether an `int` has wrapped.
unfoldable pub draw : ℕ → ℕ → ℕ → Option (ℕ × ℕ)
draw zero n seed = none
draw (suc fuel) n seed =
    let s = step seed in
    let bits = s / 2 ^ (48 - 31) in
    let val = bits % n in
    let again = draw fuel n s in
    if leb (2 ^ 31) (bits - val + (n - 1)) then again else some (val, s)

-- `rng_next` for an `n` that is no less than 0: the number and the seed after it.
unfoldable pub rng_next : ℕ → ℕ → ℕ → Option (ℕ × ℕ)
rng_next fuel n seed =
    if bit_and n ((2 ^ 32 - n) % 2 ^ 32) == n
    then (let s = step seed in some (n * (s / 2 ^ (48 - 31)) / 2 ^ 31, s))
    else draw fuel n seed

-- `rng_next2` for `min` no more than `max`.
unfoldable pub rng_next2 : ℕ → ℕ → ℕ → ℕ → Option (ℕ × ℕ)
rng_next2 fuel min max seed = rng_next fuel (max - min) seed >>= λ (v, s). some (min + v, s)

-- `rng_next_boolean`: the number over 2^24 that `rng_next_float` gives is exact.
unfoldable pub rng_next_boolean : ℕ → Bool × ℕ
rng_next_boolean seed = let s = step seed in (ltb (2 ^ 23) (s / 2 ^ (48 - 24)), s)
