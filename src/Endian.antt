-- ===== src/Endian.antt =====
-- Byte order (src/endian.h). The server runs on a little-endian machine (`ENDIAN_LITTLE`), so the
-- image of a word in memory starts with its low byte. A signed integer or a float is its bit
-- pattern.
use mathlib.Core.List.{reverse-reverse, reverse-append}
use native.Mathlib.Nat.{pow-suc}
use thirty.Prelude.{
  ℕ, zero, suc, ◌+◌, ◌*◌, ◌/◌, ◌%◌, ◌^◌, ◌<◌, ◌≡◌, refl, ◌∙◌, ap, subst, arith, List, [], ◌∷◌, ◌++◌,
  reverse, All, length, length-reverse,
}

-- The memory image of the word `x` of `w` bytes.
abbrev pub to_bytes : ℕ → ℕ → List ℕ
to_bytes zero x = []
to_bytes (suc w) x = (x % 256) ∷ to_bytes w (x / 256)

abbrev pub of_bytes : List ℕ → ℕ
of_bytes [] = 0
of_bytes (c ∷ cs) = c + 256 * of_bytes cs

abbrev pub IsByte : ℕ → Type 0
IsByte c = c < 256

-- `endian_swap16`, `endian_swap32` and `endian_swap64`, by the width in bytes.
unfoldable pub swap : ℕ → ℕ → ℕ
swap w x = of_bytes (reverse (to_bytes w x))

pub data ByteOrder : Type 0 where
  little big : ByteOrder

-- `endian_tolittle…` and `endian_tobig…`
unfoldable pub to_order : ByteOrder → ℕ → ℕ → ℕ
to_order little w x = x
to_order big w x = swap w x

pub length-to_bytes : (w x : ℕ) → length (to_bytes w x) ≡ w
length-to_bytes zero x = refl
length-to_bytes (suc w) x = ap suc (length-to_bytes w (x / 256))

pub to_bytes-IsByte : (w x : ℕ) → All IsByte (to_bytes w x)
to_bytes-IsByte zero x = tt
to_bytes-IsByte (suc w) x = (omega arith, to_bytes-IsByte w (x / 256))

pub of_bytes-to_bytes : (w x : ℕ) → x < 256 ^ w → of_bytes (to_bytes w x) ≡ x
of_bytes-to_bytes zero x h = omega arith
of_bytes-to_bytes (suc w) x h =
    omega (arith, pow-suc 256 w, of_bytes-to_bytes w (x / 256) (omega (arith, pow-suc 256 w)))

pub to_bytes-of_bytes : (cs : List ℕ) → All IsByte cs → to_bytes (length cs) (of_bytes cs) ≡ cs
to_bytes-of_bytes [] h = refl
to_bytes-of_bytes (c ∷ cs) h = rw (low, high, to_bytes-of_bytes cs h.1)
  where
    low : (c + 256 * of_bytes cs) % 256 ≡ c
    low = omega arith

    high : (c + 256 * of_bytes cs) / 256 ≡ of_bytes cs
    high = omega arith

All-append : (P : ℕ → Type 0) (xs ys : List ℕ) → All P xs → All P ys → All P (xs ++ ys)
All-append P [] ys h k = k
All-append P (x ∷ xs) ys h k = (h.0, All-append P xs ys h.1 k)

All-reverse : (P : ℕ → Type 0) (xs : List ℕ) → All P xs → All P (reverse xs)
All-reverse P [] h = tt
All-reverse P (x ∷ xs) h =
    rw (reverse-append (x ∷ []) xs)
      (All-append P (reverse xs) (x ∷ []) (All-reverse P xs h.1) (h.0, tt))

-- The bytes that a word takes on the wire.
abbrev pub encode : ByteOrder → ℕ → ℕ → List ℕ
encode little w x = to_bytes w x
encode big w x = reverse (to_bytes w x)

pub length-encode : (o : ByteOrder) (w x : ℕ) → length (encode o w x) ≡ w
length-encode little w x = length-to_bytes w x
length-encode big w x = length-reverse (to_bytes w x) ∙ length-to_bytes w x

-- The memory image of the swapped word is the word's image in the order asked for.
pub to_bytes-to_order : (o : ByteOrder) (w x : ℕ) → to_bytes w (to_order o w x) ≡ encode o w x
unfolding to_order swap
to_bytes-to_order little w x = refl
to_bytes-to_order big w x =
    subst (λ n. to_bytes n (of_bytes (reverse (to_bytes w x))) ≡ reverse (to_bytes w x))
      (length-encode big w x)
      (to_bytes-of_bytes _ (All-reverse IsByte (to_bytes w x) (to_bytes-IsByte w x)))

-- Swapping what was read in that order gives the word back.
pub to_order-encode :
    (o : ByteOrder) (w x : ℕ) → x < 256 ^ w → to_order o w (of_bytes (encode o w x)) ≡ x
unfolding to_order swap
to_order-encode little w x h = of_bytes-to_bytes w x h
to_order-encode big w x h =
    rw (to_bytes-to_order-big w x, reverse-reverse) (of_bytes-to_bytes w x h)
  where
    to_bytes-to_order-big :
        (w x : ℕ) → to_bytes w (of_bytes (reverse (to_bytes w x))) ≡ reverse (to_bytes w x)
    to_bytes-to_order-big w x = to_bytes-to_order big w x

-- `__builtin_bswap…` undoes itself.
pub swap-swap : (w x : ℕ) → x < 256 ^ w → swap w (swap w x) ≡ x
unfolding swap to_order
swap-swap w x h = to_order-encode big w x h

of_bytes-bounded : (cs : List ℕ) → All IsByte cs → of_bytes cs < 256 ^ length cs
of_bytes-bounded [] h = omega arith
of_bytes-bounded (c ∷ cs) h = omega (arith, h.0, pow-suc 256 (length cs), of_bytes-bounded cs h.1)

pub swap-bounded : (w x : ℕ) → swap w x < 256 ^ w
unfolding swap
swap-bounded w x =
    subst (λ n. of_bytes (reverse (to_bytes w x)) < 256 ^ n) (length-encode big w x)
      (of_bytes-bounded _ (All-reverse IsByte (to_bytes w x) (to_bytes-IsByte w x)))
