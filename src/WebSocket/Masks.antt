-- ===== src/WebSocket/Masks.antt =====
-- The mask of a frame of src/client.c undoes itself.
use Prim.Native.Nat.{bit_xor}
use thirty.Prelude.{
  ℕ, zero, suc, ◌%◌, ◌<◌, ◌≡◌, refl, ap, Bool, true, ◌&&◌, ◌==◌, ==_iff, List, [], ◌∷◌, ◌++◌,
  length, get_or, All, arith,
}
use thirty.Endian.{IsByte}
use thirty.WebSocket.{unmask}

all_below : ℕ → (ℕ → Bool) → Bool
all_below zero p = true
all_below (suc n) p = p n && all_below n p

all_below-holds : (n : ℕ) (p : ℕ → Bool) (x : ℕ) → all_below n p ≡ true → x < n → p x ≡ true
unfolding all_below
all_below-holds zero p x h lt = absurd (omega arith)
all_below-holds (suc n) p x h lt = ground (arith, all_below-holds n p x)

twice : ℕ → ℕ → Bool
twice m x = bit_xor (bit_xor x m) m == x

twice_table : all_below 256 (λ m. all_below 256 (twice m)) ≡ true
unfolding all_below twice
twice_table = refl

xor_twice : (x m : ℕ) → x < 256 → m < 256 → bit_xor (bit_xor x m) m ≡ x
unfolding twice
xor_twice x m h k = (==_iff _ x).0 (
    all_below-holds 256 (twice m) x
      (all_below-holds 256 (λ m'. all_below 256 (twice m')) m twice_table k) h)

key_byte : (key : List ℕ) (i : ℕ) → All IsByte key → get_or key i 0 < 256
key_byte [] i h = omega arith
key_byte (k ∷ key) zero h = h.0
key_byte (k ∷ key) (suc i) h = key_byte key i h.1

-- What a client sends of its data.
abbrev pub masked : List ℕ → ℕ → List ℕ → List ℕ
masked key i ds = unmask key i (length ds) ds

pub length-masked : (key : List ℕ) (i : ℕ) (ds : List ℕ) → length (masked key i ds) ≡ length ds
unfolding unmask
length-masked key i [] = refl
length-masked key i (d ∷ ds) = ap suc (length-masked key (suc i) ds)

pub unmask-masked :
    (key : List ℕ) (i : ℕ) (ds rest : List ℕ)
    → All IsByte key
    → All IsByte ds
    → unmask key i (length ds) (masked key i ds ++ rest) ≡ ds ++ rest
unfolding unmask
unmask-masked key i [] rest k h = refl
unmask-masked key i (d ∷ ds) rest k h =
    rw (xor_twice d (get_or key (i % 4) 0) h.0 (key_byte key (i % 4) k))
      (ap (◌∷◌ d) (unmask-masked key (suc i) ds rest k h.1))
