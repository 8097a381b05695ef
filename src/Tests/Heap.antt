-- ===== src/Tests/Heap.antt =====
-- An allocator that fills new memory with zeros: what is assumed of `realloc` can be met.
use thirty.Prelude.{ℕ, zero, suc, ◌≤◌, ◌≡◌, refl, ap, arith, List, [], ◌∷◌, length, take}
use thirty.Buffer.{Allocator}

abbrev pub pad : List ℕ → ℕ → List ℕ
pad old zero = []
pad [] (suc n) = 0 ∷ pad [] n
pad (x ∷ xs) (suc n) = x ∷ pad xs n

pub length-pad : (old : List ℕ) (n : ℕ) → length (pad old n) ≡ n
length-pad [] zero = refl
length-pad (x ∷ xs) zero = refl
length-pad [] (suc n) = ap suc (length-pad [] n)
length-pad (x ∷ xs) (suc n) = ap suc (length-pad xs n)

pub take-pad : (old : List ℕ) (n k : ℕ) → k ≤ length old → k ≤ n → take k (pad old n) ≡ take k old
take-pad old n zero h l = refl
take-pad old zero (suc k) h l = absurd (omega arith)
take-pad [] (suc n) (suc k) h l = absurd (omega arith)
take-pad (x ∷ xs) (suc n) (suc k) h l = ap (◌∷◌ x) (take-pad xs n k (omega arith) (omega arith))

abbrev pub zeroing : Allocator
zeroing = record { realloc = pad; length-realloc = length-pad; take-realloc = take-pad }
