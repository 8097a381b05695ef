-- ===== src/Prelude/Regions.antt =====
-- Copying a block of bytes into a larger one, as `memcpy` does.
use Prim.Native.Nat.{ℕ, zero, suc, ◌+◌, ◌≤◌}
use mathlib.Core.Path.{◌≡◌, refl, ap}
use mathlib.Core.List.{List, [], ◌∷◌, ◌++◌, append_assoc}
use native.Mathlib.Omega.{arith}
use thirty.Prelude.Lists.{length, take, drop, length-append, length-take, length-drop, take-append}

module _ {ℓ} {A : Type ℓ} where
  -- `memcpy(xs + i, ys, length ys)`; the callers keep it inside `xs`.
  abbrev pub overwrite : List A → ℕ → List A → List A
  overwrite xs i ys = take i xs ++ (ys ++ drop (i + length ys) xs)

  pub length-overwrite :
      (xs : List A) (i : ℕ) (ys : List A)
      → i + length ys ≤ length xs
      → length (overwrite xs i ys) ≡ length xs
  length-overwrite xs i ys h = omega (
    arith,
    length-append (take i xs) (ys ++ drop (i + length ys) xs),
    length-append ys (drop (i + length ys) xs),
    length-take i xs,
    length-drop (i + length ys) xs,
  )

  -- The copied block is read back.
  pub take-drop-splice :
      (xs : List A) (i : ℕ) (ys zs : List A)
      → i ≤ length xs
      → take (length ys) (drop i (take i xs ++ (ys ++ zs))) ≡ ys
  take-drop-splice xs zero ys zs h = take-front ys
    where
      take-front : (ys : List A) → take (length ys) (ys ++ zs) ≡ ys
      take-front [] = refl
      take-front (y ∷ ys) = ap (◌∷◌ y) (take-front ys)
  take-drop-splice [] (suc i) ys zs h = absurd (omega arith)
  take-drop-splice (x ∷ xs) (suc i) ys zs h = take-drop-splice xs i ys zs (omega arith)

  -- What stands before the block stays.
  pub take-splice :
      (xs : List A) (i : ℕ) (ws : List A) → i ≤ length xs → take i (take i xs ++ ws) ≡ take i xs
  take-splice xs zero ws h = refl
  take-splice [] (suc i) ws h = absurd (omega arith)
  take-splice (x ∷ xs) (suc i) ws h = ap (◌∷◌ x) (take-splice xs i ws (omega arith))

  -- The text up to the end of the block is the old text before it, and the block.
  pub take-splice_end :
      (xs : List A) (i : ℕ) (ys zs : List A)
      → i ≤ length xs
      → take (i + length ys) (take i xs ++ (ys ++ zs)) ≡ take i xs ++ ys
  take-splice_end xs i ys zs h = rw (← append_assoc) (rw ends (take-append (take i xs ++ ys) zs))
    where
      ends : i + length ys ≡ length (take i xs ++ ys)
      ends = omega (arith, length-append (take i xs) ys, length-take i xs)
