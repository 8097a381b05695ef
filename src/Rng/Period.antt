-- ===== src/Rng/Period.antt =====
-- Why the loop of `rng_next` in src/rng.c ends.
use thirty.Prelude.{
  ℕ, zero, suc, ◌+◌, ◌-◌, ◌*◌, ◌/◌, ◌%◌, ◌^◌, ◌≤◌, ◌<◌, ◌≡◌, refl, sym, ap, subst, ◌∙◌, arith,
  false, Bool-cases, inl, inr, Option, some, leb, ◌==◌,
}
use Prim.Native.Nat.{bit_and}
use native.Mathlib.Nat.{pow-suc, zero-add, suc-add, mul-le-mul_left}
use thirty.Rng.{step, draw, rng_next}

unfoldable iterate : ℕ → ℕ → ℕ
iterate zero s = s
iterate (suc n) s = iterate n (step s)

iterate-add : (m n s : ℕ) → iterate (m + n) s ≡ iterate n (iterate m s)
unfolding iterate
iterate-add zero n s = rw (zero-add n) refl
iterate-add (suc m) n s = rw (suc-add m n) (iterate-add m n (step s))

step-lt : (s : ℕ) → step s < 2 ^ 48
unfolding step
step-lt s = omega arith

-- `2 ^ k` steps multiply by one more than a multiple of `4 * 2 ^ k`, and add an odd multiple of `2 ^ k`.
record Leap (p : ℕ) : Type 0 where
  u : ℕ
  v : ℕ
  leap : (s : ℕ) → iterate p s ≡ (s * (1 + 4 * p * u) + p * (2 * v + 1)) % 2 ^ 48

twice :
    (s a c : ℕ) → (((s * a + c) % 2 ^ 48) * a + c) % 2 ^ 48 ≡ (s * (a * a) + c * (a + 1)) % 2 ^ 48
twice s a c =
    let x = s * a + c in
    let split : x ≡ x / 2 ^ 48 * 2 ^ 48 + x % 2 ^ 48 = omega arith in
    omega (arith, ap (λ t. t * a) split)

Leap-first : Leap 1
unfolding iterate step
Leap-first = record { u = 6303725979; v = 5; leap = λ s. refl }

Leap-twice : (p : ℕ) → Leap p → Leap (p + p)
Leap-twice p l = record {
  u = l.u + 2 * p * l.u * l.u;
  v = l.v + (2 * l.v + 1) * p * l.u;
  leap = λ s.
      let a = 1 + 4 * p * l.u in
      let c = p * (2 * l.v + 1) in
      iterate-add p p s
      ∙ l.leap (iterate p s)
      ∙ ap (λ t. (t * a + c) % 2 ^ 48) (l.leap s)
      ∙ twice s a c
      ∙ ap (λ t. t % 2 ^ 48) (omega arith);
}

leaps : (k : ℕ) → Leap (2 ^ k)
leaps zero = Leap-first
leaps (suc k) = subst Leap (omega (arith, pow-suc 2 k)) (Leap-twice (2 ^ k) (leaps k))

-- 2 ^ 47 steps flip the highest bit.
iterate-half : (s : ℕ) → iterate (2 ^ 47) s ≡ (s + 2 ^ 47) % 2 ^ 48
iterate-half s = let l = leaps 47 in l.leap s ∙ whole l.u l.v
  where
    whole :
        (u v : ℕ)
        → (s * (1 + 4 * 2 ^ 47 * u) + 2 ^ 47 * (2 * v + 1)) % 2 ^ 48 ≡ (s + 2 ^ 47) % 2 ^ 48
    whole u v = omega arith

-- A seed below 2 ^ 47 ends the loop.
draw-low :
    (fuel n seed : ℕ)
    → n ≤ 2 ^ 30
    → step seed < 2 ^ 47
    → draw (suc fuel) n seed ≡ some (step seed / 2 ^ 17 % n, step seed)
unfolding draw
draw-low fuel n seed h low = rw accepted refl
  where
    accepted : leb (2 ^ 31) (step seed / 2 ^ 17 - step seed / 2 ^ 17 % n + (n - 1)) ≡ false
    accepted = ground (arith)

-- A number below `n`, and a seed.
abbrev pub Draws : ℕ → Option (ℕ × ℕ) → Type 0
Draws n r = (v : ℕ) × (s : ℕ) × (r ≡ some (v, s)) × (v < n) × (s < 2 ^ 48)

draw-Draws :
    (j fuel n seed : ℕ)
    → 0 < n
    → n ≤ 2 ^ 30
    → j < fuel
    → iterate j (step seed) < 2 ^ 47
    → Draws n (draw fuel n seed)
unfolding draw iterate
draw-Draws zero (suc fuel) n seed pos h more low = (
  step seed / 2 ^ 17 % n,
  step seed,
  draw-low fuel n seed h low,
  omega (arith, pos),
  step-lt seed,
)
draw-Draws (suc j) (suc fuel) n seed pos h more low =
    let s = step seed in
    elim (Bool-cases (leb (2 ^ 31) (s / 2 ^ 17 - s / 2 ^ 17 % n + (n - 1)))) [
      | inl again ↦ rw again (draw-Draws j fuel n s pos h (omega (arith, more)) low)
      | inr done ↦ (s / 2 ^ 17 % n, s, rw done refl, omega (arith, pos), step-lt seed)
    ]
draw-Draws j zero n seed pos h more low = absurd (omega (arith, more))

draw-lem : (fuel n seed : ℕ) → 0 < n → n ≤ 2 ^ 30 → 2 ^ 47 < fuel → Draws n (draw fuel n seed)
unfolding iterate
draw-lem fuel n seed pos h enough = elim (Bool-cases (leb (2 ^ 47) (step seed))) [
  | inl high ↦
      draw-Draws (2 ^ 47) fuel n seed pos h enough
        (subst (λ s. s < 2 ^ 47) (sym (iterate-half (step seed))) (ground (arith, step-lt seed)))
  | inr low ↦ draw-Draws 0 fuel n seed pos h (omega (arith, enough)) (ground arith)
]

-- A number drawn below an `n` from 1 to 2^30 is always found: whatever the seed, the loop ends within 2^47 + 1
-- rounds, the number is less than `n`, and the new seed has 48 bits.
pub rng_next-Draws :
    (fuel n seed : ℕ) → 0 < n → n ≤ 2 ^ 30 → 2 ^ 47 < fuel → Draws n (rng_next fuel n seed)
unfolding rng_next
rng_next-Draws fuel n seed pos h enough =
    elim (Bool-cases (bit_and n ((2 ^ 32 - n) % 2 ^ 32) == n)) [
      | inr other ↦ rw other (draw-lem fuel n seed pos h enough)
      | inl power ↦
          let s = step seed in
          (
            n * (s / 2 ^ 17) / 2 ^ 31,
            s,
            rw power refl,
            scaled (s / 2 ^ 17) (omega (arith, step-lt seed)),
            step-lt seed,
          )
    ]
  where
    scaled : (raw : ℕ) → raw < 2 ^ 31 → n * raw / 2 ^ 31 < n
    scaled raw r = omega (arith, mul-le-mul_left n r, pos)
