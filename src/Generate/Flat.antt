-- ===== src/Generate/Flat.antt =====
-- What a generator writes that sets each position once or always alike, src/mapgen_flat.c.
use thirty.Prelude.{
  ℕ, zero, suc, ◌+◌, ◌≤◌, ◌<◌, ◌≡◌, ◌⊎◌, refl, sym, ap, subst, ◌∙◌, arith, inl, inr, Bool,
  Bool-cases, true, false, ◌||◌, ◌&&◌, some, List, [], ◌∷◌, ◌==◌,
}
use native.Mathlib.Decide.{ℕ_discrete}
use thirty.Prelude.Options.{◌>>=◌}
use thirty.Buffer.{Allocator}
use thirty.Block.{num_blocks}
use thirty.Map.{get, pos_valid, block_index}
use thirty.Map.Index.{Inside, pos_valid-Inside, Inside-pos_valid, get_lem}
use thirty.World.{
  World, Change, for_each, count_up, react, announce, store_block, set_with, map_set,
}
use thirty.World.Quiet.{changed, map_set_idle, get-store_block, get-store_block_ne}
use thirty.World.Keeps.{IsSound, Kept, Kept-refl, Kept-trans, map_set-Kept}

abbrev pub any_of : List ℕ → (ℕ → Bool) → Bool
any_of [] p = false
any_of (i ∷ is) p = p i || any_of is p

at_same :
    (p : ℕ → ℕ → ℕ → Type 0) (x y z a b c : ℕ) → (x ≡ a) × (y ≡ b) × (z ≡ c) → p x y z → p a b c
at_same p x y z a b c (e, f, g) h =
    subst (λ k. p k b c) e (subst (λ k. p x k c) f (subst (p x y) g h))

-- In a map of the sides of `w`, the positions of `t` hold the blocks of `v`, and the others what they held.
module _ (v : ℕ → ℕ → ℕ → ℕ) where
  pub record Fills (t : ℕ → ℕ → ℕ → Bool) (w w' : World) : Type 0 where
    pub kept : Kept w w'
    pub filled :
        (a b c : ℕ) → Inside w.map a b c → t a b c ≡ true → get w'.map a b c ≡ some (v a b c)
    pub left :
        (a b c : ℕ) → Inside w.map a b c → t a b c ≡ false → get w'.map a b c ≡ get w.map a b c

  abbrev pub Writes : (ℕ → ℕ → ℕ → Bool) → Change → Type 0
  Writes t f =
      (w : World)
      → IsSound w
      → w.map.generating ≡ true
      → (w' : World) × (f w ≡ some w') × Fills t w w'

  Fills-trans :
      (t u : ℕ → ℕ → ℕ → Bool) (w w1 w2 : World)
      → Fills t w w1
      → Fills u w1 w2
      → Fills (λ a b c. t a b c || u a b c) w w2
  Fills-trans t u w w1 w2 p q = record {
    kept = Kept-trans p.kept q.kept;
    filled = λ a b c i h. elim (Bool-cases (u a b c)) [
      | inl late ↦ q.filled a b c (moved a b c i) late
      | inr early ↦ q.left a b c (moved a b c i) early ∙ p.filled a b c i (ground (arith, h, early))
    ];
    left = λ a b c i h.
        q.left a b c (moved a b c i) (ground (arith, h)) ∙ p.left a b c i (ground (arith, h));
  }
    where
      moved : (a b c : ℕ) → Inside w.map a b c → Inside w1.map a b c
      moved a b c i = (
        omega (arith, p.kept.width, i.0),
        omega (arith, p.kept.depth, i.1),
        omega (arith, p.kept.height, i.2),
      )

  Writes-then :
      (t u : ℕ → ℕ → ℕ → Bool) (f g : Change)
      → Writes t f
      → Writes u g
      → Writes (λ a b c. t a b c || u a b c) (λ w. f w >>= g)
  Writes-then t u f g p q w s on =
      let (w1, e1, k1) = p w s on in
      let (w2, e2, k2) = q w1 k1.kept.sound (k1.kept.generating ∙ on) in
      (w2, rw e1 e2, Fills-trans t u w w1 w2 k1 k2)

  pub for_each-Writes :
      (is : List ℕ) (t : ℕ → ℕ → ℕ → ℕ → Bool) (body : ℕ → Change)
      → ((i : ℕ) → Writes (t i) (body i))
      → Writes (λ a b c. any_of is (λ i. t i a b c)) (for_each is body)
  for_each-Writes [] t body p w s on = (
    w,
    refl,
    record { kept = Kept-refl s; filled = λ a b c i h. absurd (cc); left = λ a b c i h. refl },
  )
  for_each-Writes (i ∷ is) t body p w s on =
      Writes-then (t i) (λ a b c. any_of is (λ j. t j a b c)) (body i) (for_each is body) (p i)
        (for_each-Writes is t body p) w s on

  abbrev pub is_at : ℕ → ℕ → ℕ → ℕ → ℕ → ℕ → Bool
  is_at x y z a b c = (x == a) && ((y == b) && (z == c))

  at-eq : (x y z a b c : ℕ) → is_at x y z a b c ≡ true → (x ≡ a) × (y ≡ b) × (z ≡ c)
  at-eq x y z a b c h = ground (arith, h)

  at-ne : (x y z a b c : ℕ) → is_at x y z a b c ≡ false → ¬ ((x ≡ a) × (y ≡ b) × (z ≡ c))
  at-ne x y z a b c h = ground (arith, h)

  -- Nothing is to be done outside the map, or where the block is.
  idle-Fills :
      (w : World) (x y z : ℕ)
      → IsSound w
      → (pos_valid w.map x y z ≡ false) ⊎ (get w.map x y z ≡ some (v x y z))
      → Fills (is_at x y z) w w
  idle-Fills w x y z s h = record {
    kept = Kept-refl s;
    filled = λ a b c i e. elim h [
      | inr there ↦
          at_same (λ a' b' c'. get w.map a' b' c' ≡ some (v a' b' c')) x y z a b c
            (at-eq x y z a b c e) there
      | inl off ↦
          let (p, q, r) = at-eq x y z a b c e in
          let ok =
            Inside-pos_valid w.map x y z
              (omega (arith, p, i.0), omega (arith, q, i.1), omega (arith, r, i.2)) in
          absurd (cc)
    ];
    left = λ a b c i e. refl;
  }

  -- A block that is another one is stored.
  stored-Fills :
      (heap : Allocator) (fuel x y z old : ℕ) (w : World)
      → v x y z < num_blocks
      → IsSound w
      → w.map.generating ≡ true
      → Inside w.map x y z
      → get w.map x y z ≡ some old
      → (old == v x y z) ≡ false
      → (w' : World) × (map_set heap (suc fuel) x y z (v x y z) w ≡ some w')
        × Fills (is_at x y z) w w'
  unfolding map_set set_with react announce store_block get block_index
  stored-Fills heap fuel x y z old w known s on i found other = (
    changed heap w x y z (v x y z) w.map.ticks,
    ran,
    record {
      kept =
          map_set-Kept heap (suc fuel) x y z (v x y z) w
            (changed heap w x y z (v x y z) w.map.ticks) (inl known) s ran;
      filled = λ a b c j e.
          at_same
            (λ a' b' c'.
              get (changed heap w x y z (v x y z) w.map.ticks).map a' b' c' ≡ some (v a' b' c'))
            x y z a b c (at-eq x y z a b c e) (get-store_block w s.wf x y z (v x y z) i known);
      left = λ a b c j e.
          get-store_block_ne w s.wf x y z (v x y z) i known a b c j (at-ne x y z a b c e);
    },
  )
    where
      ran :
          map_set heap (suc fuel) x y z (v x y z) w
          ≡ some (changed heap w x y z (v x y z) w.map.ticks)
      ran =
          rw (Inside-pos_valid w.map x y z i, found, other)
            (rw on (rw (get-store_block w s.wf x y z (v x y z) i known) refl))

  pub map_set-Writes :
      (heap : Allocator) (fuel x y z : ℕ)
      → v x y z < num_blocks
      → Writes (is_at x y z) (map_set heap (suc fuel) x y z (v x y z))
  map_set-Writes heap fuel x y z known w s on = elim (Bool-cases (pos_valid w.map x y z)) [
    | inr outside ↦ (
      w,
      map_set_idle heap w x y z (v x y z) fuel (inl outside),
      idle-Fills w x y z s (inl outside),
    )
    | inl valid ↦
        let i = pos_valid-Inside w.map x y z valid in
        let (old, found, k) = get_lem w.map x y z s.wf i in
        elim (Bool-cases (old == v x y z)) [
          | inl same ↦
              let there : get w.map x y z ≡ some (v x y z) =
                found ∙ ap some (ground (arith, same)) in
              (
                w,
                map_set_idle heap w x y z (v x y z) fuel (inr there),
                idle-Fills w x y z s (inr there),
              )
          | inr other ↦ stored-Fills heap fuel x y z old w known s on i found other
        ]
  ]

pub any_of-hit :
    (lo n i : ℕ) (p : ℕ → Bool) → lo ≤ i → i < lo + n → p i ≡ true → any_of (count_up lo n) p ≡ true
any_of-hit lo zero i p l h e = absurd (omega (arith, l, h))
any_of-hit lo (suc n) i p l h e = elim (ℕ_discrete lo i) [
  | yes same ↦ rw (subst (λ k. p k ≡ true) (sym same) e) refl
  | no ne ↦
      let rest = any_of-hit (lo + 1) n i p (omega (arith, l, ne)) (omega (arith, h)) e in
      ground (arith, rest)
]

pub any_of-miss :
    (lo n : ℕ) (p : ℕ → Bool)
    → ((i : ℕ) → i < lo + n → p i ≡ false)
    → any_of (count_up lo n) p ≡ false
any_of-miss lo zero p h = refl
any_of-miss lo (suc n) p h =
    let rest = any_of-miss (lo + 1) n p (λ i l. h i (omega (arith, l))) in
    rw (h lo (omega arith), rest) refl
