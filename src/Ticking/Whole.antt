-- ===== src/Ticking/Whole.antt =====
-- What the random ticks and the growth of trees keep.
use thirty.Prelude.{
  ℕ, zero, suc, ◌+◌, ◌<◌, ◌≡◌, sym, ap, ◌∙◌, subst, inl, inr, arith, Bool, Bool-cases, Option, none,
  some, List, [], ◌∷◌, ltb, ◌==◌, if◌then◌else◌, ◌||◌,
}
use thirty.Prelude.Options.{◌>>=◌, >>=-eq-some}
use mathlib.Core.Option.{some-injective}
use thirty.Buffer.{Allocator}
use thirty.Block.{
  sapling, wood, leaves, num_blocks, RandomTickFunc, grass_die, grass_grow, tree_grow, blockinfo,
}
use thirty.Map.{get, get_top_lit}
use thirty.World.{World, Change, count_up}
use thirty.World.Keeps.{IsSound, Kept, Kept-refl, Kept-trans, Preserves}
use thirty.Rng.{rng_next, rng_next2, rng_next_boolean}
use thirty.Tree.{
  Growth, corner, each, pairs, plant, maybe_plant, bottom_leaves, top_leaves, grow_tree,
  space_for_tree, blocktick_tree_grow,
}
use thirty.Ticking.{with_seed, repeat_, run_random_tick, random_tick, run_ticks, map_tick}
use thirty.Ticking.Keeps.{
  set-Preserves, grass_die-Preserves, grass_grow-Preserves, run_ticks-Preserves,
}

-- What `Preserves` says, for changes of the world with the seed.
abbrev Grows : Growth → Type 0
Grows g = (ws ws' : World × ℕ) → IsSound ws.0 → g ws ≡ some ws' → Kept ws.0 ws'.0

Grows-some : (f : ℕ → ℕ) → Grows (λ ws. some (ws.0, f ws.1))
Grows-some f ws ws' s e = subst (λ v. Kept ws.0 v.0) (some-injective _ _ e) (Kept-refl s)

Grows-then : (f g : Growth) → Grows f → Grows g → Grows (λ ws. f ws >>= g)
Grows-then f g p q ws ws' s e =
    let (v, e1, e2) = >>=-eq-some (f ws) g e in
    let k = p ws v s e1 in Kept-trans k (q v ws' k.sound e2)

Grows-asks :
    {A : Type 0} (ask : World × ℕ → Option A) (g : A → Growth)
    → ((a : A) → Grows (g a))
    → Grows (λ ws. ask ws >>= λ a. g a ws)
Grows-asks ask g q ws ws' s e =
    let (a, e1, e2) = >>=-eq-some (ask ws) (λ b. g b ws) e in q a ws ws' s e2

Grows-if :
    (t : World × ℕ → Bool) (f g : Growth)
    → Grows f
    → Grows g
    → Grows (λ ws. if t ws then f ws else g ws)
Grows-if t f g p q ws ws' s e = elim (Bool-cases (t ws)) [
  | inl yes_ ↦ p ws ws' s (sym (ap (λ b. if b then f ws else g ws) yes_) ∙ e)
  | inr no_ ↦ q ws ws' s (sym (ap (λ b. if b then f ws else g ws) no_) ∙ e)
]

-- Another seed first.
Grows-seed : (f : World × ℕ → ℕ) (g : Growth) → Grows g → Grows (λ ws. g (ws.0, f ws))
Grows-seed f g p ws = p (ws.0, f ws)

with_seed-Grows : (c : Change) → Preserves c → Grows (with_seed c)
with_seed-Grows c p ws ws' s e =
    let (w, e1, e2) = >>=-eq-some (c ws.0) (λ w'. some (w', ws.1)) e in
    subst (λ v. Kept ws.0 v.0) (some-injective _ _ e2) (p ws.0 w s e1)

each-Grows :
    {A : Type 0} (as_ : List A) (body : A → Growth)
    → ((a : A) → Grows (body a))
    → Grows (each as_ body)
each-Grows [] body p = Grows-some (λ s. s)
each-Grows (a ∷ as_) body p = Grows-then (body a) (each as_ body) (p a) (each-Grows as_ body p)

repeat-Grows : (n : ℕ) (g : Growth) → Grows g → Grows (repeat_ n g)
repeat-Grows zero g p = Grows-some (λ s. s)
repeat-Grows (suc n) g p = Grows-then g (repeat_ n g) p (repeat-Grows n g p)

module _ (heap : Allocator) (fuel : ℕ) where
  plant-Grows : (x y z block : ℕ) → block < num_blocks → Grows (plant heap fuel x y z block)
  unfolding plant
  plant-Grows x y z block known = with_seed-Grows _ (set-Preserves heap fuel x y z block known)

  maybe_plant-Grows :
      (x y z block : ℕ) → block < num_blocks → Grows (maybe_plant heap fuel x y z block)
  unfolding maybe_plant
  maybe_plant-Grows x y z block known =
      Grows-if (λ ws. (rng_next_boolean ws.1).0) _ _
        (Grows-seed (λ ws. (rng_next_boolean ws.1).1) _ (plant-Grows x y z block known))
        (Grows-some (λ s. (rng_next_boolean s).1))

  bottom_leaves-Grows : (x max0 z : ℕ) (ij : ℕ × ℕ) → Grows (bottom_leaves heap fuel x max0 z ij)
  unfolding bottom_leaves
  bottom_leaves-Grows x max0 z (i, j) =
      let known : leaves < num_blocks = omega arith in
      Grows-if (λ ws. corner i j) _ _
        (Grows-then _ _ (maybe_plant-Grows _ _ _ leaves known)
          (maybe_plant-Grows _ _ _ leaves known))
        (Grows-then _ _ (plant-Grows _ _ _ leaves known) (plant-Grows _ _ _ leaves known))

  top_leaves-Grows : (x max0 z : ℕ) (ij : ℕ × ℕ) → Grows (top_leaves heap fuel x max0 z ij)
  unfolding top_leaves
  top_leaves-Grows x max0 z (i, j) =
      let known : leaves < num_blocks = omega arith in
      Grows-if (λ ws. (i == 1) || (j == 1)) _ _
        (Grows-then _ _ (plant-Grows _ _ _ leaves known) (plant-Grows _ _ _ leaves known))
        (maybe_plant-Grows _ _ _ leaves known)

  grow_tree-Grows : (x y z height : ℕ) → Grows (grow_tree heap fuel x y z height)
  unfolding grow_tree
  grow_tree-Grows x y z height =
      let known : wood < num_blocks = omega arith in
      Grows-then _ (each (count_up y height) (λ yy. plant heap fuel x yy z wood))
        (Grows-then _
          (each (pairs (count_up 0 3) (count_up 0 3)) (top_leaves heap fuel x (y + height) z))
          (Grows-then _
            (each (pairs (count_up 0 5) (count_up 0 5)) (bottom_leaves heap fuel x (y + height) z))
            (plant-Grows x y z wood known)
            (each-Grows (pairs (count_up 0 5) (count_up 0 5)) _
              (bottom_leaves-Grows x (y + height) z)))
          (each-Grows (pairs (count_up 0 3) (count_up 0 3)) _ (top_leaves-Grows x (y + height) z)))
        (each-Grows (count_up y height) _ (λ yy. plant-Grows x yy z wood known))

  tree_grow-Grows :
      (rounds x y z block : ℕ) → Grows (blocktick_tree_grow heap fuel rounds x y z block)
  unfolding blocktick_tree_grow
  tree_grow-Grows rounds x y z block =
      Grows-if (λ ws. block == sapling) _ _
        (Grows-asks (λ ws. get_top_lit ws.0.map x z) _
          (λ top.
            Grows-if (λ ws. ltb y top) _ _ (Grows-some (λ s. s))
              (Grows-asks (λ ws. rng_next2 rounds 1 3 ws.1) _
                (λ (extra, seed).
                  Grows-asks (λ ws. space_for_tree ws.0.map x y z (extra + 4)) _
                    (λ room.
                      Grows-if (λ ws. room) _ _
                        (Grows-seed (λ ws. seed) _ (grow_tree-Grows x y z (extra + 4)))
                        (Grows-some (λ s. seed)))))))
        (Grows-some (λ s. s))

  run_random_tick-Grows :
      (rounds : ℕ) (f : Option RandomTickFunc) (x y z block : ℕ)
      → Grows (run_random_tick heap fuel rounds f x y z block)
  unfolding run_random_tick
  run_random_tick-Grows rounds none x y z block = Grows-some (λ s. s)
  run_random_tick-Grows rounds (some grass_die) x y z block =
      with_seed-Grows _ (grass_die-Preserves heap fuel x y z block)
  run_random_tick-Grows rounds (some grass_grow) x y z block =
      with_seed-Grows _ (grass_grow-Preserves heap fuel x y z block)
  run_random_tick-Grows rounds (some tree_grow) x y z block = tree_grow-Grows rounds x y z block

  random_tick-Grows : (rounds : ℕ) → Grows (random_tick heap fuel rounds)
  unfolding random_tick
  random_tick-Grows rounds =
      Grows-asks (λ ws. rng_next rounds ws.0.map.width ws.1) _
        (λ (x, seed1).
          Grows-asks (λ ws. rng_next rounds ws.0.map.depth seed1) _
            (λ (y, seed2).
              Grows-asks (λ ws. rng_next rounds ws.0.map.height seed2) _
                (λ (z, seed3).
                  Grows-asks (λ ws. get ws.0.map x y z) _
                    (λ block.
                      Grows-asks (λ ws. blockinfo block) _
                        (λ info.
                          Grows-seed (λ ws. seed3) _
                            (run_random_tick-Grows rounds info.random_tickfunc x y z block))))))

-- A tick of the map that is defined, with its random ticks, the trees that these let grow, and the scheduled
-- ticks, keeps the map well formed, with its sides and its scheduled ticks inside it, and the clients' buffers in
-- number.
pub map_tick-Kept :
    (heap : Allocator) (fuel rounds n seed seed' : ℕ) (w w' : World)
    → IsSound w
    → map_tick heap fuel rounds n (w, seed) ≡ some (w', seed')
    → Kept w w'
unfolding map_tick
map_tick-Kept heap fuel rounds n seed seed' w w' s e =
    Grows-then _ (with_seed (run_ticks heap fuel rounds n 0))
      (repeat-Grows _ (random_tick heap fuel rounds) (random_tick-Grows heap fuel rounds))
      (with_seed-Grows _ (run_ticks-Preserves heap fuel rounds n 0)) (w, seed) (w', seed') s e
