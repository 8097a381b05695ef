-- ===== src/Ticking/Keeps.antt =====
-- What the scheduled ticks of the map keep.
use thirty.Prelude.{
  ℕ, zero, suc, ◌+◌, ◌<◌, ◌≡◌, refl, sym, ap, ◌∙◌, subst, inl, inr, arith, Bool-cases, Option,
  Option-cases, none, some, List, [], ◌∷◌, ◌++◌, take, drop, get_elem?, ltb, ◌==◌, if◌then◌else◌,
  All-get_elem?,
}
use thirty.Prelude.Options.{◌>>=◌, >>=-eq-some}
use mathlib.Core.Option.{some-injective}
use thirty.Buffer.{Allocator}
use thirty.Block.{air, grass, dirt, num_blocks, TickFunc, gravity, flow, blockinfo}
use thirty.Map.{Map, Tick, get, get_top_lit}
use thirty.Map.Index.{get_lem, Inside, IsWf}
use thirty.World.{World, map_set}
use thirty.World.Ticks.{TicksInside}
use thirty.World.Keeps.{
  IsSound, Kept, Kept-trans, Preserves, Preserves-some, Preserves-then, Preserves-asks,
  Preserves-if, map_set-Kept,
}
use thirty.World.Behaviour.{
  rest_level, can_liquid_flow_to, blocktick_gravity, flow_to, blocktick_flow, blocktick_grass_die,
  blocktick_grass_grow, run_tick,
}
use thirty.Ticking.{drop_tick, run_ticks}

module _ (heap : Allocator) (fuel : ℕ) where
  pub set-Preserves :
      (x y z block : ℕ) → block < num_blocks → Preserves (map_set heap fuel x y z block)
  set-Preserves x y z block known w w' = map_set-Kept heap fuel x y z block w w' (inl known)

  flow_to-Preserves :
      (x y z block : ℕ) → block < num_blocks → Preserves (flow_to heap fuel x y z block)
  unfolding flow_to
  flow_to-Preserves x y z block known =
      Preserves-asks (λ w. can_liquid_flow_to w.map x y z) _
        (λ flows. Preserves-if (λ w. flows) _ _ (set-Preserves x y z block known) Preserves-some)

  run_tick-Preserves :
      (f : Option TickFunc) (x y z block : ℕ)
      → block < num_blocks
      → Preserves (run_tick heap fuel f x y z block)
  unfolding run_tick blocktick_gravity blocktick_flow
  run_tick-Preserves none x y z block known = Preserves-some
  run_tick-Preserves (some gravity) x y z block known =
      Preserves-asks (λ w. rest_level w.map x z y) _
        (λ yy.
          Preserves-if (λ w. yy == y) _ _ Preserves-some
            (Preserves-then _ _ (set-Preserves x y z air (omega arith))
              (set-Preserves x yy z block known)))
  run_tick-Preserves (some flow) x y z block known =
      let into = λ (x' y' z' : ℕ). flow_to-Preserves x' y' z' block known in
      Preserves-then _ _
        (Preserves-then _ _
          (Preserves-then _ _ (Preserves-then _ _ (into _ _ _) (into _ _ _)) (into _ _ _))
          (into _ _ _))
        (into _ _ _)

  pub grass_die-Preserves :
      (x y z block : ℕ) → Preserves (blocktick_grass_die heap fuel x y z block)
  unfolding blocktick_grass_die
  grass_die-Preserves x y z block =
      Preserves-if (λ w. block == grass) _ _
        (Preserves-asks (λ w. get_top_lit w.map x z) _
          (λ top.
            Preserves-if (λ w. ltb y top) _ _ (set-Preserves x y z dirt (omega arith))
              Preserves-some))
        Preserves-some

  pub grass_grow-Preserves :
      (x y z block : ℕ) → Preserves (blocktick_grass_grow heap fuel x y z block)
  unfolding blocktick_grass_grow
  grass_grow-Preserves x y z block =
      Preserves-if (λ w. block == dirt) _ _
        (Preserves-asks (λ w. get_top_lit w.map x z) _
          (λ top.
            Preserves-if (λ w. top == y) _ _ (set-Preserves x y z grass (omega arith))
              Preserves-some))
        Preserves-some

module _ (m : Map) where
  TicksInside-append :
      (xs ys : List Tick) → TicksInside m xs → TicksInside m ys → TicksInside m (xs ++ ys)
  TicksInside-append [] ys h k = k
  TicksInside-append (x ∷ xs) ys h k = (h.0, TicksInside-append xs ys h.1 k)

  TicksInside-take : (n : ℕ) (xs : List Tick) → TicksInside m xs → TicksInside m (take n xs)
  TicksInside-take zero xs h = tt
  TicksInside-take (suc n) [] h = tt
  TicksInside-take (suc n) (x ∷ xs) h = (h.0, TicksInside-take n xs h.1)

  TicksInside-drop : (n : ℕ) (xs : List Tick) → TicksInside m xs → TicksInside m (drop n xs)
  TicksInside-drop zero xs h = h
  TicksInside-drop (suc n) [] h = tt
  TicksInside-drop (suc n) (x ∷ xs) h = TicksInside-drop n xs h.1

drop_tick-Kept : (i : ℕ) (w : World) → IsSound w → Kept w (drop_tick i w)
drop_tick-Kept i w s = record {
  sound = record {
    wf = record { filled = s.wf.filled; small = s.wf.small; known = s.wf.known };
    ticks =
        TicksInside-append w.map (take i w.map.ticks) _
          (TicksInside-take w.map i w.map.ticks s.ticks)
          (TicksInside-drop w.map (suc i) w.map.ticks s.ticks);
  };
  width = refl;
  depth = refl;
  height = refl;
  generating = refl;
  tick = refl;
  clients = refl;
}

-- A block that is read inside a well-formed map is one of the table.
get-known :
    (m : Map) (x y z block : ℕ)
    → IsWf m
    → Inside m x y z
    → get m x y z ≡ some block
    → block < num_blocks
get-known m x y z block wf i e =
    let (b, found, known) = get_lem m x y z wf i in
    subst (λ c. c < num_blocks) (some-injective _ _ (sym found ∙ e)) known

module _ (heap : Allocator) (fuel rounds : ℕ) where
  pub run_ticks-Preserves : (n i : ℕ) → Preserves (run_ticks heap fuel rounds n i)
  unfolding run_ticks
  run_ticks-Preserves zero i w w' s e = absurd (cc)
  run_ticks-Preserves (suc n) i w w' s e =
      let next = run_ticks heap fuel rounds n (i + 1) in
      let act = λ (t : Tick). get w.map t.x t.y t.z >>= λ block. blockinfo block >>= λ info.
      run_tick heap fuel info.tickfunc t.x t.y t.z block w >>= λ v. next (drop_tick i v) in
      let round : Option Tick → Option World =
        λ r. elim r [ none ↦ some w | some t ↦ if ltb w.tick t.time then next w else act t ] in
      elim (Option-cases (get_elem? w.map.ticks i)) [
        | inl over ↦ Preserves-some w w' s (sym (ap round over) ∙ e)
        | inr (t, here) ↦
            let e0 = sym (ap round here) ∙ e in
            elim (Bool-cases (ltb w.tick t.time)) [
              | inl later ↦
                  run_ticks-Preserves n (i + 1) w w' s
                    (sym (ap (λ b. if b then next w else act t) later) ∙ e0)
              | inr due ↦
                  let e1 = sym (ap (λ b. if b then next w else act t) due) ∙ e0 in
                  let (block, found, e2) = >>=-eq-some (get w.map t.x t.y t.z) _ e1 in
                  let (info, known, e3) = >>=-eq-some (blockinfo block) _ e2 in
                  let (v, ran, e4) =
                    >>=-eq-some (run_tick heap fuel info.tickfunc t.x t.y t.z block w) _ e3 in
                  let i_in = All-get_elem? _ w.map.ticks i s.ticks here in
                  let k =
                    run_tick-Preserves heap fuel info.tickfunc t.x t.y t.z block
                      (get-known w.map t.x t.y t.z block s.wf i_in found) w v s ran in
                  let d = drop_tick-Kept i v k.sound in
                  Kept-trans k
                    (Kept-trans d (run_ticks-Preserves n (i + 1) (drop_tick i v) w' d.sound e4))
            ]
      ]
