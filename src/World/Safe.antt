-- ===== src/World/Safe.antt =====
-- Where a block can be set with everything that follows from it: map_set of src/map.c.
use thirty.Prelude.{
  ℕ, suc, ◌+◌, ◌<◌, ◌≡◌, refl, sym, ap, ◌∙◌, subst, ◌⊎◌, inl, inr, arith, Bool, true, false,
  Bool-cases, Option, none, some, List, [], ◌∷◌, map, ◌==◌,
}
use thirty.Prelude.Options.{◌>>=◌}
use mathlib.Core.Option.{some-injective}
use thirty.Buffer.{Allocator}
use thirty.Block.{
  air, sponge, num_blocks, init_info, PlaceFunc, place_sponge, place_liquid, BreakFunc,
  break_sponge,
}
use thirty.Block.Table.{blockinfo_known}
use thirty.Map.{Map, get, pos_valid}
use thirty.Map.Index.{Inside, get_lem, pos_valid-Inside, Inside-pos_valid}
use thirty.World.{
  World, Change, Pos, map_add_tick, blockbreak_sponge, run_break, blockplace_sponge,
  blockplace_liquid, run_place, add_ticks, store_block, react, announce, set_with, map_set,
  send_set_block, neighbourhood, tick_distance,
}
use thirty.World.Quiet.{map_set_idle}
use thirty.World.Ticks.{map_add_tick-Schedules}
use thirty.World.Keeps.{
  IsSound, Kept, Kept-refl, map_add_tick-Preserves, announce-Preserves, store_block-Kept,
  map_set-Kept,
}
use thirty.World.Defines.{
  Defines, Preserves-Defines, Defines-some, Defines-asks, Defines-if, Defines-then, for_box-Defines,
}

-- Far enough from the far sides for the boxes that a sponge or a liquid looks at.
abbrev pub IsClear : Map → ℕ → ℕ → ℕ → Type 0
IsClear m x y z = (x + 3 < m.width) × (y + 3 < m.depth) × (z + 3 < m.height)

-- No liquid acts when it is broken.
liquid_unbroken : (b : ℕ) → (init_info b).liquid ≡ true → (init_info b).breakfunc ≡ none
unfolding init_info
liquid_unbroken b wet = ground (arith, wet)

-- A world with the sides of the map `m`.
abbrev IsAlike : Map → World → Type 0
IsAlike m w = (w.map.width ≡ m.width) × (w.map.depth ≡ m.depth) × (w.map.height ≡ m.height)

module _ (m : Map) where
  Kept-IsAlike : (w w' : World) → Kept w w' → IsAlike m w → IsAlike m w'
  Kept-IsAlike w w' k h = (k.width ∙ h.0, k.depth ∙ h.1, k.height ∙ h.2)

  IsAlike-Inside :
      (w : World) (x y z : ℕ)
      → IsAlike m w
      → x < m.width
      → y < m.depth
      → z < m.height
      → Inside w.map x y z
  IsAlike-Inside w x y z h hx hy hz =
      (omega (arith, h.0, hx), omega (arith, h.1, hy), omega (arith, h.2, hz))

  map_add_tick-Defines : (x y z d : ℕ) → Defines (IsAlike m) (map_add_tick x y z d)
  map_add_tick-Defines x y z d =
      Preserves-Defines (IsAlike m) (map_add_tick x y z d) (map_add_tick-Preserves x y z d)
        (λ w s h.
          let (ts, e, t) = map_add_tick-Schedules w s.wf x y z d w.map.ticks s.ticks in (_, e))

  add_ticks-Defines : (ps : List Pos) (d : ℕ) → Defines (IsAlike m) (add_ticks ps d)
  unfolding add_ticks
  add_ticks-Defines [] d = Defines-some (IsAlike m)
  add_ticks-Defines ((x, y, z) ∷ ps) d =
      Defines-then (IsAlike m) Kept-IsAlike (map_add_tick x y z d) (add_ticks ps d)
        (map_add_tick-Defines x y z d) (add_ticks-Defines ps d)

  run_break-Defines :
      (f : Option BreakFunc) (x y z : ℕ) → IsClear m x y z → Defines (IsAlike m) (run_break f x y z)
  unfolding run_break blockbreak_sponge
  run_break-Defines none x y z c = Defines-some (IsAlike m)
  run_break-Defines (some break_sponge) x y z c =
      for_box-Defines (IsAlike m) Kept-IsAlike x y z 3 m.width m.depth m.height _ (c.0) (c.1) (c.2)
        (λ xx yy zz hx hy hz.
          Defines-asks (IsAlike m) (λ w. get w.map xx yy zz) _
            (λ w s h.
              let (b, found, known) =
                get_lem w.map xx yy zz s.wf (IsAlike-Inside w xx yy zz h hx hy hz) in
              let info = init_info b in
              let (w', e, k) =
                Defines-if (IsAlike m) (λ v. info.liquid) (map_add_tick xx yy zz info.ticktime)
                  (λ v. some v) (map_add_tick-Defines xx yy zz info.ticktime)
                  (Defines-some (IsAlike m)) w s h in
              (b, found, w', rw (blockinfo_known b known) e, k)))

  -- Where the block may go that stands at a position.
  MayGo : World → ℕ → ℕ → ℕ → Type 0
  MayGo w x y z =
      (old : ℕ) → get w.map x y z ≡ some old → ((init_info old).breakfunc ≡ none) ⊎ IsClear m x y z

  -- A setter that may clear such positions.
  Clears : (ℕ → ℕ → ℕ → ℕ → Change) → Type 0
  Clears inner =
      (x y z : ℕ) (w : World)
      → IsSound w
      → IsAlike m w
      → x < m.width
      → y < m.depth
      → z < m.height
      → MayGo w x y z
      → (w' : World) × (inner x y z air w ≡ some w') × Kept w w'

  module _ (inner : ℕ → ℕ → ℕ → ℕ → Change) (clears : Clears inner) where
    run_place-Defines :
        (f : Option PlaceFunc) (x y z : ℕ)
        → IsClear m x y z
        → Defines (IsAlike m) (run_place inner f x y z)
    unfolding run_place blockplace_sponge blockplace_liquid MayGo Clears
    run_place-Defines none x y z c = Defines-some (IsAlike m)
    run_place-Defines (some place_sponge) x y z c =
        for_box-Defines (IsAlike m) Kept-IsAlike x y z 2 m.width m.depth m.height _
          (omega (arith, c.0)) (omega (arith, c.1)) (omega (arith, c.2))
          (λ xx yy zz hx hy hz.
            Defines-asks (IsAlike m) (λ w. get w.map xx yy zz) _
              (λ w s h.
                let (b, found, known) =
                  get_lem w.map xx yy zz s.wf (IsAlike-Inside w xx yy zz h hx hy hz) in
                let info = init_info b in
                elim (Bool-cases info.liquid) [
                  | inr dry ↦ (b, found, w, rw (blockinfo_known b known, dry) refl, Kept-refl s)
                  | inl wet ↦
                      let (w', e, k) = clears xx yy zz w s h hx hy hz (λ old at.
                        let same : b ≡ old = some-injective _ _ (sym found ∙ at) in
                        inl (
                          subst (λ o. (init_info o).breakfunc ≡ none) same
                            (liquid_unbroken b wet))) in
                      (b, found, w', rw (blockinfo_known b known, wet) e, k)
                ]))
    run_place-Defines (some place_liquid) x y z c =
        for_box-Defines (IsAlike m) Kept-IsAlike x y z 2 m.width m.depth m.height _
          (omega (arith, c.0)) (omega (arith, c.1)) (omega (arith, c.2))
          (λ xx yy zz hx hy hz.
            Defines-asks (IsAlike m) (λ w. get w.map xx yy zz) _
              (λ w s h.
                let (b, found, known) =
                  get_lem w.map xx yy zz s.wf (IsAlike-Inside w xx yy zz h hx hy hz) in
                let (w', e, k) =
                  Defines-if (IsAlike m) (λ v. b == sponge) (inner x y z air) (λ v. some v)
                    (λ v t g.
                      clears x y z v t g (omega (arith, c.0)) (omega (arith, c.1))
                        (omega (arith, c.2)) (λ old at. inr c))
                    (Defines-some (IsAlike m)) w s h in
                (b, found, w', e, k)))

  announce-Defines :
      (heap : Allocator) (x y z : ℕ)
      → x < m.width
      → y < m.depth
      → z < m.height
      → Defines (IsAlike m) (announce heap x y z)
  unfolding announce
  announce-Defines heap x y z hx hy hz =
      Preserves-Defines (IsAlike m) (announce heap x y z) (announce-Preserves heap x y z) (λ w s h.
        let (b, found, known) = get_lem w.map x y z s.wf (IsAlike-Inside w x y z h hx hy hz) in
        let n : Map = w.map in
        (
          record w {
            map = record n { modified = true };
            clients = map (send_set_block heap x y z b) w.clients;
          },
          rw found refl,
        ))

  react-Defines :
      (g : Bool) (inner : ℕ → ℕ → ℕ → ℕ → Change) (x y z old block : ℕ)
      → old < num_blocks
      → block < num_blocks
      → Defines (IsAlike m) (run_break (init_info old).breakfunc x y z)
      → Defines (IsAlike m) (run_place inner (init_info block).placefunc x y z)
      → Defines (IsAlike m) (react g inner x y z old block)
  unfolding react
  react-Defines true inner x y z old block ko kb p q = Defines-some (IsAlike m)
  react-Defines false inner x y z old block ko kb p q = λ w s h.
      let dist = tick_distance w.tick (init_info block).ticktime in
      let (w', e, k) =
        Defines-then (IsAlike m) Kept-IsAlike
          (λ v.
            run_break (init_info old).breakfunc x y z v
            >>= run_place inner (init_info block).placefunc x y z)
          (add_ticks (neighbourhood x y z) dist)
          (Defines-then (IsAlike m) Kept-IsAlike (run_break (init_info old).breakfunc x y z)
            (run_place inner (init_info block).placefunc x y z) p q)
          (add_ticks-Defines (neighbourhood x y z) dist) w s h in
      (w', rw (blockinfo_known old ko, blockinfo_known block kb) e, k)

  module _ (heap : Allocator) (inner : ℕ → ℕ → ℕ → ℕ → Change) (x y z block : ℕ) (w : World)
      (s : IsSound w) (alike : IsAlike m w) (hx : x < m.width) (hy : y < m.depth)
      (hz : z < m.height) (known : block < num_blocks) where
    set_with_defined :
        ((old : ℕ)
          → get w.map x y z ≡ some old
          → Defines (IsAlike m) (run_break (init_info old).breakfunc x y z))
        → Defines (IsAlike m) (run_place inner (init_info block).placefunc x y z)
        → (w' : World) × (set_with heap inner x y z block w ≡ some w')
    unfolding set_with
    set_with_defined breaks places =
        let i = IsAlike-Inside w x y z alike hx hy hz in
        let valid = Inside-pos_valid w.map x y z i in
        let (old, found, ko) = get_lem w.map x y z s.wf i in
        let v = store_block x y z block w in
        let k = store_block-Kept w x y z block s i known in
        elim (Bool-cases (old == block)) [
          | inl same ↦ (w, rw (valid, found, same) refl)
          | inr other ↦
              let (u, e1, k1) =
                react-Defines w.map.generating inner x y z old block ko known (breaks old found)
                  places v k.sound (Kept-IsAlike w v k alike) in
              let (w', e2, k2) =
                announce-Defines heap x y z hx hy hz u k1.sound
                  (Kept-IsAlike v u k1 (Kept-IsAlike w v k alike)) in
              (w', rw (valid, found, other) (ap (λ o. o >>= announce heap x y z) e1 ∙ e2))
        ]

  map_set-Clears : (heap : Allocator) (fuel : ℕ) → Clears (map_set heap (suc fuel))
  unfolding Clears MayGo map_set run_break run_place init_info
  map_set-Clears heap fuel x y z w s h hx hy hz go =
      let (w', e) =
        set_with_defined heap (map_set heap fuel) x y z air w s h hx hy hz (omega arith)
          (λ old at. elim (go old at) [
            | inl unbroken ↦
                subst (λ f. Defines (IsAlike m) (run_break f x y z)) (sym unbroken)
                  (Defines-some (IsAlike m))
            | inr c ↦ run_break-Defines (init_info old).breakfunc x y z c
          ])
          (Defines-some (IsAlike m)) in
      (w', e, map_set-Kept heap (suc fuel) x y z air w w' (inl (omega arith)) s e)

-- In a well-formed map with its scheduled ticks inside it, setting a block of the table is defined, with the
-- changes that follow from it, at every position outside the map and at every position inside that is more
-- than three blocks from the far sides, whatever the blocks there are. The nesting takes at most two calls, so
-- any fuel from two on is enough. The map stays well formed, with its sides and its scheduled ticks inside it,
-- and the clients' buffers stay as many.
pub map_set_defined :
    (heap : Allocator) (fuel x y z block : ℕ) (w : World)
    → (¬ Inside w.map x y z) ⊎ IsClear w.map x y z
    → block < num_blocks
    → IsSound w
    → (w' : World) × (map_set heap (suc (suc fuel)) x y z block w ≡ some w') × Kept w w'
unfolding map_set
map_set_defined heap fuel x y z block w (inl outside) known s =
    let beyond : pos_valid w.map x y z ≡ false = elim (Bool-cases (pos_valid w.map x y z)) [
      | inl valid ↦ absurd (outside (pos_valid-Inside w.map x y z valid))
      | inr no_ ↦ no_
    ] in
    (w, map_set_idle heap w x y z block (suc fuel) (inl beyond), Kept-refl s)
map_set_defined heap fuel x y z block w (inr c) known s =
    let (w', e) =
      set_with_defined w.map heap (map_set heap (suc fuel)) x y z block w s (refl, refl, refl)
        (omega (arith, c.0)) (omega (arith, c.1)) (omega (arith, c.2)) known
        (λ old at. run_break-Defines w.map (init_info old).breakfunc x y z c)
        (run_place-Defines w.map (map_set heap (suc fuel)) (map_set-Clears w.map heap fuel)
          (init_info block).placefunc x y z c) in
    (w', e, map_set-Kept heap (suc (suc fuel)) x y z block w w' (inl known) s e)
