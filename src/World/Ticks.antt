-- ===== src/World/Ticks.antt =====
-- Scheduling ticks changes nothing but the list of them, and keeps them inside the map.
use thirty.Prelude.{
  ℕ, ◌≡◌, refl, inl, inr, some, List, [], ◌∷◌, ◌++◌, All, Bool-cases, Option-cases,
}
use thirty.Word.{add_size}
use thirty.Block.{init_info}
use thirty.Block.Table.{blockinfo_known}
use thirty.Map.{Map, Tick, pos_valid}
use thirty.Map.Index.{IsWf, Inside, get_lem, pos_valid-Inside}
use thirty.World.{World, Change, Pos, map_add_tick, add_ticks}

abbrev pub with_ticks : World → List Tick → World
with_ticks w ts = let m : Map = w.map in record w { map = record m { ticks = ts } }

abbrev pub TicksInside : Map → List Tick → Type 0
TicksInside m ts = All (λ t. Inside m t.x t.y t.z) ts

All-concat :
    (m : Map) (ts : List Tick) (t : Tick)
    → TicksInside m ts
    → Inside m t.x t.y t.z
    → TicksInside m (ts ++ (t ∷ []))
All-concat m [] t h i = (i, tt)
All-concat m (u ∷ ts) t h i = (h.0, All-concat m ts t h.1 i)

pub with_ticks-IsWf : (w : World) (ts : List Tick) → IsWf w.map → IsWf (with_ticks w ts).map
with_ticks-IsWf w ts wf = record { filled = wf.filled; small = wf.small; known = wf.known }

module _ (w : World) (wf : IsWf w.map) where
  -- What a change does that only schedules ticks inside the map.
  abbrev pub Schedules : Change → Type 0
  Schedules c =
      (ts : List Tick)
      → TicksInside w.map ts
      → (ts' : List Tick) × (c (with_ticks w ts) ≡ some (with_ticks w ts')) × TicksInside w.map ts'

  -- Scheduling a tick never leaves the array or the table, at any position.
  pub map_add_tick-Schedules : (x y z d : ℕ) → Schedules (map_add_tick x y z d)
  unfolding map_add_tick
  map_add_tick-Schedules x y z d ts h = elim (Bool-cases (pos_valid (with_ticks w ts).map x y z)) [
    | inr outside ↦ (ts, rw outside, h)
    | inl valid ↦
        let i = pos_valid-Inside (with_ticks w ts).map x y z valid in
        let (b, found, known) = get_lem (with_ticks w ts).map x y z (with_ticks-IsWf w ts wf) i in
        elim (Option-cases (init_info b).tickfunc) [
          | inl e ↦ (ts, rw (valid, found, blockinfo_known b known, e), h)
          | inr (f, e) ↦
              let t : Tick = record { x = x; y = y; z = z; time = add_size w.tick d } in
              (
                ts ++ (t ∷ []),
                rw (valid, found, blockinfo_known b known, e),
                All-concat w.map ts t h i,
              )
        ]
  ]

  pub add_ticks-Schedules : (ps : List Pos) (d : ℕ) → Schedules (add_ticks ps d)
  unfolding add_ticks
  add_ticks-Schedules [] d ts h = (ts, refl, h)
  add_ticks-Schedules ((x, y, z) ∷ ps) d ts h =
      let (ts', e, h') = map_add_tick-Schedules x y z d ts h in
      let (ts'', e', h'') = add_ticks-Schedules ps d ts' h' in (ts'', rw e e', h'')
