-- ===== src/World/Keeps.antt =====
-- What every change of the world keeps, wherever it is defined.
use thirty.Prelude.{
  ℕ, zero, suc, ◌<◌, ◌≡◌, refl, sym, ap, ◌∙◌, subst, ◌⊎◌, inl, inr, arith, Bool, true, false,
  Bool-cases, Option, none, some, List, [], ◌∷◌, length, length-map, ◌==◌, if◌then◌else◌,
}
use thirty.Prelude.Options.{◌>>=◌, >>=-eq-some}
use mathlib.Core.Option.{some-injective}
use thirty.Buffer.{Allocator}
use thirty.Block.{
  air, sponge, num_blocks, blockinfo, PlaceFunc, place_sponge, place_liquid, BreakFunc,
  break_sponge,
}
use thirty.Map.{pos_valid, get}
use thirty.Map.Index.{IsWf, Inside, pos_valid-Inside}
use thirty.World.{
  World, Change, Pos, for_each, for_box, around, map_add_tick, blockbreak_sponge, run_break,
  blockplace_sponge, blockplace_liquid, run_place, add_ticks, store_block, react, announce,
  set_with, map_set, send_set_block, neighbourhood, tick_distance,
}
use thirty.World.Quiet.{store_block-IsWf}
use thirty.World.Ticks.{with_ticks, TicksInside, map_add_tick-Schedules}

pub record IsSound (w : World) : Type 0 where
  pub wf : IsWf w.map
  pub ticks : TicksInside w.map w.map.ticks

-- The world after a change is sound, of the same sides, and has as many clients.
pub record Kept (w w' : World) : Type 0 where
  pub sound : IsSound w'
  pub width : w'.map.width ≡ w.map.width
  pub depth : w'.map.depth ≡ w.map.depth
  pub height : w'.map.height ≡ w.map.height
  pub generating : w'.map.generating ≡ w.map.generating
  pub tick : w'.tick ≡ w.tick
  pub clients : length w'.clients ≡ length w.clients

abbrev pub Preserves : Change → Type 0
Preserves c = (w w' : World) → IsSound w → c w ≡ some w' → Kept w w'

pub Kept-refl : {w : World} → IsSound w → Kept w w
Kept-refl s = record {
  sound = s;
  width = refl;
  depth = refl;
  height = refl;
  generating = refl;
  tick = refl;
  clients = refl;
}

pub Kept-trans : {u v w : World} → Kept u v → Kept v w → Kept u w
Kept-trans p q = record {
  sound = q.sound;
  width = q.width ∙ p.width;
  depth = q.depth ∙ p.depth;
  height = q.height ∙ p.height;
  generating = q.generating ∙ p.generating;
  tick = q.tick ∙ p.tick;
  clients = q.clients ∙ p.clients;
}

pub Preserves-some : Preserves (λ w. some w)
Preserves-some w w' s e = subst (Kept w) (some-injective _ _ e) (Kept-refl s)

pub Preserves-then : (f g : Change) → Preserves f → Preserves g → Preserves (λ w. f w >>= g)
Preserves-then f g p q w w' s e =
    let (v, e1, e2) = >>=-eq-some (f w) g e in
    let k = p w v s e1 in Kept-trans k (q v w' k.sound e2)

-- A step that only looks at the world first.
pub Preserves-asks :
    {A : Type 0} (ask : World → Option A) (g : A → Change)
    → ((a : A) → Preserves (g a))
    → Preserves (λ w. ask w >>= λ a. g a w)
Preserves-asks ask g q w w' s e =
    let (a, e1, e2) = >>=-eq-some (ask w) (λ b. g b w) e in q a w w' s e2

pub Preserves-if :
    (t : World → Bool) (f g : Change)
    → Preserves f
    → Preserves g
    → Preserves (λ w. if t w then f w else g w)
Preserves-if t f g p q w w' s e = elim (Bool-cases (t w)) [
  | inl yes_ ↦ p w w' s (sym (ap (λ b. if b then f w else g w) yes_) ∙ e)
  | inr no_ ↦ q w w' s (sym (ap (λ b. if b then f w else g w) no_) ∙ e)
]

pub for_each-Preserves :
    (is : List ℕ) (body : ℕ → Change)
    → ((i : ℕ) → Preserves (body i))
    → Preserves (for_each is body)
for_each-Preserves [] body p = Preserves-some
for_each-Preserves (i ∷ is) body p =
    Preserves-then (body i) (for_each is body) (p i) (for_each-Preserves is body p)

pub for_box-Preserves :
    (x y z r : ℕ) (body : ℕ → ℕ → ℕ → Change)
    → ((xx yy zz : ℕ) → Preserves (body xx yy zz))
    → Preserves (for_box x y z r body)
for_box-Preserves x y z r body p = for_each-Preserves (around x r) _ (λ xx.
    for_each-Preserves (around y r) _ (λ yy. for_each-Preserves (around z r) _ (λ zz. p xx yy zz)))

pub map_add_tick-Preserves : (x y z d : ℕ) → Preserves (map_add_tick x y z d)
map_add_tick-Preserves x y z d w w' s e =
    let (ts, e', h) = map_add_tick-Schedules w s.wf x y z d w.map.ticks s.ticks in
    let same : with_ticks w ts ≡ w' = some-injective _ _ (sym e' ∙ e) in
    subst (Kept w) same (record {
      sound = record {
        wf = record { filled = s.wf.filled; small = s.wf.small; known = s.wf.known };
        ticks = h;
      };
      width = refl;
      depth = refl;
      height = refl;
      generating = refl;
      tick = refl;
      clients = refl;
    })

add_ticks-Preserves : (ps : List Pos) (d : ℕ) → Preserves (add_ticks ps d)
unfolding add_ticks
add_ticks-Preserves [] d = Preserves-some
add_ticks-Preserves ((x, y, z) ∷ ps) d =
    Preserves-then (map_add_tick x y z d) (add_ticks ps d) (map_add_tick-Preserves x y z d)
      (add_ticks-Preserves ps d)

run_break-Preserves : (f : Option BreakFunc) (x y z : ℕ) → Preserves (run_break f x y z)
unfolding run_break blockbreak_sponge
run_break-Preserves none x y z = Preserves-some
run_break-Preserves (some break_sponge) x y z = for_box-Preserves x y z 3 _ (λ xx yy zz.
    Preserves-asks (λ w. get w.map xx yy zz) _
      (λ block.
        Preserves-asks (λ w. blockinfo block) _
          (λ info.
            Preserves-if (λ w. info.liquid) (map_add_tick xx yy zz info.ticktime) (λ w. some w)
              (map_add_tick-Preserves xx yy zz info.ticktime) Preserves-some)))

module _ (inner : ℕ → ℕ → ℕ → ℕ → Change) (clears : (x y z : ℕ) → Preserves (inner x y z air)) where
  run_place-Preserves : (f : Option PlaceFunc) (x y z : ℕ) → Preserves (run_place inner f x y z)
  unfolding run_place blockplace_sponge blockplace_liquid
  run_place-Preserves none x y z = Preserves-some
  run_place-Preserves (some place_sponge) x y z = for_box-Preserves x y z 2 _ (λ xx yy zz.
      Preserves-asks (λ w. get w.map xx yy zz) _
        (λ block.
          Preserves-asks (λ w. blockinfo block) _
            (λ info.
              Preserves-if (λ w. info.liquid) (inner xx yy zz air) (λ w. some w) (clears xx yy zz)
                Preserves-some)))
  run_place-Preserves (some place_liquid) x y z = for_box-Preserves x y z 2 _ (λ xx yy zz.
      Preserves-asks (λ w. get w.map xx yy zz) _
        (λ block.
          Preserves-if (λ w. block == sponge) (inner x y z air) (λ w. some w) (clears x y z)
            Preserves-some))

react-Preserves :
    (b : Bool) (inner : ℕ → ℕ → ℕ → ℕ → Change) (x y z old block : ℕ)
    → ((x y z : ℕ) → Preserves (inner x y z air))
    → Preserves (react b inner x y z old block)
unfolding react
react-Preserves true inner x y z old block clears = Preserves-some
react-Preserves false inner x y z old block clears =
    Preserves-asks (λ w. blockinfo old) _
      (λ was.
        Preserves-asks (λ w. blockinfo block) _
          (λ info. λ w.
            Preserves-then
              (λ v. run_break was.breakfunc x y z v >>= run_place inner info.placefunc x y z) _
              (Preserves-then (run_break was.breakfunc x y z) _
                (run_break-Preserves was.breakfunc x y z)
                (run_place-Preserves inner clears info.placefunc x y z))
              (add_ticks-Preserves (neighbourhood x y z) (tick_distance w.tick info.ticktime)) w))

pub announce-Preserves : (heap : Allocator) (x y z : ℕ) → Preserves (announce heap x y z)
unfolding announce
announce-Preserves heap x y z =
    Preserves-asks (λ w. get w.map x y z) _
      (λ block w w' s e. subst (Kept w) (some-injective _ _ e) (record {
        sound = record {
          wf = record { filled = s.wf.filled; small = s.wf.small; known = s.wf.known };
          ticks = s.ticks;
        };
        width = refl;
        depth = refl;
        height = refl;
        generating = refl;
        tick = refl;
        clients = length-map (send_set_block heap x y z block) w.clients;
      }))

pub store_block-Kept :
    (w : World) (x y z block : ℕ)
    → IsSound w
    → Inside w.map x y z
    → block < num_blocks
    → Kept w (store_block x y z block w)
unfolding store_block
store_block-Kept w x y z block s i known = record {
  sound = record { wf = store_block-IsWf w s.wf x y z block i known; ticks = s.ticks };
  width = refl;
  depth = refl;
  height = refl;
  generating = refl;
  tick = refl;
  clients = refl;
}

-- A block that is put outside the table is only missed while the map is generated.
react-known :
    (inner : ℕ → ℕ → ℕ → ℕ → Change) (x y z old block : ℕ) (w w' : World)
    → react false inner x y z old block w ≡ some w'
    → block < num_blocks
unfolding react blockinfo
react-known inner x y z old block w w' e =
    let (was, e1, e2) = >>=-eq-some (blockinfo old) _ e in
    let (info, e3, e4) = >>=-eq-some (blockinfo block) _ e2 in ground (arith, e3)

module _ (heap : Allocator) (inner : ℕ → ℕ → ℕ → ℕ → Change)
    (clears : (x y z : ℕ) → Preserves (inner x y z air)) (x y z block : ℕ) (w w' : World)
    (h : (block < num_blocks) ⊎ (w.map.generating ≡ false)) (s : IsSound w) where
  reaction-Kept :
      (old : ℕ)
      → Inside w.map x y z
      → (react w.map.generating inner x y z old block (store_block x y z block w)
          >>= announce heap x y z)
        ≡ some w'
      → Kept w w'
  reaction-Kept old i e =
      let v = store_block x y z block w in
      let (u, e1, e2) =
        >>=-eq-some (react w.map.generating inner x y z old block v) (announce heap x y z) e in
      let known : block < num_blocks = elim h [
        | inl known ↦ known
        | inr quiet ↦
            react-known inner x y z old block v u
              (sym (ap (λ g. react g inner x y z old block v) quiet) ∙ e1)
      ] in
      let k = store_block-Kept w x y z block s i known in
      Kept-trans k (
        Preserves-then _ _ (react-Preserves w.map.generating inner x y z old block clears)
          (announce-Preserves heap x y z) v w' k.sound e)

  set_with-Kept : set_with heap inner x y z block w ≡ some w' → Kept w w'
  unfolding set_with
  set_with-Kept e =
      let v = store_block x y z block w in
      let go =
        λ (old : ℕ). react w.map.generating inner x y z old block v >>= announce heap x y z in
      let at = get w.map x y z >>= λ old. if old == block then some w else go old in
      elim (Bool-cases (pos_valid w.map x y z)) [
        | inr outside ↦ Preserves-some w w' s (sym (ap (λ b. if b then at else some w) outside) ∙ e)
        | inl valid ↦
            let (old, e1, e2) =
              >>=-eq-some (get w.map x y z) _
                (sym (ap (λ b. if b then at else some w) valid) ∙ e) in
            elim (Bool-cases (old == block)) [
              | inl same ↦
                  Preserves-some w w' s (sym (ap (λ b. if b then some w else go old) same) ∙ e2)
              | inr other ↦
                  reaction-Kept old (pos_valid-Inside w.map x y z valid)
                    (sym (ap (λ b. if b then some w else go old) other) ∙ e2)
            ]
      ]

-- Whatever changes follow from it, a change that is defined keeps the map well formed, with its sides and its
-- ticks inside it, and the clients' buffers in number; where the block is one of the table, or the map is not
-- being generated.
pub map_set-Kept :
    (heap : Allocator) (fuel x y z block : ℕ) (w w' : World)
    → (block < num_blocks) ⊎ (w.map.generating ≡ false)
    → IsSound w
    → map_set heap fuel x y z block w ≡ some w'
    → Kept w w'
unfolding map_set
map_set-Kept heap zero x y z block w w' h s e = absurd (cc)
map_set-Kept heap (suc fuel) x y z block w w' h s e =
    set_with-Kept heap (map_set heap fuel)
      (λ x1 y1 z1 v v'. map_set-Kept heap fuel x1 y1 z1 air v v' (inl (omega arith))) x y z block w
      w' h s e
