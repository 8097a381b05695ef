-- ===== src/World/Behaviour/Land.antt =====
-- What the world looks like when a falling block has come to rest.
use thirty.Prelude.{
  ℕ, suc, ◌<◌, true, false, ◌≡◌, ◌≢◌, refl, sym, ap, ◌∙◌, ◌⊎◌, arith, some, none, List, Bool, some,
  ◌==◌,
}
use mathlib.Core.Bool.{false≢true}
use mathlib.Core.Option.{some-injective}
use thirty.Buffer.{Allocator}
use thirty.Block.{air, sand, gravel, num_blocks, init_info}
use thirty.Block.Table.{blockinfo_known}
use thirty.Map.{Tick, Map, get, block_index}
use thirty.Map.Index.{IsWf, Inside, get_lem}
use thirty.World.{World, store_block}
use thirty.World.Ticks.{TicksInside}
use thirty.World.Quiet.{
  changed, map_set_quiet, store_block-IsWf, get-store_block, get-store_block_ne,
}
use thirty.World.Behaviour.{is_solid, blocktick_gravity}
use thirty.World.Behaviour.Fall.{rest_level_lem}

falling_block :
    (b : ℕ)
    → (b ≡ sand) ⊎ (b ≡ gravel)
    → ((init_info b).solid ≡ true)
      × ((init_info b).breakfunc ≡ none)
      × ((init_info b).placefunc ≡ none)
      × (b < num_blocks)
      × (b ≢ air)
unfolding init_info
falling_block b h = ground arith

not_solid_unbroken : (b : ℕ) → (init_info b).solid ≡ false → (init_info b).breakfunc ≡ none
unfolding init_info
not_solid_unbroken b h = ground arith

air_quiet : ((init_info air).placefunc ≡ none) × ((init_info air).solid ≡ false)
unfolding init_info
air_quiet = (refl, refl)

module _ (heap : Allocator) (w : World) (x y z block : ℕ) (ts : List Tick) (wf : IsWf w.map)
    (i : Inside w.map x y z) (known : block < num_blocks) where
  changed-IsWf : IsWf (changed heap w x y z block ts).map
  unfolding store_block
  changed-IsWf =
      let s = store_block-IsWf w wf x y z block i known in
      record { filled = s.filled; small = s.small; known = s.known }

  get-changed : get (changed heap w x y z block ts).map x y z ≡ some block
  unfolding get store_block block_index
  get-changed = get-store_block w wf x y z block i known

  get-changed_ne :
      (x' y' z' : ℕ)
      → Inside w.map x' y' z'
      → ¬ ((x ≡ x') × (y ≡ y') × (z ≡ z'))
      → get (changed heap w x y z block ts).map x' y' z' ≡ get w.map x' y' z'
  unfolding get store_block block_index
  get-changed_ne = get-store_block_ne w wf x y z block i known

solid_of :
    (m : Map) (x y z b : ℕ) (s : Bool)
    → get m x y z ≡ some b
    → b < num_blocks
    → is_solid m x y z ≡ some s
    → (init_info b).solid ≡ s
solid_of m x y z b s found known e = some-injective _ _ (rw (found, blockinfo_known b known) at e)

module _ (heap : Allocator) (fuel x y z s block : ℕ) (w : World) (wf : IsWf w.map)
    (ticks : TicksInside w.map w.map.ticks) (i : Inside w.map x y z)
    (falls : (block ≡ sand) ⊎ (block ≡ gravel)) (here : get w.map x y z ≡ some block)
    (below : suc s < y) (floor : is_solid w.map x s z ≡ some true)
    (gap : (l : ℕ) → s < l → l < y → is_solid w.map x l z ≡ some false) where
  -- Sand or gravel over a gap of blocks that are not solid, in a well-formed map all of whose
  -- scheduled ticks stand inside it, moves down onto the solid block that ends the gap: it leaves
  -- air behind, and no other block of the map changes.
  pub blocktick_gravity_lem :
      (w' : World) × (blocktick_gravity heap (suc fuel) x y z block w ≡ some w')
      × (get w'.map x (suc s) z ≡ some block)
      × (get w'.map x y z ≡ some air)
      × ((x' y' z' : ℕ)
          → Inside w.map x' y' z'
          → ¬ ((x ≡ x') × (y ≡ y') × (z ≡ z'))
          → ¬ ((x ≡ x') × (suc s ≡ y') × (z ≡ z'))
          → get w'.map x' y' z' ≡ get w.map x' y' z')
  unfolding blocktick_gravity
  blocktick_gravity_lem =
      let (solid, unbroken, quiet, known, not_air) = falling_block block falls in
      let air_known : air < num_blocks = omega arith in
      let (ts, e, h) =
        map_set_quiet heap w x y z air block wf ticks i air_known known unbroken air_quiet.0 fuel
          here not_air in
      let w1 = changed heap w x y z air ts in
      let wf1 = changed-IsWf heap w x y z air ts wf i air_known in
      let i' : Inside w.map x (suc s) z = (i.0, omega (arith, below, i.1), i.2) in
      let (b, found, b_known) = get_lem w.map x (suc s) z wf i' in
      let b_free =
        solid_of w.map x (suc s) z b false found b_known (gap (suc s) (omega arith) below) in
      let found1 : get w1.map x (suc s) z ≡ some b =
        get-changed_ne heap w x y z air ts wf i air_known x (suc s) z i'
          (λ q. absurd (omega (arith, q.1, below)))
        ∙ found in
      let (ts', e', h') =
        map_set_quiet heap w1 x (suc s) z block b wf1 h i' known b_known
          (not_solid_unbroken b b_free) quiet fuel found1
          (λ q. false≢true (sym b_free ∙ ap (λ c. (init_info c).solid) q ∙ solid)) in
      (
        changed heap w1 x (suc s) z block ts',
        rw (rest_level_lem w.map x z s y (omega (arith, below)) floor gap) (rw other (rw e e')),
        get-changed heap w1 x (suc s) z block ts' wf1 i' known,
        get-changed_ne heap w1 x (suc s) z block ts' wf1 i' known x y z i
              (λ q. absurd (omega (arith, q.1, below)))
            ∙ get-changed heap w x y z air ts wf i air_known,
        λ x' y' z' j ne ne'.
            get-changed_ne heap w1 x (suc s) z block ts' wf1 i' known x' y' z' j ne'
            ∙ get-changed_ne heap w x y z air ts wf i air_known x' y' z' j ne,
      )
    where
      other : (suc s == y) ≡ false
      other = ground arith
