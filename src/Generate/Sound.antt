-- ===== src/Generate/Sound.antt =====
-- A generated map is well formed; src/mapgen.c.
use thirty.Prelude.{
  ℕ, zero, suc, ◌+◌, ◌-◌, ◌/◌, ◌*◌, ◌^◌, ◌<◌, ◌≡◌, refl, ap, ◌∙◌, inl, inr, Bool, Bool-cases, ◌==◌,
  [], ◌∷◌, arith, true, false, Option, some, List, map, length, length-set, set, All, All-set, ltb,
  if◌then◌else◌,
}
use thirty.Prelude.Options.{◌>>=◌}
use thirty.Text.{codes, str_eq}
use thirty.Word.{mul_size, sub_size}
use thirty.Buffer.{Allocator}
use thirty.Block.{bedrock, stone, grass, dirt, water, lava, glass, num_blocks}
use thirty.Map.{Map}
use thirty.Map.{pos_valid, get}
use thirty.Map.Index.{get_lem, pos_valid-Inside}
use thirty.World.{
  World, Change, for_each, count_up, map_set, set_with, store_block, react, announce,
  send_set_block,
}
use thirty.World.Quiet.{get-store_block, map_set_idle}
use thirty.World.Keeps.{IsSound, Kept, map_set-Kept}
use thirty.World.Defines.{Defines, Defines-some, Defines-then, Defines-if, count_up-Defines}
use thirty.Rng.{rng_create}
use thirty.Rng.Period.{rng_next-Draws}
use thirty.Generate.{
  below, water_level, flat_block, mapgen_flat, mapgen_debug, mapgen_growtest, random_blocks,
  mapgen_random, generating, generator, map_generate,
}

pub flat_block-known : (level y : ℕ) → flat_block level y < num_blocks
unfolding flat_block
flat_block-known level y = ground arith

-- While the map is being generated.
abbrev On : World → Type 0
On w = w.map.generating ≡ true

Kept-On : (w w' : World) → Kept w w' → On w → On w'
Kept-On w w' k on = k.generating ∙ on

abbrev Makes : Change → Type 0
Makes c = Defines On c

Makes-some : Makes (λ w. some w)
Makes-some = Defines-some On

Makes-then : (f g : Change) → Makes f → Makes g → Makes (λ w. f w >>= g)
Makes-then = Defines-then On Kept-On

Makes-if :
    (t : World → Bool) (f g : Change) → Makes f → Makes g → Makes (λ w. if t w then f w else g w)
Makes-if = Defines-if On

for_each-Makes :
    (is : List ℕ) (body : ℕ → Change) → ((i : ℕ) → Makes (body i)) → Makes (for_each is body)
for_each-Makes [] body p = Makes-some
for_each-Makes (i ∷ is) body p =
    Makes-then (body i) (for_each is body) (p i) (for_each-Makes is body p)

-- While the map is generated, a block that is set has no effect on others: one round of fuel is enough.
module _ (heap : Allocator) (fuel x y z block : ℕ) (w : World) (s : IsSound w)
    (on : w.map.generating ≡ true) (known : block < num_blocks) where
  announced :
      (v : World) → get v.map x y z ≡ some block → (v' : World) × (announce heap x y z v ≡ some v')
  unfolding announce
  announced v e =
      let m : Map = v.map in
      (
        record v {
          map = record m { modified = true };
          clients = map (send_set_block heap x y z block) v.clients;
        },
        rw e refl,
      )

  set_made : (w' : World) × (map_set heap (suc fuel) x y z block w ≡ some w')
  unfolding map_set set_with react
  set_made = elim (Bool-cases (pos_valid w.map x y z)) [
    | inr outside ↦ (w, map_set_idle heap w x y z block fuel (inl outside))
    | inl valid ↦
        let i = pos_valid-Inside w.map x y z valid in
        let v = store_block x y z block w in
        let (old, found, small) = get_lem w.map x y z s.wf i in
        elim (Bool-cases (old == block)) [
          | inl same ↦ (w, ground (arith, valid, found, same))
          | inr other ↦
              let (w', e) = announced v (get-store_block w s.wf x y z block i known) in
              let quiet : react w.map.generating (map_set heap fuel) x y z old block v ≡ some v =
                ap (λ g. react g (map_set heap fuel) x y z old block v) on in
              (w', rw (valid, found, other) (ap (λ o. o >>= announce heap x y z) quiet ∙ e))
        ]
  ]

set-Makes :
    (heap : Allocator) (fuel x y z block : ℕ)
    → block < num_blocks
    → Makes (map_set heap (suc fuel) x y z block)
set-Makes heap fuel x y z block known w s on =
    let (w', e) = set_made heap fuel x y z block w s on known in
    (w', e, map_set-Kept heap (suc fuel) x y z block w w' (inl known) s e)

module _ (heap : Allocator) (fuel rounds : ℕ) where
  mapgen_flat-Makes : Makes (mapgen_flat heap (suc fuel) rounds)
  unfolding mapgen_flat
  mapgen_flat-Makes w =
      let m : Map = w.map in
      for_each-Makes (below m.width) _
        (λ x. for_each-Makes (below (water_level m + 1)) _ (λ y.
          for_each-Makes (below m.height) _ (λ z.
            set-Makes heap fuel x y z (flat_block (water_level m) y)
              (flat_block-known (water_level m) y))))
        w

  mapgen_debug-Makes : Makes (mapgen_debug heap (suc fuel) rounds)
  unfolding mapgen_debug
  mapgen_debug-Makes w =
      let m : Map = w.map in
      let east = m.width / 4 * 3 in
      let half = m.height / 2 in
      let floor = λ (x z : ℕ). λ (v : World).
        map_set heap (suc fuel) x 0 z bedrock v >>= map_set heap (suc fuel) x 1 z stone in
      let pool = λ (x z : ℕ). λ (v : World).
        if ltb z (sub_size half 1)
        then map_set heap (suc fuel) x 1 z water v
        else if ltb half z
        then map_set heap (suc fuel) x 1 z lava v
        else some v in
      let rows = below m.height in
      let floors = for_each (below m.width) (λ x. for_each rows (floor x)) in
      let samples =
        for_each (below num_blocks) (λ x. for_each rows (λ z. map_set heap (suc fuel) x 2 z x)) in
      let pools = for_each (count_up east (m.width - east)) (λ x. for_each rows (pool x)) in
      Makes-then (λ v. floors v >>= samples) pools
        (Makes-then floors samples
          (for_each-Makes (below m.width) _ (λ x. for_each-Makes rows (floor x) (λ z.
            Makes-then (map_set heap (suc fuel) x 0 z bedrock) (map_set heap (suc fuel) x 1 z stone)
              (set-Makes heap fuel x 0 z bedrock (omega arith))
              (set-Makes heap fuel x 1 z stone (omega arith)))))
          (count_up-Defines On Kept-On 0 num_blocks _ (λ x known.
            for_each-Makes rows _ (λ z. set-Makes heap fuel x 2 z x (omega (arith, known))))))
        (for_each-Makes (count_up east (m.width - east)) _ (λ x. for_each-Makes rows (pool x) (λ z.
          Makes-if (λ v. ltb z (sub_size half 1)) _ _
            (set-Makes heap fuel x 1 z water (omega arith))
            (Makes-if (λ v. ltb half z) _ _ (set-Makes heap fuel x 1 z lava (omega arith))
              Makes-some))))
        w

  mapgen_growtest-Makes : Makes (mapgen_growtest heap (suc fuel) rounds)
  unfolding mapgen_growtest
  mapgen_growtest-Makes w =
      let m : Map = w.map in
      for_each-Makes (below m.width) _
        (λ x. for_each-Makes (below m.height) _ (λ z.
          let north = ltb z (m.height / 2) in
          Makes-if (λ v. ltb x (m.width / 2)) _ _
            (Makes-then _ _ (set-Makes heap fuel x 0 z grass (omega arith))
              (set-Makes heap fuel x 5 z (if north then stone else glass) (ground arith)))
            (Makes-then _ _ (set-Makes heap fuel x 0 z dirt (omega arith))
              (set-Makes heap fuel x 5 z (if north then glass else stone) (ground arith)))))
        w

  -- The blocks drawn are blocks of the table.
  random_blocks-known :
      (n i seed : ℕ) (blocks : List ℕ)
      → 2 ^ 47 < rounds
      → All (λ b. b < num_blocks) blocks
      → (out : List ℕ) × (random_blocks heap (suc fuel) rounds n i seed blocks ≡ some out)
        × (length out ≡ length blocks)
        × All (λ b. b < num_blocks) out
  unfolding random_blocks
  random_blocks-known zero i seed blocks enough known = (blocks, refl, refl, known)
  random_blocks-known (suc n) i seed blocks enough known =
      let (b, s, drawn, small, seeded) =
        rng_next-Draws rounds num_blocks seed (omega arith) (omega arith) enough in
      let (out, ran, same, k) =
        random_blocks-known n (i + 1) s (set blocks i b) enough
          (All-set _ blocks i b known small) in
      (out, rw drawn ran, same ∙ length-set blocks i b, k)

  mapgen_random-Makes : 2 ^ 47 < rounds → Makes (mapgen_random heap (suc fuel) rounds)
  unfolding mapgen_random
  mapgen_random-Makes enough w s on =
      let m : Map = w.map in
      let n = mul_size (mul_size m.width m.depth) m.height in
      let (out, ran, same, known) =
        random_blocks-known n 0 (rng_create 0) m.blocks enough s.wf.known in
      let made = λ (o : Option (List ℕ)).
        o >>= λ blocks. some (record w { map = record m { blocks = blocks } }) in
      (
        record w { map = record m { blocks = out } },
        ap made ran,
        record {
          sound = record {
            wf = record { filled = same ∙ s.wf.filled; small = s.wf.small; known = known };
            ticks = s.ticks;
          };
          width = refl;
          depth = refl;
          height = refl;
          generating = refl;
          tick = refl;
          clients = refl;
        },
      )

-- What `map_generate` leaves.
pub record Generated (w w' : World) : Type 0 where
  pub sound : IsSound w'
  pub finished : w'.map.generating ≡ false
  pub width : w'.map.width ≡ w.map.width
  pub depth : w'.map.depth ≡ w.map.depth
  pub height : w'.map.height ≡ w.map.height

module _ (heap : Allocator) (fuel rounds : ℕ) (classic seantest : Change) (enough : 2 ^ 47 < rounds)
    (name : List ℕ) (not_classic : str_eq name (codes "classic") ≡ false)
    (not_seantest : str_eq name (codes "seantest") ≡ false) where
  generator-Makes : Makes (generator heap (suc fuel) rounds classic seantest name)
  unfolding generator
  generator-Makes =
      rw (not_classic, not_seantest)
        (Makes-if (λ w. str_eq name (codes "flat")) _ _ (mapgen_flat-Makes heap fuel rounds)
          (Makes-if (λ w. str_eq name (codes "debug")) _ _ (mapgen_debug-Makes heap fuel rounds)
            (Makes-if (λ w. str_eq name (codes "random")) _ _
              (mapgen_random-Makes heap fuel rounds enough)
              (Makes-if (λ w. str_eq name (codes "growtest")) _ _
                (mapgen_growtest-Makes heap fuel rounds) Makes-some))))

  -- For a well-formed map with its scheduled ticks inside it, and a generator that is neither classic nor
  -- seantest - flat, debug, random, growtest, or a name of none - map_generate is defined with any fuel from
  -- one on and more than 2^47 rounds for each number that is drawn. The generated map is well formed, with its
  -- sides and its scheduled ticks inside it, and counts as generated.
  pub map_generate-Generated :
      (w : World)
      → IsSound w
      → (w' : World) × (map_generate heap (suc fuel) rounds classic seantest name w ≡ some w')
        × Generated w w'
  unfolding map_generate
  map_generate-Generated w s =
      let on = generating true w in
      let begun : IsSound on = record {
        wf = record { filled = s.wf.filled; small = s.wf.small; known = s.wf.known };
        ticks = s.ticks;
      } in
      let (v, ran, k) = generator-Makes on begun refl in
      (
        generating false v,
        ap (λ o. o >>= λ u. some (generating false u)) ran,
        record {
          sound = record {
            wf = record {
              filled = k.sound.wf.filled;
              small = k.sound.wf.small;
              known = k.sound.wf.known;
            };
            ticks = k.sound.ticks;
          };
          finished = refl;
          width = k.width;
          depth = k.depth;
          height = k.height;
        },
      )
