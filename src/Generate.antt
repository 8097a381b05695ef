-- ===== src/Generate.antt =====
-- The choice of a generator, src/mapgen.c, and the generators of src/mapgen_flat.c and src/mapgen_debug.c. Those of
-- src/mapgen_classic.c and src/mapgen_seantest.c compute with floating point and are handed in.
pub mod Flat
pub mod Sound
pub mod Layers
use thirty.Prelude.{
  ℕ, zero, suc, ◌+◌, ◌-◌, ◌*◌, ◌/◌, ◌%◌, ◌^◌, Bool, true, false, Option, none, some, List, [], ◌∷◌,
  set, leb, ltb, ◌==◌, if◌then◌else◌,
}
use thirty.Prelude.Options.{◌>>=◌}
use thirty.Text.{codes, str_eq}
use thirty.Word.{uint32, mul_size, sub_size}
use thirty.Buffer.{Allocator}
use thirty.Block.{bedrock, stone, grass, dirt, water, lava, glass, num_blocks}
use thirty.Map.{Map}
use thirty.World.{World, Change, count_up, for_each, map_set}
use thirty.Rng.{rng_create, rng_next}

abbrev pub below : ℕ → List ℕ
below n = count_up 0 n

-- `waterLevel` of the flat generator, an `unsigned int`.
abbrev pub water_level : Map → ℕ
water_level m = uint32 (m.depth / 2 + 2 ^ 32 - 1)

unfoldable pub flat_block : ℕ → ℕ → ℕ
flat_block level y =
    if y == level then grass else if leb (uint32 (level + 2 ^ 32 - 4)) y then dirt else stone

abbrev pub generating : Bool → World → World
generating on w = let m : Map = w.map in record w { map = record m { generating = on } }

-- `fuel` bounds the nesting of `map_set`, `rounds` each loop of the random numbers.
module _ (heap : Allocator) (fuel rounds : ℕ) where
  unfoldable pub mapgen_flat : Change
  mapgen_flat w =
      let m : Map = w.map in
      for_each (below m.width)
        (λ x. for_each (below (water_level m + 1)) (λ y.
          for_each (below m.height) (λ z. map_set heap fuel x y z (flat_block (water_level m) y))))
        w

  unfoldable pub mapgen_debug : Change
  mapgen_debug w =
      let m : Map = w.map in
      let east = m.width / 4 * 3 in
      let half = m.height / 2 in
      for_each (below m.width)
        (λ x.
          for_each (below m.height)
            (λ z. λ v. map_set heap fuel x 0 z bedrock v >>= map_set heap fuel x 1 z stone))
        w
      >>= for_each (below num_blocks)
          (λ x. for_each (below m.height) (λ z. map_set heap fuel x 2 z x))
      >>= for_each (count_up east (m.width - east)) (λ x. for_each (below m.height) (λ z. λ v.
        if ltb z (sub_size half 1)
        then map_set heap fuel x 1 z water v
        else if ltb half z
        then map_set heap fuel x 1 z lava v
        else some v))

  unfoldable pub mapgen_growtest : Change
  mapgen_growtest w =
      let m : Map = w.map in
      for_each (below m.width)
        (λ x. for_each (below m.height) (λ z. λ v.
          let north = ltb z (m.height / 2) in
          if ltb x (m.width / 2)
          then (map_set heap fuel x 0 z grass v
              >>= map_set heap fuel x 5 z (if north then stone else glass))
          else (map_set heap fuel x 0 z dirt v
              >>= map_set heap fuel x 5 z (if north then glass else stone))))
        w

  -- The loop over the block array, for the number of blocks that are left.
  unfoldable pub random_blocks : ℕ → ℕ → ℕ → List ℕ → Option (List ℕ)
  random_blocks zero i seed blocks = some blocks
  random_blocks (suc n) i seed blocks = rng_next rounds num_blocks seed >>= λ (b, seed').
      random_blocks n (i + 1) seed' (set blocks i b)

  unfoldable pub mapgen_random : Change
  mapgen_random w =
      let m : Map = w.map in
      random_blocks (mul_size (mul_size m.width m.depth) m.height) 0 (rng_create 0) m.blocks
      >>= λ blocks. some (record w { map = record m { blocks = blocks } })

  -- The generator of that name; another name leaves the map empty.
  unfoldable pub generator : Change → Change → List ℕ → Change
  generator classic seantest name w =
      if str_eq name (codes "classic")
      then classic w
      else if str_eq name (codes "seantest")
      then seantest w
      else if str_eq name (codes "flat")
      then mapgen_flat w
      else if str_eq name (codes "debug")
      then mapgen_debug w
      else if str_eq name (codes "random")
      then mapgen_random w
      else if str_eq name (codes "growtest")
      then mapgen_growtest w
      else some w

  unfoldable pub map_generate : Change → Change → List ℕ → Change
  map_generate classic seantest name w =
      generator classic seantest name (generating true w) >>= λ v. some (generating false v)
