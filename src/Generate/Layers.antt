-- ===== src/Generate/Layers.antt =====
-- The layers of the flat generator, src/mapgen_flat.c.
use thirty.Prelude.{
  ℕ, suc, ◌+◌, ◌-◌, ◌/◌, ◌^◌, ◌≤◌, ◌<◌, ◌≡◌, ap, ◌∙◌, arith, Bool, true, false, some,
}
use thirty.Buffer.{Allocator}
use thirty.Block.{grass, dirt, stone}
use thirty.Map.{Map, get}
use thirty.Map.Index.{Inside}
use thirty.World.{World}
use thirty.World.Keeps.{IsSound, Kept}
use thirty.Generate.{below, water_level, flat_block, mapgen_flat}
use thirty.Generate.Sound.{flat_block-known}
use thirty.Generate.Flat.{
  Fills, any_of, is_at, for_each-Writes, map_set-Writes, any_of-hit, any_of-miss,
}

-- What stands at a level of a map whose grass is at `level`.
pub record Layered (level : ℕ) (before after : Map) (x y z : ℕ) : Type 0 where
  pub top : y ≡ level → get after x y z ≡ some grass
  pub earth : y < level → level ≤ y + 4 → get after x y z ≡ some dirt
  pub rock : y + 4 < level → get after x y z ≡ some stone
  pub above : level < y → get after x y z ≡ get before x y z

module _ (heap : Allocator) (fuel rounds : ℕ) (w : World) (s : IsSound w)
    (on : w.map.generating ≡ true) (deep : 10 ≤ w.map.depth) (small : w.map.depth < 2 ^ 32) where
  abbrev layer : ℕ → ℕ → ℕ → ℕ
  layer x y z = flat_block (water_level w.map) y

  level_lem : water_level w.map ≡ w.map.depth / 2 - 1
  level_lem = omega (arith, deep, small)

  abbrev visited : ℕ → ℕ → ℕ → Bool
  visited a b c = any_of (below w.map.width) (λ x.
      any_of (below (water_level w.map + 1))
        (λ y. any_of (below w.map.height) (λ z. is_at layer x y z a b c)))

  flat_Fills :
      (w' : World) × (mapgen_flat heap (suc fuel) rounds w ≡ some w') × Fills layer visited w w'
  unfolding mapgen_flat
  flat_Fills =
      for_each-Writes layer (below w.map.width) _ _
        (λ x. for_each-Writes layer (below (water_level w.map + 1)) _ _ (λ y.
          for_each-Writes layer (below w.map.height) _ _
            (λ z. map_set-Writes layer heap fuel x y z (flat_block-known (water_level w.map) y))))
        w s on

  visited-low : (a b c : ℕ) → Inside w.map a b c → b < water_level w.map + 1 → visited a b c ≡ true
  visited-low a b c i low = any_of-hit 0 w.map.width a _ (omega arith) (omega (arith, i.0)) (
      any_of-hit 0 (water_level w.map + 1) b _ (omega arith) (omega (arith, low))
        (any_of-hit 0 w.map.height c _ (omega arith) (omega (arith, i.2)) (ground arith)))

  visited-high : (a b c : ℕ) → water_level w.map < b → visited a b c ≡ false
  visited-high a b c high = any_of-miss 0 w.map.width _ (λ x k.
      any_of-miss 0 (water_level w.map + 1) _
        (λ y l. any_of-miss 0 w.map.height _ (λ z n. ground (arith, l, high))))

  layers :
      (y : ℕ)
      → ((y ≡ w.map.depth / 2 - 1) → flat_block (water_level w.map) y ≡ grass)
        × (y < w.map.depth / 2 - 1
            → w.map.depth / 2 - 1 ≤ y + 4
            → flat_block (water_level w.map) y ≡ dirt)
        × (y + 4 < w.map.depth / 2 - 1 → flat_block (water_level w.map) y ≡ stone)
  unfolding flat_block
  layers y = (
    λ e. ground (arith, level_lem, e),
    λ h k. ground (arith, level_lem, h, k, deep, small),
    λ h. ground (arith, level_lem, h, deep, small),
  )

  -- In a well-formed map of 10 to 2^32 - 1 levels that is being generated, the flat generator is defined: at level
  -- depth / 2 - 1 it leaves grass, dirt on the four levels below, stone under these, and what was there
  -- above; the map stays well formed, with its sides.
  pub mapgen_flat-Layered :
      (w' : World) × (mapgen_flat heap (suc fuel) rounds w ≡ some w')
      × Kept w w'
      × ((x y z : ℕ) → Inside w.map x y z → Layered (w.map.depth / 2 - 1) w.map w'.map x y z)
  mapgen_flat-Layered =
      let (w', ran, f) = flat_Fills in
      (
        w',
        ran,
        f.kept,
        λ x y z i.
            let written =
              λ (low : y < water_level w.map + 1). f.filled x y z i (visited-low x y z i low) in
            record {
              top = λ e. written (omega (arith, level_lem, e)) ∙ ap some ((layers y).0 e);
              earth = λ h k. written (omega (arith, level_lem, h)) ∙ ap some ((layers y).1 h k);
              rock = λ h. written (omega (arith, level_lem, h)) ∙ ap some ((layers y).2 h);
              above = λ h. f.left x y z i (visited-high x y z (omega (arith, level_lem, h)));
            },
      )
