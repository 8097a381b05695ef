-- ===== src/Tree.antt =====
-- Trees: the space for one and its growth, src/mapgen.c, and the tick of a sapling, src/blocks.c. An `int`
-- coordinate is its value as the `size_t` that the map's functions take.

pub mod Space
pub mod Room
use thirty.Prelude.{
  ℕ, suc, ◌+◌, ◌-◌, Bool, true, false, not, ◌&&◌, ◌||◌, Option, some, List, [], ◌∷◌, ◌++◌, map, ltb,
  ◌==◌, if◌then◌else◌,
}
use thirty.Prelude.Options.{◌>>=◌}
use thirty.Word.{add_size, sub_size}
use thirty.Buffer.{Allocator}
use thirty.Block.{dirt, grass, sapling, wood, leaves, blockinfo}
use thirty.Map.{Map, pos_valid, get, get_top_lit}
use thirty.World.{World, Pos, count_up, map_set}
use thirty.Rng.{rng_next2, rng_next_boolean}

unfoldable pub tree_test_block : ℕ → Option Bool
tree_test_block block = blockinfo block >>= λ info. some (info.solid || info.liquid)

-- The values from `c - r` to `c + r` of an `int`.
abbrev pub spread : ℕ → ℕ → List ℕ
spread c r = map (λ i. sub_size (add_size c i) r) (count_up 0 (suc (r + r)))

-- The positions in the order of three nested loops.
abbrev pub columns : ℕ → ℕ → List ℕ → List Pos
columns x y [] = []
columns x y (z ∷ zs) = (x, y, z) ∷ columns x y zs

abbrev pub planes : ℕ → List ℕ → List ℕ → List Pos
planes x [] zs = []
planes x (y ∷ ys) zs = columns x y zs ++ planes x ys zs

abbrev pub cells : List ℕ → List ℕ → List ℕ → List Pos
cells [] ys zs = []
cells (x ∷ xs) ys zs = planes x ys zs ++ cells xs ys zs

-- The body of the loops: whether they go on.
unfoldable pub is_free : Map → Pos → Option Bool
is_free m (x, y, z) =
    if pos_valid m x y z
    then (get m x y z >>= λ block. tree_test_block block >>= λ taken. some (not taken))
    else some false

unfoldable pub all_free : Map → List Pos → Option Bool
all_free m [] = some true
all_free m (p ∷ ps) =
    let rest = all_free m ps in is_free m p >>= λ free. if free then rest else some false

-- For a height of four or more, and coordinates whose sums stay within an `int`.
unfoldable pub space_for_tree : Map → ℕ → ℕ → ℕ → ℕ → Option Bool
space_for_tree m x y z height =
    if pos_valid m x y z && pos_valid m x (sub_size y 1) z
    then (get m x (sub_size y 1) z >>= λ below.
        if (below == dirt) || (below == grass)
        then (all_free m (cells (spread x 1) (count_up y height) (spread z 1)) >>= λ trunk.
            if trunk
            then all_free m (cells (spread x 2) (count_up (y + (height - 4)) 4) (spread z 2))
            else some false)
        else some false)
    else some false

-- The world with the seed of the random numbers.
abbrev pub Growth : Type 0
Growth = World × ℕ → Option (World × ℕ)

abbrev pub each {ℓ} : {A : Type ℓ} → List A → (A → Growth) → Growth
each [] body ws = some ws
each (a ∷ as_) body ws = body a ws >>= each as_ body

abbrev pub pairs : List ℕ → List ℕ → List (ℕ × ℕ)
pairs [] bs = []
pairs (a ∷ as_) bs = map (λ b. (a, b)) bs ++ pairs as_ bs

-- `abs(xx) == 2 && abs(zz) == 2`, for `xx + 2` and `zz + 2`.
abbrev pub corner : ℕ → ℕ → Bool
corner i j = ((i == 0) || (i == 4)) && ((j == 0) || (j == 4))

module _ (heap : Allocator) (fuel : ℕ) where
  unfoldable pub plant : ℕ → ℕ → ℕ → ℕ → Growth
  plant x y z block (w, seed) = map_set heap fuel x y z block w >>= λ w'. some (w', seed)

  unfoldable pub maybe_plant : ℕ → ℕ → ℕ → ℕ → Growth
  maybe_plant x y z block (w, seed) =
      let (heads, seed') = rng_next_boolean seed in
      if heads then plant x y z block (w, seed') else some (w, seed')

  -- The bodies of the loops, for `xx + 2` and `zz + 2`, and for `xx + 1` and `zz + 1`.
  unfoldable pub bottom_leaves : ℕ → ℕ → ℕ → ℕ × ℕ → Growth
  bottom_leaves x max0 z (i, j) ws =
      let ax = sub_size (add_size x i) 2 in
      let az = sub_size (add_size z j) 2 in
      if corner i j
      then (maybe_plant ax (max0 - 3) az leaves ws >>= maybe_plant ax (max0 - 2) az leaves)
      else (plant ax (max0 - 3) az leaves ws >>= plant ax (max0 - 2) az leaves)

  unfoldable pub top_leaves : ℕ → ℕ → ℕ → ℕ × ℕ → Growth
  top_leaves x max0 z (i, j) ws =
      let ax = sub_size (add_size x i) 1 in
      let az = sub_size (add_size z j) 1 in
      if (i == 1) || (j == 1)
      then (plant ax (max0 - 1) az leaves ws >>= plant ax max0 az leaves)
      else maybe_plant ax (max0 - 1) az leaves ws

  -- For a height of three or more.
  unfoldable pub grow_tree : ℕ → ℕ → ℕ → ℕ → Growth
  grow_tree x y z height ws =
      plant x y z wood ws
      >>= each (pairs (count_up 0 5) (count_up 0 5)) (bottom_leaves x (y + height) z)
      >>= each (pairs (count_up 0 3) (count_up 0 3)) (top_leaves x (y + height) z)
      >>= each (count_up y height) (λ yy. plant x yy z wood)

  -- `rounds` bounds the loop of the random numbers.
  unfoldable pub blocktick_tree_grow : ℕ → ℕ → ℕ → ℕ → ℕ → Growth
  blocktick_tree_grow rounds x y z block (w, seed) =
      if block == sapling
      then (get_top_lit w.map x z >>= λ top.
          if ltb y top
          then some (w, seed)
          else (rng_next2 rounds 1 3 seed >>= λ (extra, seed').
              space_for_tree w.map x y z (extra + 4) >>= λ room.
              if room then grow_tree x y z (extra + 4) (w, seed') else some (w, seed')))
      else some (w, seed)
