-- ===== src/Map/Top.antt =====
-- `map_get_top` and `map_get_top_lit` find the highest block of a column that stops the search.
use thirty.Prelude.{
  ℕ, zero, suc, ◌-◌, ◌≤◌, ◌<◌, Bool, true, false, not, ◌≡◌, refl, arith, Option, some, ◌==◌,
}
use native.Mathlib.Decide.{ℕ_discrete}
use thirty.Prelude.Options.{◌>>=◌}
use thirty.Block.{air, num_blocks, init_info}
use thirty.Block.Table.{blockinfo_known}
use thirty.Map.{Map, get, top_where, is_not_air, blocks_light, get_top, get_top_lit}
use thirty.Map.Index.{IsWf, get_lem}

-- `t` is the level where the search from `n` down stops: nothing above it stops the search, and
-- the block there does, unless it is the lowest.
pub record IsTop (stops : ℕ → Option Bool) (m : Map) (x z n t : ℕ) : Type 0 where
  pub not_above : t ≤ n
  pub free : (y : ℕ) → t < y → y ≤ n → (get m x y z >>= stops) ≡ some false
  pub stopped : 0 < t → (get m x t z >>= stops) ≡ some true

module _ (stops : ℕ → Option Bool)
    (decides : (b : ℕ) → b < num_blocks → (s : Bool) × (stops b ≡ some s)) (m : Map) (x z : ℕ)
    (wf : IsWf m) (x_in : x < m.width) (z_in : z < m.height) where
  IsTop-step :
      (n : ℕ) (b : ℕ) (s : Bool) {t : ℕ}
      → get m x (suc n) z ≡ some b
      → stops b ≡ some s
      → (top_where stops m x z n ≡ some t) × IsTop stops m x z n t
      → (t' : ℕ) × (top_where stops m x z (suc n) ≡ some t') × IsTop stops m x z (suc n) t'
  unfolding top_where
  IsTop-step n b true {t} g e (r, i) = (
    suc n,
    rw (g, e),
    record {
      not_above = omega arith;
      free = λ y p q. absurd (omega arith);
      stopped = λ _. rw (g, e);
    },
  )
  IsTop-step n b false {t} g e (r, i) = (
    t,
    rw (g, e) r,
    record {
      not_above = omega (arith, i.not_above);
      free = λ y p q. elim (ℕ_discrete y (suc n)) [
        | yes same ↦ rw (same, g, e)
        | no other ↦ i.free y p (omega arith)
      ];
      stopped = i.stopped;
    },
  )

  top_where_lem :
      (n : ℕ) → n < m.depth → (t : ℕ) × (top_where stops m x z n ≡ some t) × IsTop stops m x z n t
  unfolding top_where
  top_where_lem zero h = (
    zero,
    refl,
    record {
      not_above = omega arith;
      free = λ y p q. absurd (omega arith);
      stopped = λ p. absurd (omega arith);
    },
  )
  top_where_lem (suc n) h =
      let (b, found, known) = get_lem m x (suc n) z wf (x_in, h, z_in) in
      let (s, e) = decides b known in
      let (t, r, below) = top_where_lem n (omega arith) in IsTop-step n b s found e (r, below)

module _ (m : Map) (x z : ℕ) (wf : IsWf m) (x_in : x < m.width) (z_in : z < m.height)
    (deep : 0 < m.depth) where
  get_top_lem : (t : ℕ) × (get_top m x z ≡ some t) × IsTop is_not_air m x z (m.depth - 1) t
  unfolding get_top
  get_top_lem =
      top_where_lem is_not_air (λ b h. (not (b == air), refl)) m x z wf x_in z_in (m.depth - 1)
        (omega arith)

  get_top_lit_lem :
      (t : ℕ) × (get_top_lit m x z ≡ some t) × IsTop blocks_light m x z (m.depth - 1) t
  unfolding get_top_lit
  get_top_lit_lem =
      top_where_lem blocks_light decides m x z wf x_in z_in (m.depth - 1) (omega arith)
    where
      decides : (b : ℕ) → b < num_blocks → (s : Bool) × (blocks_light b ≡ some s)
      decides b h = ((init_info b).block_light, rw (blockinfo_known b h))

  -- In a column inside a well-formed map of some depth `map_get_top` returns the level of the
  -- highest block that is not air, and `map_get_top_lit` that of the highest block that stops light; each
  -- returns 0 if there is none above level 0.
  pub get_tops_lem :
      ((t : ℕ) × (get_top m x z ≡ some t) × IsTop is_not_air m x z (m.depth - 1) t)
      × ((t : ℕ) × (get_top_lit m x z ≡ some t) × IsTop blocks_light m x z (m.depth - 1) t)
  get_tops_lem = (get_top_lem, get_top_lit_lem)
