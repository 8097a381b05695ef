-- ===== src/Block/Table.antt =====
-- What the table says of each block.
use thirty.Prelude.{ℕ, ◌<◌, ◌≢◌, ◌≡◌, ◌↔◌, ◌⊎◌, some, arith}
use thirty.Block.Ids.{water, lava, sand, gravel, sponge, num_blocks}
use thirty.Block.{init_info, blockinfo, gravity, flow, place_liquid, place_sponge, break_sponge}

pub blockinfo_known : (b : ℕ) → b < num_blocks → blockinfo b ≡ some (init_info b)
unfolding blockinfo
blockinfo_known b h = ground arith

-- Which blocks have a tick, and a placing or breaking function: sand and gravel fall; moving water
-- and lava flow, and only they wait; only moving water is taken back beside a sponge (no other
-- liquid is); only the sponge acts when it is placed or broken.
pub init_info_functions :
    (b : ℕ)
    → (((init_info b).tickfunc ≡ some gravity) ↔ ((b ≡ sand) ⊎ (b ≡ gravel)))
      × (((init_info b).tickfunc ≡ some flow) ↔ ((b ≡ water) ⊎ (b ≡ lava)))
      × (((init_info b).ticktime ≢ 0) ↔ ((init_info b).tickfunc ≡ some flow))
      × (((init_info b).placefunc ≡ some place_liquid) ↔ (b ≡ water))
      × (((init_info b).placefunc ≡ some place_sponge) ↔ (b ≡ sponge))
      × (((init_info b).breakfunc ≡ some break_sponge) ↔ (b ≡ sponge))
unfolding init_info
init_info_functions b = ground arith
