-- ===== src/SetBlock/Rights.antt =====
-- Which changes of a block only an operator may make.
use thirty.Prelude.{ℕ, Bool, ◌<◌, ◌≡◌, ◌≢◌, ◌⊎◌, arith, true, false, some, ◌==◌}
use thirty.Block.{bedrock, water, water_still, lava, lava_still, num_blocks, init_info}
use thirty.Block.Table.{blockinfo_known}
use thirty.SetBlock.{can_perform}

abbrev pub IsLiquid : ℕ → Type 0
IsLiquid b = (b ≡ water) ⊎ (b ≡ water_still) ⊎ (b ≡ lava) ⊎ (b ≡ lava_still)

-- Breaking or replacing bedrock, and placing bedrock or a liquid.
abbrev pub IsReserved : ℕ → ℕ → ℕ → Type 0
IsReserved mode current block =
    (current ≡ bedrock) ⊎ ((mode ≢ 0) × ((block ≡ bedrock) ⊎ IsLiquid block))

module _ (mode current block : ℕ) (known : current < num_blocks)
    (new_known : block < num_blocks) where
  pub can_perform-IsReserved :
      IsReserved mode current block → can_perform false (mode == 0) current block ≡ some false
  unfolding can_perform init_info
  can_perform-IsReserved h =
      rw (blockinfo_known current known, blockinfo_known block new_known) (ground arith)

  pub can_perform-free :
      (is_op : Bool)
      → (is_op ≡ true) ⊎ ¬ IsReserved mode current block
      → can_perform is_op (mode == 0) current block ≡ some true
  unfolding can_perform init_info
  can_perform-free is_op h =
      rw (blockinfo_known current known, blockinfo_known block new_known) (ground arith)
