-- ===== src/World/Depth.antt =====
-- How deep the calls of map_set of src/map.c nest, through the place functions of src/blocks.c.
use thirty.Prelude.{ℕ, Bool, some, if◌then◌else◌, ◌==◌}
use thirty.Prelude.Options.{◌>>=◌}
use thirty.Buffer.{Allocator}
use thirty.Block.{air}
use thirty.Map.{get, pos_valid}
use thirty.World.{World, Change, store_block, announce}

abbrev Setter : Type 0
Setter = ℕ → ℕ → ℕ → ℕ → Change

abbrev Clearer : Type 0
Clearer = ℕ → ℕ → ℕ → Change

abbrev clear_with : Setter → Clearer
clear_with f = λ x y z. f x y z air

-- The part of `map_set` behind the guards, as a function of the reaction.
abbrev set_by : Allocator → (Bool → ℕ → Change) → ℕ → ℕ → ℕ → ℕ → Change
set_by heap reaction x y z block w =
    if pos_valid w.map x y z
    then (get w.map x y z >>= λ old.
        if old == block
        then some w
        else (reaction w.map.generating old (store_block x y z block w) >>= announce heap x y z))
    else some w
