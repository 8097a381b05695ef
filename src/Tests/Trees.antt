-- ===== src/Tests/Trees.antt =====
-- The space for a tree, src/mapgen.c, on concrete input.
use thirty.Prelude.{
  ℕ, zero, suc, ◌<◌, ◌≡◌, refl, arith, some, List, [], ◌++◌, All, replicate, true, false,
}
use thirty.Block.{air, dirt, num_blocks, blockinfo, init_info}
use thirty.Map.{Map, get, pos_valid, block_index}
use thirty.Map.Index.{IsWf}
use thirty.Tree.{tree_test_block, is_free, all_free, space_for_tree}
use thirty.Tree.Space.{Answers}
use thirty.Tree.Room.{Room, space_for_tree-Answers}

All-replicate :
    (n b : ℕ) (rest : List ℕ)
    → b < num_blocks
    → All (λ c. c < num_blocks) rest
    → All (λ c. c < num_blocks) (replicate n b ++ rest)
All-replicate zero b rest h k = k
All-replicate (suc n) b rest h k = (h, All-replicate n b rest h k)

-- Five wide and high and six deep: dirt under air.
abbrev field : Map
field = record {
  name = [];
  width = 5;
  depth = 6;
  height = 5;
  blocks = replicate 25 dirt ++ (replicate 125 air ++ []);
  generating = false;
  modified = false;
  ticks = [];
}

field-IsWf : IsWf field
field-IsWf = record {
  filled = refl;
  small = omega arith;
  known =
      All-replicate 25 dirt (replicate 125 air ++ []) (omega arith)
        (All-replicate 125 air [] (omega arith) tt);
}

space_for_tree-Answers_example : Answers (space_for_tree field 2 1 2 5) (Room field 2 1 2 5)
space_for_tree-Answers_example = space_for_tree-Answers field field-IsWf 2 1 2 5 (omega arith)

space_found : space_for_tree field 2 1 2 5 ≡ some true
unfolding space_for_tree all_free is_free tree_test_block get pos_valid block_index blockinfo
    init_info
space_found = refl
