-- ===== src/SendMap.antt =====
-- What a client is sent of the map: client_start_mapsave of src/client.c, and the replacement of blocks
-- in mapsend_thread_start of src/mapsend.c, before the data is compressed.
pub mod Bounds
use thirty.Prelude.{
  ℕ, zero, suc, ◌*◌, ◌%◌, ◌^◌, Bool, true, false, ◌&&◌, List, [], ◌∷◌, ◌++◌, leb, ltb,
  if◌then◌else◌,
}
use thirty.Word.{uint32}
use thirty.Endian.{big, encode}
use thirty.Block.{air, leaves, glass, gold_block}
use thirty.Block.Fallback.{get_fallback}
use thirty.Map.{Map}

abbrev pub num_blocks_of : Map → ℕ
num_blocks_of m = uint32 (m.width * m.height * m.depth)

-- The number of blocks, big end first, and the blocks.
unfoldable pub level_data : Map → List ℕ
level_data m = encode big 4 (num_blocks_of m) ++ m.blocks

-- One round of the loop, for a client of this protocol version.
unfoldable pub replace_block : ℕ → ℕ → ℕ
replace_block version b =
    let b1 = if leb version 4 && ltb leaves b then air else b in
    if leb version 5 && ltb glass b1
    then air
    else if leb version 6 && ltb gold_block b1
    then air
    else get_fallback b1

-- The loop over the first `n` bytes.
unfoldable pub replace_blocks : ℕ → ℕ → List ℕ → List ℕ
replace_blocks version zero bytes = bytes
replace_blocks version (suc n) [] = []
replace_blocks version (suc n) (b ∷ bs) = replace_block version b ∷ replace_blocks version n bs

unfoldable pub sent_level : Bool → ℕ → Map → List ℕ
sent_level custom_blocks version m =
    if custom_blocks then level_data m else replace_blocks version (num_blocks_of m) (level_data m)
