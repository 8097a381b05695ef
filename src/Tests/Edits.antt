-- ===== src/Tests/Edits.antt =====
-- Packets that change a block, src/client.c, on concrete input.
use thirty.Prelude.{[], ◌∷◌, ◌++◌, true, false}
use thirty.Buffer.{Buffer, live, allocate_memory}
use thirty.Buffer.Stands.{Stands}
use thirty.Map.{Map}
use thirty.World.{World}
use thirty.SetBlock.{Fields}
use thirty.SetBlock.Packet.{block_packet}

-- Two wide and deep and one high, with a floor of bedrock.
abbrev vault : Map
vault = record {
  name = [];
  width = 2;
  depth = 2;
  height = 1;
  blocks = 7 ∷ 7 ∷ 0 ∷ 0 ∷ [];
  generating = false;
  modified = false;
  ticks = [];
}

abbrev own_out : Buffer
own_out = allocate_memory 64 false

abbrev server : World
server = record { map = vault; tick = 5; clients = own_out ∷ allocate_memory 32 false ∷ [] }

abbrev dig : Fields
dig = record { x = 1; y = 0; z = 0; mode = 0; block = 1 }

abbrev build : Fields
build = record { x = 1; y = 1; z = 0; mode = 1; block = 1 }

abbrev holding : Fields → Buffer
holding f = record {
  owned = true;
  grows = false;
  block = live;
  bytes = block_packet f ++ (0 ∷ []);
  offset = 0;
}
