-- ===== src/SetBlock/Packet.antt =====
-- A whole packet with which a client changes a block.
use thirty.Prelude.{ℕ, ◌^◌, ◌<◌, List, [], ◌∷◌, ◌++◌, ◌==◌, if◌then◌else◌}
use thirty.Endian.{big, encode}
use thirty.Buffer.{Buffer}
use thirty.Buffer.Stands.{Stands}
use thirty.World.{World}
use thirty.SetBlock.{Fields}

abbrev pub block_packet : Fields → List ℕ
block_packet f =
    encode big 2 f.x ++ (encode big 2 f.y ++ (encode big 2 f.z ++ (f.mode ∷ f.block ∷ [])))

pub record Fit (f : Fields) : Type 0 where
  pub words : (f.x < 2 ^ 16) × (f.y < 2 ^ 16) × (f.z < 2 ^ 16)
  pub bytes : (f.mode < 256) × (f.block < 256)

-- The block that is asked for: air where one is broken.
abbrev pub wanted : Fields → ℕ
wanted f = if f.mode == 0 then 0 else f.block
