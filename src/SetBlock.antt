-- ===== src/SetBlock.antt =====
-- The packet with which a client changes a block: `packet_set_block_client` of client_handle_in_buffer,
-- src/client.c, behind its first byte.
pub mod Rights
pub mod Packet
use thirty.Prelude.{
  ℕ, zero, suc, Bool, true, false, not, ◌&&◌, Option, none, some, List, [], ◌∷◌, get_elem?, set,
  ◌==◌, if◌then◌else◌,
}
use thirty.Prelude.Options.{◌>>=◌}
use thirty.Word.{uint8, uint16}
use thirty.Buffer.{Allocator, Buffer}
use thirty.Buffer.Typed.{read_into, read_uint8, read_uint16be}
use thirty.Block.{air, BlockInfo, blockinfo}
use thirty.Map.{get}
use thirty.World.{World, Change, send_set_block, map_set}

-- `blockinfo[current]` and `blockinfo[block]` are read for a client that is no operator only.
unfoldable pub can_perform : Bool → Bool → ℕ → ℕ → Option Bool
can_perform is_op is_break current block =
    let allowed_break = blockinfo current >>= λ old. some (not old.op_only_break) in
    let allowed_place = blockinfo current >>= λ old.
    if old.op_only_break
    then some false
    else (blockinfo block >>= λ new. some (not new.op_only_place)) in
    if is_op then some true else (if is_break then allowed_break else allowed_place)

-- The block as it is, into the output buffer of the client at index `i`.
unfoldable pub send_back : Allocator → ℕ → ℕ → ℕ → ℕ → ℕ → Change
send_back heap i x y z current w = get_elem? w.clients i >>= λ out.
    some (record w { clients = set w.clients i (send_set_block heap x y z current out) })

unfoldable pub change_block : Allocator → ℕ → Bool → ℕ → ℕ → ℕ → ℕ → ℕ → ℕ → Change
change_block heap fuel is_op i x y z mode block w =
    let is_break = mode == 0 in
    get w.map x y z >>= λ current. can_perform is_op is_break current block >>= λ allowed.
    if allowed
    then map_set heap fuel x y z (if is_break then 0 else block) w
    else send_back heap i x y z current w

-- The fields of the packet, where `junk` is what a variable holds that was not set.
pub record Fields : Type 0 where
  pub x : ℕ
  pub y : ℕ
  pub z : ℕ
  pub mode : ℕ
  pub block : ℕ

unfoldable pub read_fields : ℕ → Buffer → Fields × Buffer
read_fields junk b =
    let (x, b1) = read_into read_uint16be (uint16 junk) b in
    let (y, b2) = read_into read_uint16be (uint16 junk) b1 in
    let (z, b3) = read_into read_uint16be (uint16 junk) b2 in
    let (mode, b4) = read_into read_uint8 (uint8 junk) b3 in
    let (block, b5) = read_into read_uint8 (uint8 junk) b4 in
    (record { x = x; y = y; z = z; mode = mode; block = block }, b5)

-- The world and the input behind the packet.
unfoldable pub on_set_block :
    Allocator → ℕ → ℕ → Bool → ℕ → Buffer → World → Option (World × Buffer)
on_set_block heap fuel junk is_op i b w =
    let (f, b') = read_fields junk b in
    change_block heap fuel is_op i f.x f.y f.z f.mode f.block w >>= λ w'. some (w', b')
