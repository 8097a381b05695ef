-- ===== src/Protocol.antt =====
-- The state of the server while it handles the input of its clients, and what every handler of src/client.c
-- uses: the extensions of src/cpe.c, client_disconnect, and server_broadcast of src/server.c. Flushing an output
-- buffer and the closing frame of a WebSocket are outside of the model.
pub mod Enter
pub mod Talks
pub mod Packets
pub mod Handle
use thirty.Prelude.{
  ℕ, zero, suc, ◌-◌, Bool, true, false, not, ◌&&◌, Option, none, some, List, [], ◌∷◌, ◌++◌, map,
  get_elem?, set, take, ltb, ◌==◌, if◌then◌else◌,
}
use thirty.Prelude.Options.{◌>>=◌}
use thirty.Text.{codes, str_case_eq}
use thirty.Word.{uint8}
use thirty.Buffer.{Allocator, Buffer}
use thirty.Buffer.Typed.{write_uint8}
use thirty.Buffer.McStr.{write_mcstr}
use thirty.Server.{Client, disconnect}
use thirty.World.{World}

-- `cpeext_t`
abbrev pub Extension : Type 0
Extension = List ℕ × ℕ

abbrev pub full_cp437 : List ℕ
full_cp437 = codes "FullCP437"

abbrev pub fast_map : List ℕ
fast_map = codes "FastMap"

abbrev pub custom_blocks : List ℕ
custom_blocks = codes "CustomBlocks"

abbrev pub two_way_ping : List ℕ
two_way_ping = codes "TwoWayPing"

abbrev pub text_colors : List ℕ
text_colors = codes "TextColors"

-- `supported_extensions`, without the entry that ends it; `cpe_count_supported` is its length.
abbrev pub supported_extensions : List Extension
supported_extensions =
    (full_cp437, 1) ∷ (fast_map, 1) ∷ (custom_blocks, 1) ∷ (two_way_ping, 1) ∷ (text_colors, 1) ∷ []

-- The fields of `client_t` that the protocol keeps beside those of `Client`. A coordinate is its multiple of
-- 1/32 as the bits of an `int16_t`, an angle the bits of the `int8_t`; `none` is a level of -1. `sending` has
-- an entry for each thread that was started to send the map: whether it is the fast one.
pub record Peer : Type 0 where
  pub ws_can_switch : Bool
  pub extensions : List Extension
  pub customblocks_support : Option ℕ
  pub ping_key : ℕ
  pub x : ℕ
  pub y : ℕ
  pub z : ℕ
  pub yaw : ℕ
  pub pitch : ℕ
  pub sending : List Bool

-- `server.clients`, in three lists; the output buffers are those of the world.
pub record Session : Type 0 where
  pub clients : List Client
  pub peers : List Peer
  pub world : World

unfoldable pub supports : List Extension → List ℕ → ℕ → Bool
supports [] name version = false
supports ((n, v) ∷ es) name version =
    if str_case_eq n name && (v == version) then true else supports es name version

abbrev pub set_outs : List Buffer → Session → Session
set_outs outs s = let w : World = s.world in record s { world = record w { clients = outs } }

-- A write into the output buffer of the client at index `i`.
unfoldable pub on_out : ℕ → (Buffer → Buffer) → Session → Option Session
on_out i f s =
    get_elem? s.world.clients i >>= λ out. some (set_outs (set s.world.clients i (f out)) s)

abbrev pub set_peer : ℕ → Peer → Session → Session
set_peer i p s = record s { peers = set s.peers i p }

abbrev pub set_client : ℕ → Client → Session → Session
set_client i c s = record s { clients = set s.clients i c }

abbrev pub write_all :
    (Client → Peer → Buffer → Buffer) → List Client → List Peer → List Buffer → List Buffer
write_all f (c ∷ cs) (p ∷ ps) (b ∷ bs) = f c p b ∷ write_all f cs ps bs
write_all f _ _ bs = bs

-- A write into each buffer but the one at index `i`.
abbrev pub write_others : ℕ → (Buffer → Buffer) → List Buffer → List Buffer
write_others i f [] = []
write_others zero f (b ∷ bs) = b ∷ map f bs
write_others (suc i) f (b ∷ bs) = f b ∷ write_others i f bs

module _ (heap : Allocator) where
  abbrev pub write_bytes : List ℕ → Buffer → Buffer
  write_bytes [] b = b
  write_bytes (c ∷ cs) b = write_bytes cs (write_uint8 heap b c)

  -- The packet `packet_message` for one client.
  unfoldable pub send_message : List ℕ → Client → Peer → Buffer → Buffer
  send_message text c p b =
      if ltb c.protocol_version 3
      then b
      else write_mcstr heap (write_bytes (0x0d ∷ 0x7F ∷ []) b) text
          (not (supports p.extensions full_cp437 1))

  -- `server_broadcast`, for the text that the format gives.
  unfoldable pub broadcast : List ℕ → Session → Session
  broadcast text s =
      set_outs (write_all (send_message (take 64 text)) s.clients s.peers s.world.clients) s

  -- The packet `packet_player_disconnect`, for a client that is connected.
  abbrev pub told_goodbye : ℕ → List ℕ → Client → Peer → Session → Option Session
  told_goodbye i msg c p s =
      if c.connected
      then on_out i
          (λ b. write_mcstr heap (write_uint8 heap b 0x0e) msg (supports p.extensions full_cp437 1))
          s
      else some s

  -- What `client_disconnect` writes.
  unfoldable pub farewell : ℕ → List ℕ → Session → Option Session
  farewell i msg s = get_elem? s.clients i >>= λ c. get_elem? s.peers i >>= λ p.
      told_goodbye i msg c p s >>= λ s1.
      if c.spawned
      then (let s2 =
            broadcast (codes "&e" ++ c.name ++ codes " &fdisconnected (" ++ msg ++ codes ")") s1 in
          some
            (set_outs (write_others i (write_bytes (0x0c ∷ uint8 c.idx ∷ [])) s2.world.clients) s2))
      else some s1

  -- `client_disconnect`
  unfoldable pub disconnect_client : ℕ → List ℕ → Session → Option Session
  disconnect_client i msg s = get_elem? s.clients i >>= λ c.
      farewell i msg s >>= λ s'. some (set_client i (disconnect c) s')
