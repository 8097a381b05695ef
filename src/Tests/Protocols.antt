-- ===== src/Tests/Protocols.antt =====
-- The packets of src/client.c, a tick of src/map.c and the random numbers of src/rng.c on concrete input.
use thirty.Prelude.{
  ℕ, ◌+◌, ◌^◌, ◌≡◌, refl, inr, arith, some, none, List, [], ◌∷◌, ◌++◌, take, replicate, true, false,
}
use thirty.Text.{codes}
use thirty.Buffer.{Buffer, live, allocate_memory, write, make_room, read}
use thirty.Buffer.Typed.{generic_write, generic_read}
use thirty.Endian.{to_bytes, of_bytes, to_order}
use thirty.Buffer.McStr.{mc_field}
use thirty.Block.{stone, sponge, init_info, blockinfo}
use thirty.Server.{Client}
use thirty.Login.{Site}
use thirty.Map.{Map, Tick, get, pos_valid, block_index}
use thirty.World.{
  World, map_set, set_with, react, announce, store_block, run_break, run_place, add_ticks,
  map_add_tick,
}
use thirty.World.Quiet.{changed}
use thirty.World.Keeps.{IsSound, Kept}
use thirty.World.Safe.{map_set_defined}
use thirty.Rng.{step, draw, rng_next}
use thirty.Rng.Period.{Draws, rng_next-Draws}
use thirty.Protocol.{Peer, Session, on_out}
use thirty.Protocol.Packets.{finish, on_two_way_ping}
use thirty.Protocol.Handle.{Setting, Outcome, handled, on_packet, handle_one, handle_in_buffer}
use thirty.Tests.Heap.{zeroing}

rng_next-Draws_example : Draws 1000 (rng_next (2 ^ 47 + 1) 1000 7)
rng_next-Draws_example =
    rng_next-Draws (2 ^ 47 + 1) 1000 7 (omega arith) (omega arith) (omega arith)

drawn : rng_next 2 10 5 ≡ some (2, 126074519596)
unfolding rng_next draw step
drawn = refl

-- Two wide and deep and one high: bedrock under sand and air.
abbrev dune : Map
dune = record {
  name = [];
  width = 2;
  depth = 2;
  height = 1;
  blocks = 7 ∷ 7 ∷ 12 ∷ 0 ∷ [];
  generating = false;
  modified = false;
  ticks = [];
}

abbrev due : Tick
due = record { x = 0; y = 1; z = 0; time = 4 }

abbrev out : Buffer
out = allocate_memory 64 false

abbrev world : World
world = record { map = dune; tick = 5; clients = out ∷ out ∷ [] }

abbrev waiting : World
waiting = record world { map = record dune { ticks = due ∷ [] } }

waiting-IsSound : IsSound waiting
waiting-IsSound = record {
  wf = record { filled = refl; small = omega arith; known = omega arith };
  ticks = ((omega arith, omega arith, omega arith), tt);
}

placed :
    map_set zeroing 1 1 1 0 stone world
    ≡ some (changed zeroing world 1 1 0 stone (record { x = 0; y = 1; z = 0; time = 5 } ∷ []))
unfolding map_set set_with react run_break run_place add_ticks map_add_tick store_block announce get
    pos_valid block_index blockinfo init_info
placed = refl

-- Five wide and deep and high: a sponge under water.
abbrev pool : Map
pool = record {
  name = [];
  width = 5;
  depth = 5;
  height = 5;
  blocks = 8 ∷ 8 ∷ (19 ∷ replicate 122 0);
  generating = false;
  modified = false;
  ticks = [];
}

abbrev pool_world : World
pool_world = record { map = pool; tick = 5; clients = out ∷ [] }

pool_world-IsSound : IsSound pool_world
pool_world-IsSound = record {
  wf = record { filled = refl; small = omega arith; known = omega arith };
  ticks = tt;
}

map_set_defined_example :
    (w' : World) × (map_set zeroing 2 1 1 1 sponge pool_world ≡ some w') × Kept pool_world w'
map_set_defined_example =
    map_set_defined zeroing 0 1 1 1 sponge pool_world (inr (omega arith, omega arith, omega arith))
      (omega arith) pool_world-IsSound

abbrev site : Site
site = record {
  config = record {
    name = some (codes "a");
    motd = some (codes "b");
    port = 25565;
    is_public = false;
    offline = true;
    max_players = 4;
    enable_whitelist = false;
    enable_old_clients = false;
    allowed_web_proxies = [];
  };
  ops = [];
  banned_users = [];
  whitelist = [];
  salt = [];
  md5 = λ text. [];
}

abbrev given : Setting
given = record {
  heap = zeroing;
  fuel = 2;
  junk = 9;
  old = replicate 65 0;
  old_key = replicate 65 7;
  site = site;
  colours = [];
  changeset = codes "1";
  turn = λ angle. angle;
}

abbrev player : ℕ → List ℕ → Client
player idx name = record {
  connected = true;
  idx = idx;
  is_op = false;
  protocol_version = 7;
  name = name;
  spawned = true;
}

abbrev peer : Peer
peer = record {
  ws_can_switch = false;
  extensions = [];
  customblocks_support = none;
  ping_key = 0;
  x = 0;
  y = 0;
  z = 0;
  yaw = 0;
  pitch = 0;
  sending = [];
}

abbrev session : Session
session = record {
  clients = player 0 (codes "a") ∷ player 1 (codes "b") ∷ [];
  peers = peer ∷ peer ∷ [];
  world = world;
}

-- A ping, a block that is placed, a message, and a byte that is no packet.
abbrev input : Buffer
input = record {
  owned = true;
  grows = false;
  block = live;
  bytes =
      0x2b
      ∷ 0
      ∷ 1
      ∷ 2
      ∷ 5
      ∷ 0
      ∷ 1
      ∷ 0
      ∷ 1
      ∷ 0
      ∷ 0
      ∷ 1
      ∷ 1
      ∷ 0x0d
      ∷ 255
      ∷ (mc_field (codes "hi") false ++ (0x77 ∷ []));
  offset = 0;
}

abbrev pinged : Outcome
pinged = handle_in_buffer given 0 4 4 input session

abbrev answer : Outcome → List ℕ
answer (handled s b) = elim s.world.clients [ [] ↦ [] | o ∷ os ↦ take o.offset o.bytes ]
answer _ = []

ping_answered : answer pinged ≡ 0x2b ∷ 0 ∷ 1 ∷ 2 ∷ []
unfolding handle_in_buffer handle_one on_packet on_two_way_ping finish on_out generic_read
    generic_write read write make_room allocate_memory to_order mc_field thirty.Endian.swap
ping_answered = refl
