-- ===== src/Tests/Logins.antt =====
-- The clients of src/server.c and the login packet of src/client.c on concrete input.
use thirty.Prelude.{
  ℕ, ◌≡◌, ◌≢◌, refl, inl, arith, none, some, List, [], ◌∷◌, ◌++◌, get_elem?, replicate, true, false,
}
use thirty.Text.{codes}
use thirty.Buffer.{Buffer, live, size, tell}
use thirty.Buffer.Valid.{IsValid}
use thirty.Buffer.Stands.{Stands}
use thirty.Buffer.McStr.{mc_field}
use thirty.Config.Settings.{ServerConfig}
use thirty.Namelist.{namelist_contains}
use thirty.Server.{Client, new_client, accept, remove_from, remove_disconnected}
use thirty.Server.Removal.{sweep, ticks, remove_disconnected-sweep, ticks-connected}
use thirty.Login.{Site, Login, user_banned, is_used, versioned, on_ident}
use thirty.Login.Names.{Distinct, names, accepting, identifying, start, next, reachable-Distinct}
use thirty.Login.Admission.{MayPlay, FirstFails}
use thirty.Login.Decided.{on_ident_admitted, on_ident_refused}
use thirty.Login.Packet.{FitsField, login_packet, on_ident-login_packet}

abbrev dead : Client
dead = record {
  connected = false;
  idx = 0;
  is_op = false;
  protocol_version = 7;
  name = codes "x";
  spawned = false;
}

abbrev alive : Client
alive = record dead { connected = true; idx = 2; name = codes "y" }

abbrev crowd : List Client
crowd = dead ∷ dead ∷ alive ∷ []

remove_disconnected-sweep_example : remove_disconnected crowd ≡ sweep crowd
remove_disconnected-sweep_example = remove_disconnected-sweep crowd

ticks-connected_example : ticks 2 crowd ≡ alive ∷ []
ticks-connected_example = ticks-connected 2 crowd (omega arith)

one_stays : remove_disconnected crowd ≡ dead ∷ alive ∷ []
unfolding remove_disconnected remove_from
one_stays = refl

abbrev settings : ServerConfig
settings = record {
  name = none;
  motd = none;
  port = 25565;
  is_public = false;
  offline = true;
  max_players = 4;
  enable_whitelist = false;
  enable_old_clients = false;
  allowed_web_proxies = [];
}

abbrev site : Site
site = record {
  config = settings;
  ops = codes "AB" ∷ [];
  banned_users = codes "cd" ∷ [];
  whitelist = [];
  salt = [];
  md5 = λ text. [];
}

abbrev strict_site : Site
strict_site = record site { banned_users = codes "Ab" ∷ [] }

abbrev array : List ℕ
array = replicate 65 0

abbrev packet : Buffer
packet = record {
  owned = true;
  grows = false;
  block = live;
  bytes = login_packet 7 (codes "ab") (codes "-") 0x42 ++ (9 ∷ []);
  offset = 0;
}

size-packet : size packet ≡ 131
unfolding mc_field
size-packet = refl

packet-IsValid : IsValid packet
packet-IsValid = record {
  within = omega arith;
  small = omega (arith, size-packet);
  allocated = refl;
}

packet-Stands : Stands packet (login_packet 7 (codes "ab") (codes "-") 0x42)
packet-Stands = record { rest = 9 ∷ []; ahead = refl }

ab-FitsField : FitsField (b'a' ∷ []) b'b'
ab-FitsField = record { short = omega arith; no_space = omega arith; no_zero = omega arith }

key-FitsField : FitsField [] b'-'
key-FitsField = record { short = omega arith; no_space = omega arith; no_zero = omega arith }

-- The server with its first client.
abbrev clients : List Client
clients = accept false []

first_client : get_elem? clients 0 ≡ some (new_client 0)
unfolding accept
first_client = refl

ab-MayPlay : MayPlay site clients (codes "ab") (codes "-")
unfolding is_used namelist_contains accept new_client
ab-MayPlay = record {
  room = omega arith;
  unused = refl;
  not_banned = refl;
  authentic = inl refl;
  listed = inl refl;
}

on_ident-login_packet_example :
    (r : Login) × (on_ident site array array 0 clients packet ≡ some r)
    × (r.refused ≡ none)
    × (r.supports_cpe ≡ true)
    × (tell r.in_buffer ≡ 130)
    × (get_elem? r.clients 0
        ≡ some (record (versioned settings 7 7 (new_client 0)) {
          name = codes "ab";
          is_op = namelist_contains (codes "AB" ∷ []) (codes "ab");
        }))
on_ident-login_packet_example =
    on_ident-login_packet site array array 0 clients packet (new_client 0) first_client 7
      (omega arith) (omega arith) packet-IsValid (b'a' ∷ []) b'b' [] b'-' 0x42 ab-FitsField
      key-FitsField (omega arith) refl refl packet-Stands ab-MayPlay

-- The login of the first client.
logged_in : (r : Login) × (on_ident site array array 0 clients packet ≡ some r) × (r.refused ≡ none)
logged_in =
    let (r, ran, ok, cpe, at, c) =
      on_ident-login_packet site array array 0 clients packet (new_client 0) first_client 7
        (omega arith) (omega arith) packet-IsValid (b'a' ∷ []) b'b' [] b'-' 0x42 ab-FitsField
        key-FitsField (omega arith) refl refl packet-Stands ab-MayPlay in
    (r, ran, ok)

on_ident_admitted_example : MayPlay site clients (codes "ab") (codes "-")
on_ident_admitted_example =
    on_ident_admitted site array array 0 clients packet (new_client 0) first_client 7 (omega arith)
      (omega arith) packet-IsValid (b'a' ∷ []) b'b' [] b'-' 0x42 ab-FitsField key-FitsField
      (omega arith) refl refl packet-Stands logged_in.0 logged_in.1 logged_in.2

reachable-Distinct_example : Distinct (names logged_in.0.clients)
reachable-Distinct_example = reachable-Distinct (
    next (next start (accepting false))
      (identifying site array array 0 packet logged_in.0 logged_in.1))

-- The same packet where its user is banned.
ab-FirstFails : FirstFails strict_site clients (codes "ab") (codes "-") user_banned
unfolding is_used namelist_contains accept new_client
ab-FirstFails = (omega arith, refl, refl)

on_ident_refused_example :
    (r : Login) × (on_ident strict_site array array 0 clients packet ≡ some r)
    × (r.refused ≡ some user_banned)
    × (tell r.in_buffer ≡ 130)
    × (gone : Client) × (get_elem? r.clients 0 ≡ some gone)
    × (gone.connected ≡ false)
    × (gone.name ≡ (new_client 0).name)
    × ((j : ℕ) → 0 ≢ j → get_elem? r.clients j ≡ get_elem? clients j)
on_ident_refused_example =
    on_ident_refused strict_site array array 0 clients packet (new_client 0) first_client 7
      (omega arith) (omega arith) packet-IsValid (b'a' ∷ []) b'b' [] b'-' 0x42 ab-FitsField
      key-FitsField (omega arith) refl refl packet-Stands ab-FirstFails
