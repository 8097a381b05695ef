-- ===== src/Server.antt =====
-- The clients of the server, src/server.c: accepting one, and dropping those that are gone.
pub mod Removal
use thirty.Prelude.{
  ℕ, zero, suc, ◌+◌, Bool, true, false, not, Option, none, some, List, [], ◌∷◌, ◌++◌, length,
  get_elem?, set, take, drop, ltb, if◌then◌else◌,
}

-- A client, without its buffers.
pub record Client : Type 0 where
  pub connected : Bool
  pub idx : ℕ
  pub is_op : Bool
  pub protocol_version : ℕ
  pub name : List ℕ
  pub spawned : Bool

-- `client_init`
unfoldable pub new_client : ℕ → Client
new_client idx = record {
  connected = true;
  idx = idx;
  is_op = false;
  protocol_version = 0;
  name = [];
  spawned = false;
}

-- `client_disconnect`, on the client itself.
unfoldable pub disconnect : Client → Client
disconnect c = record c { connected = false; spawned = false }

-- `server_accept` for a connection from an address that is banned or not.
unfoldable pub accept : Bool → List Client → List Client
accept banned_ip clients =
    let c = new_client (length clients) in clients ++ ((if banned_ip then disconnect c else c) ∷ [])

-- `memmove` over the entry at `i`, and the count one less.
abbrev pub remove_at {ℓ} : {A : Type ℓ} → ℕ → List A → List A
remove_at i xs = take i xs ++ drop (suc i) xs

-- The loop of `server_tick` from index `i` on. Each round moves on by one, so as many rounds as there
-- are clients are enough.
unfoldable pub remove_from : ℕ → ℕ → List Client → List Client
remove_from zero i clients = clients
remove_from (suc fuel) i clients = elim (get_elem? clients i) [
  | none ↦ clients
  | some c ↦
      let gone = remove_from fuel (i + 1) (remove_at i clients) in
      let kept = remove_from fuel (i + 1) clients in if c.connected then kept else gone
]

-- The clients after the loop.
unfoldable pub remove_disconnected : List Client → List Client
remove_disconnected clients = remove_from (length clients) 0 clients
