-- ===== src/Login.antt =====
-- The packet with which a client logs in: `packet_ident` of client_handle_in_buffer, src/client.c. The
-- lists of names and the clients are those of the server.
pub mod Steps
pub mod Names
pub mod Admission
pub mod Packet
pub mod Decided
use thirty.Prelude.{
  ℕ, ◌+◌, ◌-◌, ◌/◌, ◌%◌, Bool, true, false, not, ◌&&◌, ◌||◌, Option, none, some, List, [], ◌∷◌,
  ◌++◌, length, get_elem?, set, take, leb, ltb, ◌==◌, if◌then◌else◌,
}
use thirty.Prelude.Options.{◌>>=◌}
use thirty.Text.{str_case_eq}
use thirty.Word.{sub_size}
use thirty.Buffer.{Buffer, tell, seek}
use thirty.Buffer.Typed.{read_uint8, read_into}
use thirty.Buffer.McStr.{read_mcstr, c_string}
use thirty.Config.Settings.{ServerConfig}
use thirty.Namelist.{namelist_contains}
use thirty.Server.{Client, disconnect}

-- What the login reads of the server. `md5` is the function of the bundled library.
pub record Site : Type 0 where
  pub config : ServerConfig
  pub ops : List (List ℕ)
  pub banned_users : List (List ℕ)
  pub whitelist : List (List ℕ)
  pub salt : List ℕ
  pub md5 : List ℕ → List ℕ

pub data Refusal : Type 0 where
  server_full name_in_use user_banned failed_authentication not_on_whitelist : Refusal

abbrev pub hex_digit : ℕ → ℕ
hex_digit n = if ltb n 10 then b'0' + n else b'a' + (n - 10)

-- The bytes printed with "%02x".
abbrev pub hex_text : List ℕ → List ℕ
hex_text [] = []
hex_text (c ∷ cs) = hex_digit (c / 16) ∷ hex_digit (c % 16) ∷ hex_text cs

-- `client_verify_key`; `snprintf` cuts the text off behind 127 characters.
unfoldable pub verify_key : Site → List ℕ → List ℕ → Bool
verify_key site name key = str_case_eq (hex_text (site.md5 (take 127 (site.salt ++ name)))) key

unfoldable pub is_used : List Client → List ℕ → Bool
is_used [] name = false
is_used (c ∷ cs) name = if str_case_eq c.name name then true else is_used cs name

-- The checks in their order, and the first that fails.
unfoldable pub refusal : Site → List Client → List ℕ → List ℕ → Option Refusal
refusal site clients name key =
    let cfg : ServerConfig = site.config in
    if ltb cfg.max_players (length clients)
    then some server_full
    else if is_used clients name
    then some name_in_use
    else if namelist_contains site.banned_users name
    then some user_banned
    else if not cfg.offline && not (verify_key site name key)
    then some failed_authentication
    else if cfg.enable_whitelist && not (namelist_contains site.whitelist name)
    then some not_on_whitelist
    else none

-- The refusal if there was one, which ends the handling of the input; the position in the input, and
-- the clients.
pub record Login : Type 0 where
  pub refused : Option Refusal
  pub supports_cpe : Bool
  pub in_buffer : Buffer
  pub clients : List Client

unfoldable pub admit : Site → ℕ → Client → List ℕ → List ℕ → Bool → Buffer → List Client → Login
admit site i c name key supports_cpe b clients =
    let r = refusal site clients name key in
    let named = record c { name = name; is_op = namelist_contains site.ops name } in
    record {
      refused = r;
      supports_cpe = supports_cpe;
      in_buffer = b;
      clients = set clients i (elim r [ none ↦ named | some _ ↦ disconnect c ]);
    }

abbrev pub read_key : ℕ → List ℕ → Buffer → Option (List ℕ × Buffer)
read_key version old b = if leb 1 version then read_mcstr old b else some (old, b)

abbrev pub read_unused : ℕ → Buffer → ℕ × Buffer
read_unused version b = if leb 6 version then read_into read_uint8 0 b else (0, b)

-- The first byte as the version, or the guess that a very old client sent a name only.
abbrev pub read_version : ℕ → Buffer → (ℕ × ℕ) × Buffer
read_version old b =
    let (v, b1) = read_into read_uint8 old b in
    if leb b'A' v && leb v b'z' then ((v, 1), seek b1 (sub_size (tell b1) 1)) else ((v, v), b1)

-- A client that is too old is disconnected, and handled further all the same.
unfoldable pub versioned : ServerConfig → ℕ → ℕ → Client → Client
versioned cfg v version c =
    let too_old = not cfg.enable_old_clients && not (v == 7) in
    record (if too_old then disconnect c else c) { protocol_version = version }

-- The client at index `i` of the server; `old_name` and `old_key` are what the arrays hold at first.
unfoldable pub on_ident : Site → List ℕ → List ℕ → ℕ → List Client → Buffer → Option Login
on_ident site old_name old_key i clients b = get_elem? clients i >>= λ c.
    let ((v, version), b1) = read_version c.protocol_version b in
    let c1 = versioned site.config v version c in
    read_mcstr old_name b1 >>= λ (username, b2). read_key version old_key b2 >>= λ (key, b3).
    let (unused, b4) = read_unused version b3 in
    some (admit site i c1 (c_string username) (c_string key) (unused == 0x42) b4 (set clients i c1))
