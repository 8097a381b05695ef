-- ===== src/Config/Settings.antt =====
-- The settings of src/config.h and the callback that stores them, cfg_callback of src/config.c. A
-- string is `none` while its pointer is NULL; signed numbers are their two's-complement words. A
-- callback that writes outside an array gives `none`.
pub mod Colours
pub mod Proxies
use thirty.Prelude.{
  ℕ, ◌+◌, ◌-◌, ◌*◌, ◌/◌, ◌%◌, ◌^◌, Bool, true, false, not, ◌&&◌, ◌||◌, Option, none, some, List, [],
  ◌∷◌, ◌++◌, length, take, drop, replicate, leb, ◌==◌, if◌then◌else◌,
}
use thirty.Prelude.Options.{◌>>=◌}
use thirty.Text.{codes, str_eq, trim}
use thirty.Word.{uint8, uint16, uint32}

-- `textcolour_t`
pub record TextColour : Type 0 where
  pub code : ℕ
  pub r : ℕ
  pub g : ℕ
  pub b : ℕ
  pub a : ℕ

pub record ServerConfig : Type 0 where
  pub name : Option (List ℕ)
  pub motd : Option (List ℕ)
  pub port : ℕ
  pub is_public : Bool
  pub offline : Bool
  pub max_players : ℕ
  pub enable_whitelist : Bool
  pub enable_old_clients : Bool
  pub allowed_web_proxies : List (List ℕ)

pub record MapConfig : Type 0 where
  pub name : Option (List ℕ)
  pub width : ℕ
  pub depth : ℕ
  pub height : ℕ
  pub generator : Option (List ℕ)
  pub random_seed : Bool
  pub seed : ℕ
  pub image_path : Option (List ℕ)
  pub image_interval : ℕ

pub record DebugConfig : Type 0 where
  pub fixed_salt : List ℕ
  pub disable_save : Bool

-- `config_t`
pub record Config : Type 0 where
  pub server : ServerConfig
  pub world : MapConfig
  pub debug : DebugConfig
  pub colours : List TextColour

-- What `strtol` and `strtoul` answer: the value, whether they consumed anything, and whether `errno`
-- is ERANGE behind the call.
pub record Number : Type 0 where
  pub value : ℕ
  pub consumed : Bool
  pub out_of_range : Bool

pub record Strto : Type 0 where
  pub strtol : List ℕ → ℕ → Number
  pub strtoul : List ℕ → ℕ → Number

unfoldable pub parse_int : Strto → List ℕ → ℕ → Option ℕ
parse_int lib text radix =
    let n = lib.strtol text radix in
    let at_limit = n.value == 2 ^ 63 || n.value == 2 ^ 63 - 1 in
    if not n.consumed || (n.out_of_range && at_limit) then none else some n.value

unfoldable pub parse_uint : Strto → List ℕ → ℕ → Option ℕ
parse_uint lib text radix =
    let n = lib.strtoul text radix in
    if not n.consumed || (n.out_of_range && n.value == 2 ^ 64 - 1) then none else some n.value

abbrev is_true : List ℕ → Bool
is_true value = str_eq value (codes "true")

-- The loop over `web_proxies`: what is in the 64 bytes of `buf`, and the proxies found. A character
-- that is stored as the 64th is followed by a zero outside of `buf`.
unfoldable pub web_proxies : List ℕ → List ℕ → List (List ℕ) → Option (List (List ℕ))
web_proxies [] buf found = if length buf == 0 then some found else some (found ++ (trim buf ∷ []))
web_proxies (c ∷ cs) buf found =
    let rest = web_proxies cs (buf ++ (c ∷ [])) found in
    let next = web_proxies cs [] (found ++ (trim buf ∷ [])) in
    let skip = web_proxies cs buf found in
    if c == b' '
    then (if length buf == 0 then skip else next)
    else if leb 63 (length buf)
    then none
    else rest

abbrev set_number {ℓ} : {A : Type ℓ} → A → Option ℕ → (ℕ → A) → A
set_number old none store = old
set_number old (some n) store = store n

unfoldable pub server_setting : Strto → ServerConfig → List ℕ → List ℕ → Option ServerConfig
server_setting lib s key value =
    let number = parse_int lib value 10 in
    if str_eq key (codes "name")
    then some (record s { name = some value })
    else if str_eq key (codes "motd")
    then some (record s { motd = some value })
    else if str_eq key (codes "port")
    then some (set_number s number (λ n. record s { port = uint16 n }))
    else if str_eq key (codes "public")
    then some (record s { is_public = is_true value })
    else if str_eq key (codes "offline")
    then some (record s { offline = is_true value })
    else if str_eq key (codes "max_players")
    then some (set_number s number (λ n. record s { max_players = uint32 n }))
    else if str_eq key (codes "whitelist")
    then some (record s { enable_whitelist = is_true value })
    else if str_eq key (codes "web_proxies")
    then (web_proxies value [] [] >>= λ found. some (record s { allowed_web_proxies = found }))
    else if str_eq key (codes "enable_old_clients")
    then some (record s { enable_old_clients = is_true value })
    else some s

unfoldable pub map_setting : Strto → MapConfig → List ℕ → List ℕ → MapConfig
map_setting lib m key value =
    let number = parse_int lib value 10 in
    if str_eq key (codes "name")
    then record m { name = some value }
    else if str_eq key (codes "width")
    then set_number m number (λ n. record m { width = uint32 n })
    else if str_eq key (codes "depth")
    then set_number m number (λ n. record m { depth = uint32 n })
    else if str_eq key (codes "height")
    then set_number m number (λ n. record m { height = uint32 n })
    else if str_eq key (codes "generator")
    then record m { generator = some value }
    else if str_eq key (codes "seed")
    then set_number m number (λ n. record m { seed = uint32 n; random_seed = false })
    else if str_eq key (codes "image_path")
    then record m { image_path = some value }
    else if str_eq key (codes "image_interval")
    then set_number m number (λ n. record m { image_interval = uint32 n })
    else m

abbrev pub unpack : ℕ → ℕ → TextColour
unpack code colour = record {
  code = code;
  r = uint8 (colour / 2 ^ 24);
  g = uint8 (colour / 2 ^ 16);
  b = uint8 (colour / 2 ^ 8);
  a = uint8 colour;
}

unfoldable pub colour_setting : Strto → List TextColour → List ℕ → List ℕ → List TextColour
colour_setting lib cs [] value = cs
colour_setting lib cs (k ∷ []) value =
    if length value == 8
    then set_number cs (parse_uint lib value 16) (λ n. cs ++ (unpack k (uint32 n) ∷ []))
    else cs
colour_setting lib cs (k ∷ k' ∷ ks) value = cs

-- `strncpy` into the 17 bytes of the salt, the last of which stays as it is.
unfoldable pub debug_setting : DebugConfig → List ℕ → List ℕ → DebugConfig
debug_setting d key value =
    if str_eq key (codes "fixed_salt")
    then record d { fixed_salt = take 16 (value ++ replicate 16 0) ++ drop 16 d.fixed_salt }
    else if str_eq key (codes "disable_save")
    then record d { disable_save = is_true value }
    else d

unfoldable pub cfg_callback : Strto → Config → List ℕ → List ℕ → List ℕ → Option Config
cfg_callback lib c section key value =
    if str_eq section (codes "server")
    then (server_setting lib c.server key value >>= λ s. some (record c { server = s }))
    else if str_eq section (codes "map")
    then some (record c { world = map_setting lib c.world key value })
    else if str_eq section (codes "colours")
    then some (record c { colours = colour_setting lib c.colours key value })
    else if str_eq section (codes "debug")
    then some (record c { debug = debug_setting c.debug key value })
    else some c

unfoldable pub find_colour : List TextColour → ℕ → Option TextColour
find_colour [] code = none
find_colour (c ∷ cs) code = if c.code == code then some c else find_colour cs code
