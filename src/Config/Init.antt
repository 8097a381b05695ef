-- ===== src/Config/Init.antt =====
-- How the configuration is loaded, config_init of src/config.c. `parse` gives what the parser calls
-- the callback with; the callbacks run in that order.
pub mod Defaults
use thirty.Prelude.{
  ℕ, Bool, true, false, Option, none, some, List, [], ◌∷◌, ◌==◌, replicate, if◌then◌else◌,
}
use thirty.Prelude.Options.{◌>>=◌}
use thirty.Text.{codes}
use thirty.Config.Parse.{Call, start, parse}
use thirty.Config.Settings.{ServerConfig, MapConfig, DebugConfig, Config, Strto, cfg_callback}

-- What the code finds around it: the number functions, the files, and what its stack holds.
pub record Surroundings : Type 0 where
  pub lib : Strto
  pub contents : List ℕ → Option (List ℕ)
  pub readable : List ℕ → Bool
  pub section : List ℕ
  pub key : List ℕ
  pub value : List ℕ
  pub stale : ℕ

-- The configuration before any file is read.
abbrev pub cleared : Config
cleared = record {
  server = record {
    name = none;
    motd = none;
    port = 0;
    is_public = false;
    offline = false;
    max_players = 0;
    enable_whitelist = false;
    enable_old_clients = false;
    allowed_web_proxies = codes "34.223.5.250" ∷ [];
  };
  world = record {
    name = none;
    width = 0;
    depth = 0;
    height = 0;
    generator = none;
    random_seed = true;
    seed = 0;
    image_path = none;
    image_interval = 0;
  };
  debug = record { fixed_salt = replicate 17 0; disable_save = false };
  colours = [];
}

unfoldable pub apply_calls : Strto → Config → List Call → Option Config
apply_calls lib c [] = some c
apply_calls lib c (k ∷ ks) =
    cfg_callback lib c k.section k.key k.value >>= λ c'. apply_calls lib c' ks

abbrev parse_text : Surroundings → Config → Option (List ℕ) → Option Config
parse_text s c none = some c
parse_text s c (some text) =
    apply_calls s.lib c (parse (start s.section s.key s.value) text s.stale)

-- A file that cannot be opened changes nothing.
unfoldable pub config_parse : Surroundings → Config → List ℕ → Option Config
config_parse s c path = parse_text s c (s.contents path)

abbrev pub default_paths : List (List ℕ)
default_paths =
    codes "/etc/thirty.ini" ∷ codes "/usr/local/etc/thirty.ini" ∷ codes "thirty.ini" ∷ []

unfoldable pub parse_first : Surroundings → Config → List (List ℕ) → Option Config
parse_first s c [] = some c
parse_first s c (p ∷ ps) = if s.readable p then config_parse s c p else parse_first s c ps

unfoldable pub parse_chosen : Surroundings → Config → Option (List ℕ) → Option Config
parse_chosen s c none = parse_first s c default_paths
parse_chosen s c (some path) = config_parse s c path

abbrev pub text_or : Option (List ℕ) → List ℕ → Option (List ℕ)
text_or none d = some d
text_or (some t) d = some t

abbrev pub number_or : ℕ → ℕ → ℕ
number_or n d = if n == 0 then d else n

unfoldable pub server_defaults : ServerConfig → ServerConfig
server_defaults s = record s {
  name = text_or s.name (codes "Unnamed server");
  motd = text_or s.motd (codes "The server owner needs to set a MotD in settings.ini.");
  port = number_or s.port 25565;
  max_players = number_or s.max_players 8;
}

unfoldable pub map_defaults : MapConfig → MapConfig
map_defaults m = record m {
  name = text_or m.name (codes "world");
  width = number_or m.width 64;
  depth = number_or m.depth 64;
  height = number_or m.height 64;
  generator = text_or m.generator (codes "classic");
  image_path = text_or m.image_path [];
}

unfoldable pub config_init : Surroundings → Option (List ℕ) → Option Config
config_init s path = parse_chosen s cleared path >>= λ c.
    some (record c { server = server_defaults c.server; world = map_defaults c.world })
