-- ===== src/Config/Init/Defaults.antt =====
-- The configuration that the server starts with.
use thirty.Prelude.{
  ℕ, ◌<◌, ◌^◌, true, ◌≡◌, ◌≢◌, refl, ap, ◌∙◌, Bool-cases, inl, inr, Option-cases, arith, Option,
  none, some, List, [], ◌∷◌, ◌++◌, length, take, drop, replicate, length-append, length-take,
  length-drop, All,
}
use thirty.Prelude.Options.{◌>>=◌}
use thirty.Text.{codes, str_eq}
use thirty.Config.Parse.{Call, start, parse}
use thirty.Config.Settings.{
  Config, ServerConfig, MapConfig, DebugConfig, Strto, web_proxies, server_setting, map_setting,
  debug_setting, cfg_callback,
}
use thirty.Config.Init.{
  Surroundings, cleared, default_paths, apply_calls, config_parse, parse_first, parse_chosen,
  server_defaults, map_defaults, config_init,
}

pub record IsBoundedServer (s : ServerConfig) : Type 0 where
  pub port : s.port < 2 ^ 16
  pub players : s.max_players < 2 ^ 32

pub record IsBoundedMap (m : MapConfig) : Type 0 where
  pub width : m.width < 2 ^ 32
  pub depth : m.depth < 2 ^ 32
  pub height : m.height < 2 ^ 32

pub record IsBounded (c : Config) : Type 0 where
  pub server : IsBoundedServer c.server
  pub world : IsBoundedMap c.world
  pub salt : length c.debug.fixed_salt ≡ 17

-- A call that sets the proxies has room for each of them.
abbrev pub Fits : Call → Type 0
Fits k =
    str_eq k.section (codes "server") ≡ true
    → str_eq k.key (codes "web_proxies") ≡ true
    → (found : List (List ℕ)) × (web_proxies k.value [] [] ≡ some found)

salt-IsBounded :
    (d : DebugConfig) (key value : List ℕ)
    → length d.fixed_salt ≡ 17
    → length (debug_setting d key value).fixed_salt ≡ 17
unfolding debug_setting
salt-IsBounded d key value h =
    let text = value ++ replicate 16 0 in
    let e : length (take 16 text ++ drop 16 d.fixed_salt) ≡ 17 = omega (
      arith,
      h,
      length-append (take 16 text) (drop 16 d.fixed_salt),
      length-take 16 text,
      length-drop 16 d.fixed_salt,
      length-append value (replicate 16 0),
    ) in
    ground (arith, e)

map_setting-IsBounded :
    (lib : Strto) (m : MapConfig) (key value : List ℕ)
    → IsBoundedMap m
    → IsBoundedMap (map_setting lib m key value)
unfolding map_setting
map_setting-IsBounded lib m key value b = record {
  width = ground (arith, b.width);
  depth = ground (arith, b.depth);
  height = ground (arith, b.height);
}

server_setting_refused :
    (lib : Strto) (s : ServerConfig) (key value : List ℕ)
    → server_setting lib s key value ≡ none
    → (str_eq key (codes "web_proxies") ≡ true
        → (found : List (List ℕ)) × (web_proxies value [] [] ≡ some found))
    → ⊥
unfolding server_setting
server_setting_refused lib s key value e h = elim (Bool-cases (str_eq key (codes "web_proxies"))) [
  | inl is_proxies ↦ let (found, fits) = h is_proxies in ground (arith, is_proxies, fits, e)
  | inr other ↦ ground (arith, other, e)
]

server_setting-IsBounded :
    (lib : Strto) (s : ServerConfig) (key value : List ℕ) {t : ServerConfig}
    → IsBoundedServer s
    → server_setting lib s key value ≡ some t
    → IsBoundedServer t
unfolding server_setting
server_setting-IsBounded lib s key value b e = record {
  port = ground (arith, b.port, e);
  players = ground (arith, b.players, e);
}

callback-IsBounded :
    (lib : Strto) (c : Config) (k : Call) {c' : Config}
    → IsBounded c
    → cfg_callback lib c k.section k.key k.value ≡ some c'
    → IsBounded c'
unfolding cfg_callback
callback-IsBounded lib c k b e = record {
  server = elim (Option-cases (server_setting lib c.server k.key k.value)) [
    | inl refused ↦ ground (arith, refused, b.server, e)
    | inr (t, taken) ↦ ground (
      arith,
      taken,
      b.server,
      server_setting-IsBounded lib c.server k.key k.value b.server taken,
      e,
    )
  ];
  world = ground (arith, b.world, map_setting-IsBounded lib c.world k.key k.value b.world, e);
  salt = ground (arith, b.salt, salt-IsBounded c.debug k.key k.value b.salt, e);
}

callback_defined :
    (lib : Strto) (c : Config) (k : Call)
    → Fits k
    → cfg_callback lib c k.section k.key k.value ≢ none
unfolding cfg_callback
callback_defined lib c k f = elim (Bool-cases (str_eq k.section (codes "server"))) [
  | inl is_server ↦ elim (Option-cases (server_setting lib c.server k.key k.value)) [
    | inl refused ↦ absurd (server_setting_refused lib c.server k.key k.value refused (f is_server))
    | inr (t, taken) ↦ ground (arith, is_server, taken)
  ]
  | inr other ↦ ground (arith, other)
]

apply_calls_lem :
    (lib : Strto) (ks : List Call) (c : Config)
    → All Fits ks
    → IsBounded c
    → (c' : Config) × (apply_calls lib c ks ≡ some c') × IsBounded c'
unfolding apply_calls
apply_calls_lem lib [] c h b = (c, refl, b)
apply_calls_lem lib (k ∷ ks) c h b =
    elim (Option-cases (cfg_callback lib c k.section k.key k.value)) [
      | inl refused ↦ absurd (callback_defined lib c k h.0 refused)
      | inr (d, taken) ↦
          let (c', runs, b') = apply_calls_lem lib ks d h.1 (callback-IsBounded lib c k b taken) in
          (c', ap (λ o. o >>= λ c2. apply_calls lib c2 ks) taken ∙ runs, b')
    ]

-- What the server relies on.
pub record IsUsable (c : Config) : Type 0 where
  pub bounded : IsBounded c
  pub port : c.server.port ≢ 0
  pub players : c.server.max_players ≢ 0
  pub sides : (c.world.width ≢ 0) × (c.world.depth ≢ 0) × (c.world.height ≢ 0)
  pub server_texts : (c.server.name ≢ none) × (c.server.motd ≢ none)
  pub map_texts : (c.world.name ≢ none) × (c.world.generator ≢ none) × (c.world.image_path ≢ none)

abbrev pub FilesFit : Surroundings → Type 0
FilesFit s =
    (path text : List ℕ)
    → s.contents path ≡ some text
    → All Fits (parse (start s.section s.key s.value) text s.stale)

config_parse_lem :
    (s : Surroundings) (c : Config) (path : List ℕ)
    → FilesFit s
    → IsBounded c
    → (c' : Config) × (config_parse s c path ≡ some c') × IsBounded c'
unfolding config_parse
config_parse_lem s c path h b = elim (Option-cases (s.contents path)) [
  | inl missing ↦ (c, rw missing, b)
  | inr (text, found) ↦
      let (c', runs, b') =
        apply_calls_lem s.lib (parse (start s.section s.key s.value) text s.stale) c
          (h path text found) b in
      (c', rw (found, runs), b')
]

parse_first_lem :
    (s : Surroundings) (c : Config) (paths : List (List ℕ))
    → FilesFit s
    → IsBounded c
    → (c' : Config) × (parse_first s c paths ≡ some c') × IsBounded c'
unfolding parse_first
parse_first_lem s c [] h b = (c, refl, b)
parse_first_lem s c (p ∷ ps) h b = elim (Bool-cases (s.readable p)) [
  | inl is_there ↦ let (c', e, b') = config_parse_lem s c p h b in (c', rw (is_there, e), b')
  | inr missing ↦ let (c', e, b') = parse_first_lem s c ps h b in (c', rw (missing, e), b')
]

parse_chosen_lem :
    (s : Surroundings) (c : Config) (path : Option (List ℕ))
    → FilesFit s
    → IsBounded c
    → (c' : Config) × (parse_chosen s c path ≡ some c') × IsBounded c'
unfolding parse_chosen
parse_chosen_lem s c none h b = parse_first_lem s c default_paths h b
parse_chosen_lem s c (some p) h b = config_parse_lem s c p h b

-- If every list of proxies that a file sets fits the buffer, config_init ends: the name, the
-- message, the map's name, generator and image path are set, the port, the number of players and
-- the sides of the map are not 0, and the port, the players and the sides fit their types.
pub config_init_lem :
    (s : Surroundings) (path : Option (List ℕ))
    → FilesFit s
    → (c : Config) × (config_init s path ≡ some c) × IsUsable c
unfolding config_init server_defaults map_defaults
config_init_lem s path h =
    let b : IsBounded cleared = record {
      server = record { port = omega arith; players = omega arith };
      world = record { width = omega arith; depth = omega arith; height = omega arith };
      salt = refl;
    } in
    let (c, e, b') = parse_chosen_lem s cleared path h b in
    (
      record c { server = server_defaults c.server; world = map_defaults c.world },
      rw e,
      record {
        bounded = record {
          server = record {
            port = ground (arith, b'.server.port);
            players = ground (arith, b'.server.players);
          };
          world = record {
            width = ground (arith, b'.world.width);
            depth = ground (arith, b'.world.depth);
            height = ground (arith, b'.world.height);
          };
          salt = b'.salt;
        };
        port = ground arith;
        players = ground arith;
        sides = (ground arith, ground arith, ground arith);
        server_texts = (ground arith, ground arith);
        map_texts = (ground arith, ground arith, ground arith);
      },
    )
