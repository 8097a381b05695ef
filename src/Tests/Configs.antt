-- ===== src/Tests/Configs.antt =====
-- The configuration of src/config.c on concrete input.
use thirty.Prelude.{
  ℕ, zero, suc, ◌≢◌, ◌≡◌, refl, sym, subst, arith, none, some, List, [], ◌∷◌, All, true, false,
  replicate,
}
use mathlib.Core.Option.{some-injective}
use thirty.Text.{codes, trim}
use thirty.Buffer.McStr.{c_string}
use thirty.Config.Parse.{Parser, start, parse}
use thirty.Config.Parse.Files.{
  Line, header, setting, remark, blank, print_all, settings_of, IsName, IsLine, parse-print_all,
}
use thirty.Config.Settings.{Config, Strto, parse_uint, colour_setting, find_colour, web_proxies}
use thirty.Config.Settings.Colours.{or_else, find_colour-colour_setting}
use thirty.Config.Settings.Proxies.{IsWord, web_proxies-join}
use thirty.Config.Init.{Surroundings, config_init}
use thirty.Config.Init.Defaults.{Fits, FilesFit, IsUsable, config_init_lem}

abbrev settings : List Line
settings = setting (codes "width ") (codes "128") ∷ remark b'#' (codes " done") ∷ blank ∷ []

codes-IsName : IsName (codes "map")
unfolding c_string trim
codes-IsName =
    (omega arith, omega arith, (omega arith, (omega arith, (omega arith, tt))), refl, refl)

settings-IsLine : All IsLine settings
unfolding c_string
settings-IsLine = ground arith

parse-print_all_example :
    parse (start (1 ∷ []) [] (2 ∷ [])) (print_all (header (codes "map") ∷ settings)) 0
    ≡ settings_of (codes "map") settings
parse-print_all_example =
    parse-print_all (codes "map") settings (1 ∷ []) [] (2 ∷ []) 0 codes-IsName settings-IsLine

-- The library functions of the tests read one decimal digit.
abbrev one_digit : Strto
one_digit = record {
  strtol = λ text radix. record { value = 7; consumed = true; out_of_range = false };
  strtoul = λ text radix. record { value = 0x11223344; consumed = true; out_of_range = false };
}

-- Settings of the server, with two proxies.
abbrev server_settings : List Line
server_settings =
    setting (codes "web_proxies") (codes "10.0.0.1 10.0.0.2")
    ∷ setting (codes "port") (codes "7")
    ∷ []

abbrev server_file : List ℕ
server_file = print_all (header (codes "server") ∷ server_settings)

abbrev one_file : Surroundings
one_file = record {
  lib = one_digit;
  contents = λ path. some server_file;
  readable = λ path. true;
  section = [];
  key = [];
  value = [];
  stale = 0;
}

server-IsName : IsName (codes "server")
unfolding c_string trim
server-IsName = ground arith

server_settings-IsLine : All IsLine server_settings
unfolding c_string trim
server_settings-IsLine = ground arith

server_settings-Fits : All Fits (settings_of (codes "server") server_settings)
unfolding trim web_proxies
server_settings-Fits = ((λ s k. (_, refl)), ((λ s k. (_, refl)), tt))

one_file-FilesFit : FilesFit one_file
one_file-FilesFit path text found =
    subst (λ t. All Fits (parse (start [] [] []) t 0)) (some-injective _ _ found)
      (subst (All Fits)
        (sym (
          parse-print_all (codes "server") server_settings [] [] [] 0 server-IsName
            server_settings-IsLine))
        server_settings-Fits)

config_init_lem_example : (c : Config) × (config_init one_file none ≡ some c) × IsUsable c
config_init_lem_example = config_init_lem one_file none one_file-FilesFit

number_read : parse_uint one_digit (codes "11223344") 16 ≡ some 0x11223344
unfolding parse_uint
number_read = refl

find_colour-colour_setting_example :
    find_colour (colour_setting one_digit [] (b'x' ∷ []) (codes "11223344")) b'x'
    ≡ or_else
        (find_colour [] b'x')
        (some (record { code = b'x'; r = 0x11; g = 0x22; b = 0x33; a = 0x44 }))
find_colour-colour_setting_example =
    find_colour-colour_setting one_digit [] b'x' (codes "11223344") 0x11 0x22 0x33 0x44 b'x' refl
      (omega arith) (omega arith) (omega arith) (omega arith) number_read

two_words-IsWord : All IsWord (codes "10.0.0.1" ∷ codes "10.0.0.2" ∷ [])
unfolding trim
two_words-IsWord = ground arith

web_proxies-join_example :
    web_proxies (codes "10.0.0.1 10.0.0.2") [] [] ≡ some (codes "10.0.0.1" ∷ codes "10.0.0.2" ∷ [])
web_proxies-join_example =
    web_proxies-join (codes "10.0.0.1" ∷ codes "10.0.0.2" ∷ []) two_words-IsWord

ones : (n : ℕ) → All (λ (c : ℕ). c ≢ b' ') (replicate n b'1')
ones zero = tt
ones (suc n) = (omega arith, ones n)

motd-c_string : c_string (codes "motd") ≡ codes "motd"
unfolding c_string
motd-c_string = refl

-- A parser that has just handed over the value "old" of "key" in "server".
abbrev old_value : Parser
old_value = record (start (codes "server") (codes "key") (codes "old")) { sectionp = 6; valuep = 3 }
