-- ===== src/Config/Settings/Colours.antt =====
-- The colours of the configuration.
use thirty.Prelude.{
  ap, ◌∙◌, ℕ, ◌+◌, ◌*◌, ◌/◌, ◌^◌, ◌<◌, ◌≡◌, refl, arith, Option, none, some, List, [], ◌∷◌, ◌++◌,
  length, ◌==◌, if◌then◌else◌,
}
use thirty.Word.{uint8, uint32}
use thirty.Config.Settings.{TextColour, Strto, parse_uint, unpack, colour_setting, find_colour}

abbrev pub or_else {ℓ} : {A : Type ℓ} → Option A → Option A → Option A
or_else none b = b
or_else (some a) b = some a

channels :
    (r g b a : ℕ)
    → r < 256
    → g < 256
    → b < 256
    → a < 256
    → let n = uint32 (r * 2 ^ 24 + g * 2 ^ 16 + b * 2 ^ 8 + a) in
      (uint8 (n / 2 ^ 24) ≡ r) × (uint8 (n / 2 ^ 16) ≡ g) × (uint8 (n / 2 ^ 8) ≡ b) × (uint8 n ≡ a)
channels r g b a hr hg hb ha = (
  omega (arith, hr, hg, hb, ha),
  omega (arith, hr, hg, hb, ha),
  omega (arith, hr, hg, hb, ha),
  omega (arith, hr, hg, hb, ha),
)

find_colour-append :
    (cs : List TextColour) (c : TextColour) (code : ℕ)
    → find_colour (cs ++ (c ∷ [])) code
      ≡ or_else (find_colour cs code) (if c.code == code then some c else none)
unfolding find_colour
find_colour-append [] c code = refl
find_colour-append (d ∷ ds) c code = ground (arith, find_colour-append ds c code)

-- A colour setting with a code of one character and a value of eight that is a number adds a colour under the
-- code, unless the code has a colour already: red, green, blue and alpha are the four bytes of the number from
-- its highest to its lowest. Other codes keep theirs.
pub find_colour-colour_setting :
    (lib : Strto) (cs : List TextColour) (k : ℕ) (value : List ℕ) (r g b a code : ℕ)
    → length value ≡ 8
    → r < 256
    → g < 256
    → b < 256
    → a < 256
    → parse_uint lib value 16 ≡ some (r * 2 ^ 24 + g * 2 ^ 16 + b * 2 ^ 8 + a)
    → find_colour (colour_setting lib cs (k ∷ []) value) code
      ≡ or_else
          (find_colour cs code)
          (if k == code then some (record { code = k; r = r; g = g; b = b; a = a }) else none)
unfolding colour_setting
find_colour-colour_setting lib cs k value r g b a code l hr hg hb ha p =
    let n = r * 2 ^ 24 + g * 2 ^ 16 + b * 2 ^ 8 + a in
    let c = unpack k (uint32 n) in
    let (e1, e2, e3, e4) = channels r g b a hr hg hb ha in
    let same : c ≡ record { code = k; r = r; g = g; b = b; a = a } = rw (e1, e2, e3, e4) refl in
    let stored : find_colour (colour_setting lib cs (k ∷ []) value) code
        ≡ or_else (find_colour cs code) (if k == code then some c else none) =
      ground (arith, l, p, find_colour-append cs c code) in
    stored ∙ ap (λ d. or_else (find_colour cs code) (if k == code then some d else none)) same
