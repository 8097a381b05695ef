-- ===== src/Text.antt =====
-- C strings as lists of characters without their final zero, and what the program uses of the
-- standard library on them: isspace, strcmp, strcasecmp; with `trim` of src/config.c.
use Prim.Native.Char.{code}
use Prim.Native.String.{String}
use thirty.Prelude.{
  ℕ, ◌+◌, ◌≡◌, ◌↔◌, arith, Bool, true, false, ◌&&◌, ◌||◌, List, [], ◌∷◌, map, reverse, leb, ◌==◌,
  if◌then◌else◌,
}

abbrev pub codes : String → List ℕ
codes String.[] = []
codes (String.◌∷◌ c s) = code c ∷ codes s

-- `isspace` of the C locale.
abbrev pub is_space : ℕ → Bool
is_space c = c == b' ' || (leb 9 c && leb c 13)

-- `strcmp(a, b) == 0`
abbrev pub str_eq : List ℕ → List ℕ → Bool
str_eq [] [] = true
str_eq [] (b ∷ bs) = false
str_eq (a ∷ as') [] = false
str_eq (a ∷ as') (b ∷ bs) = a == b && str_eq as' bs

-- `tolower` of the C locale.
abbrev pub to_lower : ℕ → ℕ
to_lower c = if leb b'A' c && leb c b'Z' then c + 32 else c

-- `strcasecmp(a, b) == 0`
abbrev pub str_case_eq : List ℕ → List ℕ → Bool
str_case_eq a b = str_eq (map to_lower a) (map to_lower b)

abbrev pub skip_spaces : List ℕ → List ℕ
skip_spaces [] = []
skip_spaces (c ∷ cs) = if is_space c then skip_spaces cs else c ∷ cs

-- `trim`: the spaces in front are moved over, those at the end are cut.
unfoldable pub trim : List ℕ → List ℕ
trim p = reverse (skip_spaces (reverse (skip_spaces p)))

pub str_eq_iff : (a b : List ℕ) → (str_eq a b ≡ true) ↔ (a ≡ b)
str_eq_iff [] [] = ground arith
str_eq_iff [] (b ∷ bs) = ground arith
str_eq_iff (a ∷ as') [] = ground arith
str_eq_iff (a ∷ as') (b ∷ bs) = ground (arith, str_eq_iff as' bs)
