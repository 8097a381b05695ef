-- ===== src/Tests/Names.antt =====
-- The lists of names of src/namelist.c on concrete input.
use thirty.Prelude.{
  ℕ, zero, suc, ◌≡◌, ◌≢◌, refl, ap, ◌∙◌, arith, some, List, [], ◌∷◌, ◌++◌, All, replicate,
}
use thirty.Text.{codes}
use thirty.Namelist.{namelist_contains, namelist_parse, read_all, read_char, store, end_line}
use thirty.Namelist.Read.{IsListed, print_names, namelist_parse-print_names}
use thirty.Namelist.Overflow.{IsLetter}

abbrev two_names : List (List ℕ)
two_names = codes "Al" ∷ codes "b c" ∷ []

mixed_file :
    namelist_parse (some (codes " Al  \n# no one\nAL\nb  c\nlast")) b't'
    ≡ some (codes "Al" ∷ codes "b  c" ∷ [])
unfolding namelist_parse namelist_contains read_all read_char store end_line
mixed_file = refl

abbrev last : List ℕ → ℕ
last [] = 0
last (c ∷ []) = c
last (c ∷ d ∷ cs) = last (d ∷ cs)

last_end : (front : List ℕ) (c : ℕ) → last (front ++ (c ∷ [])) ≡ c
last_end [] c = refl
last_end (a ∷ []) c = refl
last_end (a ∷ b ∷ front) c = last_end (b ∷ front) c

other_end : (w : List ℕ) → last w ≢ b' ' → (front : List ℕ) → w ≢ front ++ (b' ' ∷ [])
other_end w h front e = h (ap last e ∙ last_end front b' ')

two_names-IsListed : All IsListed two_names
two_names-IsListed = (
  (
    omega arith,
    ((omega arith, omega arith), ((omega arith, omega arith), tt)),
    omega arith,
    other_end (codes "Al") (omega arith),
  ),
  (
    (
      omega arith,
      ((omega arith, omega arith), ((omega arith, omega arith), ((omega arith, omega arith), tt))),
      omega arith,
      other_end (codes "b c") (omega arith),
    ),
    tt,
  ),
)

namelist_parse-print_names_example :
    (names : List (List ℕ)) × (namelist_parse (some (print_names two_names)) 0 ≡ some names)
    × ((name : List ℕ) → namelist_contains names name ≡ namelist_contains two_names name)
namelist_parse-print_names_example = namelist_parse-print_names two_names 0 two_names-IsListed

letters : (n : ℕ) → All IsLetter (replicate n b'x')
letters zero = tt
letters (suc n) = (((omega arith, omega arith), omega arith), letters n)
