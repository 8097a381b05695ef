-- ===== src/Namelist.antt =====
-- The lists of names of src/namelist.c: operators, banned and permitted players. A list is its names
-- in order, without the name of its file.
pub mod Known
pub mod Read
pub mod Overflow
use thirty.Prelude.{
  ℕ, ◌+◌, Bool, true, false, Option, none, some, List, [], ◌∷◌, ◌++◌, length, ltb, ◌==◌,
  if◌then◌else◌,
}
use thirty.Prelude.Options.{◌>>=◌}
use thirty.Text.{str_case_eq}
use thirty.Buffer.McStr.{spaces}

unfoldable pub namelist_contains : List (List ℕ) → List ℕ → Bool
namelist_contains [] name = false
namelist_contains (n ∷ ns) name = if str_case_eq n name then true else namelist_contains ns name

-- The variables of the loop. `namebuf` holds the `namep` characters stored so far.
pub record Reader : Type 0 where
  pub namebuf : List ℕ
  pub spaceskip : ℕ
  pub comment : Bool
  pub names : List (List ℕ)

abbrev pub start : Reader
start = record { namebuf = []; spaceskip = 0; comment = false; names = [] }

abbrev pub add_name : List (List ℕ) → List ℕ → List (List ℕ)
add_name names name = if namelist_contains names name then names else names ++ (name ∷ [])

abbrev pub add_names : List (List ℕ) → List (List ℕ) → List (List ℕ)
add_names names [] = names
add_names names (w ∷ ws) = add_names (add_name names w) ws

unfoldable pub end_line : Reader → Reader
end_line r =
    let next : Reader = record r { namebuf = []; comment = false; spaceskip = 0 } in
    if length r.namebuf == 0 then next else record next { names = add_name r.names r.namebuf }

-- Behind a character stored as the 128th the code writes a zero outside of `namebuf`: `none`.
unfoldable pub store : Reader → ℕ → Option Reader
store r c =
    let n = length r.namebuf in
    let gap = if n == 0 then [] else spaces r.spaceskip in
    if r.comment
    then some r
    else if ltb 127 (n + r.spaceskip)
    then some r
    else if length (r.namebuf ++ gap) == 127
    then none
    else some (record r { namebuf = (r.namebuf ++ gap) ++ (c ∷ []); spaceskip = 0 })

unfoldable pub read_char : Reader → ℕ → Option Reader
read_char r c =
    if c == b'\n'
    then some (end_line r)
    else if c == b'#'
    then some (if length r.namebuf == 0 then record r { comment = true } else r)
    else if c == b' '
    then some (record r { spaceskip = r.spaceskip + 1 })
    else store r c

unfoldable pub read_all : Reader → List ℕ → Option Reader
read_all r [] = some r
read_all r (c ∷ cs) = read_char r c >>= λ r'. read_all r' cs

-- The loop runs once more after the last character, when `fread` stores nothing into `c`: `stale`
-- is what `c` holds then. A file that cannot be opened gives no names.
unfoldable pub namelist_parse : Option (List ℕ) → ℕ → Option (List (List ℕ))
namelist_parse none stale = some []
namelist_parse (some text) stale = read_all start (text ++ (stale ∷ [])) >>= λ r. some r.names
