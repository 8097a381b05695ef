-- ===== src/Buffer/McStr/Field.antt =====
-- A text field that stands at the position of a buffer is read as its text.
use thirty.Prelude.{
  ℕ, ◌+◌, ◌≤◌, ◌≡◌, ◌≢◌, refl, sym, ap, ◌∙◌, arith, false, some, List, [], ◌∷◌, ◌++◌, All, length,
  length-drop, map, drop, set,
}
use thirty.Buffer.{Buffer, read}
use thirty.Buffer.Valid.{IsValid}
use thirty.Buffer.Stands.{Stands, moved, read-Stands}
use thirty.Buffer.McStr.{censor, mc_field, c_string, read_mcstr}
use thirty.Buffer.McStr.RoundTrip.{field_text, text, one_left, read_mcstr_steps, length-mc_field}

map-censor : (xs : List ℕ) → map (censor false) xs ≡ xs
unfolding censor
map-censor [] = refl
map-censor (x ∷ xs) = ap (◌∷◌ x) (map-censor xs)

-- A field with a text of one to 63 characters, none of them zero and the last no space.
pub read_mcstr-Stands :
    (b : Buffer) (xs : List ℕ) (c : ℕ) (old : List ℕ)
    → IsValid b
    → Stands b (mc_field (xs ++ (c ∷ [])) false)
    → length old ≡ 65
    → length (xs ++ (c ∷ [])) ≤ 63
    → c ≢ b' '
    → All (λ x. x ≢ 0) (xs ++ (c ∷ []))
    → (array : List ℕ) × (read_mcstr old b ≡ some (array, moved b 64))
      × (c_string array ≡ xs ++ (c ∷ []))
unfolding text
read_mcstr-Stands b xs c old v s eo short ne h =
    let src = mc_field (xs ++ (c ∷ [])) false in
    let wide : length src ≡ 64 = length-mc_field (xs ++ (c ∷ [])) false in
    let (z, last) =
      one_left (drop (0 + length src) old) (omega (arith, length-drop {0} (0 + length src) old)) in
    let (found, holds) = field_text xs c false z short ne h in
    let got : read b 64 ≡ (src, moved b 64) =
      ap (read b) (sym wide) ∙ read-Stands b src v s ∙ ap (λ n. (src, moved b n)) wide in
    (
      set (src ++ (z ∷ [])) (length (map (censor false) (xs ++ (c ∷ [])))) 0,
      read_mcstr_steps old b src z _ got last found,
      holds ∙ map-censor (xs ++ (c ∷ [])),
    )
