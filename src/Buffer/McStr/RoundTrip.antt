-- ===== src/Buffer/McStr/RoundTrip.antt =====
-- A text field is read back as the text that was written, without its trailing spaces.
use mathlib.Core.List.{map-append, append_assoc, tail}
use thirty.Prelude.{
  ℕ, zero, suc, ◌+◌, ◌-◌, ◌≤◌, ◌<◌, Bool, ◌≡◌, ◌≢◌, refl, ap, ◌∙◌, arith, none, some, List, [], ◌∷◌,
  ◌++◌, map, length, get_or, set, take, drop, overwrite, length-map, length-take, All,
  length-append, length-overwrite, take_all,
}
use thirty.Word.{util_min}
use thirty.Buffer.{Buffer, size, read}
use thirty.Buffer.Valid.{IsValid, read_within}
use thirty.Buffer.McStr.{trim_end, read_mcstr, c_string, spaces, censor, mc_field}

get_or-append : (xs ys : List ℕ) (i : ℕ) → get_or (xs ++ ys) (length xs + i) 0 ≡ get_or ys i 0
get_or-append [] ys i = ap (λ k. get_or ys k 0) (omega arith)
get_or-append (x ∷ xs) ys i = ap (λ k. get_or (x ∷ (xs ++ ys)) k 0) next ∙ get_or-append xs ys i
  where
    next : suc (length xs) + i ≡ suc (length xs + i)
    next = omega arith

get_or-replicate : (n i : ℕ) (ys : List ℕ) → i < n → get_or (spaces n ++ ys) i 0 ≡ b' '
get_or-replicate zero i ys h = elim h [ ]
get_or-replicate (suc n) zero ys h = refl
get_or-replicate (suc n) (suc i) ys h = get_or-replicate n i ys (omega arith)

module _ (xs : List ℕ) (c m : ℕ) (rest : List ℕ) where
  -- The field of the text `xs` with `c` at its end, in `m` spaces of padding.
  abbrev padded : List ℕ
  padded = xs ++ (c ∷ (spaces m ++ rest))

  get_or_last : (n : ℕ) → n ≡ length xs → get_or padded n 0 ≡ c
  get_or_last n e =
      ap (λ k. get_or padded k 0) (omega arith) ∙ get_or-append xs (c ∷ (spaces m ++ rest)) 0

  get_or_padding : (n k : ℕ) → k < m → n ≡ length xs + suc k → get_or padded n 0 ≡ b' '
  get_or_padding n k h e =
      ap (λ k. get_or padded k 0) e
      ∙ get_or-append xs (c ∷ (spaces m ++ rest)) (suc k)
      ∙ get_or-replicate m k rest h

  -- The padding is passed over, and the last character of the text stops the loop.
  trim_end-padded :
      (k n : ℕ)
      → c ≢ b' '
      → k ≤ m
      → n ≡ suc (length xs + k)
      → trim_end padded n ≡ some (suc (length xs))
  unfolding trim_end
  trim_end-padded k zero ne h e = absurd (omega arith)
  trim_end-padded zero (suc n) ne h e = ground (arith, get_or_last n)
  trim_end-padded (suc k) (suc n) ne h e =
      ground (arith, get_or_padding n k, trim_end-padded k n ne)

-- The zero that is stored behind a text ends the string there.
c_string-set :
    (text : List ℕ) (r : ℕ) (rest : List ℕ)
    → All (λ x. x ≢ 0) text
    → c_string (set (text ++ (r ∷ rest)) (length text) 0) ≡ text
unfolding c_string
c_string-set [] r rest h = refl
c_string-set (t ∷ ts) r rest h = ground (arith, c_string-set ts r rest h.1)

drop-spaces : (n k : ℕ) → drop k (spaces n) ≡ spaces (n - k)
drop-spaces n zero = ap spaces (omega arith)
drop-spaces zero (suc k) = let nothing : 0 ≡ 0 - suc k = omega arith in ap spaces nothing
drop-spaces (suc n) (suc k) =
    let shorter : n - k ≡ suc n - suc k = omega arith in drop-spaces n k ∙ ap spaces shorter

map-spaces : (f : Bool) (n : ℕ) → map (censor f) (spaces n) ≡ spaces n
unfolding censor
map-spaces f zero = refl
map-spaces f (suc n) = ground (arith, map-spaces f n)

-- A text of at most 64 characters, padded with spaces.
pub mc_field_lem :
    (text : List ℕ) (f : Bool)
    → length text ≤ 64
    → mc_field text f ≡ map (censor f) text ++ spaces (64 - length text)
unfolding mc_field
mc_field_lem text f h =
    ap (λ t. map (censor f) (t ++ drop (0 + length t) (spaces 64))) whole
    ∙ ap (λ n. map (censor f) (text ++ drop n (spaces 64))) start
    ∙ ap (λ t. map (censor f) (text ++ t)) (drop-spaces 64 (length text))
    ∙ map-append (censor f) text (spaces (64 - length text))
    ∙ ap (λ t. map (censor f) text ++ t) (map-spaces f (64 - length text))
  where
    start : 0 + length text ≡ length text
    start = omega arith

    whole : take (util_min (length text) 64) text ≡ text
    whole = ground (arith, take_all (util_min (length text) 64) text)

pub length-mc_field : (text : List ℕ) (f : Bool) → length (mc_field text f) ≡ 64
unfolding mc_field
length-mc_field text f =
    let cut = take (util_min (length text) 64) text in
    length-map (censor f) (overwrite (spaces 64) 0 cut)
    ∙ length-overwrite (spaces 64) 0 cut
        (ground (arith, length-take (util_min (length text) 64) text))

censor-ne : (f : Bool) (c : ℕ) → (c ≢ 0 → censor f c ≢ 0) × (c ≢ b' ' → censor f c ≢ b' ')
unfolding censor
censor-ne f c = ground arith

map-censor-ne :
    (f : Bool) (text : List ℕ) → All (λ x. x ≢ 0) text → All (λ x. x ≢ 0) (map (censor f) text)
map-censor-ne f [] h = tt
map-censor-ne f (c ∷ cs) h = ((censor-ne f c).0 h.0, map-censor-ne f cs h.1)

-- What the code finds in the field of a text of at most 63 characters that ends in no space.
module _ (xs : List ℕ) (c : ℕ) (f : Bool) (z : ℕ) (short : length (xs ++ (c ∷ [])) ≤ 63) where
  unfoldable pub text : List ℕ
  text = map (censor f) (xs ++ (c ∷ []))

  pad : ℕ
  pad = 63 - length (xs ++ (c ∷ []))

  array_eq : mc_field (xs ++ (c ∷ [])) f ++ (z ∷ []) ≡ text ++ (b' ' ∷ (spaces pad ++ (z ∷ [])))
  unfolding text pad
  array_eq =
      ap (λ t. t ++ (z ∷ [])) (mc_field_lem (xs ++ (c ∷ [])) f (omega arith))
      ∙ append_assoc text (spaces (64 - length (xs ++ (c ∷ [])))) (z ∷ [])
      ∙ ap (λ n. text ++ (spaces n ++ (z ∷ []))) more
    where
      more : 64 - length (xs ++ (c ∷ [])) ≡ suc (63 - length (xs ++ (c ∷ [])))
      more = omega arith

  array_padded :
      mc_field (xs ++ (c ∷ [])) f ++ (z ∷ [])
      ≡ padded (map (censor f) xs) (censor f c) (suc pad) (z ∷ [])
  unfolding text
  array_padded =
      array_eq
      ∙ ap (λ t. t ++ (b' ' ∷ (spaces pad ++ (z ∷ [])))) (map-append (censor f) xs (c ∷ []))
      ∙ append_assoc (map (censor f) xs) (censor f c ∷ []) (b' ' ∷ (spaces pad ++ (z ∷ [])))

  pub field_text :
      c ≢ b' '
      → All (λ x. x ≢ 0) (xs ++ (c ∷ []))
      → (trim_end (mc_field (xs ++ (c ∷ [])) f ++ (z ∷ [])) 63 ≡ some (length text))
        × (c_string (set (mc_field (xs ++ (c ∷ [])) f ++ (z ∷ [])) (length text) 0) ≡ text)
  unfolding text pad
  field_text ne h = (
    rw array_padded (
        trim_end-padded (map (censor f) xs) (censor f c) (suc pad) (z ∷ []) pad 63
          ((censor-ne f c).1 ne) (omega arith) (omega (arith, lengths.0, lengths.1))
        ∙ ap some (omega (arith, lengths.0, lengths.1))),
    rw array_eq
        (c_string-set text b' ' (spaces pad ++ (z ∷ [])) (map-censor-ne f (xs ++ (c ∷ [])) h)),
  )
    where
      lengths :
          (length text ≡ length (map (censor f) xs) + 1) × (length text ≡ length (xs ++ (c ∷ [])))
      lengths = (
        omega (
          arith,
          length-map (censor f) (xs ++ (c ∷ [])),
          length-append xs (c ∷ []),
          length-map (censor f) xs,
        ),
        length-map (censor f) (xs ++ (c ∷ [])),
      )

pub one_left : (xs : List ℕ) → length xs ≡ 1 → (z : ℕ) × (xs ≡ z ∷ [])
one_left [] h = absurd (omega arith)
one_left (z ∷ []) h = (z, refl)
one_left (z ∷ y ∷ xs) h = absurd (omega arith)

-- The steps of `read_mcstr`, from what each of them gives.
pub read_mcstr_steps :
    (old : List ℕ) (b : Buffer) (cs : List ℕ) (z end : ℕ) {d : Buffer}
    → read b 64 ≡ (cs, d)
    → drop (0 + length cs) old ≡ z ∷ []
    → trim_end (cs ++ (z ∷ [])) 63 ≡ some end
    → read_mcstr old b ≡ some (set (cs ++ (z ∷ [])) end 0, d)
unfolding read_mcstr
read_mcstr_steps old b cs z end r l t = rw (r, l, t)

trim_end_blank :
    (text : List ℕ) (n : ℕ) → ((i : ℕ) → i < n → get_or text i 0 ≡ b' ') → trim_end text n ≡ none
unfolding trim_end
trim_end_blank text zero h = refl
trim_end_blank text (suc n) h =
    ground (arith, h n, trim_end_blank text n (λ i l. h i (omega arith)))

get_or-take_append :
    (n : ℕ) (text rest : List ℕ) (i : ℕ)
    → take n text ≡ spaces n
    → i < n
    → get_or (text ++ rest) i 0 ≡ b' '
get_or-take_append zero text rest i e h = elim h [ ]
get_or-take_append (suc n) [] rest i e h = absurd (cc)
get_or-take_append (suc n) (x ∷ text) rest zero e h = cc
get_or-take_append (suc n) (x ∷ text) rest (suc i) e h =
    get_or-take_append n text rest i (ap tail e) (omega arith)

-- A whole field in a valid buffer whose first 63 bytes are spaces makes `buffer_read_mcstr` look
-- outside its array.
pub read_mcstr_blank :
    (b : Buffer) (old : List ℕ)
    → IsValid b
    → b.offset + 64 ≤ size b
    → take 63 (take 64 (drop b.offset b.bytes)) ≡ spaces 63
    → read_mcstr old b ≡ none
unfolding read_mcstr
read_mcstr_blank b old v held blank =
    rw (read_within b 64 v held)
      (rw (trim_end_blank _ 63 (λ i h. get_or-take_append 63 _ _ i blank h)))
