-- ===== src/Config/Settings/Proxies.antt =====
-- The list of web proxies.
use thirty.Prelude.{
  ℕ, ◌+◌, ◌≤◌, ◌<◌, ◌≡◌, ◌≢◌, sym, ap, ◌∙◌, arith, none, some, List, [], ◌∷◌, ◌++◌, length, All,
  length-append,
}
use mathlib.Core.List.{append_assoc, append-nil}
use thirty.Text.{trim}
use thirty.Config.Settings.{web_proxies}

abbrev pub join : List (List ℕ) → List ℕ
join [] = []
join (w ∷ []) = w
join (w ∷ w' ∷ ws) = w ++ (b' ' ∷ join (w' ∷ ws))

abbrev pub IsWord : List ℕ → Type 0
IsWord w = (0 < length w) × (length w ≤ 63) × All (λ c. c ≢ b' ') w × (trim w ≡ w)

web_proxies_word :
    (w rest buf : List ℕ) (found : List (List ℕ))
    → length buf + length w ≤ 63
    → All (λ c. c ≢ b' ') w
    → web_proxies (w ++ rest) buf found ≡ web_proxies rest (buf ++ w) found
unfolding web_proxies
web_proxies_word [] rest buf found l h = ground (arith, append-nil buf)
web_proxies_word (c ∷ cs) rest buf found l h =
    let l' : length (buf ++ (c ∷ [])) + length cs ≤ 63 =
      omega (arith, l, length-append buf (c ∷ [])) in
    ground
      (arith, web_proxies_word cs rest (buf ++ (c ∷ [])) found l' h.1, append_assoc buf (c ∷ []) cs)

web_proxies_end :
    (w : List ℕ) (found : List (List ℕ))
    → IsWord w
    → web_proxies [] w found ≡ some (found ++ (w ∷ []))
unfolding web_proxies
web_proxies_end w found h = ground (arith, h.0, h.3)

web_proxies-join_onto :
    (ws : List (List ℕ)) (found : List (List ℕ))
    → All IsWord ws
    → web_proxies (join ws) [] found ≡ some (found ++ ws)
unfolding web_proxies
web_proxies-join_onto [] found h = ground (arith, append-nil found)
web_proxies-join_onto (w ∷ []) found h =
    let alone = web_proxies_word w [] [] found (omega (arith, h.0.1)) h.0.2 in
    ap (λ t. web_proxies t [] found) (sym (append-nil w)) ∙ (alone ∙ web_proxies_end w found h.0)
web_proxies-join_onto (w ∷ w' ∷ ws) found h =
    let first = web_proxies_word w (b' ' ∷ join (w' ∷ ws)) [] found (omega (arith, h.0.1)) h.0.2 in
    let others = web_proxies-join_onto (w' ∷ ws) (found ++ (w ∷ [])) h.1 in
    first ∙ (ground (arith, h.0.0, h.0.3, others, append_assoc found (w ∷ []) (w' ∷ ws)))

-- Proxies of one to 63 characters, none a blank and none a space at an end, separated by one blank,
-- are stored in order.
pub web_proxies-join : (ws : List (List ℕ)) → All IsWord ws → web_proxies (join ws) [] [] ≡ some ws
web_proxies-join ws h = web_proxies-join_onto ws [] h

-- A list of proxies that starts with 64 characters other than blanks makes the code write behind
-- its buffer.
pub web_proxies_long :
    (w : List ℕ) (c : ℕ) (rest : List ℕ)
    → length w ≡ 63
    → All (λ d. d ≢ b' ') w
    → c ≢ b' '
    → web_proxies (w ++ (c ∷ rest)) [] [] ≡ none
unfolding web_proxies
web_proxies_long w c rest l h k =
    ground (arith, web_proxies_word w (c ∷ rest) [] [] (omega (arith, l)) h)
