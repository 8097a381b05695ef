-- ===== src/Namelist/Overflow.antt =====
-- A line that is longer than the reader's buffer.
use thirty.Prelude.{
  ℕ, ◌+◌, ◌≤◌, ◌<◌, ◌≡◌, ◌≢◌, sym, ap, ◌∙◌, arith, none, some, List, [], ◌∷◌, ◌++◌, length, All,
  length-append,
}
use thirty.Prelude.Options.{◌>>=◌}
use mathlib.Core.List.{append_assoc, append-nil}
use thirty.Namelist.{start, store, read_char, read_all, namelist_parse}
use thirty.Namelist.Read.{IsPlain}

abbrev pub IsLetter : ℕ → Type 0
IsLetter c = IsPlain c × (c ≢ b' ')

first_letter : (c : ℕ) → IsLetter c → read_char start c ≡ some (record start { namebuf = c ∷ [] })
unfolding read_char store
first_letter c h = ground (arith, h)

next_letter :
    (buf : List ℕ) (c : ℕ)
    → IsLetter c
    → 0 < length buf
    → length buf < 127
    → read_char (record start { namebuf = buf }) c
      ≡ some (record start { namebuf = buf ++ (c ∷ []) })
unfolding read_char store
next_letter buf c h some_seen room = ground (arith, h, append-nil buf)

one_too_many :
    (buf : List ℕ) (c : ℕ)
    → length buf ≡ 127
    → IsLetter c
    → read_char (record start { namebuf = buf }) c ≡ none
unfolding read_char store
one_too_many buf c l h = ground (arith, h, append-nil buf, l)

read_letters :
    (cs rest buf : List ℕ)
    → All IsLetter cs
    → 0 < length buf
    → length buf + length cs ≤ 127
    → read_all (record start { namebuf = buf }) (cs ++ rest)
      ≡ read_all (record start { namebuf = buf ++ cs }) rest
unfolding read_all
read_letters [] rest buf h some_seen room =
    ap (λ t. read_all (record start { namebuf = t }) rest) (sym (append-nil buf))
read_letters (c ∷ cs) rest buf h some_seen room =
    let n = length-append buf (c ∷ []) in
    ap (λ o. o >>= λ q. read_all q (cs ++ rest))
      (next_letter buf c h.0 some_seen (omega (arith, room)))
    ∙ (read_letters cs rest (buf ++ (c ∷ [])) h.1 (omega (arith, n)) (omega (arith, n, room))
        ∙ ap (λ t. read_all (record start { namebuf = t }) rest) (append_assoc buf (c ∷ []) cs))

-- A first line of 127 characters other than a space, # and the end of the line that goes on with
-- another such character makes the code write behind its buffer.
pub namelist_parse_long :
    (c : ℕ) (cs : List ℕ) (d : ℕ) (rest : List ℕ) (stale : ℕ)
    → All IsLetter (c ∷ cs)
    → length (c ∷ cs) ≡ 127
    → IsLetter d
    → namelist_parse (some ((c ∷ cs) ++ (d ∷ rest))) stale ≡ none
unfolding namelist_parse read_all
namelist_parse_long c cs d rest stale h l k =
    let one : read_char start c ≡ some (record start { namebuf = c ∷ [] }) = first_letter c h.0 in
    let full : read_char (record start { namebuf = c ∷ cs }) d ≡ none =
      one_too_many (c ∷ cs) d l k in
    let end = rest ++ (stale ∷ []) in
    ap (λ t. read_all start (c ∷ t) >>= λ q. some q.names) (append_assoc cs (d ∷ rest) (stale ∷ []))
    ∙ (ap (λ o. (o >>= λ q. read_all q (cs ++ (d ∷ end))) >>= λ q. some q.names) one
        ∙ (ap (λ o. o >>= λ q. some q.names)
              (read_letters cs (d ∷ end) (c ∷ []) h.1 (omega arith) (omega (arith, l)))
            ∙ ap (λ o. (o >>= λ q. read_all q end) >>= λ q. some q.names) full))
