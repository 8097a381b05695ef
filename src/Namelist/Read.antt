-- ===== src/Namelist/Read.antt =====
-- What the reader makes of a file of names.
use thirty.Prelude.{
  ℕ, zero, suc, ◌+◌, ◌≤◌, ◌<◌, ◌≡◌, ◌≢◌, refl, sym, ap, ◌∙◌, arith, false, some, List, [], ◌∷◌,
  ◌++◌, length, All, length-append, length-replicate, Bool-cases, inl, inr, subst, ◌==◌,
}
use thirty.Prelude.Options.{◌>>=◌}
use mathlib.Core.List.{append_assoc, append-nil}
use thirty.Buffer.McStr.{spaces}
use thirty.Namelist.{
  Reader, start, namelist_contains, add_name, add_names, end_line, store, read_char, read_all,
  namelist_parse,
}
use thirty.Namelist.Known.{contains-add_names}

-- No end of line, no #.
abbrev pub IsPlain : ℕ → Type 0
IsPlain c = (c ≢ b'\n') × (c ≢ b'#')

-- The reader inside a line, of which it has seen `seen` behind leading spaces.
record Inside (r : Reader) (names : List (List ℕ)) (seen : List ℕ) : Type 0 where
  is_name : r.comment ≡ false
  some_seen : 0 < length r.namebuf
  stored : r.namebuf ++ spaces r.spaceskip ≡ seen
  kept : r.names ≡ names

spaces_end : (n : ℕ) → spaces n ++ (b' ' ∷ []) ≡ spaces (suc n)
spaces_end zero = refl
spaces_end (suc n) = ap (λ t. b' ' ∷ t) (spaces_end n)

one_more_space :
    (buf seen : List ℕ) (n c : ℕ)
    → buf ++ spaces n ≡ seen
    → c ≡ b' '
    → buf ++ spaces (n + 1) ≡ seen ++ (c ∷ [])
one_more_space buf seen n c e k =
    let more : n + 1 ≡ suc n = omega arith in
    ap (λ m. buf ++ spaces m) more
    ∙ (ap (λ t. buf ++ t) (sym (spaces_end n))
        ∙ (sym (append_assoc buf (spaces n) (b' ' ∷ [])) ∙ cc (e, k)))

read_char-Inside :
    {r : Reader} {names : List (List ℕ)} {seen : List ℕ} (c : ℕ)
    → IsPlain c
    → length seen < 127
    → Inside r names seen
    → (r' : Reader) × (read_char r c ≡ some r') × Inside r' names (seen ++ (c ∷ []))
unfolding read_char store
read_char-Inside {r = r} {seen = seen} c plain room i =
    let n : length (r.namebuf ++ spaces r.spaceskip) < 127 =
      omega (arith, room, ap length i.stored) in
    let m : length (r.namebuf ++ spaces r.spaceskip) ≡ length r.namebuf + r.spaceskip =
      length-append r.namebuf (spaces r.spaceskip)
      ∙ ap (λ k. length r.namebuf + k) (length-replicate r.spaceskip b' ') in
    elim (Bool-cases (c == b' ')) [
      | inl blank ↦ (
        record r { spaceskip = r.spaceskip + 1 },
        ground (arith, blank, plain),
        record {
          is_name = i.is_name;
          some_seen = i.some_seen;
          stored = one_more_space r.namebuf seen r.spaceskip c i.stored (ground (arith, blank));
          kept = i.kept;
        },
      )
      | inr other ↦ (
        record r { namebuf = (r.namebuf ++ spaces r.spaceskip) ++ (c ∷ []); spaceskip = 0 },
        ground (arith, other, plain, n, m, i.is_name, i.some_seen),
        record {
          is_name = i.is_name;
          some_seen = omega (arith, length-append (r.namebuf ++ spaces r.spaceskip) (c ∷ []));
          stored =
              append-nil ((r.namebuf ++ spaces r.spaceskip) ++ (c ∷ []))
              ∙ ap (λ t. t ++ (c ∷ [])) i.stored;
          kept = i.kept;
        },
      )
    ]

cast_seen :
    {r : Reader} {names : List (List ℕ)} {s t : List ℕ}
    → s ≡ t
    → Inside r names s
    → Inside r names t
cast_seen {r = r} {names = names} e i = subst (λ u. Inside r names u) e i

read_all-Inside :
    (cs rest : List ℕ) {r : Reader} {names : List (List ℕ)} {seen : List ℕ}
    → All IsPlain cs
    → length seen + length cs ≤ 127
    → Inside r names seen
    → (r' : Reader) × (read_all r (cs ++ rest) ≡ read_all r' rest) × Inside r' names (seen ++ cs)
unfolding read_all
read_all-Inside [] rest {r = r} {names = names} {seen = seen} h room i =
    (r, refl, cast_seen (sym (append-nil seen)) i)
read_all-Inside (c ∷ cs) rest {r = r} {names = names} {seen = seen} h room i =
    let (r1, e, i1) = read_char-Inside c h.0 (omega (arith, room)) i in
    let (r2, f, i2) =
      read_all-Inside cs rest h.1 (omega (arith, room, length-append seen (c ∷ []))) i1 in
    (
      r2,
      ap (λ o. o >>= λ q. read_all q (cs ++ rest)) e ∙ f,
      cast_seen (append_assoc seen (c ∷ []) cs) i2,
    )

-- The reader between two lines.
record Between (r : Reader) (names : List (List ℕ)) : Type 0 where
  is_name : r.comment ≡ false
  empty : r.namebuf ≡ []
  no_gap : r.spaceskip ≡ 0
  kept : r.names ≡ names

-- A name as the file holds it: no space in front or behind, no # and within the buffer.
abbrev pub IsListed : List ℕ → Type 0
IsListed [] = ⊥
IsListed (c ∷ cs) =
    (c ≢ b' ')
    × All IsPlain (c ∷ cs)
    × (length (c ∷ cs) ≤ 127)
    × ((front : List ℕ) → c ∷ cs ≢ front ++ (b' ' ∷ []))

first_char :
    {r : Reader} {names : List (List ℕ)} (c : ℕ)
    → c ≢ b' '
    → IsPlain c
    → Between r names
    → (r' : Reader) × (read_char r c ≡ some r') × Inside r' names (c ∷ [])
unfolding read_char store
first_char {r = r} c n plain b = (
  record r { namebuf = c ∷ []; spaceskip = 0 },
  ground (arith, n, plain, b.is_name, b.empty, b.no_gap),
  record { is_name = b.is_name; some_seen = omega arith; stored = refl; kept = b.kept },
)

no_space_behind :
    (buf w : List ℕ) (n : ℕ)
    → buf ++ spaces n ≡ w
    → ((front : List ℕ) → w ≢ front ++ (b' ' ∷ []))
    → buf ≡ w
no_space_behind buf w zero e h = sym (append-nil buf) ∙ e
no_space_behind buf w (suc n) e h = absurd (
    h (buf ++ spaces n) (
      sym e
      ∙ (ap (λ t. buf ++ t) (sym (spaces_end n)) ∙ sym (append_assoc buf (spaces n) (b' ' ∷ [])))))

end_line-Between :
    {r : Reader} {names : List (List ℕ)} {w : List ℕ}
    → Inside r names w
    → ((front : List ℕ) → w ≢ front ++ (b' ' ∷ []))
    → Between (end_line r) (add_name names w)
unfolding end_line
end_line-Between {r = r} {names = names} {w = w} i h =
    let whole : r.namebuf ≡ w = no_space_behind r.namebuf w r.spaceskip i.stored h in
    let some_name : (length r.namebuf == 0) ≡ false = ground (arith, i.some_seen) in
    let kept' : (end_line r).names ≡ add_name r.names r.namebuf = ground (arith, some_name) in
    record {
      is_name = ground (arith, some_name);
      empty = ground (arith, some_name);
      no_gap = ground (arith, some_name);
      kept = kept' ∙ (ap (λ t. add_name t r.namebuf) i.kept ∙ ap (λ t. add_name names t) whole);
    }

read_name :
    (w rest : List ℕ) {r : Reader} {names : List (List ℕ)}
    → IsListed w
    → Between r names
    → (r' : Reader) × (read_all r (w ++ (b'\n' ∷ rest)) ≡ read_all r' rest)
      × Between r' (add_name names w)
unfolding read_all read_char
read_name [] rest h b = absurd h
read_name (c ∷ cs) rest h b =
    let (r1, e, i1) = first_char c h.0 h.1.0 b in
    let (r2, f, i2) = read_all-Inside cs (b'\n' ∷ rest) h.1.1 (omega (arith, h.2)) i1 in
    (
      end_line r2,
      ap (λ o. o >>= λ q. read_all q (cs ++ (b'\n' ∷ rest))) e ∙ f,
      end_line-Between i2 h.3,
    )

abbrev pub print_names : List (List ℕ) → List ℕ
print_names [] = []
print_names (w ∷ ws) = w ++ (b'\n' ∷ print_names ws)

-- The last round of the loop adds no name.
read_stale :
    (stale : ℕ) {r : Reader} {names : List (List ℕ)}
    → Between r names
    → (read_all r (stale ∷ []) >>= λ q. some q.names) ≡ some names
unfolding read_all read_char store end_line
read_stale stale {r = r} b = ground (arith, b.is_name, b.empty, b.no_gap, b.kept)

read_names :
    (ws : List (List ℕ)) (stale : ℕ) {r : Reader} {names : List (List ℕ)}
    → All IsListed ws
    → Between r names
    → (read_all r (print_names ws ++ (stale ∷ [])) >>= λ q. some q.names)
      ≡ some (add_names names ws)
read_names [] stale h b = read_stale stale b
read_names (w ∷ ws) stale {r = r} h b =
    let (r1, e, b1) = read_name w (print_names ws ++ (stale ∷ [])) h.0 b in
    ap (λ t. read_all r t >>= λ q. some q.names)
      (append_assoc w (b'\n' ∷ print_names ws) (stale ∷ []))
    ∙ (ap (λ o. o >>= λ q. some q.names) e ∙ read_names ws stale h.1 b1)

-- A file of names, each on a line of its own, of one to 127 characters without # and line ends and
-- with no space at its ends, is read without an error; a name is in the list read, but for case,
-- exactly if the file has it, whatever the last round of the loop reads.
pub namelist_parse-print_names :
    (ws : List (List ℕ)) (stale : ℕ)
    → All IsListed ws
    → (names : List (List ℕ)) × (namelist_parse (some (print_names ws)) stale ≡ some names)
      × ((name : List ℕ) → namelist_contains names name ≡ namelist_contains ws name)
unfolding namelist_parse namelist_contains
namelist_parse-print_names ws stale h =
    let b : Between start [] = record {
      is_name = refl;
      empty = refl;
      no_gap = refl;
      kept = refl;
    } in
    (add_names [] ws, read_names ws stale h b, contains-add_names ws [])
