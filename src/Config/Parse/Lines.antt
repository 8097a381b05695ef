-- ===== src/Config/Parse/Lines.antt =====
-- What the machine makes of a line.
use thirty.Prelude.{
  ℕ, ◌+◌, ◌≤◌, ◌<◌, false, ◌≡◌, ◌≢◌, refl, ap, ◌∙◌, arith, List, [], ◌∷◌, ◌++◌, All, length,
  length-append, take_all, ◌⊎◌,
}
use mathlib.Core.List.{append_assoc, append-nil}
use thirty.Text.{is_space, trim}
use thirty.Buffer.McStr.{c_string}
use thirty.Config.Parse.{
  parse_section, parse_key, parse_value, parse_comment, Parser, in_section, in_key, in_value,
  in_comment, step_in, emit, run, put,
}

-- A comment is skipped up to the end of its line, whatever it holds.
run-in_comment :
    (body rest : List ℕ) (p : Parser)
    → p.state ≡ parse_comment
    → All (λ c. c ≢ b'\n') body
    → run p (body ++ (b'\n' ∷ rest)) ≡ run (record p { state = parse_key }) rest
unfolding run step_in in_comment
run-in_comment [] rest p m h = ground arith
run-in_comment (c ∷ cs) rest p m h = ground (arith, run-in_comment cs rest p m h.1)

-- Where a key may start, a comment changes nothing.
pub run_comment :
    (p : Parser) (mark : ℕ) (body rest : List ℕ)
    → p.state ≡ parse_key
    → p.keyp ≡ 0
    → (mark ≡ b';') ⊎ (mark ≡ b'#')
    → All (λ c. c ≢ b'\n') body
    → run p (mark ∷ (body ++ (b'\n' ∷ rest))) ≡ run p rest
unfolding run step_in in_key
run_comment p mark body rest m k e h =
    ground (arith, run-in_comment body rest (record p { state = parse_comment }) refl h)

-- Storing a character behind a full buffer appends it.
put_end : (buf : List ℕ) (n c : ℕ) → length buf ≡ n → put buf n c ≡ buf ++ (c ∷ [])
put_end buf n c e = ap (λ t. t ++ (c ∷ [])) (take_all n buf (omega (arith, e)))

-- What is stored one character at a time is stored as a whole.
module _ {ℓ} {A : Type ℓ} where
  put_on :
      (f : List ℕ → ℕ → A) (buf : List ℕ) (n c : ℕ) (cs : List ℕ)
      → f ((buf ++ (c ∷ [])) ++ cs) ((n + 1) + length cs)
        ≡ f (buf ++ (c ∷ cs)) (n + length (c ∷ cs))
  put_on f buf n c cs =
      ap (λ b. f b ((n + 1) + length cs)) (append_assoc buf (c ∷ []) cs)
      ∙ ap (f (buf ++ (c ∷ cs))) (omega arith)

put-length : (buf : List ℕ) (n c : ℕ) → length buf ≡ n → length (buf ++ (c ∷ [])) ≡ n + 1
put-length buf n c e = length-append buf (c ∷ []) ∙ ap (λ k. k + 1) e

-- The characters of a name, a key and a value are stored one after another.
run-in_section :
    (text rest : List ℕ) (p : Parser)
    → p.state ≡ parse_section
    → length p.sectionbuf ≡ p.sectionp
    → p.sectionp + length text ≤ 127
    → All (λ c. c ≢ b']') text
    → run p (text ++ rest)
      ≡ run
          (record p { sectionbuf = p.sectionbuf ++ text; sectionp = p.sectionp + length text })
          rest
unfolding run step_in in_section
run-in_section [] rest p m e room h = ground (arith, append-nil p.sectionbuf)
run-in_section (c ∷ cs) rest p m e room h =
    let q : Parser = record p {
      sectionbuf = p.sectionbuf ++ (c ∷ []);
      sectionp = p.sectionp + 1;
    } in
    let next : step_in p.state p c ≡ q = ground (arith, put_end p.sectionbuf p.sectionp c e) in
    ap (λ r. run r (cs ++ rest)) next
    ∙ (run-in_section cs rest q m (put-length p.sectionbuf p.sectionp c e) (omega arith) h.1
        ∙ put_on (λ b n. run (record p { sectionbuf = b; sectionp = n }) rest) p.sectionbuf
            p.sectionp c cs)

run-in_key :
    (text rest : List ℕ) (p : Parser)
    → p.state ≡ parse_key
    → 0 < p.keyp
    → length p.keybuf ≡ p.keyp
    → p.keyp + length text ≤ 127
    → All (λ c. c ≢ b'=') text
    → run p (text ++ rest)
      ≡ run (record p { keybuf = p.keybuf ++ text; keyp = p.keyp + length text }) rest
unfolding run step_in in_key
run-in_key [] rest p m l e room h = ground (arith, append-nil p.keybuf)
run-in_key (c ∷ cs) rest p m l e room h =
    let q : Parser = record p { keybuf = p.keybuf ++ (c ∷ []); keyp = p.keyp + 1 } in
    let next : step_in p.state p c ≡ q = ground (arith, put_end p.keybuf p.keyp c e) in
    ap (λ r. run r (cs ++ rest)) next
    ∙ (run-in_key cs rest q m (omega arith) (put-length p.keybuf p.keyp c e) (omega arith) h.1
        ∙ put_on (λ b n. run (record p { keybuf = b; keyp = n }) rest) p.keybuf p.keyp c cs)

run-in_value :
    (text rest : List ℕ) (p : Parser)
    → p.state ≡ parse_value
    → 0 < p.valuep
    → length p.valuebuf ≡ p.valuep
    → p.valuep + length text ≤ 1023
    → All (λ c. c ≢ b'\n') text
    → run p (text ++ rest)
      ≡ run (record p { valuebuf = p.valuebuf ++ text; valuep = p.valuep + length text }) rest
unfolding run step_in in_value
run-in_value [] rest p m l e room h = ground (arith, append-nil p.valuebuf)
run-in_value (c ∷ cs) rest p m l e room h =
    let q : Parser = record p { valuebuf = p.valuebuf ++ (c ∷ []); valuep = p.valuep + 1 } in
    let next : step_in p.state p c ≡ q = ground (arith, put_end p.valuebuf p.valuep c e) in
    ap (λ r. run r (cs ++ rest)) next
    ∙ (run-in_value cs rest q m (omega arith) (put-length p.valuebuf p.valuep c e) (omega arith) h.1
        ∙ put_on (λ b n. run (record p { valuebuf = b; valuep = n }) rest) p.valuebuf p.valuep c cs)

-- A header sets the section.
pub run_header :
    (c : ℕ) (cs rest : List ℕ) (p : Parser)
    → p.state ≡ parse_key
    → p.keyp ≡ 0
    → length (c ∷ cs) ≤ 127
    → All (λ d. d ≢ b']') (c ∷ cs)
    → run p (b'[' ∷ ((c ∷ cs) ++ (b']' ∷ rest)))
      ≡ run (record p { sectionbuf = c ∷ cs; sectionp = 1 + length cs }) rest
unfolding run step_in in_section in_key
run_header c cs rest p m k room h =
    let q : Parser = record p { state = parse_section; sectionp = 1; sectionbuf = c ∷ [] } in
    let first : run p (b'[' ∷ ((c ∷ cs) ++ (b']' ∷ rest))) ≡ run q (cs ++ (b']' ∷ rest)) =
      ground arith in
    let done = run-in_section cs (b']' ∷ rest) q refl refl (omega arith) h.1 in
    first ∙ (done ∙ (ground arith))

-- The parser behind a key and a value.
abbrev pub at_end : Parser → List ℕ → List ℕ → Parser
at_end p key value = record p {
  state = parse_value;
  keybuf = key;
  keyp = length key;
  valuebuf = value;
  valuep = length value;
}

-- The parser behind a key and its equals sign.
abbrev pub at_value : Parser → List ℕ → Parser
at_value p key = record p { state = parse_value; keybuf = key; keyp = length key; valuep = 0 }

run_key :
    (k : ℕ) (ks rest : List ℕ) (p : Parser)
    → p.state ≡ parse_key
    → p.keyp ≡ 0
    → is_space k ≡ false
    → k ≢ b'['
    → k ≢ b';'
    → k ≢ b'#'
    → length (k ∷ ks) ≤ 127
    → All (λ d. d ≢ b'=') ks
    → run p ((k ∷ ks) ++ (b'=' ∷ rest)) ≡ run (at_value p (k ∷ ks)) rest
unfolding run step_in in_key
run_key k ks rest p m z sk k1 k2 k3 room h =
    let q : Parser = record p { keyp = 1; keybuf = k ∷ [] } in
    let first : run p ((k ∷ ks) ++ (b'=' ∷ rest)) ≡ run q (ks ++ (b'=' ∷ rest)) = ground arith in
    let key_done = run-in_key ks (b'=' ∷ rest) q m (omega arith) refl (omega arith) h in
    first ∙ (key_done ∙ (ground arith))

-- A setting is handed to the callback at the end of its line.
pub run_setting :
    (k : ℕ) (ks : List ℕ) (v : ℕ) (vs rest : List ℕ) (p : Parser)
    → p.state ≡ parse_key
    → p.keyp ≡ 0
    → is_space k ≡ false
    → k ≢ b'['
    → k ≢ b';'
    → k ≢ b'#'
    → length (k ∷ ks) ≤ 127
    → All (λ d. d ≢ b'=') ks
    → is_space v ≡ false
    → length (v ∷ vs) ≤ 1023
    → All (λ d. d ≢ b'\n') (v ∷ vs)
    → run p ((k ∷ ks) ++ (b'=' ∷ ((v ∷ vs) ++ (b'\n' ∷ rest))))
      ≡ run (emit (at_end p (k ∷ ks) (v ∷ vs))) rest
unfolding run step_in in_value
run_setting k ks v vs rest p m z sk k1 k2 k3 room h sv room' h' =
    let tail = (v ∷ vs) ++ (b'\n' ∷ rest) in
    let r : Parser = at_end p (k ∷ ks) (v ∷ []) in
    let second : run (at_value p (k ∷ ks)) tail ≡ run r (vs ++ (b'\n' ∷ rest)) = ground arith in
    let value_done = run-in_value vs (b'\n' ∷ rest) r refl (omega arith) refl (omega arith) h'.1 in
    run_key k ks tail p m z sk k1 k2 k3 room h ∙ (second ∙ (value_done ∙ (ground arith)))

-- Where a key may start, a key within its limits and characters that is followed by an equals sign
-- and the end of the line hands the callback what the value buffer held before.
pub run_empty_setting :
    (k : ℕ) (ks rest : List ℕ) (p : Parser)
    → p.state ≡ parse_key
    → p.keyp ≡ 0
    → is_space k ≡ false
    → k ≢ b'['
    → k ≢ b';'
    → k ≢ b'#'
    → length (k ∷ ks) ≤ 127
    → All (λ d. d ≢ b'=') ks
    → c_string (k ∷ ks) ≡ k ∷ ks
    → (q : Parser) × (run p ((k ∷ ks) ++ (b'=' ∷ (b'\n' ∷ rest))) ≡ run q rest)
      × (q.calls
          ≡ p.calls
            ++ (record {
              section = trim (c_string p.sectionbuf);
              key = trim (k ∷ ks);
              value = trim (c_string p.valuebuf);
            }
                ∷ []))
unfolding run step_in in_value emit
run_empty_setting k ks rest p m z sk k1 k2 k3 room h ck =
    (emit (at_value p (k ∷ ks)), run_key k ks (b'\n' ∷ rest) p m z sk k1 k2 k3 room h, cc ck)
