-- ===== src/Config/Parse/Files.antt =====
-- What the parser makes of a whole settings file.
use thirty.Prelude.{
  ℕ, ◌+◌, ◌≤◌, ◌<◌, false, ◌≡◌, ◌≢◌, refl, sym, ap, ◌∙◌, arith, List, [], ◌∷◌, ◌++◌, All, length,
  ◌⊎◌,
}
use mathlib.Core.List.{append_assoc, append-nil}
use thirty.Text.{is_space, trim}
use thirty.Buffer.McStr.{c_string}
use thirty.Config.Parse.{parse_key, Call, Parser, start, emit, in_key, step_in, run, parse}
use thirty.Config.Parse.Lines.{run_comment, run_header, run_setting, at_end}

pub data Line : Type 0 where
  header : List ℕ → Line
  setting : List ℕ → List ℕ → Line
  remark : ℕ → List ℕ → Line
  blank : Line

abbrev pub print : Line → List ℕ
print (header name) = b'[' ∷ (name ++ (b']' ∷ (b'\n' ∷ [])))
print (setting key value) = key ++ (b'=' ∷ (value ++ (b'\n' ∷ [])))
print (remark mark body) = mark ∷ (body ++ (b'\n' ∷ []))
print blank = b'\n' ∷ []

abbrev pub print_all : List Line → List ℕ
print_all [] = []
print_all (l ∷ ls) = print l ++ print_all ls

abbrev pub section_after : List ℕ → Line → List ℕ
section_after name (header name') = name'
section_after name (setting key value) = name
section_after name (remark mark body) = name
section_after name blank = name

-- The callback that a line should cause.
abbrev pub call_of : List ℕ → Line → List Call
call_of name (header name') = []
call_of name (setting key value) =
    record { section = name; key = trim key; value = trim value } ∷ []
call_of name (remark mark body) = []
call_of name blank = []

abbrev pub settings_of : List ℕ → List Line → List Call
settings_of name [] = []
settings_of name (l ∷ ls) = call_of name l ++ settings_of (section_after name l) ls

abbrev pub IsName : List ℕ → Type 0
IsName name =
    (0 < length name)
    × (length name ≤ 127)
    × All (λ c. c ≢ b']') name
    × (c_string name ≡ name)
    × (trim name ≡ name)

abbrev pub IsKey : List ℕ → Type 0
IsKey [] = ⊥
IsKey (k ∷ ks) =
    (is_space k ≡ false)
    × (k ≢ b'[')
    × (k ≢ b';')
    × (k ≢ b'#')
    × (length (k ∷ ks) ≤ 127)
    × All (λ c. c ≢ b'=') ks
    × (c_string (k ∷ ks) ≡ k ∷ ks)

abbrev pub IsValue : List ℕ → Type 0
IsValue [] = ⊥
IsValue (v ∷ vs) =
    (is_space v ≡ false)
    × (length (v ∷ vs) ≤ 1023)
    × All (λ c. c ≢ b'\n') (v ∷ vs)
    × (c_string (v ∷ vs) ≡ v ∷ vs)

abbrev pub IsLine : Line → Type 0
IsLine (header name) = IsName name
IsLine (setting key value) = IsKey key × IsValue value
IsLine (remark mark body) = ((mark ≡ b';') ⊎ (mark ≡ b'#')) × All (λ c. c ≢ b'\n') body
IsLine blank = Unit

-- The parser between two lines, in a section.
pub record IsBetween (p : Parser) (name : List ℕ) (calls : List Call) : Type 0 where
  pub at_key : p.state ≡ parse_key
  pub at_first : p.keyp ≡ 0
  pub in_name : p.sectionbuf ≡ name
  pub is_name : IsName name
  pub emitted : p.calls ≡ calls

line_break :
    (p : Parser) (rest : List ℕ)
    → p.state ≡ parse_key
    → p.keyp ≡ 0
    → run p (b'\n' ∷ rest) ≡ run p rest
unfolding run step_in in_key
line_break p rest m z = ground arith

emit-IsBetween :
    {p : Parser} {name : List ℕ} {calls : List Call} (key value : List ℕ)
    → IsBetween p name calls
    → c_string key ≡ key
    → c_string value ≡ value
    → IsBetween (emit (at_end p key value)) name (calls ++ call_of name (setting key value))
unfolding emit
emit-IsBetween {p = p} {name = name} key value b ck cv =
    let cs = ap c_string b.in_name ∙ b.is_name.3 in
    record {
      at_key = refl;
      at_first = refl;
      in_name = ap (λ t. trim t) cs ∙ b.is_name.4;
      is_name = b.is_name;
      emitted = cc (b.emitted, cs, b.is_name.4, ck, cv);
    }

unchanged :
    {p : Parser} {name : List ℕ} {calls : List Call}
    → IsBetween p name calls
    → IsBetween p name (calls ++ [])
unchanged {calls = calls} b = record {
  at_key = b.at_key;
  at_first = b.at_first;
  in_name = b.in_name;
  is_name = b.is_name;
  emitted = b.emitted ∙ sym (append-nil calls);
}

print-setting :
    (key value rest : List ℕ)
    → print (setting key value) ++ rest ≡ key ++ (b'=' ∷ (value ++ (b'\n' ∷ rest)))
print-setting key value rest =
    append_assoc key (b'=' ∷ (value ++ (b'\n' ∷ []))) rest
    ∙ ap (λ t. key ++ (b'=' ∷ t)) (append_assoc value (b'\n' ∷ []) rest)

print-header :
    (c : ℕ) (cs rest : List ℕ) (p : Parser)
    → p.state ≡ parse_key
    → p.keyp ≡ 0
    → IsName (c ∷ cs)
    → run p (print (header (c ∷ cs)) ++ rest)
      ≡ run (record p { sectionbuf = c ∷ cs; sectionp = 1 + length cs }) rest
print-header c cs rest p m z ok =
    let line = run_header c cs (b'\n' ∷ rest) p m z ok.1 ok.2 in
    ap (λ t. run p (b'[' ∷ t)) (append_assoc (c ∷ cs) (b']' ∷ (b'\n' ∷ [])) rest)
    ∙ (line ∙ line_break (record p { sectionbuf = c ∷ cs; sectionp = 1 + length cs }) rest m z)

-- A line, whatever it is, leads to the next one.
run_line :
    (l : Line) (rest : List ℕ) {p : Parser} {name : List ℕ} {calls : List Call}
    → IsLine l
    → IsBetween p name calls
    → (q : Parser) × (run p (print l ++ rest) ≡ run q rest)
      × IsBetween q (section_after name l) (calls ++ call_of name l)
run_line (header []) rest ok b = absurd (omega (arith, ok.0))
run_line (header (c ∷ cs)) rest {p = p} {calls = calls} ok b =
    let q : Parser = record p { sectionbuf = c ∷ cs; sectionp = 1 + length cs } in
    (
      q,
      print-header c cs rest p b.at_key b.at_first ok,
      record {
        at_key = b.at_key;
        at_first = b.at_first;
        in_name = refl;
        is_name = ok;
        emitted = b.emitted ∙ sym (append-nil calls);
      },
    )
run_line (setting [] value) rest ok b = absurd ok.0
run_line (setting (k ∷ ks) []) rest ok b = absurd ok.1
run_line (setting (k ∷ ks) (v ∷ vs)) rest {p = p} ok b =
    let (sk, k1, k2, k3, room, h, ck) = ok.0 in
    let (sv, room', h', cv) = ok.1 in
    let line = run_setting k ks v vs rest p b.at_key b.at_first sk k1 k2 k3 room h sv room' h' in
    (
      emit (at_end p (k ∷ ks) (v ∷ vs)),
      ap (λ t. run p t) (print-setting (k ∷ ks) (v ∷ vs) rest) ∙ line,
      emit-IsBetween (k ∷ ks) (v ∷ vs) b ck cv,
    )
run_line (remark mark body) rest {p = p} {calls = calls} ok b = (
  p,
  ap (λ t. run p (mark ∷ t)) (append_assoc body (b'\n' ∷ []) rest)
      ∙ run_comment p mark body rest b.at_key b.at_first ok.0 ok.1,
  unchanged b,
)
run_line blank rest {p = p} ok b = (p, line_break p rest b.at_key b.at_first, unchanged b)

-- The last round of the loop stores no setting.
run_stale :
    (stale : ℕ) (p : Parser)
    → p.state ≡ parse_key
    → p.keyp ≡ 0
    → (run p (stale ∷ [])).calls ≡ p.calls
unfolding run step_in in_key
run_stale stale p m z = ground arith

run_lines :
    (ls : List Line) (stale : ℕ) {p : Parser} {name : List ℕ} {calls : List Call}
    → All IsLine ls
    → IsBetween p name calls
    → (run p (print_all ls ++ (stale ∷ []))).calls ≡ calls ++ settings_of name ls
run_lines [] stale {p = p} {calls = calls} ok b =
    run_stale stale p b.at_key b.at_first ∙ (b.emitted ∙ sym (append-nil calls))
run_lines (l ∷ ls) stale {p = p} {name = name} {calls = calls} ok b =
    let line = run_line l (print_all ls ++ (stale ∷ [])) ok.0 b in
    ap (λ t. (run p t).calls) (append_assoc (print l) (print_all ls) (stale ∷ []))
    ∙ (ap (λ q. q.calls) line.1
        ∙ (run_lines ls stale ok.1 line.2
            ∙ append_assoc calls (call_of name l) (settings_of (section_after name l) ls)))

-- A settings file of a header with a name and then headers, settings, remarks and empty lines, all
-- within the limits and in the characters that each may have, causes exactly one call of the
-- callback for each setting, in order, with the last section before it and the trimmed key and
-- value, whatever the buffers hold at first and the last round of the loop reads.
pub parse-print_all :
    (name : List ℕ) (ls : List Line) (section key value : List ℕ) (stale : ℕ)
    → IsName name
    → All IsLine ls
    → parse (start section key value) (print_all (header name ∷ ls)) stale ≡ settings_of name ls
unfolding parse
parse-print_all [] ls section key value stale n ok = absurd (omega (arith, n.0))
parse-print_all (c ∷ cs) ls section key value stale n ok =
    let p = start section key value in
    let q : Parser = record p { sectionbuf = c ∷ cs; sectionp = 1 + length cs } in
    let between : IsBetween q (c ∷ cs) [] = record {
      at_key = refl;
      at_first = refl;
      in_name = refl;
      is_name = n;
      emitted = refl;
    } in
    let tail = print_all ls ++ (stale ∷ []) in
    let line = print-header c cs tail p refl refl n in
    ap (λ t. (run p t).calls) (append_assoc (print (header (c ∷ cs))) (print_all ls) (stale ∷ []))
    ∙ (ap (λ r. r.calls) line ∙ run_lines ls stale ok between)
