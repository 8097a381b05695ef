-- ===== src/Config/Parse.antt =====
-- The parser of the settings file, config_parse of src/config.c: a machine fed one character at a
-- time. It records the calls of the callback. A text buffer is the list of the characters stored
-- in it; its position says where the next one goes. The program's messages are left out.
pub mod Lines
pub mod Files
use thirty.Prelude.{
  ℕ, ◌+◌, Bool, true, false, ◌||◌, List, [], ◌∷◌, ◌++◌, leb, ◌==◌, if◌then◌else◌, take,
}
use thirty.Text.{is_space, trim}
use thirty.Buffer.McStr.{c_string}

-- `enum parsestate_e`
pub data ParseState : Type 0 where
  parse_section parse_key parse_value parse_comment : ParseState

-- The arguments of a call of the callback.
pub record Call : Type 0 where
  pub section : List ℕ
  pub key : List ℕ
  pub value : List ℕ

pub record Parser : Type 0 where
  pub state : ParseState
  pub sectionbuf : List ℕ
  pub sectionp : ℕ
  pub keybuf : List ℕ
  pub keyp : ℕ
  pub valuebuf : List ℕ
  pub valuep : ℕ
  pub calls : List Call

-- The buffers of the function are not initialised: what they hold at first is given.
abbrev pub start : List ℕ → List ℕ → List ℕ → Parser
start section key value = record {
  state = parse_key;
  sectionbuf = section;
  sectionp = 0;
  keybuf = key;
  keyp = 0;
  valuebuf = value;
  valuep = 0;
  calls = [];
}

-- `buf[p++] = c; buf[p] = 0;`
abbrev pub put : List ℕ → ℕ → ℕ → List ℕ
put buf p c = take p buf ++ (c ∷ [])

unfoldable pub in_section : Parser → ℕ → Parser
in_section p c =
    if c == b']'
    then record p { state = parse_key }
    else if leb 127 p.sectionp
    then p
    else record p { sectionbuf = put p.sectionbuf p.sectionp c; sectionp = p.sectionp + 1 }

abbrev store_key : Parser → ℕ → Parser
store_key p c =
    if leb 127 p.keyp then p else record p { keybuf = put p.keybuf p.keyp c; keyp = p.keyp + 1 }

unfoldable pub in_key : Parser → ℕ → Parser
in_key p c =
    if p.keyp == 0
    then (if c == b'['
        then record p { state = parse_section; sectionp = 0 }
        else if is_space c
        then p
        else if c == b';' || c == b'#'
        then record p { state = parse_comment }
        else store_key p c)
    else if c == b'='
    then record p { state = parse_value; valuep = 0 }
    else store_key p c

-- The end of a setting: the three buffers are trimmed in place and handed to the callback.
unfoldable pub emit : Parser → Parser
emit p =
    let s = trim (c_string p.sectionbuf) in
    let k = trim (c_string p.keybuf) in
    let v = trim (c_string p.valuebuf) in
    let call : Call = record { section = s; key = k; value = v } in
    record p {
      state = parse_key;
      sectionbuf = s;
      keybuf = k;
      keyp = 0;
      valuebuf = v;
      calls = p.calls ++ (call ∷ []);
    }

abbrev store_value : Parser → ℕ → Parser
store_value p c =
    if leb 1023 p.valuep
    then p
    else record p { valuebuf = put p.valuebuf p.valuep c; valuep = p.valuep + 1 }

unfoldable pub in_value : Parser → ℕ → Parser
in_value p c =
    if c == b'\n'
    then emit p
    else if p.valuep == 0
    then (if is_space c then p else store_value p c)
    else store_value p c

unfoldable pub in_comment : Parser → ℕ → Parser
in_comment p c = if c == b'\n' then record p { state = parse_key } else p

unfoldable pub step_in : ParseState → Parser → ℕ → Parser
step_in parse_section p c = in_section p c
step_in parse_key p c = in_key p c
step_in parse_value p c = in_value p c
step_in parse_comment p c = in_comment p c

unfoldable pub run : Parser → List ℕ → Parser
run p [] = p
run p (c ∷ cs) = run (step_in p.state p c) cs

-- The loop runs once more after the last character, when `fread` stores nothing into `c`: `stale`
-- is what `c` holds then.
unfoldable pub parse : Parser → List ℕ → ℕ → List Call
parse p text stale = (run p (text ++ (stale ∷ []))).calls
