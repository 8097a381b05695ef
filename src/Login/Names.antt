-- ===== src/Login/Names.antt =====
-- Two clients never have the same name.
use thirty.Prelude.{
  ℕ, zero, suc, ◌≡◌, refl, sym, ap, ◌∙◌, subst, arith, Bool, Bool-cases, Option-cases, inl, inr,
  true, false, none, some, List, [], ◌∷◌, ◌++◌, map, get_elem?, set, All, All-set, length,
  if◌then◌else◌,
}
use mathlib.Core.Option.{some-injective}
use mathlib.Core.List.{map-append}
use thirty.Text.{to_lower, str_case_eq, str_eq_iff}
use thirty.Buffer.{Buffer}
use thirty.Server.{Client, new_client, accept, disconnect, remove_disconnected}
use thirty.Server.Removal.{sweep, skip, remove_disconnected-sweep}
use thirty.Login.Steps.{on_ident-Checked}
use thirty.Login.{Site, Login, is_used, refusal, admit, on_ident}

-- The names of two clients, equal but for case only if the first is empty, which it is before the login.
abbrev pub Differ : List ℕ → List ℕ → Type 0
Differ n m = str_case_eq n m ≡ true → n ≡ []

lower-nil : (n : List ℕ) → map to_lower n ≡ [] → n ≡ []
lower-nil [] h = refl
lower-nil (c ∷ cs) h = absurd (cc)

Differ-sym : (n m : List ℕ) → Differ n m → Differ m n
Differ-sym n m h e =
    let same : map to_lower m ≡ map to_lower n =
      (str_eq_iff (map to_lower m) (map to_lower n)).0 e in
    let empty : n ≡ [] = h ((str_eq_iff (map to_lower n) (map to_lower m)).1 (sym same)) in
    lower-nil m (same ∙ ap (map to_lower) empty)

abbrev pub Distinct : List (List ℕ) → Type 0
Distinct [] = Unit
Distinct (n ∷ ns) = All (Differ n) ns × Distinct ns

abbrev pub names : List Client → List (List ℕ)
names cs = map (λ c. c.name) cs

Distinct-set :
    (ns : List (List ℕ)) (i : ℕ) (n : List ℕ)
    → All (Differ n) ns
    → Distinct ns
    → Distinct (set ns i n)
Distinct-set [] i n h d = tt
Distinct-set (m ∷ ns) zero n h d = (h.1, d.1)
Distinct-set (m ∷ ns) (suc i) n h d =
    (All-set (Differ m) ns i n d.0 (Differ-sym n m h.0), Distinct-set ns i n h.1 d.1)

All-append-one :
    (P : List ℕ → Type 0) (ns : List (List ℕ)) (n : List ℕ)
    → All P ns
    → P n
    → All P (ns ++ (n ∷ []))
All-append-one P [] n h p = (p, tt)
All-append-one P (m ∷ ns) n h p = (h.0, All-append-one P ns n h.1 p)

Distinct-append :
    (ns : List (List ℕ)) (n : List ℕ) → All (Differ n) ns → Distinct ns → Distinct (ns ++ (n ∷ []))
Distinct-append [] n h d = (tt, tt)
Distinct-append (m ∷ ns) n h d =
    (All-append-one (Differ m) ns n d.0 (Differ-sym n m h.0), Distinct-append ns n h.1 d.1)

nobody : (ns : List (List ℕ)) → All (Differ []) ns
nobody [] = tt
nobody (n ∷ ns) = (λ e. refl, nobody ns)

names-set : (cs : List Client) (i : ℕ) (c : Client) → names (set cs i c) ≡ set (names cs) i c.name
names-set [] i c = refl
names-set (d ∷ cs) zero c = refl
names-set (d ∷ cs) (suc i) c = ap (◌∷◌ d.name) (names-set cs i c)

-- A client that keeps its name.
pub names-set_same :
    (cs : List Client) (i : ℕ) (c d : Client)
    → get_elem? cs i ≡ some c
    → d.name ≡ c.name
    → names (set cs i d) ≡ names cs
names-set_same [] i c d h e = refl
names-set_same (x ∷ cs) zero c d h e =
    ap (λ n. n ∷ names cs) (e ∙ ap (λ y. y.name) (sym (some-injective _ _ h)))
names-set_same (x ∷ cs) (suc i) c d h e = ap (◌∷◌ x.name) (names-set_same cs i c d h e)

unused_name : (cs : List Client) (n : List ℕ) → is_used cs n ≡ false → All (Differ n) (names cs)
unfolding is_used
unused_name [] n h = tt
unused_name (c ∷ cs) n h = elim (Bool-cases (str_case_eq c.name n)) [
  | inl e ↦ absurd (ground (arith, e, h))
  | inr e ↦ (
    Differ-sym c.name n (λ t. absurd (ground (arith, e, t))),
    unused_name cs n (ground (arith, e, h)),
  )
]

admitted_unused :
    (site : Site) (cs : List Client) (name key : List ℕ)
    → refusal site cs name key ≡ none
    → is_used cs name ≡ false
unfolding refusal
admitted_unused site cs name key h = ground (arith, h)

admit-Distinct :
    (site : Site) (i : ℕ) (c : Client) (name key : List ℕ) (cpe : Bool) (b : Buffer)
    (cs : List Client)
    → get_elem? cs i ≡ some c
    → Distinct (names cs)
    → Distinct (names (admit site i c name key cpe b cs).clients)
unfolding admit disconnect
admit-Distinct site i c name key cpe b cs at d = elim (Option-cases (refusal site cs name key)) [
  | inl ok ↦ rw ok (
      subst Distinct (sym (names-set cs i _)) (
        Distinct-set (names cs) i name (unused_name cs name (admitted_unused site cs name key ok))
          d))
  | inr (r, found) ↦
      rw found (subst Distinct (sym (names-set_same cs i c (disconnect c) at refl)) d)
]

pub set_at :
    (cs : List Client) (i : ℕ) (c d : Client)
    → get_elem? cs i ≡ some c
    → get_elem? (set cs i d) i ≡ some d
set_at [] i c d h = absurd (cc)
set_at (x ∷ cs) zero c d h = refl
set_at (x ∷ cs) (suc i) c d h = set_at cs i c d h

pub on_ident-Distinct :
    (site : Site) (old_name old_key : List ℕ) (i : ℕ) (clients : List Client) (b : Buffer)
    (r : Login)
    → on_ident site old_name old_key i clients b ≡ some r
    → Distinct (names clients)
    → Distinct (names r.clients)
on_ident-Distinct site old_name old_key i clients b r e d =
    let k = on_ident-Checked site old_name old_key i clients b r e in
    let cs = set clients i k.client in
    let kept = names-set_same clients i k.before k.client k.found k.same_name in
    subst (λ (l : Login). Distinct (names l.clients)) k.login
      (admit-Distinct site i k.client k.name k.key k.cpe k.in_buffer cs
        (set_at clients i k.before k.client k.found) (subst Distinct (sym kept) d))

pub accept-Distinct :
    (banned_ip : Bool) (cs : List Client)
    → Distinct (names cs)
    → Distinct (names (accept banned_ip cs))
unfolding accept new_client disconnect
accept-Distinct banned_ip cs d =
    let c = if banned_ip then disconnect (new_client (length cs)) else new_client (length cs) in
    let empty : c.name ≡ [] = ground arith in
    subst Distinct
      (sym (map-append (λ x. x.name) cs (c ∷ []) ∙ ap (λ n. names cs ++ (n ∷ [])) empty))
      (Distinct-append (names cs) [] (nobody (names cs)) d)

mutual
  unfolding sweep

  All-sweep : (P : List ℕ → Type 0) (cs : List Client) → All P (names cs) → All P (names (sweep cs))
  All-sweep P [] h = tt
  All-sweep P (c ∷ cs) h = elim (Bool-cases c.connected) [
    | inl up ↦
        subst (λ b. All P (names (if b then c ∷ sweep cs else skip cs))) (sym up)
          (h.0, All-sweep P cs h.1)
    | inr down ↦
        subst (λ b. All P (names (if b then c ∷ sweep cs else skip cs))) (sym down)
          (All-skip P cs h.1)
  ]

  All-skip : (P : List ℕ → Type 0) (cs : List Client) → All P (names cs) → All P (names (skip cs))
  All-skip P [] h = tt
  All-skip P (c ∷ cs) h = (h.0, All-sweep P cs h.1)

mutual
  unfolding sweep

  Distinct-sweep : (cs : List Client) → Distinct (names cs) → Distinct (names (sweep cs))
  Distinct-sweep [] h = tt
  Distinct-sweep (c ∷ cs) h = elim (Bool-cases c.connected) [
    | inl up ↦
        subst (λ b. Distinct (names (if b then c ∷ sweep cs else skip cs))) (sym up)
          (All-sweep (Differ c.name) cs h.0, Distinct-sweep cs h.1)
    | inr down ↦
        subst (λ b. Distinct (names (if b then c ∷ sweep cs else skip cs))) (sym down)
          (Distinct-skip cs h.1)
  ]

  Distinct-skip : (cs : List Client) → Distinct (names cs) → Distinct (names (skip cs))
  Distinct-skip [] h = tt
  Distinct-skip (c ∷ cs) h = (All-sweep (Differ c.name) cs h.0, Distinct-sweep cs h.1)

-- What happens to the clients of the server: a connection, a login packet of the client at an index, the
-- end of a connection, and the loop of a tick.
pub data Step : List Client → List Client → Type 0 where
  accepting : {cs : List Client} → (banned_ip : Bool) → Step cs (accept banned_ip cs)
  identifying :
      {cs : List Client}
      → (site : Site) (old_name old_key : List ℕ) (i : ℕ) (b : Buffer) (r : Login)
      → on_ident site old_name old_key i cs b ≡ some r
      → Step cs r.clients
  leaving :
      {cs : List Client}
      → (i : ℕ) (c : Client) → get_elem? cs i ≡ some c
      → Step cs (set cs i (disconnect c))
  removing : {cs : List Client} → Step cs (remove_disconnected cs)

-- The clients that a server can have, which starts with none.
pub data Reachable : List Client → Type 0 where
  start : Reachable []
  next : {cs ds : List Client} → Reachable cs → Step cs ds → Reachable ds

Step-Distinct : {cs ds : List Client} → Step cs ds → Distinct (names cs) → Distinct (names ds)
unfolding disconnect
Step-Distinct {cs} (accepting banned_ip) d = accept-Distinct banned_ip cs d
Step-Distinct {cs} (identifying site old_name old_key i b r e) d =
    on_ident-Distinct site old_name old_key i cs b r e d
Step-Distinct {cs} (leaving i c h) d =
    subst Distinct (sym (names-set_same cs i c (disconnect c) h refl)) d
Step-Distinct {cs} removing d =
    subst (λ xs. Distinct (names xs)) (sym (remove_disconnected-sweep cs)) (Distinct-sweep cs d)

-- At no time do two clients of a server have names that are equal but for case, save for the empty name
-- that a client has before its login, whatever connections, login packets with whatever bytes, ends of
-- connections and ticks came before.
pub reachable-Distinct : {cs : List Client} → Reachable cs → Distinct (names cs)
reachable-Distinct start = tt
reachable-Distinct (next r s) = Step-Distinct s (reachable-Distinct r)
