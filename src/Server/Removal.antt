-- ===== src/Server/Removal.antt =====
-- What the loop of server_tick over the clients does.
use mathlib.Core.List.{append_assoc}
use thirty.Prelude.{
  ℕ, zero, suc, ◌+◌, ◌-◌, ◌≤◌, ◌≡◌, refl, sym, ap, ◌∙◌, arith, Bool, Bool-cases, inl, inr, none,
  some, List, [], ◌∷◌, ◌++◌, length, length-append, get_elem?, get_elem?-eq_none, if◌then◌else◌,
}
use thirty.Server.{Client, remove_at, remove_from, remove_disconnected}

-- Behind a client that is dropped, the next one stays whatever its state.
unfoldable mutual
  pub sweep : List Client → List Client
  sweep [] = []
  sweep (c ∷ cs) =
      let rest = sweep cs in let next = skip cs in if c.connected then c ∷ rest else next

  pub skip : List Client → List Client
  skip [] = []
  skip (c ∷ cs) = c ∷ sweep cs

abbrev pub connected : List Client → List Client
connected [] = []
connected (c ∷ cs) = let rest = connected cs in if c.connected then c ∷ rest else rest

get_elem?-append :
    (done : List Client) (c : Client) (cs : List Client)
    → get_elem? (done ++ (c ∷ cs)) (length done) ≡ some c
get_elem?-append [] c cs = refl
get_elem?-append (d ∷ done) c cs = get_elem?-append done c cs

get_elem?-end : (done : List Client) → get_elem? (done ++ []) (length done) ≡ none
get_elem?-end [] = refl
get_elem?-end (d ∷ done) = get_elem?-end done

remove_at-append :
    (done : List Client) (c : Client) (cs : List Client)
    → remove_at (length done) (done ++ (c ∷ cs)) ≡ done ++ cs
remove_at-append [] c cs = refl
remove_at-append (d ∷ done) c cs = ap (◌∷◌ d) (remove_at-append done c cs)

remove_from-end : (fuel i : ℕ) (cs : List Client) → length cs ≤ i → remove_from fuel i cs ≡ cs
unfolding remove_from
remove_from-end zero i cs h = refl
remove_from-end (suc fuel) i cs h = rw (remove_from, get_elem?-eq_none cs i h) refl

round :
    (fuel i : ℕ) (cs : List Client) (c : Client)
    → get_elem? cs i ≡ some c
    → remove_from (suc fuel) i cs ≡ (
        if c.connected
        then remove_from fuel (i + 1) cs
        else remove_from fuel (i + 1) (remove_at i cs))
unfolding remove_from
round fuel i cs c e = rw (remove_from, e) refl

-- The client at the index is left behind.
remove_from-next :
    (fuel : ℕ) (done : List Client) (c : Client) (cs rest : List Client)
    → remove_from fuel (length (done ++ (c ∷ []))) ((done ++ (c ∷ [])) ++ cs)
      ≡ (done ++ (c ∷ [])) ++ rest
    → remove_from fuel (length done + 1) (done ++ (c ∷ cs)) ≡ done ++ (c ∷ rest)
remove_from-next fuel done c cs rest h =
    ap (λ i. remove_from fuel i (done ++ (c ∷ cs))) (sym (length-append done (c ∷ [])))
    ∙ ap (remove_from fuel (length (done ++ (c ∷ [])))) (sym (append_assoc done (c ∷ []) cs))
    ∙ h
    ∙ append_assoc done (c ∷ []) rest

mutual
  unfolding remove_from sweep

  remove_from-sweep :
      (fuel : ℕ) (done cs : List Client)
      → length cs ≤ fuel
      → remove_from fuel (length done) (done ++ cs) ≡ done ++ sweep cs
  remove_from-sweep fuel done [] h =
      remove_from-end fuel (length done) (done ++ []) (omega (arith, length-append done []))
  remove_from-sweep zero done (c ∷ cs) h = absurd (omega arith)
  remove_from-sweep (suc fuel) done (c ∷ cs) h =
      let xs = done ++ (c ∷ cs) in
      let kept = remove_from fuel (length done + 1) xs in
      let dropped = remove_from fuel (length done + 1) (remove_at (length done) xs) in
      let step = round fuel (length done) xs c (get_elem?-append done c cs) in
      let to = λ (b : Bool). if b then kept else dropped in
      let from = λ (b : Bool). done ++ (if b then c ∷ sweep cs else skip cs) in
      elim (Bool-cases c.connected) [
        | inl up ↦
            step
            ∙ ap to up
            ∙ remove_from-next fuel done c cs (sweep cs)
                (remove_from-sweep fuel (done ++ (c ∷ [])) cs (omega (arith, h)))
            ∙ sym (ap from up)
        | inr down ↦
            step
            ∙ ap to down
            ∙ ap (remove_from fuel (length done + 1)) (remove_at-append done c cs)
            ∙ remove_from-skip fuel done cs (omega (arith, h))
            ∙ sym (ap from down)
      ]

  remove_from-skip :
      (fuel : ℕ) (done cs : List Client)
      → length cs ≤ fuel
      → remove_from fuel (length done + 1) (done ++ cs) ≡ done ++ skip cs
  remove_from-skip fuel done [] h =
      remove_from-end fuel (length done + 1) (done ++ []) (omega (arith, length-append done []))
  remove_from-skip fuel done (c ∷ cs) h =
      remove_from-next fuel done c cs (sweep cs)
        (remove_from-sweep fuel (done ++ (c ∷ [])) cs (omega (arith, h)))

-- The loop of one tick over the array of clients drops a client that is gone and then passes over the one
-- behind it, from the front to the back.
pub remove_disconnected-sweep :
    (clients : List Client) → remove_disconnected clients ≡ sweep clients
unfolding remove_disconnected
remove_disconnected-sweep clients = remove_from-sweep (length clients) [] clients (omega arith)

mutual
  unfolding sweep

  connected-sweep : (cs : List Client) → connected (sweep cs) ≡ connected cs
  connected-sweep [] = refl
  connected-sweep (c ∷ cs) = ground (arith, connected-sweep cs, connected-skip cs)

  connected-skip : (cs : List Client) → connected (skip cs) ≡ connected cs
  connected-skip [] = refl
  connected-skip (c ∷ cs) = ground (arith, connected-sweep cs)

-- How many clients are gone.
abbrev pub gone : List Client → ℕ
gone [] = 0
gone (c ∷ cs) = let rest = gone cs in if c.connected then rest else suc rest

mutual
  unfolding sweep

  gone-sweep : (cs : List Client) → gone (sweep cs) ≤ gone cs - 1
  gone-sweep [] = omega arith
  gone-sweep (c ∷ cs) = ground (arith, gone-sweep cs, gone-skip cs)

  gone-skip : (cs : List Client) → gone (skip cs) ≤ gone cs
  gone-skip [] = omega arith
  gone-skip (c ∷ cs) = ground (arith, gone-sweep cs)

none_gone : (cs : List Client) → gone cs ≡ 0 → connected cs ≡ cs
none_gone [] h = refl
none_gone (c ∷ cs) h = ground (arith, none_gone cs)

-- The loop of so many ticks, one after the other.
abbrev pub ticks : ℕ → List Client → List Client
ticks zero cs = cs
ticks (suc n) cs = ticks n (remove_disconnected cs)

-- As many ticks as clients are gone drop all of these, and at no time one that is connected; the
-- clients that stay keep their order.
pub ticks-connected :
    (n : ℕ) (clients : List Client) → gone clients ≤ n → ticks n clients ≡ connected clients
ticks-connected zero cs h = sym (none_gone cs (omega arith))
ticks-connected (suc n) cs h =
    let s = remove_disconnected-sweep cs in
    ap (ticks n) s
    ∙ ticks-connected n (sweep cs) (omega (arith, gone-sweep cs))
    ∙ connected-sweep cs
