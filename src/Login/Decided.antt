-- ===== src/Login/Decided.antt =====
-- What the checks of a login packet decide about its client, through client_handle_in_buffer of src/client.c.
use thirty.Prelude.{
  ℕ, ◌+◌, ◌≤◌, ◌<◌, ◌≡◌, ◌≢◌, refl, sym, ap, ◌∙◌, false, ◌==◌, none, some, List, [], ◌∷◌, ◌++◌,
  length, get_elem?, get_elem?-set_ne, set,
}
use mathlib.Core.Option.{some-injective}
use thirty.Buffer.{Buffer, tell}
use thirty.Buffer.Valid.{IsValid}
use thirty.Buffer.Stands.{Stands}
use thirty.Server.{Client, disconnect}
use thirty.Login.{Site, Login, Refusal, refusal, admit, versioned, on_ident}
use thirty.Login.Admission.{MayPlay, FirstFails, FirstFails-refusal, refusal-MayPlay, refusal-set}
use thirty.Login.Names.{set_at}
use thirty.Login.Packet.{FitsField, login_packet, on_ident-packet}
use thirty.Login.Steps.{name-versioned}

module _ (site : Site) (old_name old_key : List ℕ) (i : ℕ) (clients : List Client) (b : Buffer)
    (client : Client) (found : get_elem? clients i ≡ some client) (version : ℕ) (new : 6 ≤ version)
    (no_letter : version < b'A') (v : IsValid b) (xs : List ℕ) (c : ℕ) (ys : List ℕ) (d unused : ℕ)
    (fx : FitsField xs c) (fy : FitsField ys d) (byte : unused < 256) (en : length old_name ≡ 65)
    (ek : length old_key ≡ 65)
    (ahead : Stands b (login_packet version (xs ++ (c ∷ [])) (ys ++ (d ∷ [])) unused)) where
  packet_refusal :
      refusal site
        (set clients i (versioned site.config version version client))
        (xs ++ (c ∷ []))
        (ys ++ (d ∷ []))
      ≡ refusal site clients (xs ++ (c ∷ [])) (ys ++ (d ∷ []))
  packet_refusal =
      refusal-set site clients i client (versioned site.config version version client)
        (xs ++ (c ∷ [])) (ys ++ (d ∷ [])) found (name-versioned site.config version version client)

  -- The packet of a client, with a protocol version from 6 to 64, a name and a key of one to 63 characters each,
  -- none of them zero and the last no space, that stands whole at the position of a valid buffer, is refused
  -- unless a client of that name and that key may play: there is room, nobody uses the name, it is not
  -- banned, the key is right unless the server is offline, and the whitelist has the name unless there is none.
  pub on_ident_admitted :
      (r : Login)
      → on_ident site old_name old_key i clients b ≡ some r
      → r.refused ≡ none
      → MayPlay site clients (xs ++ (c ∷ [])) (ys ++ (d ∷ []))
  unfolding admit
  on_ident_admitted r ran ok =
      let (e, packet, taken) =
        on_ident-packet site old_name old_key i clients b client found version new no_letter v xs c
          ys d unused fx fy byte en ek ahead in
      let same = some-injective _ _ (sym packet ∙ ran) in
      refusal-MayPlay site clients (xs ++ (c ∷ [])) (ys ++ (d ∷ []))
        (sym packet_refusal ∙ ap (λ l. l.refused) same ∙ ok)

  -- Such a packet for which a check fails is taken whole and refused with the reason of the first check that
  -- fails: its client is disconnected and keeps its old name, and the other clients stay as they were.
  pub on_ident_refused :
      {why : Refusal}
      → FirstFails site clients (xs ++ (c ∷ [])) (ys ++ (d ∷ [])) why
      → (r : Login) × (on_ident site old_name old_key i clients b ≡ some r)
        × (r.refused ≡ some why)
        × (tell r.in_buffer ≡ tell b + 130)
        × (gone : Client) × (get_elem? r.clients i ≡ some gone)
        × (gone.connected ≡ false)
        × (gone.name ≡ client.name)
        × ((j : ℕ) → i ≢ j → get_elem? r.clients j ≡ get_elem? clients j)
  unfolding admit disconnect
  on_ident_refused {why} fails =
      let (e, packet, taken) =
        on_ident-packet site old_name old_key i clients b client found version new no_letter v xs c
          ys d unused fx fy byte en ek ahead in
      let c1 = versioned site.config version version client in
      let cs = set clients i c1 in
      let gone = disconnect c1 in
      let refused =
        packet_refusal
        ∙ FirstFails-refusal site clients (xs ++ (c ∷ [])) (ys ++ (d ∷ [])) why fails in
      let r = admit site i c1 (xs ++ (c ∷ [])) (ys ++ (d ∷ [])) (unused == 0x42) e cs in
      let stored : r.clients ≡ set cs i gone = rw refused refl in
      (
        r,
        packet,
        refused,
        taken,
        gone,
        ap (λ l. get_elem? l i) stored ∙ set_at cs i c1 gone (set_at clients i client c1 found),
        refl,
        name-versioned site.config version version client,
        λ j ne.
            ap (λ l. get_elem? l j) stored
            ∙ get_elem?-set_ne cs i j gone ne
            ∙ get_elem?-set_ne clients i j c1 ne,
      )
