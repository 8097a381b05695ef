-- ===== src/Login/Packet.antt =====
-- A whole login packet of src/client.c.
use thirty.Prelude.{
  ℕ, ◌+◌, ◌≤◌, ◌<◌, ◌≡◌, ◌≢◌, refl, ap, ◌∙◌, subst, arith, true, false, ◌&&◌, leb, ◌==◌, none, some,
  List, [], ◌∷◌, ◌++◌, All, length, length-set, get_elem?, set, if◌then◌else◌,
}
use thirty.Namelist.{namelist_contains}
use thirty.Word.{sub_size}
use thirty.Buffer.{Buffer, tell, seek}
use thirty.Buffer.Valid.{IsValid}
use thirty.Buffer.Stands.{
  Stands, moved, Stands-front, Stands-behind, moved-IsValid, read_uint8-Stands, read_into-some,
}
use thirty.Buffer.Typed.{read_uint8}
use thirty.Buffer.McStr.{mc_field, c_string, read_mcstr}
use thirty.Buffer.McStr.RoundTrip.{length-mc_field}
use thirty.Buffer.McStr.Field.{read_mcstr-Stands}
use thirty.Server.{Client}
use thirty.Login.{
  Site, Login, refusal, admit, versioned, read_version, read_key, read_unused, on_ident,
}
use thirty.Login.Admission.{MayPlay, is_used-set}
use thirty.Login.Names.{set_at}
use thirty.Login.Steps.{name-versioned}

-- A text that fits a field, with its last character.
pub record FitsField (xs : List ℕ) (c : ℕ) : Type 0 where
  pub short : length (xs ++ (c ∷ [])) ≤ 63
  pub no_space : c ≢ b' '
  pub no_zero : All (λ x. x ≢ 0) (xs ++ (c ∷ []))

abbrev pub login_packet : ℕ → List ℕ → List ℕ → ℕ → List ℕ
login_packet version name key unused =
    version ∷ (mc_field name false ++ (mc_field key false ++ (unused ∷ [])))

field-Stands :
    (b : Buffer) (xs : List ℕ) (c : ℕ) (old rest : List ℕ)
    → FitsField xs c
    → length old ≡ 65
    → IsValid b
    → Stands b (mc_field (xs ++ (c ∷ [])) false ++ rest)
    → (array : List ℕ) × (read_mcstr old b ≡ some (array, moved b 64))
      × (c_string array ≡ xs ++ (c ∷ []))
      × IsValid (moved b 64)
      × Stands (moved b 64) rest
field-Stands b xs c old rest f eo v s =
    let src = mc_field (xs ++ (c ∷ [])) false in
    let front = Stands-front b src rest s in
    let at_end : moved b (length src) ≡ moved b 64 =
      ap (moved b) (length-mc_field (xs ++ (c ∷ [])) false) in
    let (array, e, t) = read_mcstr-Stands b xs c old v front eo f.short f.no_space f.no_zero in
    (
      array,
      e,
      t,
      subst IsValid at_end (moved-IsValid b src v front),
      subst (λ d. Stands d rest) at_end (Stands-behind b src rest s),
    )

MayPlay-refusal :
    (site : Site) (cs : List Client) (name key : List ℕ)
    → MayPlay site cs name key
    → refusal site cs name key ≡ none
unfolding refusal
MayPlay-refusal site cs name key m =
    ground (arith, m.room, m.unused, m.not_banned, m.authentic, m.listed)

module _ (site : Site) (old_name old_key : List ℕ) (i : ℕ) (clients : List Client) (b : Buffer)
    (client : Client) (found : get_elem? clients i ≡ some client) (version : ℕ) (new : 6 ≤ version)
    (no_letter : version < b'A') (v : IsValid b) (xs : List ℕ) (c : ℕ) (ys : List ℕ) (d unused : ℕ)
    (fx : FitsField xs c) (fy : FitsField ys d) (byte : unused < 256) (en : length old_name ≡ 65)
    (ek : length old_key ≡ 65)
    (ahead : Stands b (login_packet version (xs ++ (c ∷ [])) (ys ++ (d ∷ [])) unused)) where
  pub on_ident-packet :
      let c1 = versioned site.config version version client in
      (e : Buffer) × (on_ident site old_name old_key i clients b
        ≡ some (
            admit site i c1
              (xs ++ (c ∷ []))
              (ys ++ (d ∷ []))
              (unused == 0x42)
              e
              (set clients i c1)))
      × (tell e ≡ tell b + 130)
  unfolding on_ident
  on_ident-packet =
      let body =
        mc_field (xs ++ (c ∷ [])) false ++ (mc_field (ys ++ (d ∷ [])) false ++ (unused ∷ [])) in
      let one = Stands-front b (version ∷ []) body ahead in
      let b1 = moved b 1 in
      let v1 : IsValid b1 = moved-IsValid b (version ∷ []) v one in
      let ahead1 : Stands b1 body = Stands-behind b (version ∷ []) body ahead in
      let below : leb b'A' version ≡ false = ground (arith, no_letter) in
      let has_key : leb 1 version ≡ true = ground (arith, new) in
      let has_unused : leb 6 version ≡ true = ground (arith, new) in
      let first =
        read_into-some read_uint8 client.protocol_version b _
          (read_uint8-Stands b version (omega (arith, no_letter)) v one) in
      let got1 : read_version client.protocol_version b ≡ ((version, version), b1) =
        ap
          (λ r.
            if leb b'A' r.0 && leb r.0 b'z'
            then ((r.0, 1), seek r.1 (sub_size (tell r.1) 1))
            else ((r.0, r.0), r.1))
          first
        ∙ rw below refl in
      let (n, e2, t2, v2, ahead2) =
        field-Stands b1 xs c old_name (mc_field (ys ++ (d ∷ [])) false ++ (unused ∷ [])) fx en v1
          ahead1 in
      let b2 = moved b1 64 in
      let (k, e3, t3, v3, ahead3) = field-Stands b2 ys d old_key (unused ∷ []) fy ek v2 ahead2 in
      let b3 = moved b2 64 in
      let got3 : read_key version old_key b2 ≡ some (k, b3) = rw has_key e3 in
      let last = read_into-some read_uint8 0 b3 _ (read_uint8-Stands b3 unused byte v3 ahead3) in
      let got4 : read_unused version b3 ≡ (unused, moved b3 1) = rw has_unused last in
      (moved b3 1, rw (found, got1, e2, got3, got4, t2, t3) refl, omega arith)

  -- The packet of a client that may play, with a protocol version from 6 to 64, a name and a key of one to 63
  -- characters each, none of them zero and the last no space, that stands whole at the position of a valid
  -- buffer, is taken whole and logs its client in under the name, as an operator exactly if the list of
  -- them has it.
  pub on_ident-login_packet :
      MayPlay site clients (xs ++ (c ∷ [])) (ys ++ (d ∷ []))
      → (r : Login) × (on_ident site old_name old_key i clients b ≡ some r)
        × (r.refused ≡ none)
        × (r.supports_cpe ≡ (unused == 0x42))
        × (tell r.in_buffer ≡ tell b + 130)
        × (get_elem? r.clients i
            ≡ some (record (versioned site.config version version client) {
              name = xs ++ (c ∷ []);
              is_op = namelist_contains site.ops (xs ++ (c ∷ []));
            }))
  unfolding admit
  on_ident-login_packet m =
      let name = xs ++ (c ∷ []) in
      let key = ys ++ (d ∷ []) in
      let c1 = versioned site.config version version client in
      let cs = set clients i c1 in
      let (e, ran, taken) = on_ident-packet in
      let same : c1.name ≡ client.name = name-versioned site.config version version client in
      let m1 : MayPlay site cs name key = record {
        room = omega (arith, m.room, length-set clients i c1);
        unused = is_used-set clients i client c1 name found same ∙ m.unused;
        not_banned = m.not_banned;
        authentic = m.authentic;
        listed = m.listed;
      } in
      let passed = MayPlay-refusal site cs name key m1 in
      (
        admit site i c1 name key (unused == 0x42) e cs,
        ran,
        passed,
        refl,
        taken,
        rw passed (set_at cs i c1 _ (set_at clients i client c1 found)),
      )
