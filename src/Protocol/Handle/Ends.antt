-- ===== src/Protocol/Handle/Ends.antt =====
-- The loop of client_handle_in_buffer, src/client.c, ends.
use thirty.Prelude.{
  ℕ, zero, suc, ◌-◌, ◌≤◌, ◌<◌, ◌≡◌, ◌⊎◌, refl, sym, ap, subst, ◌∙◌, arith, inl, inr, Bool,
  Bool-cases, Option, Option-cases, none, some, List, get_elem?, ltb, leb, ◌==◌, if◌then◌else◌,
  true, false,
}
use thirty.Prelude.Options.{>>=-eq-some}
use mathlib.Core.Option.{some-injective}
use thirty.Word.{uint8}
use thirty.Endian.{little}
use thirty.Text.{codes}
use thirty.Buffer.{Allocator, Buffer, tell, size, read, seek}
use thirty.Buffer.Valid.{IsValid}
use thirty.Buffer.Typed.{generic_read, read_into, read_uint8}
use thirty.Buffer.McStr.{read_mcstr}
use thirty.Buffer.Later.{
  Later, Later-trans, Later-refl, read_into-Later, read_mcstr-read, read_mcstr-Later, read-moves,
}
use thirty.Config.Settings.{ServerConfig, TextColour}
use thirty.Server.{Client}
use thirty.Login.{Site, Login, Refusal, admit, read_version, read_key, read_unused, on_ident}
use thirty.Protocol.{Session, farewell, on_out, disconnect_client}
use thirty.Protocol.Enter.{
  Step, refusal_text, write_extinfo, login, on_version, finish_ident, on_ident_packet,
}
use thirty.Protocol.Handle.{
  Setting, Outcome, unfinished, on_unknown, on_packet, handle_one, handle_in_buffer,
}
use thirty.Protocol.Handle.Progress.{
  Forward, Forward-some, Forward-asks, on_extinfo-Forward, on_extentry-Forward,
  on_set_block-Forward, on_message-Forward, on_pos_angle-Forward, on_level-Forward,
  on_two_way_ping-Forward,
}

-- The input moves on by at least a byte.
record Moves (b c : Buffer) : Type 0 where
  later : Later b c
  moved : tell b < tell c

read_key-Later :
    (version : ℕ) (old : List ℕ) (b : Buffer) (r : List ℕ × Buffer)
    → IsValid b
    → read_key version old b ≡ some r
    → Later b r.1
read_key-Later version old b r v e = elim (Bool-cases (leb 1 version)) [
  | inl has ↦
      read_mcstr-Later old r.0 b r.1 v
        (sym (ap (λ t. if t then read_mcstr old b else some (old, b)) has) ∙ e)
  | inr lacks ↦
      subst (λ t. Later b t.1)
        (some-injective _ _
          (sym (ap (λ t. if t then read_mcstr old b else some (old, b)) lacks) ∙ e))
        (Later-refl v)
]

read_unused-Later : (version : ℕ) (b : Buffer) → IsValid b → Later b (read_unused version b).1
read_unused-Later version b v = elim (Bool-cases (leb 6 version)) [
  | inl has ↦ rw has (read_into-Later little 1 0 b v)
  | inr lacks ↦ rw lacks (Later-refl v)
]

Moves-then : {a b c : Buffer} → Moves a b → Later b c → Moves a c
Moves-then m l = record { later = Later-trans m.later l; moved = omega (arith, m.moved, l.forward) }

-- Behind the first byte of the packet.
module _ (junk : ℕ) (b : Buffer) (v : IsValid b) (more : tell b < size b) where
  id-Moves : Moves b (read_into read_uint8 junk b).1
  unfolding generic_read read
  id-Moves = ground (arith, v, more)

  -- The step back of a login with no version leaves bytes to be read.
  version_moves :
      (old : ℕ)
      → let c = (read_version old (read_into read_uint8 junk b).1).1 in
        Later b c × ((tell b < tell c) ⊎ (tell c < size c))
  unfolding generic_read read seek
  version_moves old = ground (arith, v, more)

  mcstr-Moves :
      (text a : List ℕ) (c d : Buffer)
      → Later b c
      → (tell b < tell c) ⊎ (tell c < size c)
      → read_mcstr text c ≡ some (a, d)
      → Moves b d
  mcstr-Moves text a c d l h e =
      let l' = read_mcstr-Later text a c d l.valid e in
      record {
        later = Later-trans l l';
        moved = elim h [
          | inl before ↦ omega (arith, l'.forward, before)
          | inr room ↦
              let far = read-moves c 64 l.valid room (omega arith) in
              omega
                (arith, l.forward, subst (λ t. tell c < tell t) (read_mcstr-read text a c d e) far)
        ];
      }

  on_ident-Moves :
      (site : Site) (old_name old_key : List ℕ) (i : ℕ) (clients : List Client) (r : Login)
      → on_ident site old_name old_key i clients (read_into read_uint8 junk b).1 ≡ some r
      → Moves b r.in_buffer
  unfolding on_ident admit
  on_ident-Moves site old_name old_key i clients r e =
      let (c, found, e1) = >>=-eq-some (get_elem? clients i) _ e in
      let rv = read_version c.protocol_version (read_into read_uint8 junk b).1 in
      let (n, read1, e2) = >>=-eq-some (read_mcstr old_name rv.1) _ e1 in
      let (k, read2, e3) = >>=-eq-some (read_key rv.0.1 old_key n.1) _ e2 in
      let (l, room) = version_moves c.protocol_version in
      let m = mcstr-Moves old_name n.0 rv.1 n.1 l room read1 in
      let l2 = read_key-Later rv.0.1 old_key n.1 k m.later.valid read2 in
      subst (λ (t : Login). Moves b t.in_buffer) (some-injective _ _ e3)
        (Moves-then m (Later-trans l2 (read_unused-Later rv.0.1 k.1 l2.valid)))

in_buffer-finish_ident :
    (heap : Allocator) (cfg : ServerConfig) (colours : List TextColour) (changeset : List ℕ)
    (refused : Option Refusal) (r : Login) (before : List Client) (i : ℕ) (s : Session)
    (step : Step)
    → finish_ident heap cfg colours changeset refused r before i s ≡ some step
    → r.in_buffer ≡ step.in_buffer
unfolding finish_ident
in_buffer-finish_ident heap cfg colours changeset (some why) r before i s step e =
    let (s3, e1, e2) =
      >>=-eq-some (farewell heap i (refusal_text why) (record s { clients = before })) _ e in
    ap (λ (t : Step). t.in_buffer) (some-injective _ _ e2)
in_buffer-finish_ident heap cfg colours changeset none r before i s step e =
    let logged_in = record s { clients = r.clients } in
    let (s4, e1, e2) =
      >>=-eq-some
        (if r.supports_cpe
          then on_out i (write_extinfo heap changeset) logged_in
          else login heap cfg colours i logged_in)
        _ e in
    ap (λ (t : Step). t.in_buffer) (some-injective _ _ e2)

-- A packet is handled, and takes a byte at least.
abbrev Goes : Buffer → Option Step → Type 0
Goes b r = (step : Step) → r ≡ some step → Moves b step.in_buffer

Goes-Forward : {b c : Buffer} {r : Option Step} → Moves b c → Forward c r → Goes b r
Goes-Forward m f step e = Moves-then m (f step e)

Goes-if :
    {b : Buffer} {f g : Option Step} (t : Bool) → Goes b f → Goes b g → Goes b (if t then f else g)
Goes-if true p q = p
Goes-if false p q = q

module _ (given : Setting) (i : ℕ) (b : Buffer) (s : Session) (v0 : IsValid b)
    (more : tell b < size b) where
  on_unknown-Forward : (c : Buffer) → IsValid c → Forward c (on_unknown given i c s)
  unfolding on_unknown
  on_unknown-Forward c w =
      Forward-asks c (disconnect_client given.heap i (codes "Received malformed data.") s) _
        (λ s1 e. Forward-some c _ (Later-refl w))

  on_ident_packet_moves : Goes b (
      on_ident_packet given.heap given.site given.colours given.changeset given.old given.old_key i
        (read_into read_uint8 (uint8 given.junk) b).1
        s)
  unfolding on_ident_packet
  on_ident_packet_moves step e =
      let c1 = (read_into read_uint8 (uint8 given.junk) b).1 in
      let cfg : ServerConfig = given.site.config in
      let (c, e1, e2) = >>=-eq-some (get_elem? s.clients i) _ e in
      let (p, e3, e4) = >>=-eq-some (get_elem? s.peers i) _ e2 in
      let v = (read_version c.protocol_version c1).0 in
      let (s1, e5, e6) = >>=-eq-some (on_version given.heap cfg v.0 c p i s) _ e4 in
      let (r, e7, e8) =
        >>=-eq-some (on_ident given.site given.old given.old_key i s.clients c1) _ e6 in
      let m =
        on_ident-Moves (uint8 given.junk) b v0 more given.site given.old given.old_key i s.clients r
          e7 in
      subst (Moves b)
        (in_buffer-finish_ident given.heap cfg given.colours given.changeset r.refused r _ i s1 step
          e8)
        m

  on_packet_moves :
      (id : ℕ) → Goes b (on_packet given i id (read_into read_uint8 (uint8 given.junk) b).1 s)
  unfolding on_packet
  on_packet_moves id =
      let m = id-Moves (uint8 given.junk) b v0 more in
      let c = (read_into read_uint8 (uint8 given.junk) b).1 in
      let w = m.later.valid in
      Goes-if (id == 0x00) on_ident_packet_moves (
        Goes-if (id == 0x10)
          (Goes-Forward m (on_extinfo-Forward given.junk given.old given.heap i c s w))
          (Goes-if (id == 0x11)
            (Goes-Forward m (
              on_extentry-Forward given.junk given.old given.heap i c s w given.site given.colours))
            (Goes-if (id == 0x05)
              (Goes-Forward m
                (on_set_block-Forward given.junk given.old given.heap i c s w given.fuel))
              (Goes-if (id == 0x0d)
                (Goes-Forward m (on_message-Forward given.junk given.old given.heap i c s w))
                (Goes-if (id == 0x08)
                  (Goes-Forward m
                    (on_pos_angle-Forward given.junk given.old given.heap i c s w given.turn))
                  (Goes-if (id == 0x13)
                    (Goes-Forward m (on_level-Forward given.junk given.old given.heap i c s w))
                    (Goes-if (id == 0x2b)
                      (Goes-Forward m
                        (on_two_way_ping-Forward given.junk given.old given.heap i c s w))
                      (Goes-Forward m (on_unknown-Forward c w)))))))))

  handle_packet_moves : Goes b (handle_one given i b s)
  unfolding handle_one
  handle_packet_moves = on_packet_moves (read_into read_uint8 (uint8 given.junk) b).0

abbrev pub is_finished : Outcome → Bool
is_finished unfinished = false
is_finished _ = true

-- The loop over `r` bytes of input, in a valid buffer that holds them, ends: it needs no more rounds than bytes
-- are left, since each packet, whatever it holds, takes one byte at least.
pub handle_in_buffer_ends :
    (given : Setting) (i n r : ℕ) (b : Buffer) (s : Session)
    → IsValid b
    → r ≤ size b
    → r - tell b ≤ n
    → is_finished (handle_in_buffer given i n r b s) ≡ true
unfolding handle_in_buffer
handle_in_buffer_ends given i zero r b s v h enough = ground arith
handle_in_buffer_ends given i (suc n) r b s v h enough = elim (Bool-cases (ltb (tell b) r)) [
  | inr all ↦ rw all refl
  | inl more ↦ elim (Option-cases (handle_one given i b s)) [
    | inl crash ↦ rw (more, crash) refl
    | inr (step, ran) ↦
        let left : tell b < r = ground arith in
        let m = handle_packet_moves given i b s v (omega (arith, left, h)) step ran in
        let rest =
          handle_in_buffer_ends given i n r step.in_buffer step.session m.later.valid
            (omega (arith, m.later.same, h)) (omega (arith, m.moved, enough)) in
        elim (Bool-cases step.ended) [
          | inl over ↦ rw (more, ran) (rw over refl)
          | inr on ↦ rw (more, ran) (rw on rest)
        ]
  ]
]
