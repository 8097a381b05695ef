-- ===== src/Protocol/Handle/Steps.antt =====
-- What the packets that change clients or the map keep; src/client.c.
use thirty.Prelude.{
  ℕ, ◌≡◌, refl, sym, ap, subst, ◌∙◌, inl, inr, Bool, Bool-cases, false, Option, none, some, List,
  length, length-set, get_elem?, set, ◌==◌, if◌then◌else◌,
}
use thirty.Prelude.Options.{>>=-eq-some}
use mathlib.Core.Option.{some-injective}
use thirty.Text.{codes}
use thirty.Buffer.{Allocator, Buffer}
use thirty.Config.Settings.{ServerConfig, TextColour}
use thirty.Server.{Client, disconnect}
use thirty.Map.{Map, get}
use thirty.Map.Index.{IsWf}
use thirty.World.{World, send_set_block, map_set}
use thirty.World.Ticks.{TicksInside}
use thirty.World.Keeps.{IsSound, Kept, Preserves, map_set-Kept}
use thirty.SetBlock.{can_perform, send_back, change_block, read_fields, on_set_block}
use thirty.Login.{Site, Login, Refusal, admit, on_ident}
use thirty.Login.Names.{Distinct, names, names-set_same}
use thirty.Login.Steps.{on_ident-Checked}
use thirty.Protocol.{Peer, Session, farewell, disconnect_client, on_out, set_peer, set_client}
use thirty.Protocol.Talks.{Talks, AllTalk, AllTalk-if, on_out-Talks, farewell-Talks, login-Talks}
use thirty.Protocol.Enter.{
  Step, too_old, on_version, finish_ident, write_extinfo, refusal_text, login,
}
use thirty.Protocol.Packets.{on_set_block_packet}
use thirty.Protocol.Handle.Proper.{IsProper, Keeps, Talks-IsProper}

-- As many peers and buffers, and the same map.
pub record Near (s s' : Session) : Type 0 where
  pub peers : length s'.peers ≡ length s.peers
  pub map : s'.world.map ≡ s.world.map
  pub outs : length s'.world.clients ≡ length s.world.clients

Near-Talks : {s t u : Session} → Near s t → Talks t u → Near s u
Near-Talks p q = record { peers = q.peers ∙ p.peers; map = q.map ∙ p.map; outs = q.outs ∙ p.outs }

pub Near-trans : {s t u : Session} → Near s t → Near t u → Near s u
Near-trans p q = record { peers = q.peers ∙ p.peers; map = q.map ∙ p.map; outs = q.outs ∙ p.outs }

Near-refl : {s : Session} → Near s s
Near-refl = record { peers = refl; map = refl; outs = refl }

-- With other clients, as many and with names that differ.
pub Near-IsProper :
    {s s' : Session}
    → Near s s'
    → IsProper s
    → Distinct (names s'.clients)
    → length s'.clients ≡ length s.clients
    → IsProper s'
Near-IsProper {s} {s'} t p d e = record {
  sound = record {
    wf = subst IsWf (sym t.map) p.sound.wf;
    ticks = subst (λ m. TicksInside m m.ticks) (sym t.map) p.sound.ticks;
  };
  running = ap (λ (m : Map). m.generating) t.map ∙ p.running;
  distinct = d;
  peers = t.peers ∙ p.peers ∙ sym e;
  outs = t.outs ∙ p.outs ∙ sym e;
}

send_back-Kept :
    (heap : Allocator) (i x y z current : ℕ) → Preserves (send_back heap i x y z current)
unfolding send_back
send_back-Kept heap i x y z current w w' s e =
    let (out, e1, e2) = >>=-eq-some (get_elem? w.clients i) _ e in
    subst (Kept w) (some-injective _ _ e2) (record {
      sound = record { wf = s.wf; ticks = s.ticks };
      width = refl;
      depth = refl;
      height = refl;
      generating = refl;
      tick = refl;
      clients = length-set w.clients i (send_set_block heap x y z current out);
    })

change_block-Kept :
    (heap : Allocator) (fuel : ℕ) (is_op : Bool) (i x y z mode block : ℕ) (w w' : World)
    → IsSound w
    → w.map.generating ≡ false
    → change_block heap fuel is_op i x y z mode block w ≡ some w'
    → Kept w w'
unfolding change_block
change_block-Kept heap fuel is_op i x y z mode block w w' s still e =
    let (current, e1, e2) = >>=-eq-some (get w.map x y z) _ e in
    let (allowed, e3, e4) = >>=-eq-some (can_perform is_op (mode == 0) current block) _ e2 in
    let new = if mode == 0 then 0 else block in
    let go =
      λ (t : Bool). if t then map_set heap fuel x y z new w else send_back heap i x y z current w in
    elim (Bool-cases allowed) [
      | inl can ↦ map_set-Kept heap fuel x y z new w w' (inr still) s (sym (ap go can) ∙ e4)
      | inr cannot ↦ send_back-Kept heap i x y z current w w' s (sym (ap go cannot) ∙ e4)
    ]

-- The packet that changes a block.
pub on_set_block-Keeps :
    (junk : ℕ) (old : List ℕ) (heap : Allocator) (fuel i : ℕ) (b : Buffer) (s : Session)
    → Keeps s (on_set_block_packet junk old heap fuel i b s)
unfolding on_set_block_packet on_set_block
on_set_block-Keeps junk old heap fuel i b s step e p =
    let (c, e1, e2) = >>=-eq-some (get_elem? s.clients i) _ e in
    let (r, e3, e4) = >>=-eq-some (on_set_block heap fuel junk c.is_op i b s.world) _ e2 in
    let f = (read_fields junk b).0 in
    let (w, e5, e6) =
      >>=-eq-some (change_block heap fuel c.is_op i f.x f.y f.z f.mode f.block s.world) _ e3 in
    let k = subst (Kept s.world) (ap (λ (x : World × Buffer). x.0) (some-injective _ _ e6)) (
      change_block-Kept heap fuel c.is_op i f.x f.y f.z f.mode f.block s.world w p.sound p.running
        e5) in
    subst (λ (u : Step). IsProper u.session) (some-injective _ _ e4)
      (record {
        sound = k.sound;
        running = k.generating ∙ p.running;
        distinct = p.distinct;
        peers = p.peers;
        outs = k.clients ∙ p.outs;
      })

disconnected-IsProper :
    (s : Session) (i : ℕ) (c : Client)
    → get_elem? s.clients i ≡ some c
    → IsProper s
    → IsProper (set_client i (disconnect c) s)
unfolding disconnect
disconnected-IsProper s i c here p =
    let near : Near s (set_client i (disconnect c) s) = record {
      peers = refl;
      map = refl;
      outs = refl;
    } in
    let same = names-set_same s.clients i c (disconnect c) here refl in
    Near-IsProper near p (subst Distinct (sym same) p.distinct)
      (length-set s.clients i (disconnect c))

pub disconnect_client-IsProper :
    (heap : Allocator) (i : ℕ) (msg : List ℕ) (s s' : Session)
    → disconnect_client heap i msg s ≡ some s'
    → IsProper s
    → IsProper s'
unfolding disconnect_client
disconnect_client-IsProper heap i msg s s' e p =
    let (c, found, e1) = >>=-eq-some (get_elem? s.clients i) _ e in
    let (t, e2, e3) = >>=-eq-some (farewell heap i msg s) _ e1 in
    let k = farewell-Talks heap i msg s t e2 in
    subst IsProper (some-injective _ _ e3) (
      disconnected-IsProper t i c (ap (λ cs. get_elem? cs i) k.clients ∙ found)
        (Talks-IsProper k p))

pub length-on_ident :
    (site : Site) (old_name old_key : List ℕ) (i : ℕ) (clients : List Client) (b : Buffer)
    (r : Login)
    → on_ident site old_name old_key i clients b ≡ some r
    → length r.clients ≡ length clients
unfolding admit
length-on_ident site old_name old_key i clients b r e =
    let k = on_ident-Checked site old_name old_key i clients b r e in
    ap (λ (l : Login). length l.clients) (sym k.login)
    ∙ length-set (set clients i k.client) i _
    ∙ length-set clients i k.client

pub on_version-Near :
    (heap : Allocator) (cfg : ServerConfig) (v : ℕ) (c : Client) (p : Peer) (i : ℕ) (s s' : Session)
    → on_version heap cfg v c p i s ≡ some s'
    → Near s s'
unfolding on_version
on_version-Near heap cfg v c p i s s' e =
    let p' = record p { ws_can_switch = false } in
    let s0 = set_client i (record c { protocol_version = v }) (set_peer i p' s) in
    let near0 : Near s s0 = record { peers = length-set s.peers i p'; map = refl; outs = refl } in
    let go = λ (t : Bool). if t then farewell heap i (codes "Client is too old!") s0 else some s0 in
    elim (Bool-cases (too_old cfg v)) [
      | inl old ↦
          Near-Talks near0
            (farewell-Talks heap i (codes "Client is too old!") s0 s' (sym (ap go old) ∙ e))
      | inr fine ↦ subst (Near s) (some-injective _ _ (sym (ap go fine) ∙ e)) near0
    ]

-- The clients are those of the login, whatever the messages.
pub record Ends (s : Session) (r : Login) (t : Session) : Type 0 where
  pub near : Near s t
  pub clients : t.clients ≡ r.clients

pub finish_ident-Ends :
    (heap : Allocator) (cfg : ServerConfig) (colours : List TextColour) (changeset : List ℕ)
    (refused : Option Refusal) (r : Login) (before : List Client) (i : ℕ) (s : Session)
    (step : Step)
    → finish_ident heap cfg colours changeset refused r before i s ≡ some step
    → Ends s r step.session
unfolding finish_ident
finish_ident-Ends heap cfg colours changeset (some why) r before i s step e =
    let told = record s { clients = before } in
    let (s3, e1, e2) = >>=-eq-some (farewell heap i (refusal_text why) told) _ e in
    let k = farewell-Talks heap i (refusal_text why) told s3 e1 in
    subst (λ (u : Step). Ends s r u.session) (some-injective _ _ e2)
      (record { near = record { peers = k.peers; map = k.map; outs = k.outs }; clients = refl })
finish_ident-Ends heap cfg colours changeset none r before i s step e =
    let logged_in = record s { clients = r.clients } in
    let (s4, e1, e2) =
      >>=-eq-some
        (if r.supports_cpe
          then on_out i (write_extinfo heap changeset) logged_in
          else login heap cfg colours i logged_in)
        _ e in
    let all : AllTalk logged_in (
        if r.supports_cpe
        then on_out i (write_extinfo heap changeset) logged_in
        else login heap cfg colours i logged_in) =
      AllTalk-if r.supports_cpe (on_out-Talks i _ logged_in)
        (login-Talks heap cfg colours i logged_in) in
    let k = all s4 e1 in
    subst (λ (u : Step). Ends s r u.session) (some-injective _ _ e2)
      (record {
        near = record { peers = k.peers; map = k.map; outs = k.outs };
        clients = k.clients;
      })
