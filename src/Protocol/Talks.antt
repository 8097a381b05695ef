-- ===== src/Protocol/Talks.antt =====
-- What the handlers that only write to clients, and note what these say, leave as it is; src/client.c.
use thirty.Prelude.{
  ℕ, zero, suc, ◌≡◌, refl, ap, subst, ◌∙◌, Bool, true, false, Option, some, List, [], ◌∷◌, ◌++◌,
  length, length-map, length-set, get_elem?, take, if◌then◌else◌,
}
use thirty.Prelude.Options.{◌>>=◌, >>=-eq-some}
use mathlib.Core.Option.{some-injective}
use thirty.Text.{codes}
use thirty.Word.{uint8}
use thirty.Buffer.{Allocator, Buffer}
use thirty.Config.Settings.{ServerConfig, TextColour}
use thirty.Server.{Client}
use thirty.Protocol.{
  Peer, Session, supports, full_cp437, custom_blocks, on_out, set_peer, set_outs, write_all,
  write_others, write_bytes, send_message, told_goodbye, broadcast, farewell,
}
use thirty.Protocol.Enter.{send_level, write_ident, login}

pub record Talks (s s' : Session) : Type 0 where
  pub clients : s'.clients ≡ s.clients
  pub peers : length s'.peers ≡ length s.peers
  pub map : s'.world.map ≡ s.world.map
  pub outs : length s'.world.clients ≡ length s.world.clients

pub Talks-refl : {s : Session} → Talks s s
Talks-refl = record { clients = refl; peers = refl; map = refl; outs = refl }

pub Talks-trans : {s t u : Session} → Talks s t → Talks t u → Talks s u
Talks-trans p q = record {
  clients = q.clients ∙ p.clients;
  peers = q.peers ∙ p.peers;
  map = q.map ∙ p.map;
  outs = q.outs ∙ p.outs;
}

abbrev pub AllTalk : Session → Option Session → Type 0
AllTalk s m = (s' : Session) → m ≡ some s' → Talks s s'

pub AllTalk-some : {s : Session} (t : Session) → Talks s t → AllTalk s (some t)
AllTalk-some {s} t p s' e = subst (Talks s) (some-injective _ _ e) p

pub AllTalk-asks :
    {A : Type 0} {s : Session} (m : Option A) (f : A → Option Session)
    → ((a : A) → AllTalk s (f a))
    → AllTalk s (m >>= f)
AllTalk-asks m f p s' e = let (a, e1, e2) = >>=-eq-some m f e in p a s' e2

pub AllTalk-then :
    {s : Session} (m : Option Session) (f : Session → Option Session)
    → AllTalk s m
    → ((t : Session) → AllTalk t (f t))
    → AllTalk s (m >>= f)
AllTalk-then m f p q s' e = let (t, e1, e2) = >>=-eq-some m f e in Talks-trans (p t e1) (q t s' e2)

pub AllTalk-if :
    {s : Session} {f g : Option Session} (t : Bool)
    → AllTalk s f
    → AllTalk s g
    → AllTalk s (if t then f else g)
AllTalk-if true p q = p
AllTalk-if false p q = q

pub set_peer-Talks : (i : ℕ) (p : Peer) (s : Session) → Talks s (set_peer i p s)
set_peer-Talks i p s = record {
  clients = refl;
  peers = length-set s.peers i p;
  map = refl;
  outs = refl;
}

pub set_outs-Talks :
    (outs : List Buffer) (s : Session)
    → length outs ≡ length s.world.clients
    → Talks s (set_outs outs s)
set_outs-Talks outs s e = record { clients = refl; peers = refl; map = refl; outs = e }

pub on_out-Talks : (i : ℕ) (f : Buffer → Buffer) (s : Session) → AllTalk s (on_out i f s)
unfolding on_out
on_out-Talks i f s =
    AllTalk-asks (get_elem? s.world.clients i) _
      (λ out. AllTalk-some _ (set_outs-Talks _ s (length-set s.world.clients i (f out))))

length-write_all :
    (f : Client → Peer → Buffer → Buffer) (cs : List Client) (ps : List Peer) (bs : List Buffer)
    → length (write_all f cs ps bs) ≡ length bs
length-write_all f (c ∷ cs) (p ∷ ps) (b ∷ bs) = ap suc (length-write_all f cs ps bs)
length-write_all f [] ps bs = refl
length-write_all f (c ∷ cs) [] bs = refl
length-write_all f (c ∷ cs) (p ∷ ps) [] = refl

pub length-write_others :
    (i : ℕ) (f : Buffer → Buffer) (bs : List Buffer) → length (write_others i f bs) ≡ length bs
length-write_others i f [] = refl
length-write_others zero f (b ∷ bs) = ap suc (length-map f bs)
length-write_others (suc i) f (b ∷ bs) = ap suc (length-write_others i f bs)

module _ (heap : Allocator) where
  pub broadcast-Talks : (text : List ℕ) (s : Session) → Talks s (broadcast heap text s)
  unfolding broadcast
  broadcast-Talks text s =
      set_outs-Talks _ s
        (length-write_all (send_message heap (take 64 text)) s.clients s.peers s.world.clients)

  pub farewell-Talks : (i : ℕ) (msg : List ℕ) (s : Session) → AllTalk s (farewell heap i msg s)
  unfolding farewell
  farewell-Talks i msg s = AllTalk-asks (get_elem? s.clients i) _ (λ c.
      AllTalk-asks (get_elem? s.peers i) _ (λ p.
        AllTalk-then (told_goodbye heap i msg c p s) _
          (AllTalk-if c.connected (on_out-Talks i _ s) (AllTalk-some s Talks-refl))
          (λ s1.
            let text = codes "&e" ++ c.name ++ codes " &fdisconnected (" ++ msg ++ codes ")" in
            let s2 = broadcast heap text s1 in
            let outs =
              write_others i (write_bytes heap (0x0c ∷ uint8 c.idx ∷ [])) s2.world.clients in
            AllTalk-if c.spawned
              (AllTalk-some (set_outs outs s2) (
                Talks-trans (broadcast-Talks text s1)
                  (set_outs-Talks outs s2 (length-write_others i _ s2.world.clients))))
              (AllTalk-some s1 Talks-refl))))

  pub send_level-Talks : (i : ℕ) (s : Session) → AllTalk s (send_level heap i s)
  unfolding send_level
  send_level-Talks i s = AllTalk-asks (get_elem? s.peers i) _ (λ p.
      AllTalk-then (on_out i _ s) _ (on_out-Talks i _ s)
        (λ s1. AllTalk-some _ (set_peer-Talks i _ s1)))

  pub login-Talks :
      (cfg : ServerConfig) (colours : List TextColour) (i : ℕ) (s : Session)
      → AllTalk s (login heap cfg colours i s)
  unfolding login
  login-Talks cfg colours i s = AllTalk-asks (get_elem? s.clients i) _ (λ c.
      AllTalk-asks (get_elem? s.peers i) _ (λ p. AllTalk-asks (get_elem? s.world.clients i) _ (λ b.
        AllTalk-asks (write_ident heap cfg (supports p.extensions full_cp437 1) c _) _ (λ b2.
          AllTalk-then (on_out i _ s) _ (on_out-Talks i _ s) (λ s1.
            AllTalk-if (supports p.extensions custom_blocks 1) (AllTalk-some s1 Talks-refl)
              (send_level-Talks i s1))))))
