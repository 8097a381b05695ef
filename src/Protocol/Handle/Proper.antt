-- ===== src/Protocol/Handle/Proper.antt =====
-- What the handling of a client's input keeps, src/client.c.
use thirty.Prelude.{
  ℕ, ◌≡◌, sym, ap, subst, ◌∙◌, Bool, true, false, Option, some, List, length, get_elem?, ◌==◌,
  if◌then◌else◌,
}
use thirty.Prelude.Options.{◌>>=◌, >>=-eq-some}
use mathlib.Core.Option.{some-injective}
use thirty.Word.{uint8, uint32, sub_size}
use thirty.Buffer.{Allocator, Buffer}
use thirty.Buffer.Typed.{read_into, read_uint8, read_uint32be}
use thirty.Buffer.McStr.{read_mcstr, c_string}
use thirty.Config.Settings.{TextColour}
use thirty.Map.{Map}
use thirty.Map.Index.{IsWf}
use thirty.World.Ticks.{TicksInside}
use thirty.World.Keeps.{IsSound}
use thirty.Login.{Site}
use thirty.Login.Names.{Distinct, names}
use thirty.Protocol.{Session, broadcast, set_peer}
use thirty.Protocol.Talks.{
  Talks, Talks-refl, Talks-trans, AllTalk, AllTalk-some, AllTalk-if, set_peer-Talks, set_outs-Talks,
  on_out-Talks, length-write_others, broadcast-Talks, send_level-Talks, login-Talks,
}
use thirty.Protocol.Enter.{Step}
use thirty.Protocol.Packets.{
  going, finish, fill_free, on_extinfo, on_extentry, on_message, on_pos_angle,
  on_custom_block_support_level, on_two_way_ping,
}

-- The map is well formed and its ticks stand inside it, it is not being generated, no two clients have the same
-- name, and there is one entry for each client in each list.
pub record IsProper (s : Session) : Type 0 where
  pub sound : IsSound s.world
  pub running : s.world.map.generating ≡ false
  pub distinct : Distinct (names s.clients)
  pub peers : length s.peers ≡ length s.clients
  pub outs : length s.world.clients ≡ length s.clients

abbrev pub Keeps : Session → Option Step → Type 0
Keeps s r = (step : Step) → r ≡ some step → IsProper s → IsProper step.session

pub Talks-IsProper : {s s' : Session} → Talks s s' → IsProper s → IsProper s'
Talks-IsProper {s} {s'} t p = record {
  sound = record {
    wf = subst IsWf (sym t.map) p.sound.wf;
    ticks = subst (λ m. TicksInside m m.ticks) (sym t.map) p.sound.ticks;
  };
  running = ap (λ (m : Map). m.generating) t.map ∙ p.running;
  distinct = subst (λ cs. Distinct (names cs)) (sym t.clients) p.distinct;
  peers = t.peers ∙ p.peers ∙ sym (ap length t.clients);
  outs = t.outs ∙ p.outs ∙ sym (ap length t.clients);
}

pub Keeps-some : (s : Session) (step : Step) → Talks s step.session → Keeps s (some step)
Keeps-some s step t step' e p =
    subst (λ (u : Step). IsProper u.session) (some-injective _ _ e) (Talks-IsProper t p)

pub Keeps-asks :
    {A : Type 0} (s : Session) (m : Option A) (f : A → Option Step)
    → ((a : A) → m ≡ some a → Keeps s (f a))
    → Keeps s (m >>= f)
Keeps-asks s m f k step e = let (a, e1, e2) = >>=-eq-some m f e in k a e1 step e2

pub Keeps-if :
    {s : Session} {f g : Option Step} (t : Bool)
    → Keeps s f
    → Keeps s g
    → Keeps s (if t then f else g)
Keeps-if true p q = p
Keeps-if false p q = q

finish-Keeps : (s : Session) (b : Buffer) (m : Option Session) → AllTalk s m → Keeps s (finish b m)
unfolding finish
finish-Keeps s b m k = Keeps-asks s m _ (λ t e. Keeps-some s (going t b) (k t e))

module _ (junk : ℕ) (old : List ℕ) (heap : Allocator) (i : ℕ) (b : Buffer) (s : Session) where
  pub on_extinfo-Keeps : Keeps s (on_extinfo junk old i b s)
  unfolding on_extinfo
  on_extinfo-Keeps =
      Keeps-asks s (get_elem? s.peers i) _
        (λ p e. Keeps-asks s (read_mcstr old b) _ (λ r e1. Keeps-some s _ (set_peer-Talks i _ s)))

  pub on_extentry-Keeps :
      (site : Site) (colours : List TextColour)
      → Keeps s (on_extentry junk old heap site colours i b s)
  unfolding on_extentry
  on_extentry-Keeps site colours = Keeps-asks s (get_elem? s.peers i) _ (λ p e.
      Keeps-asks s (read_mcstr old b) _ (λ r e1.
        let (version, b2) = read_into read_uint32be (uint32 junk) r.1 in
        let (j, es) = fill_free p.extensions (c_string r.0, version) in
        let s1 = set_peer i (record p { extensions = es }) s in
        let t = set_peer-Talks i (record p { extensions = es }) s in
        finish-Keeps s b2 _ (
          AllTalk-if (j == sub_size (length p.extensions) 1)
            (λ s' e'. Talks-trans t (login-Talks heap site.config colours i s1 s' e'))
            (AllTalk-some s1 t))))

  pub on_message-Keeps : Keeps s (on_message junk old heap i b s)
  unfolding on_message
  on_message-Keeps = Keeps-asks s (get_elem? s.clients i) _ (λ c e.
      Keeps-asks s (read_mcstr old (read_into read_uint8 (uint8 junk) b).1) _
        (λ r e1. Keeps-some s _ (said c.spawned _)))
    where
      said : (t : Bool) (text : List ℕ) → Talks s (if t then broadcast heap text s else s)
      said true text = broadcast-Talks heap text s
      said false text = Talks-refl

  pub on_pos_angle-Keeps : (turn : ℕ → ℕ) → Keeps s (on_pos_angle junk old heap turn i b s)
  unfolding on_pos_angle
  on_pos_angle-Keeps turn = Keeps-asks s (get_elem? s.clients i) _ (λ c e.
      Keeps-asks s (get_elem? s.peers i) _ (λ p e1. Keeps-some s _ (
        Talks-trans (set_peer-Talks i _ s)
          (set_outs-Talks _ _ (length-write_others i _ s.world.clients)))))

  pub on_level-Keeps : Keeps s (on_custom_block_support_level junk old heap i b s)
  unfolding on_custom_block_support_level
  on_level-Keeps = Keeps-asks s (get_elem? s.peers i) _ (λ p e.
      finish-Keeps s _ _
        (λ s' e'. Talks-trans (set_peer-Talks i _ s) (send_level-Talks heap i _ s' e')))

  pub on_two_way_ping-Keeps : Keeps s (on_two_way_ping junk old heap i b s)
  unfolding on_two_way_ping
  on_two_way_ping-Keeps =
      finish-Keeps s _ _ (AllTalk-if _ (on_out-Talks i _ s) (AllTalk-some s Talks-refl))
