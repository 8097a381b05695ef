-- ===== src/Protocol/Handle/Progress.antt =====
-- Each packet moves the input on, so the loop of client_handle_in_buffer, src/client.c, ends.
use thirty.Prelude.{ℕ, ◌≡◌, subst, Option, some, List, get_elem?}
use thirty.Prelude.Options.{◌>>=◌, >>=-eq-some}
use mathlib.Core.Option.{some-injective}
use thirty.Word.{uint8, uint16, uint32}
use thirty.Endian.{little, big}
use thirty.Buffer.{Allocator, Buffer}
use thirty.Buffer.Valid.{IsValid}
use thirty.Buffer.Typed.{read_into, read_uint8, read_uint16be}
use thirty.Buffer.McStr.{read_mcstr}
use thirty.Buffer.Later.{Later, Later-trans, Later-refl, read_into-Later, read_mcstr-Later}
use thirty.Config.Settings.{TextColour}
use thirty.Login.{Site}
use thirty.SetBlock.{read_fields, change_block, on_set_block}
use thirty.Protocol.{Session}
use thirty.Protocol.Enter.{Step}
use thirty.Protocol.Packets.{
  going, finish, on_extinfo, on_extentry, on_set_block_packet, on_message, on_pos_angle,
  on_custom_block_support_level, on_two_way_ping,
}

-- A handler leaves the input further on.
abbrev pub Forward : Buffer → Option Step → Type 0
Forward b r = (step : Step) → r ≡ some step → Later b step.in_buffer

-- The last step of a handler.
pub Forward-some : (b : Buffer) (step : Step) → Later b step.in_buffer → Forward b (some step)
Forward-some b step l step' e = subst (λ t. Later b t.in_buffer) (some-injective _ _ e) l

pub Forward-asks :
    {A : Type 0} (b : Buffer) (m : Option A) (f : A → Option Step)
    → ((a : A) → m ≡ some a → Forward b (f a))
    → Forward b (m >>= f)
Forward-asks b m f p step e = let (a, e1, e2) = >>=-eq-some m f e in p a e1 step e2

finish-Forward : (b c : Buffer) (m : Option Session) → Later b c → Forward b (finish c m)
unfolding finish
finish-Forward b c m l = Forward-asks b m _ (λ s e. Forward-some b (going s c) l)

byte-Later : (old : ℕ) (b c : Buffer) → Later b c → Later b (read_into read_uint8 old c).1
byte-Later old b c l = Later-trans l (read_into-Later little 1 old c l.valid)

word-Later : (old : ℕ) (b c : Buffer) → Later b c → Later b (read_into read_uint16be old c).1
word-Later old b c l = Later-trans l (read_into-Later big 2 old c l.valid)

module _ (junk : ℕ) (old : List ℕ) (heap : Allocator) (i : ℕ) (b : Buffer) (s : Session)
    (v : IsValid b) where
  pub on_extinfo-Forward : Forward b (on_extinfo junk old i b s)
  unfolding on_extinfo
  on_extinfo-Forward = Forward-asks b (get_elem? s.peers i) _ (λ p e.
      Forward-asks b (read_mcstr old b) _ (λ r e1.
        Forward-some b _ (word-Later (uint16 junk) b r.1 (read_mcstr-Later old r.0 b r.1 v e1))))

  pub on_extentry-Forward :
      (site : Site) (colours : List TextColour)
      → Forward b (on_extentry junk old heap site colours i b s)
  unfolding on_extentry
  on_extentry-Forward site colours = Forward-asks b (get_elem? s.peers i) _ (λ p e.
      Forward-asks b (read_mcstr old b) _ (λ r e1.
        let l = read_mcstr-Later old r.0 b r.1 v e1 in
        finish-Forward b _ _ (Later-trans l (read_into-Later big 4 (uint32 junk) r.1 l.valid))))

  fields-Later : Later b (read_fields junk b).1
  unfolding read_fields
  fields-Later =
      byte-Later _ b _
        (byte-Later _ b _ (word-Later _ b _ (word-Later _ b _ (word-Later _ b b (Later-refl v)))))

  pub on_set_block-Forward : (fuel : ℕ) → Forward b (on_set_block_packet junk old heap fuel i b s)
  unfolding on_set_block_packet on_set_block
  on_set_block-Forward fuel = Forward-asks b (get_elem? s.clients i) _ (λ c e.
      Forward-asks b (on_set_block heap fuel junk c.is_op i b s.world) _ (λ r e1.
        let (w, e2, e3) = >>=-eq-some (change_block heap fuel c.is_op i _ _ _ _ _ s.world) _ e1 in
        Forward-some b _ (subst (λ t. Later b t.1) (some-injective _ _ e3) fields-Later)))

  pub on_message-Forward : Forward b (on_message junk old heap i b s)
  unfolding on_message
  on_message-Forward = Forward-asks b (get_elem? s.clients i) _ (λ c e.
      let l = byte-Later (uint8 junk) b b (Later-refl v) in
      Forward-asks b (read_mcstr old (read_into read_uint8 (uint8 junk) b).1) _
        (λ r e1. Forward-some b _ (Later-trans l (read_mcstr-Later old r.0 _ r.1 l.valid e1))))

  pub on_pos_angle-Forward : (turn : ℕ → ℕ) → Forward b (on_pos_angle junk old heap turn i b s)
  unfolding on_pos_angle
  on_pos_angle-Forward turn = Forward-asks b (get_elem? s.clients i) _ (λ c e.
      Forward-asks b (get_elem? s.peers i) _ (λ p e1. Forward-some b _ (
        byte-Later _ b _ (
          byte-Later _ b _ (
            word-Later _ b _
              (word-Later _ b _ (word-Later _ b _ (byte-Later _ b b (Later-refl v)))))))))

  pub on_level-Forward : Forward b (on_custom_block_support_level junk old heap i b s)
  unfolding on_custom_block_support_level
  on_level-Forward =
      Forward-asks b (get_elem? s.peers i) _
        (λ p e. finish-Forward b _ _ (byte-Later _ b b (Later-refl v)))

  pub on_two_way_ping-Forward : Forward b (on_two_way_ping junk old heap i b s)
  unfolding on_two_way_ping
  on_two_way_ping-Forward =
      finish-Forward b _ _ (word-Later _ b _ (byte-Later _ b b (Later-refl v)))
