-- ===== src/Protocol/Handle.antt =====
-- `client_handle_in_buffer` of src/client.c.
pub mod Progress
pub mod Ends
pub mod Proper
pub mod Steps
pub mod Stuck
pub mod Whole
use thirty.Prelude.{ℕ, zero, suc, Bool, true, Option, none, some, List, ltb, ◌==◌, if◌then◌else◌}
use thirty.Prelude.Options.{◌>>=◌}
use thirty.Text.{codes}
use thirty.Word.{uint8}
use thirty.Buffer.{Allocator, Buffer, tell}
use thirty.Buffer.Typed.{read_into, read_uint8}
use thirty.Config.Settings.{TextColour}
use thirty.Login.{Site}
use thirty.Protocol.{Session, disconnect_client}
use thirty.Protocol.Enter.{Step, on_ident_packet}
use thirty.Protocol.Packets.{
  on_extinfo, on_extentry, on_set_block_packet, on_message, on_pos_angle,
  on_custom_block_support_level, on_two_way_ping,
}

-- What the handlers are given: the allocator, how deep `map_set` may nest, what unset variables and arrays hold,
-- the configuration and the name lists, the revision of the build, and what an angle becomes as a `float`. What is
-- unset holds the same in every round: the array of the key holds `old_key`, the others `old`.
pub record Setting : Type 0 where
  pub heap : Allocator
  pub fuel : ℕ
  pub junk : ℕ
  pub old : List ℕ
  pub old_key : List ℕ
  pub site : Site
  pub colours : List TextColour
  pub changeset : List ℕ
  pub turn : ℕ → ℕ

pub data Outcome : Type 0 where
  handled : Session → Buffer → Outcome
  undefined unfinished : Outcome

module _ (set : Setting) (i : ℕ) where
  -- The packet that is not known.
  unfoldable pub on_unknown : Buffer → Session → Option Step
  on_unknown b s = disconnect_client set.heap i (codes "Received malformed data.") s >>= λ s1.
      some (record { session = s1; in_buffer = b; ended = true })

  unfoldable pub on_packet : ℕ → Buffer → Session → Option Step
  on_packet id b s =
      if id == 0x00
      then on_ident_packet set.heap set.site set.colours set.changeset set.old set.old_key i b s
      else if id == 0x10
      then on_extinfo set.junk set.old i b s
      else if id == 0x11
      then on_extentry set.junk set.old set.heap set.site set.colours i b s
      else if id == 0x05
      then on_set_block_packet set.junk set.old set.heap set.fuel i b s
      else if id == 0x0d
      then on_message set.junk set.old set.heap i b s
      else if id == 0x08
      then on_pos_angle set.junk set.old set.heap set.turn i b s
      else if id == 0x13
      then on_custom_block_support_level set.junk set.old set.heap i b s
      else if id == 0x2b
      then on_two_way_ping set.junk set.old set.heap i b s
      else on_unknown b s

  -- One round of the loop.
  unfoldable pub handle_one : Buffer → Session → Option Step
  handle_one b s = let (id, b1) = read_into read_uint8 (uint8 set.junk) b in on_packet id b1 s

  -- The loop for `r` bytes of input, in at most so many rounds.
  unfoldable pub handle_in_buffer : ℕ → ℕ → Buffer → Session → Outcome
  handle_in_buffer zero r b s = if ltb (tell b) r then unfinished else handled s b
  handle_in_buffer (suc n) r b s =
      if ltb (tell b) r
      then elim (handle_one b s) [
        | none ↦ undefined
        | some step ↦
            let rest = handle_in_buffer n r step.in_buffer step.session in
            if step.ended then handled step.session step.in_buffer else rest
      ]
      else handled s b
