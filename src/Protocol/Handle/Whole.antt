-- ===== src/Protocol/Handle/Whole.antt =====
-- Whatever a client sends, the state of the server stays proper; src/client.c.
use thirty.Prelude.{ℕ, ◌⊎◌, ◌≡◌, false, none, ◌==◌}
use thirty.Word.{uint8}
use thirty.Buffer.{Buffer}
use thirty.Buffer.Typed.{read_into, read_uint8}
use thirty.Protocol.{Session}
use thirty.Protocol.Handle.{Setting, Outcome, handled, undefined, unfinished, handle_one}
use thirty.SetBlock.{read_fields}
use thirty.Protocol.Handle.Stuck.{BadPlace}
use thirty.Protocol.Handle.Proper.{IsProper}

module _ (given : Setting) (i : ℕ) where
  -- A round that the language does not define, though the state is proper. If its packet changes a block, then
  -- for the block or its place.
  pub record IsStuck (b : Buffer) (s : Session) : Type 0 where
    pub proper : IsProper s
    pub undefined_round : handle_one given i b s ≡ none
    pub placing :
        let (id, b1) = read_into read_uint8 (uint8 given.junk) b in
        ((id == 0x05) ≡ false) ⊎ BadPlace s i (read_fields given.junk b1).0

  -- How the loop may end: stuck in a round, or in a proper state.
  abbrev Proper : Outcome → Type 0
  Proper (handled s b) = IsProper s
  Proper undefined = (s : Session) × (b : Buffer) × IsStuck b s
  Proper unfinished = Unit
