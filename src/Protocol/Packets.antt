-- ===== src/Protocol/Packets.antt =====
-- The other packets of client_handle_in_buffer, src/client.c, each behind its first byte. `junk` and `old` are
-- what the variables hold that were not set.
use thirty.Prelude.{
  ℕ, suc, false, Option, some, List, [], ◌∷◌, ◌++◌, map, length, get_elem?, take, drop, replicate,
  ◌==◌, if◌then◌else◌,
}
use thirty.Prelude.Options.{◌>>=◌}
use thirty.Text.{codes}
use thirty.Word.{uint8, uint16, uint32, sub_size}
use thirty.Buffer.{Allocator, Buffer}
use thirty.Buffer.Typed.{write_uint16be, read_into, read_uint8, read_uint16be, read_uint32be}
use thirty.Buffer.McStr.{read_mcstr, c_string}
use thirty.Config.Settings.{TextColour}
use thirty.Login.{Site}
use thirty.SetBlock.{on_set_block}
use thirty.Protocol.{
  Extension, Session, on_out, set_peer, set_outs, write_others, write_bytes, broadcast,
}
use thirty.Protocol.Enter.{Step, login, send_level}

abbrev pub going : Session → Buffer → Step
going s b = record { session = s; in_buffer = b; ended = false }

-- The state that a handler comes to, with the input behind the packet.
unfoldable pub finish : Buffer → Option Session → Option Step
finish b m = m >>= λ s. some (going s b)

-- The name without its zero byte, over 65 bytes of an entry that is zero.
unfoldable pub fill_free : List Extension → Extension → ℕ × List Extension
fill_free [] e = (0, [])
fill_free (([], v) ∷ es) e = (0, e ∷ es)
fill_free ((n ∷ ns, v) ∷ es) e = let (i, rest) = fill_free es e in (suc i, (n ∷ ns, v) ∷ rest)

abbrev pub unpercent : ℕ → ℕ
unpercent c = if c == b'%' then b'&' else c

module _ (junk : ℕ) (old : List ℕ) where
  unfoldable pub on_extinfo : ℕ → Buffer → Session → Option Step
  on_extinfo i b s = get_elem? s.peers i >>= λ p. read_mcstr old b >>= λ (appname, b1).
      let (count, b2) = read_into read_uint16be (uint16 junk) b1 in
      some (going (set_peer i (record p { extensions = replicate count ([], 0) }) s) b2)

  -- The first free entry is filled; the test in the loop for an overrun is never true. A client that has
  -- filled its last entry logs in.
  unfoldable pub on_extentry :
      Allocator → Site → List TextColour → ℕ → Buffer → Session → Option Step
  on_extentry heap site colours i b s = get_elem? s.peers i >>= λ p.
      read_mcstr old b >>= λ (name, b1).
      let (version, b2) = read_into read_uint32be (uint32 junk) b1 in
      let (j, es) = fill_free p.extensions (c_string name, version) in
      let s1 = set_peer i (record p { extensions = es }) s in
      finish b2 (
        if j == sub_size (length p.extensions) 1
        then login heap site.config colours i s1
        else some s1)

  unfoldable pub on_set_block_packet : Allocator → ℕ → ℕ → Buffer → Session → Option Step
  on_set_block_packet heap fuel i b s = get_elem? s.clients i >>= λ c.
      on_set_block heap fuel junk c.is_op i b s.world >>= λ (w, b1).
      some (going (record s { world = w }) b1)

  unfoldable pub on_message : Allocator → ℕ → Buffer → Session → Option Step
  on_message heap i b s = get_elem? s.clients i >>= λ c.
      let (unused, b1) = read_into read_uint8 (uint8 junk) b in
      read_mcstr old b1 >>= λ (msg, b2).
      let said = c_string (map unpercent (take 64 msg) ++ drop 64 msg) in
      let text = codes "&e" ++ c.name ++ codes ": &f" ++ said in
      some (going (if c.spawned then broadcast heap text s else s) b2)

  -- A coordinate goes through `float` unchanged; `turn` is what an angle becomes on its way through
  -- `util_fixed2degrees` and `util_degrees2fixed`.
  unfoldable pub on_pos_angle : Allocator → (ℕ → ℕ) → ℕ → Buffer → Session → Option Step
  on_pos_angle heap turn i b s = get_elem? s.clients i >>= λ c. get_elem? s.peers i >>= λ p.
      let (unused, b1) = read_into read_uint8 (uint8 junk) b in
      let (x, b2) = read_into read_uint16be (uint16 junk) b1 in
      let (y, b3) = read_into read_uint16be (uint16 junk) b2 in
      let (z, b4) = read_into read_uint16be (uint16 junk) b3 in
      let (yaw, b5) = read_into read_uint8 (uint8 junk) b4 in
      let (pitch, b6) = read_into read_uint8 (uint8 junk) b5 in
      let s1 = set_peer i (record p { x = x; y = y; z = z; yaw = yaw; pitch = pitch }) s in
      let move = λ (out : Buffer).
        let out1 = write_bytes heap (0x08 ∷ uint8 c.idx ∷ []) out in
        let out2 = write_uint16be heap (write_uint16be heap (write_uint16be heap out1 x) y) z in
        write_bytes heap (turn yaw ∷ turn pitch ∷ []) out2 in
      some (going (set_outs (write_others i move s1.world.clients) s1) b6)

  unfoldable pub on_custom_block_support_level : Allocator → ℕ → Buffer → Session → Option Step
  on_custom_block_support_level heap i b s = get_elem? s.peers i >>= λ p.
      let (level, b1) = read_into read_uint8 (uint8 junk) b in
      finish b1 (send_level heap i (set_peer i (record p { customblocks_support = some level }) s))

  -- The answer to a ping of the server only sets the time that it took.
  unfoldable pub on_two_way_ping : Allocator → ℕ → Buffer → Session → Option Step
  on_two_way_ping heap i b s =
      let (direction, b1) = read_into read_uint8 (uint8 junk) b in
      let (value, b2) = read_into read_uint16be (uint16 junk) b1 in
      let echo =
        on_out i (λ out. write_uint16be heap (write_bytes heap (0x2b ∷ direction ∷ []) out) value)
          s in
      finish b2 (if direction == 0 then echo else some s)
