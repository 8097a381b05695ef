-- ===== src/Protocol/Enter.antt =====
-- How a client enters: client_login, client_send_level, and the answer to `packet_ident`, src/client.c.
use thirty.Prelude.{
  ℕ, Bool, true, false, not, ◌&&◌, Option, none, some, List, [], ◌∷◌, ◌++◌, length, get_elem?, set,
  take, leb, ◌==◌, if◌then◌else◌,
}
use thirty.Prelude.Options.{◌>>=◌}
use thirty.Text.{codes}
use thirty.Word.{uint8, uint16, uint32, mul_size}
use thirty.Buffer.{Allocator, Buffer}
use thirty.Buffer.Typed.{write_uint8, write_uint16be, write_uint32be}
use thirty.Buffer.McStr.{write_mcstr}
use thirty.Config.Settings.{ServerConfig, TextColour}
use thirty.Server.{Client}
use thirty.Map.{Map}
use thirty.Login.{
  Site, Login, Refusal, server_full, name_in_use, user_banned, failed_authentication,
  not_on_whitelist, versioned, read_version, on_ident,
}
use thirty.Protocol.{
  Extension, Peer, Session, full_cp437, fast_map, custom_blocks, text_colors, supported_extensions,
  supports, on_out, set_peer, set_client, write_bytes, farewell,
}

-- The state after a packet, the input behind it, and whether the handling of the input ends with it.
pub record Step : Type 0 where
  pub session : Session
  pub in_buffer : Buffer
  pub ended : Bool

-- A level of 1 or more is no -1.
abbrev pub has_level : Option ℕ → Bool
has_level none = false
has_level (some level) = leb 1 level

abbrev pub is_unset : Option ℕ → Bool
is_unset none = true
is_unset (some level) = false

abbrev pub refusal_text : Refusal → List ℕ
refusal_text server_full = codes "This server is full."
refusal_text name_in_use = codes "Name already in use."
refusal_text user_banned = codes "You are banned from this server!"
refusal_text failed_authentication = codes "Authentication failed."
refusal_text not_on_whitelist = codes "You are not on the whitelist!"

abbrev pub too_old : ServerConfig → ℕ → Bool
too_old cfg v = not cfg.enable_old_clients && not (v == 7)

module _ (heap : Allocator) where
  -- `client_send_level`
  unfoldable pub send_level : ℕ → Session → Option Session
  send_level i s = get_elem? s.peers i >>= λ p.
      let m : Map = s.world.map in
      let fast = supports p.extensions fast_map 1 && has_level p.customblocks_support in
      let blocks = uint32 (mul_size (mul_size m.width m.depth) m.height) in
      on_out i
        (λ b.
          let b1 = write_uint8 heap b 0x02 in if fast then write_uint32be heap b1 blocks else b1)
        s
      >>= λ s1. some (set_peer i (record p { sending = fast ∷ p.sending }) s1)

  unfoldable pub write_ident : ServerConfig → Bool → Client → Buffer → Option Buffer
  write_ident cfg cp437 c b =
      let b1 = write_uint8 heap b 0x00 in
      let old = some (write_mcstr heap b1 [] false) in
      if leb 3 c.protocol_version
      then (cfg.name >>= λ name. cfg.motd >>= λ motd.
          let b2 = write_uint8 heap b1 c.protocol_version in
          let b3 = write_mcstr heap b2 name cp437 in
          let b4 = write_mcstr heap b3 motd cp437 in
          some (
            if leb 6 c.protocol_version
            then write_uint8 heap b4 (if c.is_op then 0x64 else 0x00)
            else b4))
      else old

  abbrev pub write_colours : List TextColour → Buffer → Buffer
  write_colours [] b = b
  write_colours (t ∷ ts) b =
      write_colours ts (write_bytes heap (0x27 ∷ t.r ∷ t.g ∷ t.b ∷ t.a ∷ uint8 t.code ∷ []) b)

  -- `client_login`
  unfoldable pub login : ServerConfig → List TextColour → ℕ → Session → Option Session
  login cfg colours i s = get_elem? s.clients i >>= λ c. get_elem? s.peers i >>= λ p.
      get_elem? s.world.clients i >>= λ b.
      let customblocks = supports p.extensions custom_blocks 1 in
      let b1 =
        if customblocks && is_unset p.customblocks_support
        then write_bytes heap (0x13 ∷ 1 ∷ []) b
        else b in
      write_ident cfg (supports p.extensions full_cp437 1) c b1 >>= λ b2.
      let b3 = if supports p.extensions text_colors 1 then write_colours colours b2 else b2 in
      on_out i (λ _. b3) s >>= λ s1. if customblocks then some s1 else send_level i s1

  abbrev pub write_entries : List Extension → Buffer → Buffer
  write_entries [] b = b
  write_entries ((name, version) ∷ es) b =
      let b1 = write_mcstr heap (write_uint8 heap b 0x11) name false in
      write_entries es (write_uint32be heap b1 version)

  -- The answer to a client that knows of extensions; `changeset` is HG_CHANGESET_HASH of the build.
  unfoldable pub write_extinfo : List ℕ → Buffer → Buffer
  write_extinfo changeset b =
      let b1 =
        write_mcstr heap (write_uint8 heap b 0x10) (take 64 (codes "Thirty " ++ changeset)) false in
      write_entries supported_extensions
        (write_uint16be heap b1 (uint16 (length supported_extensions)))

  -- The first byte of the login is the version `v`.
  unfoldable pub on_version : ServerConfig → ℕ → Client → Peer → ℕ → Session → Option Session
  on_version cfg v c p i s =
      let s0 =
        set_client i (record c { protocol_version = v })
          (set_peer i (record p { ws_can_switch = false }) s) in
      if too_old cfg v then farewell heap i (codes "Client is too old!") s0 else some s0

  -- The end of a login with the result `r`, by what was refused, for the state `s` behind its version and clients `before` the
  -- checks.
  unfoldable pub finish_ident :
      ServerConfig
      → List TextColour
      → List ℕ
      → Option Refusal
      → Login
      → List Client
      → ℕ
      → Session
      → Option Step
  finish_ident cfg colours changeset (some why) r before i s =
      farewell heap i (refusal_text why) (record s { clients = before }) >>= λ s3. some (record {
        session = record s3 { clients = r.clients };
        in_buffer = r.in_buffer;
        ended = true;
      })
  finish_ident cfg colours changeset none r before i s =
      let logged_in = record s { clients = r.clients } in
      (if r.supports_cpe
        then on_out i (write_extinfo changeset) logged_in
        else login cfg colours i logged_in)
      >>= λ s4. some (record { session = s4; in_buffer = r.in_buffer; ended = false })

  -- The messages that go out, with the changes of `on_ident` for the clients.
  unfoldable pub on_ident_packet :
      Site → List TextColour → List ℕ → List ℕ → List ℕ → ℕ → Buffer → Session → Option Step
  on_ident_packet site colours changeset old_name old_key i b s = get_elem? s.clients i >>= λ c.
      get_elem? s.peers i >>= λ p.
      let cfg : ServerConfig = site.config in
      let v = (read_version c.protocol_version b).0 in
      on_version cfg v.0 c p i s >>= λ s1. on_ident site old_name old_key i s.clients b >>= λ r.
      finish_ident cfg colours changeset r.refused r (set s1.clients i (versioned cfg v.0 v.1 c)) i
        s1
