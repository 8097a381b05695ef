-- ===== src/WebSocket.antt =====
-- The WebSocket framing of src/client.c: the frames of a client, which are masked, and those of the
-- server, which are not. `ws_mask_read`, which nothing reads, is left out.
pub mod Masks
pub mod Frames
pub mod Headers
pub mod Stream
pub mod Progress
pub mod Wrap
use Prim.Native.Nat.{bit_xor}
use thirty.Prelude.{
  ℕ, zero, suc, ◌+◌, ◌%◌, ◌^◌, ◌≡◌, Bool, true, false, ◌||◌, Option, none, some, List, [], ◌∷◌, ltb,
  leb, ◌==◌, if◌then◌else◌, length, get_or, take, overwrite,
}
use thirty.Word.{sub_size, uint8, uint16}
use thirty.Buffer.{Allocator, Buffer, size, tell, seek, allocate_memory, read, write}
use thirty.Buffer.Typed.{read_into, read_uint8, read_uint16be, write_uint8, write_uint16be}

pub data Wss : Type 0 where
  wss_handle_header1 wss_extended_length1 wss_mask wss_data : Wss

pub record Ws : Type 0 where
  pub state : Wss
  pub opcode : ℕ
  pub frame_len : ℕ
  pub frame_read : ℕ
  pub key : List ℕ
  pub frame : Option Buffer
  pub in_buffer : Buffer

-- `data[i] ^= ws_mask[i & 3]`, from index `i` on for `n` bytes.
unfoldable pub unmask : List ℕ → ℕ → ℕ → List ℕ → List ℕ
unmask key i zero ds = ds
unmask key i (suc n) [] = []
unmask key i (suc n) (d ∷ ds) = bit_xor d (get_or key (i % 4) 0) ∷ unmask key (suc i) n ds

-- The frame to fill: a new one if there is none or it is too small.
abbrev pub frame_for : ℕ → Option Buffer → Buffer
frame_for n none = seek (allocate_memory n false) 0
frame_for n (some f) = if ltb (size f) n then seek (allocate_memory n false) 0 else seek f 0

-- What the packets of a frame and the closing of a connection do to the rest of the client is handed
-- in.
-- `handle_in_buffer` also leaves its position in the frame.
module _ {S : Type 0} (handle_in_buffer : Buffer → ℕ → S → Buffer × S)
    (disconnect : ℕ → S → S) where
  unfoldable pub dispatch : ℕ → Buffer → ℕ → S → Buffer × S
  dispatch opcode frame n s =
      if opcode == 0 || opcode == 2
      then handle_in_buffer frame n s
      else if opcode == 8
      then (frame, disconnect 1000 s)
      else (frame, disconnect 1003 s)

  -- `client_ws_decode_frame`, with the frame's buffer.
  unfoldable pub decode_frame : Ws → Buffer → S → Buffer × S
  decode_frame ws f s =
      let g = record f { bytes = unmask ws.key 0 ws.frame_len f.bytes } in
      dispatch ws.opcode g ws.frame_len s

  unfoldable pub on_data : Ws → S → Ws × S
  on_data ws s =
      let f = frame_for ws.frame_len ws.frame in
      let copy = sub_size ws.frame_len ws.frame_read in
      let (bs, b) = read ws.in_buffer copy in
      let g = record f { bytes = overwrite f.bytes ws.frame_read bs } in
      let done = (ws.frame_read + copy) % 2 ^ 32 in
      let (h, s') = decode_frame ws g s in
      if done == ws.frame_len
      then (
        record ws { state = wss_handle_header1; frame_read = 0; frame = some h; in_buffer = b },
        s',
      )
      else (record ws { frame_read = done; frame = some g; in_buffer = b }, s)

  unfoldable pub on_mask : Ws → S → Ws × S
  on_mask ws s =
      let (bs, b) = read ws.in_buffer 4 in
      on_data (record ws { state = wss_data; key = overwrite ws.key 0 bs; in_buffer = b }) s

  -- `junk` is what a variable holds that was not set.
  module _ (junk : ℕ) where
    unfoldable pub on_extended_length : Ws → S → Ws × S
    on_extended_length ws s =
        let (n, b) = read_into read_uint16be (uint16 junk) ws.in_buffer in
        on_mask (record ws { state = wss_mask; frame_len = n; in_buffer = b }) s

    unfoldable pub on_flags : ℕ → Ws → S → Ws × S
    on_flags flags ws s =
        if flags == 127
        then (ws, disconnect 1009 s)
        else if flags == 126
        then on_extended_length (record ws { state = wss_extended_length1 }) s
        else on_mask (record ws { state = wss_mask; frame_len = flags }) s

    unfoldable pub on_header : Ws → S → Ws × S
    on_header ws s =
        let (t, b) = read_into read_uint8 (uint8 junk) ws.in_buffer in
        let (u, c) = read_into read_uint8 t b in
        on_flags (u % 128) (record ws { opcode = t % 16; in_buffer = c }) s

    unfoldable pub handle_chunk : Ws → S → Ws × S
    handle_chunk ws s = elim ws.state [
      | wss_handle_header1 ↦ on_header ws s
      | wss_extended_length1 ↦ on_extended_length ws s
      | wss_mask ↦ on_mask ws s
      | wss_data ↦ on_data ws s
    ]

    -- The loop over the `len` bytes received, for at most `fuel` rounds; `none` if that is too few.
    unfoldable pub handle_packet : ℕ → ℕ → Ws → S → Option (Ws × S)
    handle_packet zero len ws s = if ltb (tell ws.in_buffer) len then none else some (ws, s)
    handle_packet (suc fuel) len ws s =
        let (ws', s') = handle_chunk ws s in
        let rest = handle_packet fuel len ws' s' in
        if ltb (tell ws.in_buffer) len then rest else some (ws, s)

-- `client_ws_wrap_packet`: the output buffer of the socket, for what `buffer` holds.
unfoldable pub wrap_packet : Allocator → Buffer → Buffer → Buffer
wrap_packet heap out buffer =
    let data_len = tell buffer in
    let o1 = write_uint8 heap out 0x82 in
    let long = write_uint16be heap (write_uint8 heap o1 126) (uint16 data_len) in
    let o2 = if leb 126 data_len then long else write_uint8 heap o1 data_len in
    if data_len == 0 then out else (write heap o2 (take data_len buffer.bytes)).1
