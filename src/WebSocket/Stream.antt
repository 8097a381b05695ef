-- ===== src/WebSocket/Stream.antt =====
-- A whole read of frames from a client, through client_ws_handle_packet of src/client.c.
use thirty.Prelude.{ℕ, ◌^◌, ◌<◌, ◌≡◌, ◌⊎◌, List, [], ◌∷◌, ◌++◌, length, take, drop, All}
use thirty.Endian.{IsByte}
use thirty.Buffer.{Buffer}
use thirty.Buffer.Stands.{Stands, moved}
use thirty.WebSocket.{Ws, wss_handle_header1}
use thirty.WebSocket.Headers.{client_frame}

-- Between two frames.
pub record IsReady (ws : Ws) : Type 0 where
  pub state : ws.state ≡ wss_handle_header1
  pub frame_read : ws.frame_read ≡ 0
  pub key : length ws.key ≡ 4

pub record Frame : Type 0 where
  pub opcode : ℕ
  pub key : List ℕ
  pub payload : List ℕ

-- A frame of packets, within the length that its header can tell.
pub record IsBinary (f : Frame) : Type 0 where
  pub binary : (f.opcode ≡ 0) ⊎ (f.opcode ≡ 2)
  pub key : length f.key ≡ 4
  pub small : length f.payload < 2 ^ 16
  pub key_bytes : All IsByte f.key
  pub bytes : All IsByte f.payload

abbrev pub sent : List Frame → List ℕ
sent [] = []
sent (f ∷ fs) = client_frame f.opcode f.key f.payload ++ sent fs

-- A handler that takes the bytes it is given from the position of the frame on, and keeps them.
abbrev pub keep : Buffer → ℕ → List (List ℕ) → Buffer × List (List ℕ)
keep frame n log = (moved frame n, log ++ (take n (drop frame.offset frame.bytes) ∷ []))

abbrev pub keep_log : ℕ → List (List ℕ) → List (List ℕ)
keep_log code log = log
