-- ===== src/Tests/Sockets.antt =====
-- The WebSocket framing of src/client.c on concrete input.
use thirty.Prelude.{ℕ, ◌≤◌, ◌≡◌, refl, arith, none, some, List, [], ◌∷◌, ◌++◌, length, true, false}
use thirty.Buffer.{Buffer, live, tell, size}
use thirty.Buffer.Valid.{IsValid}
use thirty.Buffer.Stands.{Stands}
use thirty.Buffer.Transfer.{Appended}
use thirty.WebSocket.{Ws, wss_handle_header1, handle_packet, unmask, wrap_packet}
use thirty.WebSocket.Stream.{IsReady, Frame, sent, keep, keep_log}
use thirty.WebSocket.Progress.{handle_packet_ends}
use thirty.WebSocket.Wrap.{wrap_packet-Appended}
use thirty.Tests.Heap.{zeroing}

abbrev ping : Frame
ping = record { opcode = 2; key = 1 ∷ 2 ∷ 3 ∷ 4 ∷ []; payload = 43 ∷ 0 ∷ 7 ∷ 255 ∷ 9 ∷ [] }

abbrev nothing : Frame
nothing = record { opcode = 0; key = 0 ∷ 0 ∷ 0 ∷ 255 ∷ []; payload = [] }

abbrev frames : List Frame
frames = ping ∷ nothing ∷ []

abbrev received : Buffer
received = record {
  owned = true;
  grows = false;
  block = live;
  bytes = sent frames ++ (5 ∷ []);
  offset = 0;
}

abbrev fresh_socket : Ws
fresh_socket = record {
  state = wss_handle_header1;
  opcode = 0;
  frame_len = 0;
  frame_read = 0;
  key = 0 ∷ 0 ∷ 0 ∷ 0 ∷ [];
  frame = none;
  in_buffer = received;
}

fresh_socket-IsReady : IsReady fresh_socket
fresh_socket-IsReady = record { state = refl; frame_read = refl; key = refl }

frame_sizes : (length (sent frames) ≡ 17) × (size received ≡ 18)
unfolding unmask
frame_sizes = (refl, refl)

received-IsValid : IsValid received
received-IsValid = record {
  within = omega arith;
  small = omega (arith, frame_sizes.1);
  allocated = refl;
}

handle_packet_ends_example :
    (ws' : Ws) × (log : List (List ℕ)) × (handle_packet keep keep_log 9 18 18 fresh_socket []
      ≡ some (ws', log))
    × IsReady ws'
    × (18 ≤ tell ws'.in_buffer)
handle_packet_ends_example =
    handle_packet_ends keep keep_log 9 18 18 fresh_socket [] fresh_socket-IsReady received-IsValid
      (omega (arith, frame_sizes.1)) (omega arith)

abbrev socket_out : Buffer
socket_out = record {
  owned = true;
  grows = false;
  block = live;
  bytes = 0 ∷ 0 ∷ 0 ∷ 0 ∷ 0 ∷ 0 ∷ 0 ∷ [];
  offset = 0;
}

abbrev two_bytes : Buffer
two_bytes = record { owned = true; grows = false; block = live; bytes = 1 ∷ 7 ∷ 0 ∷ []; offset = 2 }

wrap_packet-Appended_example :
    Appended socket_out (0x82 ∷ 2 ∷ 1 ∷ 7 ∷ []) (wrap_packet zeroing socket_out two_bytes)
wrap_packet-Appended_example =
    wrap_packet-Appended zeroing socket_out two_bytes
      (record { within = omega arith; small = omega arith; allocated = refl })
      (record { within = omega arith; small = omega arith; allocated = refl }) (omega arith)
      (omega arith) (omega arith) (omega arith)
