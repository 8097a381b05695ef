-- ===== src/WebSocket/Wrap.antt =====
-- client_ws_wrap_packet of src/client.c: the frame around what is sent.
use thirty.Prelude.{
  ℕ, ◌+◌, ◌%◌, ◌^◌, ◌≤◌, ◌<◌, ◌≢◌, ◌≡◌, sym, arith, Bool-cases, inl, inr, some, subst, false, List,
  [], ◌∷◌, ◌++◌, leb, ◌==◌, if◌then◌else◌, length, length-take, length-append,
}
use mathlib.Core.Option.{some-injective}
use thirty.Prelude.Options.{◌>>=◌}
use thirty.Word.{uint16}
use thirty.Endian.{little, big, encode, length-encode}
use thirty.Buffer.{Allocator, Buffer, tell, size, write}
use thirty.Buffer.Valid.{IsValid}
use thirty.Buffer.Transfer.{Appended, written}
use thirty.Buffer.Emits.{Emits, Emits-then, word-Emits, bytes-Emits}
use thirty.Buffer.Typed.{write_uint8, write_uint16be}
use thirty.WebSocket.{wrap_packet}

-- The length of an unmasked frame.
abbrev pub server_length : ℕ → List ℕ
server_length n = if leb 126 n then 126 ∷ encode big 2 n else n ∷ []

-- A final frame of binary data from the server.
abbrev pub server_frame : List ℕ → List ℕ
server_frame ds = 0x82 ∷ (server_length (length ds) ++ ds)

module _ (heap : Allocator) where
  byte-Emits : (x : ℕ) → x < 256 → Emits (λ b. some (write_uint8 heap b x)) (x ∷ [])
  byte-Emits x h =
      let low : x % 256 ≡ x = omega (arith, h) in
      subst (λ y. Emits (λ b. some (write_uint8 heap b x)) (y ∷ [])) low
        (word-Emits heap little 1 x)

  wrap_packet-Emits :
      (buffer : Buffer)
      → tell buffer ≢ 0
      → tell buffer < 2 ^ 16
      → Emits
          (λ out. some (wrap_packet heap out buffer))
          (0x82 ∷ (server_length (tell buffer) ++ written buffer))
  unfolding wrap_packet
  wrap_packet-Emits buffer some_data small =
      let n = tell buffer in
      let ds = written buffer in
      let first = λ (b : Buffer). some (write_uint8 heap b 0x82) in
      let body = λ (b : Buffer). some (write heap b ds).1 in
      let nonzero : (n == 0) ≡ false = ground (arith, some_data) in
      elim (Bool-cases (leb 126 n)) [
        | inl long ↦
            let length_word = λ (b : Buffer). some (write_uint16be heap b n) in
            let mark = λ (b : Buffer). some (write_uint8 heap b 126) in
            let low : uint16 n ≡ n = omega (arith, small) in
            rw (nonzero, long, low)
              (Emits-then first (λ b. mark b >>= λ c. length_word c >>= body) (0x82 ∷ [])
                (126 ∷ (encode big 2 n ++ ds)) (byte-Emits 0x82 (omega arith))
                (Emits-then mark (λ c. length_word c >>= body) (126 ∷ []) (encode big 2 n ++ ds)
                  (byte-Emits 126 (omega arith))
                  (Emits-then length_word body (encode big 2 n) ds (word-Emits heap big 2 n)
                    (bytes-Emits heap ds))))
        | inr short ↦
            let mark = λ (b : Buffer). some (write_uint8 heap b n) in
            rw (nonzero, short)
              (Emits-then first (λ b. mark b >>= body) (0x82 ∷ []) (n ∷ ds)
                (byte-Emits 0x82 (omega arith))
                (Emits-then mark body (n ∷ []) ds (byte-Emits n (ground (arith, short)))
                  (bytes-Emits heap ds)))
      ]

  -- What a valid output buffer holds, of one byte to 65535, is put behind what the socket's valid buffer
  -- held as one final binary frame, if that buffer has four bytes more than it left.
  pub wrap_packet-Appended :
      (out buffer : Buffer)
      → IsValid out
      → IsValid buffer
      → tell buffer ≢ 0
      → tell buffer < 2 ^ 16
      → size out < 2 ^ 61
      → tell out + (4 + tell buffer) ≤ size out
      → Appended out (server_frame (written buffer)) (wrap_packet heap out buffer)
  unfolding Emits
  wrap_packet-Appended out buffer v vb some_data small limit room =
      let held : length (written buffer) ≡ tell buffer =
        omega (arith, length-take (tell buffer) buffer.bytes, vb.within) in
      let fits : length (0x82 ∷ (server_length (tell buffer) ++ written buffer)) ≤ 4 + tell buffer =
        ground (
          arith,
          held,
          length-append (server_length (tell buffer)) (written buffer),
          length-encode big 2 (tell buffer),
        ) in
      let (c, e, a) =
        wrap_packet-Emits buffer some_data small out v
          (omega (arith, fits, limit, small), inl (omega (arith, fits, room))) in
      let same : wrap_packet heap out buffer ≡ c = some-injective _ _ e in
      let at_length : Appended out (0x82 ∷ (server_length (tell buffer) ++ written buffer))
          (wrap_packet heap out buffer) =
        rw same a in
      subst
        (λ n.
          Appended out (0x82 ∷ (server_length n ++ written buffer)) (wrap_packet heap out buffer))
        (sym held) at_length
