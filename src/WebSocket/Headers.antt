-- ===== src/WebSocket/Headers.antt =====
-- A whole frame of a client with its header, through the framing of src/client.c.
use thirty.Prelude.{
  ℕ, ◌+◌, ◌%◌, ◌^◌, ◌<◌, ◌≡◌, inl, inr, length-append, refl, ap, subst, ◌∙◌, Bool-cases, List, [],
  ◌∷◌, ◌++◌, ltb, if◌then◌else◌, length, All, arith,
}
use thirty.Word.{uint8, uint16}
use thirty.Endian.{IsByte, big, encode, length-encode}
use thirty.Buffer.{Buffer}
use thirty.Buffer.Valid.{IsValid}
use thirty.Buffer.Typed.{read_uint8, read_uint16be}
use thirty.Buffer.Stands.{
  Stands, moved, Stands-front, Stands-behind, moved-IsValid, generic_read-encode, read_uint8-Stands,
  read_into-some,
}
use thirty.WebSocket.{
  Ws, wss_extended_length1, wss_mask, on_mask, on_extended_length, on_flags, on_header,
}
use thirty.WebSocket.Masks.{masked, length-masked}
use thirty.WebSocket.Frames.{Taken, Taken-moved, on_mask-Taken}

-- How the length of a frame is sent, with the bit that says that the frame is masked.
abbrev pub length_bytes : ℕ → List ℕ
length_bytes n = if ltb n 126 then (128 + n) ∷ [] else 254 ∷ encode big 2 n

-- The frame of a client, of one piece.
abbrev pub client_frame : ℕ → List ℕ → List ℕ → List ℕ
client_frame opcode key ds =
    ((128 + opcode) ∷ []) ++ (length_bytes (length ds) ++ (key ++ masked key 0 ds))

module _ {S : Type 0} (handle : Buffer → ℕ → S → Buffer × S) (disconnect : ℕ → S → S)
    (junk : ℕ) where
  on_extended_length-Taken :
      (ws : Ws) (s : S) (key ds : List ℕ)
      → ws.frame_read ≡ 0
      → length ds < 2 ^ 16
      → length ws.key ≡ 4
      → length key ≡ 4
      → All IsByte key
      → All IsByte ds
      → IsValid ws.in_buffer
      → Stands ws.in_buffer (encode big 2 (length ds) ++ (key ++ masked key 0 ds))
      → Taken handle disconnect ws s ws.opcode
          (6 + length ds)
          ds
          (on_extended_length handle disconnect junk ws s)
  unfolding on_extended_length
  on_extended_length-Taken ws s key ds fresh small old four kb db v ahead =
      let two = encode big 2 (length ds) in
      let body = key ++ masked key 0 ds in
      let n2 = length-encode big 2 (length ds) in
      let front = Stands-front ws.in_buffer two body ahead in
      let got = generic_read-encode big 2 (length ds) ws.in_buffer (omega (arith, small)) v front in
      let b = moved ws.in_buffer 2 in
      let ws1 = record ws { state = wss_mask; frame_len = length ds; in_buffer = b } in
      let eq : on_extended_length handle disconnect junk ws s ≡ on_mask handle disconnect ws1 s =
        ap
          (λ r.
            on_mask handle disconnect
              (record ws { state = wss_mask; frame_len = r.0; in_buffer = r.1 }) s)
          (read_into-some read_uint16be (uint16 junk) ws.in_buffer _ got) in
      let at_two : moved ws.in_buffer (length two) ≡ b = ap (moved ws.in_buffer) n2 in
      let t =
        on_mask-Taken handle disconnect ws1 s key ds fresh refl small old four kb db
          (subst IsValid at_two (moved-IsValid ws.in_buffer two v front))
          (subst (λ c. Stands c body) at_two (Stands-behind ws.in_buffer two body ahead)) in
      rw eq (
        Taken-moved handle disconnect ws 2 s ws.opcode (4 + length ds) (6 + length ds) ds _ ws1 t
          refl (omega arith))

  -- The bytes of a header, and what follows them.
  headed :
      (ws : Ws) (s : S) (opcode y : ℕ) (more : List ℕ)
      → opcode < 16
      → y < 256
      → IsValid ws.in_buffer
      → Stands ws.in_buffer ((128 + opcode) ∷ y ∷ more)
      → let b = moved ws.in_buffer 2 in
        (on_header handle disconnect junk ws s
          ≡ on_flags handle disconnect junk
              (y % 128)
              (record ws { opcode = opcode; in_buffer = b })
              s)
        × IsValid b
        × Stands b more
  unfolding on_header
  headed ws s opcode y more op small v ahead =
      let b0 = ws.in_buffer in
      let x = 128 + opcode in
      let one = Stands-front b0 (x ∷ []) (y ∷ more) ahead in
      let ahead1 = Stands-behind b0 (x ∷ []) (y ∷ more) ahead in
      let v1 = moved-IsValid b0 (x ∷ []) v one in
      let b1 = moved b0 1 in
      let two = Stands-front b1 (y ∷ []) more ahead1 in
      let got0 =
        read_into-some read_uint8 (uint8 junk) b0 _
          (read_uint8-Stands b0 x (omega (arith, op)) v one) in
      let got1 = read_into-some read_uint8 x b1 _ (read_uint8-Stands b1 y small v1 two) in
      let low : x % 16 ≡ opcode = omega (arith, op) in
      let at_two : moved b1 1 ≡ moved b0 2 = ap (λ o. record b0 { offset = o }) (omega arith) in
      (
        rw (got0, got1, low, at_two) refl,
        subst IsValid at_two (moved-IsValid b1 (y ∷ []) v1 two),
        subst (λ c. Stands c more) at_two (Stands-behind b1 (y ∷ []) more ahead1),
      )

  -- A chunk that starts with the frame of a client takes it, and its data reaches the dispatch.
  pub on_header-Taken :
      (ws : Ws) (s : S) (opcode : ℕ) (key ds : List ℕ)
      → opcode < 16
      → ws.frame_read ≡ 0
      → length ds < 2 ^ 16
      → length ws.key ≡ 4
      → length key ≡ 4
      → All IsByte key
      → All IsByte ds
      → IsValid ws.in_buffer
      → Stands ws.in_buffer (client_frame opcode key ds)
      → (n : ℕ) × (n ≡ length (client_frame opcode key ds))
        × Taken handle disconnect ws s opcode n ds (on_header handle disconnect junk ws s)
  unfolding on_flags
  on_header-Taken ws s opcode key ds op fresh small old four kb db v ahead =
      let n = length ds in
      let body = key ++ masked key 0 ds in
      let ws1 = record ws { opcode = opcode; in_buffer = moved ws.in_buffer 2 } in
      let lb = length-masked key 0 ds in
      elim (Bool-cases (ltb n 126)) [
        | inl short ↦
            let e : length_bytes n ≡ (128 + n) ∷ [] = rw short refl in
            let whole : client_frame opcode key ds ≡ (128 + opcode) ∷ (128 + n) ∷ body =
              ap (λ l. (128 + opcode) ∷ (l ++ body)) e in
            let (eq, v1, ahead1) =
              headed ws s opcode (128 + n) body op (ground (arith, short)) v
                (subst (Stands ws.in_buffer) whole ahead) in
            let flags : on_flags handle disconnect junk ((128 + n) % 128) ws1 s
                ≡ on_mask handle disconnect (record ws1 { state = wss_mask; frame_len = n }) s =
              ground (arith, short) in
            let t =
              on_mask-Taken handle disconnect (record ws1 { state = wss_mask; frame_len = n }) s key
                ds fresh refl small old four kb db v1 ahead1 in
            (
              2 + (4 + n),
              omega
                  (arith, ap (λ l. length l) whole, length-append key (masked key 0 ds), lb, four),
              rw (eq ∙ flags) (
                  Taken-moved handle disconnect ws 2 s opcode (4 + n) (2 + (4 + n)) ds _ _ t refl
                    refl),
            )
        | inr long ↦
            let two = encode big 2 n in
            let e : length_bytes n ≡ 254 ∷ two = rw long refl in
            let whole : client_frame opcode key ds ≡ (128 + opcode) ∷ 254 ∷ (two ++ body) =
              ap (λ l. (128 + opcode) ∷ (l ++ body)) e in
            let (eq, v1, ahead1) =
              headed ws s opcode 254 (two ++ body) op (omega arith) v
                (subst (Stands ws.in_buffer) whole ahead) in
            let t =
              on_extended_length-Taken (record ws1 { state = wss_extended_length1 }) s key ds fresh
                small old four kb db v1 ahead1 in
            (
              2 + (6 + n),
              omega (
                arith,
                ap (λ l. length l) whole,
                length-append two body,
                length-encode big 2 n,
                length-append key (masked key 0 ds),
                lb,
                four,
              ),
              rw eq (
                  Taken-moved handle disconnect ws 2 s opcode (6 + n) (2 + (6 + n)) ds _ _ t refl
                    refl),
            )
      ]
