-- ===== src/WebSocket/Progress.antt =====
-- The framing of src/client.c on any input.
use thirty.Prelude.{
  ℕ, zero, suc, ◌+◌, ◌-◌, ◌%◌, ◌^◌, ◌≤◌, ◌<◌, ◌≡◌, refl, sym, subst, inl, inr, arith, Bool-cases,
  true, some, length, length-overwrite, length-take, drop, overwrite, ltb, ◌==◌,
}
use thirty.Word.{sub_size, util_min, uint8, uint16}
use thirty.Endian.{of_bytes, to_order, swap-bounded}
use thirty.Buffer.{Buffer, tell, size, read}
use thirty.Buffer.Valid.{IsValid}
use thirty.Buffer.Later.{Later, Later-trans, Later-refl, read-Later}
use thirty.Buffer.Typed.{read_into, generic_read, read_uint8, read_uint16be}
use thirty.WebSocket.{
  Ws, wss_extended_length1, wss_mask, wss_data, on_data, on_mask, on_extended_length, on_flags,
  on_header, handle_chunk, handle_packet,
}
use thirty.WebSocket.Stream.{IsReady}

read-length : (b : Buffer) (n : ℕ) → length (read b n).0 ≤ n
unfolding read
read-length b n =
    let k = util_min n (sub_size (size b) b.offset) in
    ground (arith, length-take k (drop b.offset b.bytes))

read_uint8-Later : (old : ℕ) (b : Buffer) → IsValid b → Later b (read_into read_uint8 old b).1
unfolding generic_read read
read_uint8-Later old b v = ground arith

read_uint8-moves :
    (old : ℕ) (b : Buffer)
    → IsValid b
    → tell b < size b
    → tell b < tell (read_into read_uint8 old b).1
unfolding generic_read read
read_uint8-moves old b v h = ground arith

read_uint16-Later :
    (old : ℕ) (b : Buffer)
    → IsValid b
    → old < 2 ^ 16
    → Later b (read_into read_uint16be old b).1 × ((read_into read_uint16be old b).0 < 2 ^ 16)
unfolding generic_read read to_order
read_uint16-Later old b v h = ground (arith, swap-bounded 2 (of_bytes (read b 2).0))

module _ {S : Type 0} (handle : Buffer → ℕ → S → Buffer × S) (disconnect : ℕ → S → S) where
  -- A chunk that ended between two frames, further on in the buffer.
  abbrev Between : Buffer → Ws → Type 0
  Between b ws = IsReady ws × Later b ws.in_buffer

  on_data-Between :
      (ws : Ws) (s : S)
      → ws.frame_read ≡ 0
      → ws.frame_len < 2 ^ 32
      → length ws.key ≡ 4
      → IsValid ws.in_buffer
      → Between ws.in_buffer (on_data handle disconnect ws s).0
  unfolding on_data
  on_data-Between ws s fresh small four v =
      let copy = sub_size ws.frame_len ws.frame_read in
      let done : ((ws.frame_read + copy) % 2 ^ 32 == ws.frame_len) ≡ true =
        ground (arith, fresh, small) in
      rw done
        (record { state = refl; frame_read = refl; key = four }, read-Later ws.in_buffer copy v)

  on_mask-Between :
      (ws : Ws) (s : S)
      → ws.frame_read ≡ 0
      → ws.frame_len < 2 ^ 32
      → length ws.key ≡ 4
      → IsValid ws.in_buffer
      → Between ws.in_buffer (on_mask handle disconnect ws s).0
  unfolding on_mask
  on_mask-Between ws s fresh small four v =
      let r = read ws.in_buffer 4 in
      let l = read-Later ws.in_buffer 4 v in
      let held : length (overwrite ws.key 0 r.0) ≡ 4 = omega (
        arith,
        four,
        length-overwrite ws.key 0 r.0 (omega (arith, four, read-length ws.in_buffer 4)),
      ) in
      let (ready, l') =
        on_data-Between
          (record ws { state = wss_data; key = overwrite ws.key 0 r.0; in_buffer = r.1 }) s fresh
          small held l.valid in
      (ready, Later-trans l l')

  module _ (junk : ℕ) where
    on_extended_length-Between :
        (ws : Ws) (s : S)
        → ws.frame_read ≡ 0
        → length ws.key ≡ 4
        → IsValid ws.in_buffer
        → Between ws.in_buffer (on_extended_length handle disconnect junk ws s).0
    unfolding on_extended_length
    on_extended_length-Between ws s fresh four v =
        let r = read_into read_uint16be (uint16 junk) ws.in_buffer in
        let (l, small) = read_uint16-Later (uint16 junk) ws.in_buffer v (omega arith) in
        let (ready, l') =
          on_mask-Between (record ws { state = wss_mask; frame_len = r.0; in_buffer = r.1 }) s fresh
            (omega (arith, small)) four l.valid in
        (ready, Later-trans l l')

    on_flags-Between :
        (flags : ℕ) (ws : Ws) (s : S)
        → flags < 128
        → IsReady ws
        → IsValid ws.in_buffer
        → Between ws.in_buffer (on_flags handle disconnect junk flags ws s).0
    unfolding on_flags
    on_flags-Between flags ws s small r v = elim (Bool-cases (flags == 127)) [
      | inl e ↦ rw e (r, Later-refl v)
      | inr ne ↦ elim (Bool-cases (flags == 126)) [
        | inl e ↦
            rw (ne, e)
              (on_extended_length-Between (record ws { state = wss_extended_length1 }) s
                r.frame_read r.key v)
        | inr ne' ↦
            rw (ne, ne')
              (on_mask-Between (record ws { state = wss_mask; frame_len = flags }) s r.frame_read
                (omega (arith, small)) r.key v)
      ]
    ]

    -- Between two frames, a chunk of any bytes ends between two frames again, in a valid buffer of the same
    -- size, and takes at least one byte where there is one, whatever the handlers do.
    pub handle_chunk-IsReady :
        (ws : Ws) (s : S)
        → IsReady ws
        → IsValid ws.in_buffer
        → let ws' = (handle_chunk handle disconnect junk ws s).0 in
          IsReady ws'
          × Later ws.in_buffer ws'.in_buffer
          × (tell ws.in_buffer < size ws.in_buffer → tell ws.in_buffer < tell ws'.in_buffer)
    unfolding handle_chunk on_header
    handle_chunk-IsReady ws s r v =
        let b = ws.in_buffer in
        let x = read_into read_uint8 (uint8 junk) b in
        let y = read_into read_uint8 x.0 x.1 in
        let l1 = read_uint8-Later (uint8 junk) b v in
        let l2 = read_uint8-Later x.0 x.1 l1.valid in
        let ws1 = record ws { opcode = x.0 % 16; in_buffer = y.1 } in
        let (ready, l3) =
          on_flags-Between (y.0 % 128) ws1 s (omega arith)
            (record { state = r.state; frame_read = r.frame_read; key = r.key }) l2.valid in
        let same : handle_chunk handle disconnect junk ws s
            ≡ on_header handle disconnect junk ws s =
          rw r.state refl in
        subst
          (λ (o : Ws × S).
            IsReady o.0 × Later b o.0.in_buffer × (tell b < size b → tell b < tell o.0.in_buffer))
          (sym same)
          (
            ready,
            Later-trans l1 (Later-trans l2 l3),
            λ h.
                let m = read_uint8-moves (uint8 junk) b v h in
                omega (arith, m, l2.forward, l3.forward),
          )

    -- The loop over any bytes that were received comes to its end with one round for each byte, between
    -- two frames and behind the bytes, whatever the handlers do.
    pub handle_packet_ends :
        (fuel len : ℕ) (ws : Ws) (s : S)
        → IsReady ws
        → IsValid ws.in_buffer
        → len ≤ size ws.in_buffer
        → len - tell ws.in_buffer ≤ fuel
        → (ws' : Ws) × (s' : S) × (handle_packet handle disconnect junk fuel len ws s
            ≡ some (ws', s'))
          × IsReady ws'
          × (len ≤ tell ws'.in_buffer)
    unfolding handle_packet
    handle_packet_ends zero len ws s r v within enough =
        (ws, s, ground (arith, enough), r, omega (arith, enough))
    handle_packet_ends (suc fuel) len ws s r v within enough =
        elim (Bool-cases (ltb (tell ws.in_buffer) len)) [
          | inr e ↦ (ws, s, rw e refl, r, ground (arith, e))
          | inl e ↦
              let (r1, l, m) = handle_chunk-IsReady ws s r v in
              let w1 = handle_chunk handle disconnect junk ws s in
              let before : tell ws.in_buffer < len = ground (arith, e) in
              let further = m (omega (arith, before, within)) in
              let (ws', s', eq, r2, h) =
                handle_packet_ends fuel len w1.0 w1.1 r1 l.valid (omega (arith, within, l.same))
                  (omega (arith, enough, further)) in
              (ws', s', rw e eq, r2, h)
        ]
