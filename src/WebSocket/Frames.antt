-- ===== src/WebSocket/Frames.antt =====
-- The masked data of a frame of a client, through the framing of src/client.c.
use thirty.Prelude.{
  ℕ, ◌+◌, ◌%◌, ◌^◌, ◌<◌, ◌≡◌, refl, sym, ap, ◌∙◌, true, Option, none, some, List, [], ◌∷◌, ◌++◌,
  ◌==◌, length, length-drop, take, drop, take-append, overwrite, All, arith,
}
use mathlib.Core.List.{append-nil}
use thirty.Word.{sub_size}
use thirty.Endian.{IsByte}
use thirty.Buffer.{Buffer, read, seek, allocate_memory}
use thirty.Buffer.Valid.{IsValid}
use thirty.Buffer.Stands.{Stands, moved, Stands-front, Stands-behind, moved-IsValid, read-Stands}
use thirty.WebSocket.{
  Ws, wss_handle_header1, wss_data, frame_for, unmask, dispatch, decode_frame, on_data, on_mask,
}
use thirty.WebSocket.Masks.{masked, length-masked, unmask-masked}

-- The frame to fill stands at its start.
frame_for_start : (n : ℕ) (f : Option Buffer) → (frame_for n f).offset ≡ 0
unfolding seek allocate_memory
frame_for_start n none = ground arith
frame_for_start n (some f) = ground arith

module _ {S : Type 0} (handle : Buffer → ℕ → S → Buffer × S) (disconnect : ℕ → S → S) where
  -- What a chunk leaves behind that took the frame with this data.
  pub record Taken (ws : Ws) (s : S) (opcode n : ℕ) (ds : List ℕ) (r : Ws × S) : Type 0 where
    pub frame : Buffer
    pub at_start : frame.offset ≡ 0
    pub holds : take (length ds) frame.bytes ≡ ds
    pub kept : r.0.frame ≡ some (dispatch handle disconnect opcode frame (length ds) s).0
    pub handled : r.1 ≡ (dispatch handle disconnect opcode frame (length ds) s).1
    pub state : r.0.state ≡ wss_handle_header1
    pub frame_read : r.0.frame_read ≡ 0
    pub key : length r.0.key ≡ 4
    pub in_buffer : r.0.in_buffer ≡ moved ws.in_buffer n

  on_data-Taken :
      (ws : Ws) (s : S) (ds : List ℕ)
      → ws.frame_read ≡ 0
      → ws.frame_len ≡ length ds
      → length ds < 2 ^ 16
      → length ws.key ≡ 4
      → All IsByte ws.key
      → All IsByte ds
      → IsValid ws.in_buffer
      → Stands ws.in_buffer (masked ws.key 0 ds)
      → Taken ws s ws.opcode (length ds) ds (on_data handle disconnect ws s)
  unfolding on_data decode_frame
  on_data-Taken ws s ds fresh len small four kb db v ahead =
      let f = frame_for ws.frame_len ws.frame in
      let bs = masked ws.key 0 ds in
      let g = record f { bytes = unmask ws.key 0 (length ds) (bs ++ drop (length bs) f.bytes) } in
      let whole : sub_size (length ds) 0 ≡ length bs = omega (arith, length-masked ws.key 0 ds) in
      let none_first : 0 + length bs ≡ length bs = omega arith in
      let fits : (length ds % 2 ^ 32 == length ds) ≡ true = ground (arith, small) in
      let got = read-Stands ws.in_buffer bs v ahead in
      let eq : on_data handle disconnect ws s ≡ (
        record ws {
          state = wss_handle_header1;
          frame_read = 0;
          frame = some (dispatch handle disconnect ws.opcode g (length ds) s).0;
          in_buffer = moved ws.in_buffer (length ds);
        },
        (dispatch handle disconnect ws.opcode g (length ds) s).1,
      ) =
        rw (fresh, len, whole, got, none_first, length-masked ws.key 0 ds, fits) refl in
      rw eq (record {
        frame = g;
        at_start = frame_for_start ws.frame_len ws.frame;
        holds =
            ap (take (length ds)) (unmask-masked ws.key 0 ds (drop (length bs) f.bytes) kb db)
            ∙ take-append ds (drop (length bs) f.bytes);
        kept = refl;
        handled = refl;
        state = refl;
        frame_read = refl;
        key = four;
        in_buffer = refl;
      })

  pub Taken-moved :
      (ws : Ws) (k : ℕ) (s : S) (opcode n m : ℕ) (ds : List ℕ) (r : Ws × S) (ws1 : Ws)
      → Taken ws1 s opcode n ds r
      → ws1.in_buffer ≡ moved ws.in_buffer k
      → m ≡ k + n
      → Taken ws s opcode m ds r
  Taken-moved ws k s opcode n m ds r ws1 t e sum = record {
    frame = t.frame;
    at_start = t.at_start;
    holds = t.holds;
    kept = t.kept;
    handled = t.handled;
    state = t.state;
    frame_read = t.frame_read;
    key = t.key;
    in_buffer =
        t.in_buffer
        ∙ ap (λ b. moved b n) e
        ∙ ap (λ o. record ws.in_buffer { offset = o }) (omega (arith, sum));
  }

  drop_four : (key : List ℕ) → length key ≡ 4 → drop 4 key ≡ []
  drop_four key four = nil_lem (drop 4 key) (omega (arith, length-drop 4 key))
    where
      nil_lem : (xs : List ℕ) → length xs ≡ 0 → xs ≡ []
      nil_lem [] h = refl
      nil_lem (x ∷ xs) h = absurd (omega (arith, h))

  pub on_mask-Taken :
      (ws : Ws) (s : S) (key ds : List ℕ)
      → ws.frame_read ≡ 0
      → ws.frame_len ≡ length ds
      → length ds < 2 ^ 16
      → length ws.key ≡ 4
      → length key ≡ 4
      → All IsByte key
      → All IsByte ds
      → IsValid ws.in_buffer
      → Stands ws.in_buffer (key ++ masked key 0 ds)
      → Taken ws s ws.opcode (4 + length ds) ds (on_mask handle disconnect ws s)
  unfolding on_mask
  on_mask-Taken ws s key ds fresh len small old four kb db v ahead =
      let front = Stands-front ws.in_buffer key (masked key 0 ds) ahead in
      let got = read-Stands ws.in_buffer key v front in
      let ws1 = record ws {
        state = wss_data;
        key = key;
        in_buffer = moved ws.in_buffer (length key);
      } in
      let stored : overwrite ws.key 0 key ≡ key =
        rw (four, drop_four ws.key old) (append-nil key) in
      let eq : on_mask handle disconnect ws s ≡ on_data handle disconnect ws1 s =
        ap
          (λ r.
            on_data handle disconnect
              (record ws { state = wss_data; key = overwrite ws.key 0 r.0; in_buffer = r.1 }) s)
          (ap (λ n. read ws.in_buffer n) (sym four) ∙ got)
        ∙ ap (λ k. on_data handle disconnect (record ws1 { key = k }) s) stored in
      let t =
        on_data-Taken ws1 s ds fresh len small four kb db (moved-IsValid ws.in_buffer key v front)
          (Stands-behind ws.in_buffer key (masked key 0 ds) ahead) in
      rw eq (
        Taken-moved ws (length key) s ws.opcode (length ds) (4 + length ds) ds _ ws1 t refl
          (omega (arith, four)))
