-- ===== src/Buffer/Stands.antt =====
-- Bytes that stand at the position of a buffer, for the readers that take them.
use thirty.Prelude.{
  Option, ℕ, zero, suc, ◌+◌, ◌%◌, ◌≤◌, ◌<◌, ◌^◌, ◌≡◌, some, refl, sym, ap, ◌∙◌, arith, List, [],
  ◌∷◌, ◌++◌, length, take, drop, length-append, length-drop, take-append, drop-append,
}
use mathlib.Core.List.{append_assoc}
use thirty.Buffer.{Buffer, size, read}
use thirty.Endian.{ByteOrder, little, encode, length-encode, to_order-encode}
use thirty.Buffer.Valid.{IsValid, read_within}
use thirty.Buffer.Typed.{generic_read, read_uint8, read_into}
use thirty.Buffer.Typed.Exact.{generic_read-some}

-- The bytes stand at the position.
pub record Stands (b : Buffer) (bs : List ℕ) : Type 0 where
  pub rest : List ℕ
  pub ahead : drop b.offset b.bytes ≡ bs ++ rest

abbrev pub moved : Buffer → ℕ → Buffer
moved b n = record b { offset = b.offset + n }

drop-nil : (n : ℕ) → drop {A = ℕ} n [] ≡ []
drop-nil zero = refl
drop-nil (suc n) = refl

pub drop-drop : (n m k : ℕ) (xs : List ℕ) → k ≡ n + m → drop m (drop n xs) ≡ drop k xs
drop-drop zero m k xs e = ap (λ i. drop i xs) (omega (arith, e))
drop-drop (suc n) m k [] e = drop-nil m ∙ sym (drop-nil k)
drop-drop (suc n) m zero (x ∷ xs) e = absurd (omega (arith, e))
drop-drop (suc n) m (suc k) (x ∷ xs) e = drop-drop n m k xs (omega (arith, e))

pub Stands-within :
    (b : Buffer) (bs : List ℕ) → IsValid b → Stands b bs → b.offset + length bs ≤ size b
Stands-within b bs v s = omega (
  arith,
  v.within,
  length-drop b.offset b.bytes,
  ap (λ l. length l) s.ahead,
  length-append bs s.rest,
)

pub Stands-take :
    (b : Buffer) (bs : List ℕ) → Stands b bs → take (length bs) (drop b.offset b.bytes) ≡ bs
Stands-take b bs s = ap (take (length bs)) s.ahead ∙ take-append bs s.rest

pub Stands-front : (b : Buffer) (xs ys : List ℕ) → Stands b (xs ++ ys) → Stands b xs
Stands-front b xs ys s = record { rest = ys ++ s.rest; ahead = s.ahead ∙ append_assoc xs ys s.rest }

pub Stands-behind :
    (b : Buffer) (xs ys : List ℕ) → Stands b (xs ++ ys) → Stands (moved b (length xs)) ys
Stands-behind b xs ys s = record {
  rest = s.rest;
  ahead =
      sym (drop-drop b.offset (length xs) (b.offset + length xs) b.bytes refl)
      ∙ (ap (drop (length xs)) (s.ahead ∙ append_assoc xs ys s.rest)
          ∙ drop-append xs (ys ++ s.rest));
}

pub moved-IsValid :
    (b : Buffer) (bs : List ℕ) → IsValid b → Stands b bs → IsValid (moved b (length bs))
moved-IsValid b bs v s = ground (arith, v, Stands-within b bs v s)

-- A typed read of the word that stands there.
pub generic_read-encode :
    (o : ByteOrder) (w x : ℕ) (b : Buffer)
    → x < 256 ^ w
    → IsValid b
    → Stands b (encode o w x)
    → generic_read o w b ≡ some (x, moved b w)
generic_read-encode o w x b h v s =
    let n = length-encode o w x in
    let within : b.offset + w ≤ size b = omega (arith, n, Stands-within b (encode o w x) v s) in
    let held : take w (drop b.offset b.bytes) ≡ encode o w x =
      ap (λ k. take k (drop b.offset b.bytes)) (sym n) ∙ Stands-take b (encode o w x) s in
    generic_read-some o w v within
    ∙ rw held (ap (λ y. some (y, moved b w)) (to_order-encode o w x h))

pub read_uint8-Stands :
    (b : Buffer) (x : ℕ)
    → x < 256
    → IsValid b
    → Stands b (x ∷ [])
    → read_uint8 b ≡ some (x, moved b 1)
read_uint8-Stands b x h v s =
    let low : x % 256 ≡ x = omega (arith, h) in
    generic_read-encode little 1 x b h v
      (record { rest = s.rest; ahead = s.ahead ∙ ap (λ y. y ∷ s.rest) (sym low) })

pub read-Stands :
    (b : Buffer) (bs : List ℕ)
    → IsValid b
    → Stands b bs
    → read b (length bs) ≡ (bs, moved b (length bs))
read-Stands b bs v s =
    read_within b (length bs) v (Stands-within b bs v s)
    ∙ ap (λ cs. (cs, moved b (length bs))) (Stands-take b bs s)

pub read_into-some :
    (f : Buffer → Option (ℕ × Buffer)) (old : ℕ) (b : Buffer) (r : ℕ × Buffer)
    → f b ≡ some r
    → read_into f old b ≡ r
read_into-some f old b r e = rw (read_into, e) refl
