-- ===== src/Nbt/Read/Stands.antt =====
-- A reader that takes given bytes from the position of a buffer.
use thirty.Prelude.{
  ℕ, ◌+◌, ◌<◌, ◌^◌, ◌≡◌, sym, ap, ◌∙◌, arith, some, List, [], ◌∷◌, ◌++◌, length, All, length-append,
  ltb, if◌then◌else◌,
}
use thirty.Prelude.Options.{◌>>=◌}
use thirty.Endian.{ByteOrder, big, encode, length-encode}
use thirty.Buffer.{Buffer}
use thirty.Buffer.Valid.{IsValid}
use thirty.Buffer.Stands.{
  Stands, moved, Stands-front, Stands-behind, moved-IsValid, generic_read-encode, read-Stands,
}
use thirty.Buffer.Typed.{generic_read}
use thirty.Nbt.Write.{text_bytes, word_bytes}
use thirty.Nbt.Read.{Reader, plain, and_then, give, read_bytes, read_text, read_size, repeat, fail}

-- From a valid buffer with these bytes ahead and `e` in `expected`, the reader takes them all, gives `a`
-- and leaves `e'` in `expected`.
unfoldable pub Gives : {A : Type 0} → Reader A → ℕ → List ℕ → A → ℕ → Type 0
Gives f e bs a e' =
    (b : Buffer) → IsValid b → Stands b bs → f e b ≡ some (a, e', moved b (length bs))

pub Gives-give : {A : Type 0} (a : A) (e : ℕ) → Gives (give a) e [] a e
unfolding Gives
Gives-give a e b v s = ap (λ o. some (a, e, record b { offset = o })) (omega arith)

pub Gives-then :
    {A B : Type 0} (f : Reader A) (k : A → Reader B) (xs ys : List ℕ) (a : A) (r : B) (e e1 e2 : ℕ)
    → Gives f e xs a e1
    → Gives (k a) e1 ys r e2
    → Gives (and_then f k) e (xs ++ ys) r e2
unfolding Gives
Gives-then f k xs ys a r e e1 e2 p q b v s =
    let s1 = Stands-front b xs ys s in
    let first = p b v s1 in
    let second = q (moved b (length xs)) (moved-IsValid b xs v s1) (Stands-behind b xs ys s) in
    ap (λ o. o >>= λ (a', e', c). k a' e' c) first
    ∙ (second
        ∙ ap (λ o. some (r, e2, record b { offset = o })) (omega (arith, length-append xs ys)))

-- The last step of a chain takes no bytes.
pub Gives-map :
    {A B : Type 0} (f : Reader A) (g : A → B) (xs : List ℕ) (a : A) (e e1 : ℕ)
    → Gives f e xs a e1
    → Gives (and_then f (λ x. give (g x))) e xs (g a) e1
unfolding Gives
Gives-map f g xs a e e1 p b v s = ap (λ o. o >>= λ (a', e', c). some (g a', e', c)) (p b v s)

pub word-Gives :
    (o : ByteOrder) (w x e : ℕ)
    → x < 256 ^ w
    → Gives (plain (generic_read o w)) e (encode o w x) x e
unfolding Gives
word-Gives o w x e h b v s =
    ap (λ r. r >>= λ (a, c). some (a, e, c)) (generic_read-encode o w x b h v s)
    ∙ ap (λ k. some (x, e, record b { offset = b.offset + k })) (sym (length-encode o w x))

pub bytes-Gives : (bs : List ℕ) (e : ℕ) → Gives (read_bytes (length bs)) e bs bs e
unfolding Gives read_bytes
bytes-Gives bs e b v s = rw (read-Stands b bs v s) (ground arith)

Gives-if :
    {A : Type 0} (n limit : ℕ) (f : Reader A) (bs : List ℕ) (a : A) (e e' : ℕ)
    → n < limit
    → Gives f e bs a e'
    → Gives (if ltb n limit then f else fail) e bs a e'
unfolding Gives
Gives-if n limit f bs a e e' h p b v s = ground (arith, h, p b v s)

pub text-Gives : (s : List ℕ) (e : ℕ) → length s < 2 ^ 15 → Gives read_text e (text_bytes s) s e
unfolding read_text
text-Gives s e h =
    Gives-then (plain (generic_read big 2)) (λ n. if ltb n (2 ^ 15) then read_bytes n else fail)
      (encode big 2 (length s)) s (length s) s e e e
      (word-Gives big 2 (length s) e (omega (arith, h)))
      (Gives-if (length s) (2 ^ 15) (read_bytes (length s)) s s e e h (bytes-Gives s e))

pub size-Gives : (n e : ℕ) → n < 2 ^ 31 → Gives read_size e (encode big 4 n) n e
unfolding read_size
size-Gives n e h =
    Gives-then (plain (generic_read big 4)) (λ m. if ltb m (2 ^ 31) then give m else fail)
      (encode big 4 n) [] n n e e e (word-Gives big 4 n e (omega (arith, h)))
      (Gives-if n (2 ^ 31) (give n) [] n e e h (Gives-give n e))

pub repeat-Gives :
    (w : ℕ) (xs : List ℕ) (e : ℕ)
    → All (λ x. x < 256 ^ w) xs
    → Gives (repeat (plain (generic_read big w)) (length xs)) e (word_bytes w xs) xs e
unfolding repeat
repeat-Gives w [] e h = Gives-give [] e
repeat-Gives w (x ∷ xs) e h =
    let r = plain (generic_read big w) in
    Gives-then r (λ a. and_then (repeat r (length xs)) (λ as'. give (a ∷ as'))) (encode big w x)
      (word_bytes w xs) x (x ∷ xs) e e e (word-Gives big w x e h.0)
      (Gives-map (repeat r (length xs)) (λ as'. x ∷ as') (word_bytes w xs) xs e e
        (repeat-Gives w xs e h.1))
