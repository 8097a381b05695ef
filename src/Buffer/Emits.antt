-- ===== src/Buffer/Emits.antt =====
-- Writers of known bytes, and chains of them.
use thirty.Prelude.{
  ℕ, ◌+◌, ◌≡◌, refl, ap, ◌∙◌, arith, Option, some, List, [], ◌++◌, length, length-append,
}
use thirty.Prelude.Options.{◌>>=◌}
use thirty.Endian.{ByteOrder, encode, length-encode}
use thirty.Buffer.{Allocator, Buffer, write}
use thirty.Buffer.Valid.{IsValid, HasRoom}
use thirty.Buffer.Transfer.{
  Appended, Appended-nil, Appended-append, Appended-HasRoom, HasRoom-le, write-Appended,
}
use thirty.Buffer.Typed.{generic_write}
use thirty.Buffer.Typed.Exact.{generic_write-Appended}

-- The writer appends exactly these bytes to every valid buffer with room for them.
unfoldable pub Emits : (Buffer → Option Buffer) → List ℕ → Type 0
Emits f bs =
    (b : Buffer)
    → IsValid b
    → HasRoom b (length bs)
    → (c : Buffer) × (f b ≡ some c) × Appended b bs c

pub Emits-then :
    (f g : Buffer → Option Buffer) (xs ys : List ℕ)
    → Emits f xs
    → Emits g ys
    → Emits (λ b. f b >>= g) (xs ++ ys)
unfolding Emits
Emits-then f g xs ys p q b v room =
    let room' : HasRoom b (length xs + length ys) = ground (arith, room, length-append xs ys) in
    let (c, e, a) = p b v (HasRoom-le b (length xs + length ys) (length xs) room' (omega arith)) in
    let (d, e', a') = q c a.valid (Appended-HasRoom b xs c (length ys) a room') in
    (d, ap (λ o. o >>= g) e ∙ e', Appended-append b xs c ys d a a')

pub Emits-same :
    (f g : Buffer → Option Buffer) (bs : List ℕ)
    → ((b : Buffer) → f b ≡ g b)
    → Emits g bs
    → Emits f bs
unfolding Emits
Emits-same f g bs e p b v room = let (c, r, a) = p b v room in (c, e b ∙ r, a)

pub Emits-nil : Emits (λ b. some b) []
unfolding Emits
Emits-nil b v room = (b, refl, Appended-nil v)

module _ (heap : Allocator) where
  pub word-Emits :
      (o : ByteOrder) (w x : ℕ) → Emits (λ b. some (generic_write heap o w b x).1) (encode o w x)
  unfolding Emits
  word-Emits o w x b v room = (
    (generic_write heap o w b x).1,
    refl,
    (generic_write-Appended heap o w x v (rw length-encode at room)).1,
  )

  pub bytes-Emits : (bs : List ℕ) → Emits (λ b. some (write heap b bs).1) bs
  unfolding Emits
  bytes-Emits bs b v room =
      ((write heap b bs).1, refl, (write-Appended heap bs v (omega (arith, room.0), room.1)).1)
