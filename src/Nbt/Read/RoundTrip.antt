-- ===== src/Nbt/Read/RoundTrip.antt =====
-- A tag that was written is read back: nbt_read after nbt_write of src/nbt.c.
use thirty.Prelude.{
  ℕ, zero, suc, ◌<◌, ◌^◌, subst, List, [], ◌∷◌, ◌≤◌, ◌≡◌, refl, sym, ap, ◌∙◌, arith, true, false,
  some, none, length, drop, take, ◌++◌,
}
use thirty.Buffer.{Allocator, Buffer, seek}
use thirty.Buffer.Valid.{IsValid, HasRoom, seek_within}
use thirty.Buffer.Transfer.{Appended, Appended-lem}
use thirty.Nbt.{
  Tag, tag, Value, Slots, nbt_write, tag_end, tag_byte, tag_short, tag_int, tag_long, tag_float,
  tag_double, tag_byte_array, tag_string, tag_int_array, tag_long_array, tag_list, tag_compound,
  done, free, slot,
}
use thirty.Nbt.Write.{tag_bytes}
use thirty.Nbt.Layout.{IsShort, IsShortValue, IsShortSlots, nbt_write-Appended}
use thirty.Nbt.Read.{nbt_read}
use thirty.Buffer.Stands.{Stands}
use thirty.Nbt.Read.Stands.{Gives}
use thirty.Nbt.Read.Readable.{IsReadable, AreItems, AreNamed, IsNamed, compact, after_tag, cost}
use thirty.Nbt.Read.Tags.{named-Gives}

mutual
  unfolding IsReadable AreItems AreNamed IsNamed IsShort IsShortValue IsShortSlots

  pub named-IsShort : (t : Tag) → IsNamed t → IsShort t
  named-IsShort (tag none bare v) h = absurd h
  named-IsShort (tag (some name) true v) h = absurd h
  named-IsShort (tag (some name) false v) h =
      (subst (λ t. length t < 2 ^ 15) (sym h.1) h.0, value-IsShort v h.3)

  value-IsShort : (v : Value) → IsReadable v → IsShortValue v
  value-IsShort (tag_list type ts) h = items-IsShort type ts h.2
  value-IsShort (tag_compound ts) h = slots-IsShort ts h
  value-IsShort (tag_string s) h = h
  value-IsShort tag_end h = tt
  value-IsShort (tag_byte n) h = tt
  value-IsShort (tag_short n) h = tt
  value-IsShort (tag_int n) h = tt
  value-IsShort (tag_long n) h = tt
  value-IsShort (tag_float n) h = tt
  value-IsShort (tag_double n) h = tt
  value-IsShort (tag_byte_array bs) h = tt
  value-IsShort (tag_int_array is) h = tt
  value-IsShort (tag_long_array ls) h = tt

  items-IsShort : (type : ℕ) (ts : Slots) → AreItems type ts → IsShortSlots ts
  items-IsShort type done h = tt
  items-IsShort type (free ts) h = absurd h
  items-IsShort type (slot (tag none true v) ts) h =
      ((tt, value-IsShort v h.2), items-IsShort type ts h.3)
  items-IsShort type (slot (tag none false v) ts) h = absurd h
  items-IsShort type (slot (tag (some name) bare v) ts) h = absurd h

  slots-IsShort : (ts : Slots) → AreNamed ts → IsShortSlots ts
  slots-IsShort done h = tt
  slots-IsShort (free ts) h = slots-IsShort ts h
  slots-IsShort (slot t ts) h = (named-IsShort t h.0, slots-IsShort ts h.1)

pub split_at : (n : ℕ) (xs : List ℕ) → xs ≡ take n xs ++ drop n xs
split_at zero xs = refl
split_at (suc n) [] = refl
split_at (suc n) (x ∷ xs) = ap (λ t. x ∷ t) (split_at n xs)

-- What was appended stands at the old position.
Appended-Stands :
    (b : Buffer) (bs : List ℕ) (c : Buffer)
    → IsValid b
    → Appended b bs c
    → Stands (record c { offset = b.offset }) bs
Appended-Stands b bs c v p =
    let ahead = drop b.offset c.bytes in
    let back = drop (length bs) ahead in
    record {
      rest = back;
      ahead = split_at (length bs) ahead ∙ ap (λ t. t ++ back) (Appended-lem b bs c v p);
    }

-- A named tag that the code reads back, written to a valid buffer with room for it, is read from there
-- without its free slots and each text without its 0, with fuel from the cost of the tag on and whatever `expected` holds, and
-- the read ends where the write ended.
pub nbt_read-write :
    (heap : Allocator) (fresh : ℕ → List ℕ) (widen : ℕ → ℕ) (t : Tag) (b : Buffer) (fuel e : ℕ)
    → IsNamed t
    → IsValid b
    → HasRoom b (length (tag_bytes widen t))
    → cost t ≤ fuel
    → (c : Buffer) × (nbt_write heap widen t b ≡ some c)
      × (nbt_read fresh fuel true e (seek c b.offset) ≡ some (some (compact t), after_tag t e, c))
unfolding Gives
nbt_read-write heap fresh widen t b fuel e named v room enough =
    let (c, wrote, a) = nbt_write-Appended heap widen t b (named-IsShort t named) v room in
    let bs = tag_bytes widen t in
    let d : Buffer = record c { offset = b.offset } in
    let valid : IsValid d = ground (arith, a.moved, a.valid) in
    (
      c,
      wrote,
      ap (nbt_read fresh fuel true e) (seek_within c b.offset (omega (arith, a.moved, a.valid)))
          ∙ (named-Gives fresh widen t fuel e named enough d valid (Appended-Stands b bs c v a)
              ∙ ap (λ o. some (some (compact t), after_tag t e, record c { offset = o }))
                  (sym a.moved)),
    )
