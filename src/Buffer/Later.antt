-- ===== src/Buffer/Later.antt =====
-- Reading only moves a buffer on.
use thirty.Prelude.{ℕ, ◌≤◌, ◌<◌, ◌≡◌, subst, ap, arith, some, List, overwrite}
use thirty.Prelude.Options.{>>=-eq-some}
use mathlib.Core.Option.{some-injective}
use thirty.Endian.{ByteOrder}
use thirty.Buffer.{Buffer, tell, size, read}
use thirty.Buffer.Valid.{IsValid}
use thirty.Buffer.Typed.{read_into, generic_read}
use thirty.Buffer.McStr.{trim_end, read_mcstr}

-- The buffer `c` is `b` some bytes further on.
pub record Later (b c : Buffer) : Type 0 where
  pub valid : IsValid c
  pub same : size c ≡ size b
  pub forward : tell b ≤ tell c

pub Later-trans : {a b c : Buffer} → Later a b → Later b c → Later a c
Later-trans p q = ground arith

pub Later-refl : {b : Buffer} → IsValid b → Later b b
Later-refl v = ground arith

pub read-Later : (b : Buffer) (n : ℕ) → IsValid b → Later b (read b n).1
unfolding read
read-Later b n v = ground arith

-- Reading from a buffer with bytes left moves it on by at least one.
pub read-moves :
    (b : Buffer) (n : ℕ) → IsValid b → tell b < size b → 0 < n → tell b < tell (read b n).1
unfolding read
read-moves b n v h k = ground arith

pub read_into-Later :
    (o : ByteOrder) (w old : ℕ) (b : Buffer)
    → IsValid b
    → Later b (read_into (generic_read o w) old b).1
unfolding generic_read read
read_into-Later o w old b v = ground arith

pub read_mcstr-read :
    (old a : List ℕ) (b c : Buffer) → read_mcstr old b ≡ some (a, c) → (read b 64).1 ≡ c
unfolding read_mcstr
read_mcstr-read old a b c e =
    let (end, e1, e2) = >>=-eq-some (trim_end (overwrite old 0 (read b 64).0) 63) _ e in
    ap (λ (r : List ℕ × Buffer). r.1) (some-injective _ _ e2)

pub read_mcstr-Later :
    (old a : List ℕ) (b c : Buffer) → IsValid b → read_mcstr old b ≡ some (a, c) → Later b c
read_mcstr-Later old a b c v e = subst (Later b) (read_mcstr-read old a b c e) (read-Later b 64 v)
