-- ===== src/Buffer/McStr.antt =====
-- The text fields of the protocol, of 64 bytes each: buffer_read_mcstr and buffer_write_mcstr of
-- src/buffer.c.
pub mod RoundTrip
pub mod Field
use thirty.Prelude.{
  ℕ, zero, suc, Bool, true, false, ◌&&◌, Option, none, some, List, [], ◌∷◌, map, leb, ◌==◌,
  if◌then◌else◌, length, get_or, set, take, replicate, overwrite,
}
use thirty.Prelude.Options.{◌>>=◌}
use thirty.Word.{util_min}
use thirty.Buffer.{Allocator, Buffer, read, write}

-- The loop of `read_mcstr`: `end` falls while the character before it is a space. At 0 the code
-- looks at `data[-1]`, which is outside the array: `none`.
unfoldable pub trim_end : List ℕ → ℕ → Option ℕ
trim_end text zero = none
trim_end text (suc e) = if get_or text e 0 == b' ' then trim_end text e else some (suc e)

-- The array `data`, whose 65 bytes were `old`, and the buffer after the call.
unfoldable pub read_mcstr : List ℕ → Buffer → Option (List ℕ × Buffer)
read_mcstr old b =
    let (cs, b') = read b 64 in
    let text = overwrite old 0 cs in trim_end text 63 >>= λ end. some (set text end 0, b')

-- The C string that an array holds.
unfoldable pub c_string : List ℕ → List ℕ
c_string [] = []
c_string (c ∷ cs) = if c == 0 then [] else c ∷ c_string cs

abbrev pub spaces : ℕ → List ℕ
spaces n = replicate n b' '

-- A `char` is signed: the bytes from 128 on are negative.
unfoldable pub censor : Bool → ℕ → ℕ
censor filter c = if filter && leb 128 c then b'?' else c

-- The array `s`, for a string of the characters `text`.
unfoldable pub mc_field : List ℕ → Bool → List ℕ
mc_field text filter =
    map (censor filter) (overwrite (spaces 64) 0 (take (util_min (length text) 64) text))

unfoldable pub write_mcstr : Allocator → Buffer → List ℕ → Bool → Buffer
write_mcstr heap b text filter = (write heap b (mc_field text filter)).1
