-- ===== src/Flood.antt =====
-- The flood fill of src/mapgen.c with its stack of indexes. `none` is a read or write outside an array, or a
-- loop that goes on past the fuel.
pub mod Stack
pub mod Cells
pub mod Loop
pub mod Region
pub mod Whole
use thirty.Prelude.{
  ℕ, zero, suc, ◌+◌, ◌-◌, ◌*◌, ◌/◌, ◌%◌, ◌^◌, Bool, true, false, ◌||◌, Option, none, some, List, [],
  ◌∷◌, length, get_elem?, set, take, replicate, overwrite, ltb, leb, ◌==◌, if◌then◌else◌,
}
use thirty.Prelude.Options.{◌>>=◌}
use thirty.Word.{uint32, mul_size, sub_size}
use thirty.Block.{air, magenta_wool}
use thirty.Map.{Map}

-- `fastintstack_t`
pub record IntStack : Type 0 where
  pub values : List ℕ
  pub capacity : ℕ
  pub size : ℕ

unfoldable pub stack_create : ℕ → IntStack
stack_create capacity = record { values = replicate capacity 0; capacity = capacity; size = 0 }

-- An empty stack, whose size would wrap, is not asked.
unfoldable pub stack_pop : IntStack → Option (ℕ × IntStack)
stack_pop s = get_elem? s.values (s.size - 1) >>= λ v. some (v, record s { size = s.size - 1 })

abbrev pub grown : IntStack → IntStack
grown s =
    let newcap = uint32 (s.capacity * 2) in
    record s { values = overwrite (replicate newcap 0) 0 (take s.size s.values); capacity = newcap }

unfoldable pub stack_push : ℕ → IntStack → Option IntStack
stack_push v s =
    let t = if s.size == s.capacity then grown s else s in
    if ltb t.size (length t.values)
    then some (record t { values = set t.values t.size v; size = uint32 (t.size + 1) })
    else none

unfoldable pub push_if : Bool → ℕ → IntStack → Option IntStack
push_if true v s = stack_push v s
push_if false v s = some s

abbrev pub is_open : ℕ → Bool
is_open b = (b == air) || (b == magenta_wool)

module _ (m : Map) (block : ℕ) where
  abbrev pub one_y : ℕ
  one_y = uint32 (mul_size m.width m.height)

  unfoldable pub push_neighbours : ℕ → IntStack → Option IntStack
  push_neighbours index s =
      let x = uint32 (index % m.width) in
      let y = index / one_y in
      let z = uint32 ((index / m.width) % m.height) in
      push_if (ltb 0 x) (uint32 (index + 2 ^ 32 - 1)) s
      >>= push_if (ltb x (sub_size m.width 1)) (uint32 (index + 1))
      >>= push_if (ltb 0 z) (uint32 (index + 2 ^ 32 - uint32 m.width))
      >>= push_if (ltb z (sub_size m.height 1)) (uint32 (index + m.width))
      >>= push_if (ltb 0 y) (uint32 (index + 2 ^ 32 - one_y))

  -- The loop: one popped index in each round.
  unfoldable pub flood_loop : ℕ → IntStack → List ℕ → Option (List ℕ)
  flood_loop zero s blocks = none
  flood_loop (suc fuel) s blocks =
      let again = flood_loop fuel in
      let blocklen = uint32 (mul_size (mul_size m.width m.depth) m.height) in
      if s.size == 0
      then some blocks
      else (stack_pop s >>= λ (index, s1).
          if leb blocklen index
          then again s1 blocks
          else (get_elem? blocks index >>= λ b.
              if is_open b
              then (push_neighbours index s1 >>= λ s2. again s2 (set blocks index block))
              else again s1 blocks))

  -- The blocks of the map after the fill.
  unfoldable pub flood_fill : ℕ → ℕ → Option (List ℕ)
  flood_fill fuel start = stack_push start (stack_create 4) >>= λ s. flood_loop fuel s m.blocks
