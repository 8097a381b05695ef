-- ===== src/Flood/Whole.antt =====
-- The flood fill of src/mapgen.c ends, and fills what is reached.
use thirty.Prelude.{
  ℕ, zero, suc, ◌+◌, ◌*◌, ◌%◌, ◌^◌, ◌≤◌, ◌<◌, ◌≡◌, refl, arith, inl, inr, Bool-cases, true, false,
  none, some, List, [], ◌∷◌, length, get_elem?, get_elem?-eq_some, get_elem?-eq_none, set, leb,
  ◌==◌,
}
use native.Mathlib.Nat.{mod-eq_of_lt}
use thirty.Word.{uint32, mul_size, size_mod}
use thirty.Map.{Map}
use thirty.Map.Index.{volume, le-mul}
use thirty.Flood.{IntStack, stack_create, is_open, flood_loop, flood_fill}
use thirty.Flood.Stack.{Holds, stack_push-Holds, stack_pop-Holds, stack_create-Holds}
use thirty.Flood.Cells.{pushed}
use thirty.Flood.Loop.{push_neighbours-Holds, length-pushed}
use thirty.Flood.Region.{
  Reach, Inv, Inv-start, Inv-skip, settled_closed, Inv-fill, Inv-end, count_open, count_open-set,
}

product : (a h : ℕ) → a * h < 2 ^ 27 → uint32 (mul_size (a % size_mod) h) ≡ a * h
product a zero s = omega arith
product a (suc h) s =
    let fits : a < size_mod = omega (arith, s, le-mul a (suc h) (omega arith)) in
    rw (mod-eq_of_lt fits) (omega (arith, s))

count_open-bounded : (bs : List ℕ) → count_open bs ≤ length bs
count_open-bounded [] = omega arith
count_open-bounded (b ∷ bs) = ground (arith, count_open-bounded bs)

module _ (m : Map) (block start : ℕ) (filled : length m.blocks ≡ volume m)
    (small : volume m < 2 ^ 27) (solid : is_open block ≡ false) where
  blocklen : uint32 (mul_size (mul_size m.width m.depth) m.height) ≡ volume m
  blocklen = product (m.width * m.depth) m.height small

  flood_loop-Inv :
      (fuel : ℕ) (s : IntStack) (xs bs : List ℕ)
      → Holds s xs
      → Inv m block start filled small solid xs bs
      → 5 * count_open bs + length xs < fuel
      → 5 * count_open bs + length xs + 5 < 2 ^ 30
      → (out : List ℕ) × (flood_loop m block fuel s bs ≡ some out)
        × Inv m block start filled small solid [] out
  unfolding flood_loop
  flood_loop-Inv zero s xs bs h v enough few = absurd (omega (arith, enough))
  flood_loop-Inv (suc fuel) s [] bs h v enough few =
      let done : (s.size == 0) ≡ true = ground (arith, h.size) in (bs, rw done refl, v)
  flood_loop-Inv (suc fuel) s (i ∷ xs) bs h v enough few =
      let more : (s.size == 0) ≡ false = ground (arith, h.size) in
      let (t, popped, ht) = stack_pop-Holds s i xs h in
      elim (Bool-cases (leb (volume m) i)) [
        | inl beyond ↦
            let far : get_elem? m.blocks i ≡ none =
              get_elem?-eq_none m.blocks i (ground (arith, filled)) in
            let w =
              Inv-skip m block start filled small solid i xs bs v (λ o. absurd (cc (far, o.1))) in
            rw (more, popped, blocklen, beyond)
              (flood_loop-Inv fuel t xs bs ht w (omega (arith, enough)) (omega (arith, few)))
        | inr within ↦
            let inside : i < volume m = ground arith in
            let (b, found) = get_elem?-eq_some bs i (omega (arith, v.size, filled, inside)) in
            elim (Bool-cases (is_open b)) [
              | inr closed ↦
                  let w = Inv-skip m block start filled small solid i xs bs v (
                    settled_closed m block start filled small solid (i ∷ xs) bs i b v found
                      closed) in
                  rw (more, popped, blocklen, within, found, closed)
                    (flood_loop-Inv fuel t xs bs ht w (omega (arith, enough)) (omega (arith, few)))
              | inl open_ ↦
                  let (u, ran, hu) =
                    push_neighbours-Holds m block small i inside t xs ht (omega (arith, few)) in
                  let w =
                    Inv-fill m block start filled small solid i b xs bs v inside found open_ in
                  let less = count_open-set bs i b block found open_ solid in
                  let long = length-pushed m i xs in
                  rw (more, popped, blocklen, within, found, open_, ran)
                    (flood_loop-Inv fuel u (pushed m i xs) (set bs i block) hu w
                      (omega (arith, enough, less, long)) (omega (arith, few, less, long)))
            ]
      ]

  -- In a map of fewer than 2^27 blocks, with a block that is neither air nor magenta wool, the flood fill ends
  -- within 5 rounds for each block of the map and two more, whatever the start; the cells of air and magenta wool
  -- that are reached from the start over such cells beside and below one another have the block, and every
  -- other cell is as it was.
  pub flood_fill-Reach :
      (fuel : ℕ)
      → 5 * volume m + 2 ≤ fuel
      → (out : List ℕ) × (flood_fill m block fuel start ≡ some out)
        × ((i : ℕ) → Reach m start i → get_elem? out i ≡ some block)
        × ((i : ℕ) → ¬ Reach m start i → get_elem? out i ≡ get_elem? m.blocks i)
  unfolding flood_fill
  flood_fill-Reach fuel enough =
      let (s, pushed_first, h) =
        stack_push-Holds (stack_create 4) [] start stack_create-Holds (omega arith) in
      let open_ = count_open-bounded m.blocks in
      let (out, ran, v) =
        flood_loop-Inv fuel s (start ∷ []) m.blocks h (Inv-start m block start filled small solid)
          (omega (arith, enough, open_, filled)) (omega (arith, small, open_, filled)) in
      (
        out,
        rw pushed_first ran,
        λ i r. Inv-end m block start filled small solid out v r,
        λ i far. elim (v.changed i) [ inl same ↦ same | inr (r, done) ↦ absurd (far r) ],
      )
