-- ===== src/SendMap/Bounds.antt =====
-- Which blocks a client without custom blocks is sent.
use thirty.Prelude.{
  ℕ, zero, suc, ◌+◌, ◌-◌, ◌*◌, ◌^◌, ◌≤◌, ◌<◌, ◌≡◌, refl, ap, arith, false, List, [], ◌∷◌, ◌++◌,
  length, take, drop, map, All,
}
use thirty.Endian.{big, encode, length-encode}
use thirty.Block.{num_blocks, obsidian, air}
use thirty.Block.Fallback.{get_fallback_lem}
use thirty.Map.{Map}
use thirty.Map.Index.{IsWf, volume}
use thirty.SendMap.{num_blocks_of, level_data, replace_block, replace_blocks, sent_level}

replace_block-bounded : (version b : ℕ) → b < num_blocks → replace_block version b ≤ obsidian
unfolding replace_block
replace_block-bounded version b h =
    ground (arith, get_fallback_lem b h, get_fallback_lem air (omega arith))

replace_blocks-append :
    (version k : ℕ) (front bs : List ℕ) (n : ℕ)
    → n ≡ length front + k
    → replace_blocks version n (front ++ bs)
      ≡ map (replace_block version) front ++ replace_blocks version k bs
unfolding replace_blocks
replace_blocks-append version k [] bs n e = ap (λ i. replace_blocks version i bs) (omega (arith, e))
replace_blocks-append version k (c ∷ cs) bs zero e = absurd (omega (arith, e))
replace_blocks-append version k (c ∷ cs) bs (suc n) e =
    ap (◌∷◌ (replace_block version c)) (replace_blocks-append version k cs bs n (omega (arith, e)))

replace_blocks-bounded :
    (version k : ℕ) (bs : List ℕ)
    → All (λ b. b < num_blocks) bs
    → All (λ b. b ≤ obsidian) (take k (replace_blocks version k bs))
unfolding replace_blocks
replace_blocks-bounded version zero bs h = tt
replace_blocks-bounded version (suc k) [] h = tt
replace_blocks-bounded version (suc k) (b ∷ bs) h =
    (replace_block-bounded version b h.0, replace_blocks-bounded version k bs h.1)

replace_blocks-rest :
    (version k : ℕ) (bs : List ℕ) → drop k (replace_blocks version k bs) ≡ drop k bs
unfolding replace_blocks
replace_blocks-rest version zero bs = refl
replace_blocks-rest version (suc k) [] = refl
replace_blocks-rest version (suc k) (b ∷ bs) = replace_blocks-rest version k bs

-- Of a well-formed map of at least four and less than 2^32 blocks, a client without custom blocks of any
-- protocol version is sent four bytes, which the same replacement made of the number of blocks, and the
-- blocks: all but the last four of these are of the original fifty, and the last four are as on the map.
pub sent_level-bounded :
    (version : ℕ) (m : Map)
    → IsWf m
    → 4 ≤ volume m
    → volume m < 2 ^ 32
    → (sent : List ℕ) × (sent_level false version m
        ≡ map (replace_block version) (encode big 4 (num_blocks_of m)) ++ sent)
      × All (λ b. b ≤ obsidian) (take (volume m - 4) sent)
      × (drop (volume m - 4) sent ≡ drop (volume m - 4) m.blocks)
unfolding sent_level level_data
sent_level-bounded version m wf large small =
    let k = volume m - 4 in
    let same : m.width * m.height * m.depth ≡ volume m = grind arith in
    let count : num_blocks_of m ≡ length (encode big 4 (num_blocks_of m)) + k =
      omega (arith, same, large, small, length-encode big 4 (num_blocks_of m)) in
    (
      replace_blocks version k m.blocks,
      replace_blocks-append version k (encode big 4 (num_blocks_of m)) m.blocks (num_blocks_of m)
          count,
      replace_blocks-bounded version k m.blocks wf.known,
      replace_blocks-rest version k m.blocks,
    )
