-- ===== src/Protocol/Handle/Stuck.antt =====
-- When the packet that changes a block, of client_handle_in_buffer in src/client.c, has no defined effect.
use thirty.Prelude.{
  ℕ, zero, suc, ◌+◌, ◌≤◌, ◌<◌, ◌≡◌, refl, ◌⊎◌, inl, inr, arith, Bool, Bool-cases, Option-cases,
  none, some, List, get_elem?, All-get_elem?, set, ltb, ◌&&◌, ◌==◌, if◌then◌else◌,
}
use thirty.Buffer.{Allocator, Buffer}
use thirty.Block.{num_blocks}
use thirty.Block.Table.{blockinfo_known}
use thirty.Map.{get, pos_valid, block_index}
use thirty.Map.Index.{Inside, pos_valid-Inside, Inside-pos_valid}
use thirty.World.{World, send_set_block}
use thirty.World.Keeps.{IsSound}
use thirty.World.Safe.{IsClear, map_set_defined}
use thirty.SetBlock.{Fields, can_perform, send_back, change_block, read_fields, on_set_block}
use thirty.Protocol.{Session}
use thirty.Protocol.Packets.{going, on_set_block_packet}

-- Why a block may not be changed: the block array is read out of range, the block is none of the table, or a
-- sponge or liquid at the position may look beyond a far side of the map; or there is no such client.
pub data BadPlace (s : Session) (i : ℕ) (f : Fields) : Type 0 where
  no_client : get_elem? s.clients i ≡ none → BadPlace s i f
  no_output : get_elem? s.world.clients i ≡ none → BadPlace s i f
  out_of_range : get s.world.map f.x f.y f.z ≡ none → BadPlace s i f
  unknown_block : num_blocks ≤ f.block → BadPlace s i f
  at_far_side : Inside s.world.map f.x f.y f.z → ¬ IsClear s.world.map f.x f.y f.z → BadPlace s i f

place_cases :
    (s : Session) (i : ℕ) (f : Fields)
    → BadPlace s i f ⊎ ((¬ Inside s.world.map f.x f.y f.z) ⊎ IsClear s.world.map f.x f.y f.z)
place_cases s i f =
    let m = s.world.map in
    let clear = ltb (f.x + 3) m.width && (ltb (f.y + 3) m.depth && ltb (f.z + 3) m.height) in
    elim (Bool-cases (pos_valid m f.x f.y f.z)) [
      | inr outside ↦ inr (inl (λ i'. absurd (cc (outside, Inside-pos_valid m f.x f.y f.z i'))))
      | inl valid ↦ elim (Bool-cases clear) [
        | inl yes_ ↦ inr (inr (ground (arith, yes_)))
        | inr no_ ↦ inl (
            at_far_side (pos_valid-Inside m f.x f.y f.z valid)
              (λ c. ground (arith, no_, c.0, c.1, c.2)))
      ]
    ]

-- The test of the permission never leaves the table.
can_perform_defined :
    (is_op is_break : Bool) (current block : ℕ)
    → current < num_blocks
    → block < num_blocks
    → (allowed : Bool) × (can_perform is_op is_break current block ≡ some allowed)
unfolding can_perform
can_perform_defined is_op is_break current block kc kb =
    elim (Option-cases (can_perform is_op is_break current block)) [
      | inr found ↦ found
      | inl e ↦ absurd (ground (arith, e, blockinfo_known current kc, blockinfo_known block kb))
    ]

module _ (heap : Allocator) (fuel i : ℕ) (s : Session) (f : Fields) (sound : IsSound s.world) where
  change_block_defined :
      (is_op : Bool) (current : ℕ) (out : Buffer)
      → get s.world.map f.x f.y f.z ≡ some current
      → current < num_blocks
      → f.block < num_blocks
      → get_elem? s.world.clients i ≡ some out
      → (¬ Inside s.world.map f.x f.y f.z) ⊎ IsClear s.world.map f.x f.y f.z
      → (w : World) × (change_block heap (suc (suc fuel)) is_op i f.x f.y f.z f.mode f.block s.world
          ≡ some w)
  unfolding change_block send_back
  change_block_defined is_op current out found kc kb here place =
      let is_break = f.mode == 0 in
      let (allowed, may) = can_perform_defined is_op is_break current f.block kc kb in
      let (w, set_, k) =
        map_set_defined heap fuel f.x f.y f.z (if is_break then 0 else f.block) s.world place
          (ground (arith, kb)) sound in
      elim (Bool-cases allowed) [
        | inl yes_ ↦ (w, rw (found, may, yes_) set_)
        | inr no_ ↦
            let v : World = s.world in
            (
              record v { clients = set v.clients i (send_set_block heap f.x f.y f.z current out) },
              rw (found, may, no_, here) refl,
            )
      ]

stored_known : (w : World) (x y z b : ℕ) → IsSound w → get w.map x y z ≡ some b → b < num_blocks
unfolding get
stored_known w x y z b s found =
    All-get_elem? _ w.map.blocks (block_index w.map x y z) s.wf.known found

-- With two calls for map_set to nest, the packet that changes a block is undefined for no other reason.
pub set_block_packet-BadPlace :
    (junk : ℕ) (old : List ℕ) (heap : Allocator) (fuel i : ℕ) (b : Buffer) (s : Session)
    → 2 ≤ fuel
    → IsSound s.world
    → on_set_block_packet junk old heap fuel i b s ≡ none
    → BadPlace s i (read_fields junk b).0
unfolding on_set_block_packet on_set_block
set_block_packet-BadPlace junk old heap zero i b s deep sound e = absurd (omega (arith, deep))
set_block_packet-BadPlace junk old heap (suc zero) i b s deep sound e = absurd (omega (arith, deep))
set_block_packet-BadPlace junk old heap (suc (suc fuel)) i b s deep sound e =
    let r = read_fields junk b in
    let f : Fields = r.0 in
    elim (Option-cases (get_elem? s.clients i)) [
      | inl gone ↦ no_client gone
      | inr (c, there) ↦ elim (Option-cases (get_elem? s.world.clients i)) [
        | inl gone ↦ no_output gone
        | inr (out, here) ↦ elim (Option-cases (get s.world.map f.x f.y f.z)) [
          | inl range ↦ out_of_range range
          | inr (current, found) ↦ elim (Bool-cases (ltb f.block num_blocks)) [
            | inr unknown ↦ unknown_block (ground (arith, unknown))
            | inl known ↦ elim (place_cases s i f) [
              | inl bad ↦ bad
              | inr place ↦
                  let (w, set_) =
                    change_block_defined heap fuel i s f sound c.is_op current out found
                      (stored_known s.world f.x f.y f.z current sound found) (ground (arith, known))
                      here place in
                  let ran : on_set_block_packet junk old heap (suc (suc fuel)) i b s
                      ≡ some (going (record s { world = w }) r.1) =
                    rw (there, set_) refl in
                  absurd (cc (ran, e))
            ]
          ]
        ]
      ]
    ]
