-- ===== src/Nbt/Lookup.antt =====
-- Finding the tags of a compound by their names.
use thirty.Prelude.{ℕ, ◌≡◌, ◌≢◌, refl, arith, Bool, Option, none, some, List}
use thirty.Text.{str_eq_iff}
use thirty.Nbt.{
  tag, Value, Slots, done, free, slot, tag_compound, add_to, add_value, nbt_add_tag, get_in,
  get_value, nbt_get_tag,
}

-- Every tag has a name, and it is another one than `n`.
abbrev pub HaveOtherNames : List ℕ → Slots → Type 0
HaveOtherNames n done = Unit
HaveOtherNames n (free ts) = HaveOtherNames n ts
HaveOtherNames n (slot (tag none bare v) ts) = ⊥
HaveOtherNames n (slot (tag (some m) bare v) ts) = (m ≢ n) × HaveOtherNames n ts

abbrev pub HasFree : Slots → Type 0
HasFree done = ⊥
HasFree (free ts) = Unit
HasFree (slot t ts) = HasFree ts

found :
    (ts : Slots) (n : List ℕ) (bare : Bool) (v : Value)
    → HaveOtherNames n ts
    → HasFree ts
    → get_in (add_to ts (tag (some n) bare v)) n ≡ some (some (tag (some n) bare v))
unfolding get_in add_to
found done n bare v h room = absurd room
found (free ts) n bare v h room = ground (arith, str_eq_iff n n)
found (slot (tag none b w) ts) n bare v h room = absurd h
found (slot (tag (some m) b w) ts) n bare v h room =
    ground (arith, str_eq_iff m n, h.0, found ts n bare v h.1 room)

others :
    (ts : Slots) (n m : List ℕ) (bare : Bool) (v : Value)
    → n ≢ m
    → get_in (add_to ts (tag (some n) bare v)) m ≡ get_in ts m
unfolding get_in add_to
others done n m bare v h = refl
others (free ts) n m bare v h = ground (arith, str_eq_iff n m, h)
others (slot (tag none b w) ts) n m bare v h = refl
others (slot (tag (some k) b w) ts) n m bare v h = ground (arith, others ts n m bare v h)

-- A named tag that is added to a compound with a free slot, in which every tag has a name and none
-- has that one, is found under its name, and the lookup of every other name gives what it gave
-- before.
pub nbt_get_tag-add_tag :
    (name : Option (List ℕ)) (bare : Bool) (ts : Slots) (n : List ℕ) (bare' : Bool) (v : Value)
    → HaveOtherNames n ts
    → HasFree ts
    → let t = tag (some n) bare' v in
      let c = tag name bare (tag_compound ts) in
      (nbt_get_tag (nbt_add_tag c t) n ≡ some (some t))
      × ((m : List ℕ) → n ≢ m → nbt_get_tag (nbt_add_tag c t) m ≡ nbt_get_tag c m)
unfolding nbt_get_tag nbt_add_tag get_value add_value
nbt_get_tag-add_tag name bare ts n bare' v h room =
    (found ts n bare' v h room, λ m ne. others ts n m bare' v ne)
