-- ===== src/Nbt/Add.antt =====
-- Adding tags to a compound.
use thirty.Prelude.{
  ℕ, zero, suc, ◌-◌, ◌≡◌, refl, sym, ap, ◌∙◌, arith, Bool, true, false, Option, none, some, List,
  [], ◌∷◌, ◌++◌, length, take, take-nil,
}
use mathlib.Core.List.{append_assoc, append-nil}
use thirty.Nbt.{
  Tag, tag, Slots, slot, tag_compound, calloc_slots, nbt_create, nbt_create_compound, set_value,
  add_to, add_value, nbt_add_tag,
}

-- The slots that hold the tags of a list in order, and some free slots behind.
abbrev pub packed : List Tag → ℕ → Slots
packed [] n = calloc_slots n
packed (t ∷ ts) n = slot t (packed ts n)

abbrev pub add_all : Tag → List Tag → Tag
add_all t [] = t
add_all t (new ∷ ts) = add_all (nbt_add_tag t new) ts

abbrev has_no_header : Option (List ℕ) → Bool
has_no_header none = true
has_no_header (some name) = false

-- A compound with some tags and room for more.
abbrev compound : Option (List ℕ) → List Tag → ℕ → Tag
compound name ts n = tag name (has_no_header name) (tag_compound (packed ts n))

add_to_room :
    (ts : List Tag) (n : ℕ) (new : Tag)
    → add_to (packed ts (suc n)) new ≡ packed (ts ++ (new ∷ [])) n
unfolding add_to
add_to_room [] n new = refl
add_to_room (t ∷ ts) n new = ap (slot t) (add_to_room ts n new)

add_to_full : (ts : List Tag) (new : Tag) → add_to (packed ts 0) new ≡ packed ts 0
unfolding add_to
add_to_full [] new = refl
add_to_full (t ∷ ts) new = ap (slot t) (add_to_full ts new)

same_compound :
    (name : Option (List ℕ)) {ts us : List Tag} {n m : ℕ}
    → ts ≡ us
    → n ≡ m
    → compound name ts n ≡ compound name us m
same_compound name {us = us} {n = n} e k =
    ap (λ l. compound name l n) e ∙ ap (λ i. compound name us i) k

no_more : (new : List Tag) → take 0 new ≡ []
no_more [] = refl
no_more (t ∷ new) = refl

add_all-compound :
    (name : Option (List ℕ)) (new ts : List Tag) (n : ℕ)
    → add_all (compound name ts n) new ≡ compound name (ts ++ take n new) (n - length new)
unfolding nbt_add_tag add_value
add_all-compound name [] ts n =
    same_compound name (sym (ap (λ l. ts ++ l) (take-nil n) ∙ append-nil ts)) (omega arith)
add_all-compound name (t ∷ new) ts zero =
    ap (λ s. add_all (tag name (has_no_header name) (tag_compound s)) new) (add_to_full ts t)
    ∙ (add_all-compound name new ts zero
        ∙ same_compound name (ap (λ l. ts ++ l) (no_more new)) (omega arith))
add_all-compound name (t ∷ new) ts (suc n) =
    ap (λ s. add_all (tag name (has_no_header name) (tag_compound s)) new) (add_to_room ts n t)
    ∙ (add_all-compound name new (ts ++ (t ∷ [])) n
        ∙ same_compound name (append_assoc ts (t ∷ []) (take n new)) (omega arith))

-- A new compound to which tags are added one after another holds the first 32 of them in order, and
-- its other slots stay free; the tags from the 33rd on are dropped.
pub nbt_add_tag-create_compound :
    (name : Option (List ℕ)) (ts : List Tag)
    → add_all (nbt_create_compound name) ts
      ≡ tag name (has_no_header name) (tag_compound (packed (take 32 ts) (32 - length ts)))
unfolding nbt_create set_value
nbt_add_tag-create_compound none ts = add_all-compound none ts [] 32
nbt_add_tag-create_compound (some name) ts = add_all-compound (some name) ts [] 32
