-- ===== src/Namelist/Known.antt =====
-- Which names a list knows when others are added to it.
use thirty.Prelude.{
  ℕ, ◌≡◌, refl, ap, ◌∙◌, arith, true, false, ◌||◌, List, [], ◌∷◌, ◌++◌, Bool-cases, inl, inr, map,
  if◌then◌else◌,
}
use thirty.Text.{str_eq, str_case_eq, str_eq_iff, to_lower}
use thirty.Namelist.{namelist_contains, add_name, add_names}

module _ (w name : List ℕ) (same : str_case_eq w name ≡ true) where
  contains_same : (ns : List (List ℕ)) → namelist_contains ns w ≡ namelist_contains ns name
  unfolding namelist_contains
  contains_same [] = refl
  contains_same (n ∷ ns) =
      let e = (str_eq_iff (map to_lower w) (map to_lower name)).0 same in
      let here : str_case_eq n w ≡ str_case_eq n name = ap (λ t. str_eq (map to_lower n) t) e in
      ap (λ t. if t then true else namelist_contains ns w) here
      ∙ ap (λ t. if str_case_eq n name then true else t) (contains_same ns)

contains-append :
    (ns : List (List ℕ)) (w name : List ℕ)
    → namelist_contains (ns ++ (w ∷ [])) name ≡ (namelist_contains ns name || str_case_eq w name)
unfolding namelist_contains
contains-append [] w name = ground arith
contains-append (n ∷ ns) w name = ground (arith, contains-append ns w name)

kept_as_is : (ns : List (List ℕ)) (w : List ℕ) → namelist_contains ns w ≡ true → add_name ns w ≡ ns
kept_as_is ns w h = ground (arith, h)

not_kept :
    (ns : List (List ℕ)) (w : List ℕ)
    → namelist_contains ns w ≡ false
    → add_name ns w ≡ ns ++ (w ∷ [])
not_kept ns w h = ground (arith, h)

contains-add_name :
    (ns : List (List ℕ)) (w name : List ℕ)
    → namelist_contains (add_name ns w) name ≡ (namelist_contains ns name || str_case_eq w name)
contains-add_name ns w name = elim (Bool-cases (namelist_contains ns w)) [
  | inr missing ↦
      ap (λ t. namelist_contains t name) (not_kept ns w missing) ∙ contains-append ns w name
  | inl present ↦
      ap (λ t. namelist_contains t name) (kept_as_is ns w present)
      ∙ elim (Bool-cases (str_case_eq w name)) [
        | inl same ↦ ground (arith, contains_same w name same ns, present, same)
        | inr other ↦ ground (arith, other)
      ]
]

pub contains-add_names :
    (ws ns : List (List ℕ)) (name : List ℕ)
    → namelist_contains (add_names ns ws) name
      ≡ (namelist_contains ns name || namelist_contains ws name)
unfolding namelist_contains
contains-add_names [] ns name = ground arith
contains-add_names (w ∷ ws) ns name =
    contains-add_names ws (add_name ns w) name ∙ (ground (arith, contains-add_name ns w name))
