-- ===== src/Login/Admission.antt =====
-- Who gets in: the checks of a login packet.
use thirty.Prelude.{
  ℕ, zero, suc, [], ◌∷◌, if◌then◌else◌, ◌≤◌, ◌<◌, ◌≡◌, refl, sym, ap, ◌∙◌, arith, ◌⊎◌, true, false,
  none, some, List, length, length-set, get_elem?, set,
}
use mathlib.Core.Option.{some-injective}
use thirty.Text.{str_case_eq}
use thirty.Namelist.{namelist_contains}
use thirty.Server.{Client}
use thirty.Login.{
  Site, Refusal, server_full, name_in_use, user_banned, failed_authentication, not_on_whitelist,
  verify_key, is_used, refusal,
}

-- A client that may play under this name.
pub record MayPlay (site : Site) (others : List Client) (name key : List ℕ) : Type 0 where
  pub room : length others ≤ site.config.max_players
  pub unused : is_used others name ≡ false
  pub not_banned : namelist_contains site.banned_users name ≡ false
  pub authentic : (site.config.offline ≡ true) ⊎ (verify_key site name key ≡ true)
  pub listed :
      (site.config.enable_whitelist ≡ false) ⊎ (namelist_contains site.whitelist name ≡ true)

pub refusal-MayPlay :
    (site : Site) (cs : List Client) (name key : List ℕ)
    → refusal site cs name key ≡ none
    → MayPlay site cs name key
unfolding refusal
refusal-MayPlay site cs name key h = record {
  room = ground (arith, h);
  unused = ground (arith, h);
  not_banned = ground (arith, h);
  authentic = ground (arith, h);
  listed = ground (arith, h);
}

pub is_used-set :
    (cs : List Client) (i : ℕ) (c d : Client) (n : List ℕ)
    → get_elem? cs i ≡ some c
    → d.name ≡ c.name
    → is_used (set cs i d) n ≡ is_used cs n
unfolding is_used
is_used-set [] i c d n h e = refl
is_used-set (x ∷ cs) zero c d n h e =
    ap (λ m. if str_case_eq m n then true else is_used cs n)
      (e ∙ ap (λ y. y.name) (sym (some-injective _ _ h)))
is_used-set (x ∷ cs) (suc i) c d n h e =
    ap (λ u. if str_case_eq x.name n then true else u) (is_used-set cs i c d n h e)

-- The checks do not depend on the version of the client itself.
pub refusal-set :
    (site : Site) (cs : List Client) (i : ℕ) (c d : Client) (name key : List ℕ)
    → get_elem? cs i ≡ some c
    → d.name ≡ c.name
    → refusal site (set cs i d) name key ≡ refusal site cs name key
unfolding refusal
refusal-set site cs i c d name key h e = rw (length-set cs i d, is_used-set cs i c d name h e) refl

-- The first check that a client of this name and key fails.
abbrev pub FirstFails : Site → List Client → List ℕ → List ℕ → Refusal → Type 0
FirstFails site others name key server_full = site.config.max_players < length others
FirstFails site others name key name_in_use =
    (length others ≤ site.config.max_players) × (is_used others name ≡ true)
FirstFails site others name key user_banned =
    (length others ≤ site.config.max_players)
    × (is_used others name ≡ false)
    × (namelist_contains site.banned_users name ≡ true)
FirstFails site others name key failed_authentication =
    (length others ≤ site.config.max_players)
    × (is_used others name ≡ false)
    × (namelist_contains site.banned_users name ≡ false)
    × (site.config.offline ≡ false)
    × (verify_key site name key ≡ false)
FirstFails site others name key not_on_whitelist =
    (length others ≤ site.config.max_players)
    × (is_used others name ≡ false)
    × (namelist_contains site.banned_users name ≡ false)
    × ((site.config.offline ≡ true) ⊎ (verify_key site name key ≡ true))
    × (site.config.enable_whitelist ≡ true)
    × (namelist_contains site.whitelist name ≡ false)

pub FirstFails-refusal :
    (site : Site) (cs : List Client) (name key : List ℕ) (why : Refusal)
    → FirstFails site cs name key why
    → refusal site cs name key ≡ some why
unfolding refusal
FirstFails-refusal site cs name key server_full h = ground (arith, h)
FirstFails-refusal site cs name key name_in_use h = ground (arith, h)
FirstFails-refusal site cs name key user_banned h = ground (arith, h)
FirstFails-refusal site cs name key failed_authentication h = ground (arith, h)
FirstFails-refusal site cs name key not_on_whitelist h = ground (arith, h)
