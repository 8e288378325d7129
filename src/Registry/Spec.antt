-- ===== src/Registry/Spec.antt =====
-- The contract of the loading: the first entry that is admitted for a top-level domain provides it.
use kinetic_atlas.Base.{
  Bool, true, false, not, ◌&&◌, Option, none, some, List, [], ◌∷◌, if◌then◌else◌, ◌==◌, ◌≡◌, ◌⊎◌,
  In, refl, arith, contains, contains-In, In-contains, is_empty, inl, inr, ◌↔◌, Bool-cases, ◌||◌,
}
use kinetic_atlas.Text.{Str, Str_eq}
use kinetic_atlas.Types.{AtlasConfig, NetworkConfig}
use kinetic_atlas.Registry.{
  Entry, clean_tld, config_of, is_excluded, is_whitelisted, is_blacklisted, tld_name,
}

-- What the operator's lists allow: a name on the whitelist, unless that is empty, and not on the blacklist.
pub record IsAllowed (global : AtlasConfig) (name : Str) : Type 0 where
  pub listed : (global.whitelist ≡ []) ⊎ In name global.whitelist
  pub clear : ¬ In name global.blacklist

whitelist_iff :
    (names : List Str) (name : Str)
    → ((is_empty names || contains names name) ≡ true) ↔ ((names ≡ []) ⊎ In name names)
whitelist_iff [] name = (λ _. inl refl, λ _. refl)
whitelist_iff (n ∷ names) name = (
  λ h. inr (contains-In (n ∷ names) name h),
  λ h. elim h [ inl e ↦ cc | inr i ↦ In-contains (n ∷ names) name i ],
)

blacklist_iff :
    (names : List Str) (name : Str)
    → ((not (is_empty names) && contains names name) ≡ false) ↔ (¬ In name names)
blacklist_iff [] name = (λ _ i. absurd i.lower, λ _. refl)
blacklist_iff (n ∷ names) name = (
  λ h i. cc (h, In-contains (n ∷ names) name i),
  λ h. elim (Bool-cases (contains (n ∷ names) name)) [
    | inl e ↦ absurd (h (contains-In (n ∷ names) name e))
    | inr e ↦ e
  ],
)

module _ (global : AtlasConfig) (name : Str) where
  pub IsAllowed-of_not_excluded : is_excluded global name ≡ false → IsAllowed global name
  unfolding is_whitelisted is_blacklisted
  IsAllowed-of_not_excluded h = record {
    listed = (whitelist_iff global.whitelist name).0 (ground arith);
    clear = (blacklist_iff global.blacklist name).0 (ground arith);
  }

  pub not_excluded_of_IsAllowed : IsAllowed global name → is_excluded global name ≡ false
  unfolding is_whitelisted is_blacklisted
  not_excluded_of_IsAllowed h = cc (
    (whitelist_iff global.whitelist name).1 h.listed,
    (blacklist_iff global.blacklist name).1 h.clear,
  )

-- Whether a configuration provides the top-level domain `tld`.
abbrev pub provides : AtlasConfig → Str → NetworkConfig → Bool
provides global tld config =
    not (is_excluded global (tld_name config.tld)) && (clean_tld config.tld == tld)

abbrev pub provided : AtlasConfig → Str → Option NetworkConfig → Option NetworkConfig
provided global tld none = none
provided global tld (some config) = if provides global tld config then some config else none

abbrev pub or_next : Option NetworkConfig → Option NetworkConfig → Option NetworkConfig
or_next none later = later
or_next (some config) later = some config

-- The first configuration, in the order of the directory, that provides the top-level domain.
abbrev pub first_provider :
    (Str → Option NetworkConfig) → AtlasConfig → Str → List Entry → Option NetworkConfig
first_provider parse global tld [] = none
first_provider parse global tld (entry ∷ es) =
    or_next (provided global tld (config_of parse entry)) (first_provider parse global tld es)
