-- ===== src/Registry/Loading.antt =====
-- The registry that a directory gives: the first admitted configuration for each top-level domain.
use kinetic_atlas.Base.{
  Option, none, some, List, [], ◌∷◌, ◌≡◌, In, inl, inr, refl, ap, sym, ◌∙◌, arith, Bool-cases,
  Option-cases,
}
use kinetic_atlas.Base.Map
use kinetic_atlas.Base.Map.{Map, get-insert}
use kinetic_atlas.Text.{Str, Str_eq}
use kinetic_atlas.Types.{AtlasConfig, NetworkConfig}
use kinetic_atlas.Registry.{
  TldRegistry, Dir, entries, Entry, Loaded, clean_tld, config_of, tld_name, load_config,
  load_option, load_entry, load_entries, load_from_dir, get_config,
}
use kinetic_atlas.Registry.Spec.{
  IsAllowed, IsAllowed-of_not_excluded, provides, provided, or_next, first_provider,
}

or_next-none : (o : Option NetworkConfig) → or_next o none ≡ o
or_next-none none = refl
or_next-none (some c) = refl

or_next_assoc : (o p q : Option NetworkConfig) → or_next (or_next o p) q ≡ or_next o (or_next p q)
or_next_assoc none p q = refl
or_next_assoc (some c) p q = refl

module _ (parse : Str → Option NetworkConfig) (data_local_dir : Option Str)
    (global : AtlasConfig) where
  get-load_config :
      (config : NetworkConfig) (l : Loaded) (tld : Str)
      → Map.get (load_config parse data_local_dir global config l).networks tld
        ≡ or_next (Map.get l.networks tld) (provided global tld (some config))
  unfolding load_config Map.contains_key
  get-load_config config l tld = ground (
    arith,
    get-insert l.networks (clean_tld config.tld) tld config,
    Str_eq.equal_iff (clean_tld config.tld) tld,
  )

  get-load_option :
      (found : Option NetworkConfig) (l : Loaded) (tld : Str)
      → Map.get (load_option parse data_local_dir global found l).networks tld
        ≡ or_next (Map.get l.networks tld) (provided global tld found)
  get-load_option none l tld = sym (or_next-none (Map.get l.networks tld))
  get-load_option (some config) l tld = get-load_config config l tld

  get-load_entries :
      (es : List Entry) (l : Loaded) (tld : Str)
      → Map.get (load_entries parse data_local_dir global es l).networks tld
        ≡ or_next (Map.get l.networks tld) (first_provider parse global tld es)
  unfolding load_entries load_entry
  get-load_entries [] l tld = sym (or_next-none (Map.get l.networks tld))
  get-load_entries (entry ∷ es) l tld =
      get-load_entries es (load_entry parse data_local_dir global entry l) tld
      ∙ ap (λ o. or_next o (first_provider parse global tld es))
          (get-load_option (config_of parse entry) l tld)
      ∙ or_next_assoc (Map.get l.networks tld) (provided global tld (config_of parse entry))
          (first_provider parse global tld es)

  abbrev pub loaded : Dir → TldRegistry → TldRegistry
  loaded dir reg = record {
    networks = (load_from_dir parse data_local_dir global dir reg).networks;
  }

  -- Loading a directory replaces the registry: a top-level domain has the configuration of the first
  -- entry that provides it, and none if no entry does, whatever the registry held before.
  pub get_config-loaded :
      (es : List Entry) (reg : TldRegistry) (tld : Str)
      → get_config (loaded (entries es) reg) tld ≡ first_provider parse global tld es
  unfolding get_config load_from_dir
  get_config-loaded es reg tld =
      get-load_entries es (record { networks = []; written = [] }) tld ∙ (unfold Map.get in refl)

  -- Where a configuration in the registry comes from.
  pub record Admitted (es : List Entry) (tld : Str) (config : NetworkConfig) : Type 0 where
    pub entry : Entry
    pub listed : In entry es
    pub parsed : config_of parse entry ≡ some config
    pub spelled : clean_tld config.tld ≡ tld
    pub allowed : IsAllowed global (tld_name config.tld)

  Admitted-cons :
      (e : Entry) (es : List Entry) (tld : Str) (config : NetworkConfig)
      → Admitted es tld config
      → Admitted (e ∷ es) tld config
  Admitted-cons e es tld config a = record {
    entry = a.entry;
    listed = inr a.listed;
    parsed = a.parsed;
    spelled = a.spelled;
    allowed = a.allowed;
  }

  first_provider-Admitted :
      (es : List Entry) (tld : Str) (config : NetworkConfig)
      → first_provider parse global tld es ≡ some config
      → Admitted es tld config
  first_provider-Admitted [] tld config h = cc
  first_provider-Admitted (e ∷ es) tld config h = elim (Option-cases (config_of parse e)) [
    | inl p ↦ Admitted-cons e es tld config (first_provider-Admitted es tld config (rw p at h))
    | inr (found, p) ↦ elim (Bool-cases (provides global tld found)) [
      | inr no_match ↦
          Admitted-cons e es tld config
            (first_provider-Admitted es tld config (rw (p, no_match) at h))
      | inl match ↦
          let same : found ≡ config = ground arith in
          record {
            entry = e;
            listed = inl refl;
            parsed = rw (← same) p;
            spelled = rw (← same) ((Str_eq.equal_iff (clean_tld found.tld) tld).0 (ground arith));
            allowed =
                rw (← same) (IsAllowed-of_not_excluded global (tld_name found.tld) (ground arith));
          }
    ]
  ]

  -- A configuration that the loaded registry holds stands in a JSON file of the directory, is spelled
  -- as its top-level domain, and its name is on the whitelist (or that is empty) and not on the blacklist.
  pub get_config-Admitted :
      (es : List Entry) (reg : TldRegistry) (tld : Str) (config : NetworkConfig)
      → get_config (loaded (entries es) reg) tld ≡ some config
      → Admitted es tld config
  get_config-Admitted es reg tld config h =
      first_provider-Admitted es tld config (sym (get_config-loaded es reg tld) ∙ h)
