-- ===== src/Registry/Files.antt =====
-- The files that announce the top-level domains to kinetic-pac.
use kinetic_atlas.Base.{
  true, false, Option, none, some, List, [], ◌∷◌, if◌then◌else◌, ◌==◌, ◌≡◌, In, Distinct, inl, inr,
  sym, arith, Bool-cases,
}
use kinetic_atlas.Base.Map
use kinetic_atlas.Base.Map.{get-insert}
use kinetic_atlas.Text.{Str, Str_eq}
use kinetic_atlas.Types.{AtlasConfig, NetworkConfig}
use kinetic_atlas.Registry.{
  TldRegistry, entries, Entry, Loaded, ProxyFile, clean_tld, config_of, is_excluded, tld_name,
  load_config, load_option, load_entry, load_entries, load_from_dir, proxy_file,
}

abbrev pub tlds : List ProxyFile → List Str
tlds [] = []
tlds (f ∷ fs) = f.tld ∷ tlds fs

module _ (parse : Str → Option NetworkConfig) (base_dir : Str) (global : AtlasConfig) where
  -- The announced top-level domains are those of the registry, each announced once.
  pub record IsAnnounced (l : Loaded) : Type 0 where
    pub distinct : Distinct (tlds l.written)
    pub registered : (tld : Str) → In tld (tlds l.written) → Map.contains_key l.networks tld ≡ true
    pub announced : (tld : Str) → Map.contains_key l.networks tld ≡ true → In tld (tlds l.written)

  contains_key-insert :
      (l : Loaded) (k j : Str) (config : NetworkConfig)
      → Map.contains_key (Map.insert l.networks k config) j
        ≡ (if k == j then true else Map.contains_key l.networks j)
  unfolding Map.contains_key
  contains_key-insert l k j config = ground (arith, get-insert l.networks k j config)

  module _ (l : Loaded) (k : Str) (config : NetworkConfig)
      (free : Map.contains_key l.networks k ≡ false) (h : IsAnnounced l) where
    abbrev grown : Loaded
    grown = record {
      networks = Map.insert l.networks k config;
      written = proxy_file global base_dir k ∷ l.written;
    }

    registered_after :
        (tld : Str) → In tld (tlds grown.written) → Map.contains_key grown.networks tld ≡ true
    unfolding proxy_file
    registered_after tld (inl e) =
        ground (arith, contains_key-insert l k tld config, Str_eq.equal_iff k tld)
    registered_after tld (inr i) =
        ground (arith, contains_key-insert l k tld config, h.registered tld i)

    announced_after :
        (tld : Str) → Map.contains_key grown.networks tld ≡ true → In tld (tlds grown.written)
    unfolding proxy_file
    announced_after tld c = elim (Bool-cases (k == tld)) [
      | inl e ↦ inl (sym ((Str_eq.equal_iff k tld).0 e))
      | inr e ↦ inr (h.announced tld (cc (contains_key-insert l k tld config, c, e)))
    ]

    IsAnnounced-grown : IsAnnounced grown
    IsAnnounced-grown = record {
      distinct = unfold proxy_file in ((λ i. cc (h.registered k i, free)), h.distinct);
      registered = registered_after;
      announced = announced_after;
    }

  load_config-IsAnnounced :
      (config : NetworkConfig) (l : Loaded)
      → IsAnnounced l
      → IsAnnounced (load_config parse (some base_dir) global config l)
  unfolding load_config
  load_config-IsAnnounced config l h =
      elim (Bool-cases (is_excluded global (tld_name config.tld))) [
        | inl e ↦ rw (e, load_config) h
        | inr e ↦ elim (Bool-cases (Map.contains_key l.networks (clean_tld config.tld))) [
          | inl k ↦ rw (e, k, load_config) h
          | inr k ↦ rw (e, k, load_config) (IsAnnounced-grown l (clean_tld config.tld) config k h)
        ]
      ]

  load_option-IsAnnounced :
      (found : Option NetworkConfig) (l : Loaded)
      → IsAnnounced l
      → IsAnnounced (load_option parse (some base_dir) global found l)
  load_option-IsAnnounced none l h = h
  load_option-IsAnnounced (some config) l h = load_config-IsAnnounced config l h

  load_entries-IsAnnounced :
      (es : List Entry) (l : Loaded)
      → IsAnnounced l
      → IsAnnounced (load_entries parse (some base_dir) global es l)
  unfolding load_entries load_entry
  load_entries-IsAnnounced [] l h = h
  load_entries-IsAnnounced (e ∷ es) l h =
      load_entries-IsAnnounced es (load_entry parse (some base_dir) global e l)
        (load_option-IsAnnounced (config_of parse e) l h)

  -- Where the user's data directory is known, loading a directory tries to write one announcement for
  -- each top-level domain that it registers, and no other.
  pub load_from_dir-IsAnnounced :
      (es : List Entry) (reg : TldRegistry)
      → IsAnnounced (load_from_dir parse (some base_dir) global (entries es) reg)
  unfolding load_from_dir
  load_from_dir-IsAnnounced es reg =
      load_entries-IsAnnounced es (record { networks = []; written = [] })
        (record {
          distinct = tt;
          registered = λ tld i. absurd i.lower;
          announced = λ tld h. unfold Map.contains_key Map.get in cc;
        })
