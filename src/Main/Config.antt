-- ===== src/Main/Config.antt =====
-- The configuration of a first start and of the next one.
use kinetic_atlas.Base.{
  ◌≡◌, ◌≢◌, inl, inr, refl, Option, none, some, List, [], ◌∷◌, arith, Option-cases, Result, ok, err,
  ◌==◌, if◌then◌else◌, eq_refl,
}
use kinetic_atlas.Text.{Str, Str_eq}
use kinetic_atlas.Types.{AtlasConfig}
use kinetic_atlas.Updater.{start_auto_updater}
use kinetic_atlas.Main.{
  Files, atlas_config_path, default_config, create, get_or_create_config, started_from,
}

-- What the files have, by path.
abbrev pub Store : Type 0
Store = Str → Option Str

-- The files after the writes of a start.
unfoldable pub written_to : List (Str × Str) → Store → Store
written_to [] store path = store path
written_to ((at, content) ∷ writes) store path =
    let before = written_to writes store path in if at == path then some content else before

module _ (files : Files) where
  -- The default configuration reads back as it is printed.
  abbrev pub ReadsBack : Type 0
  ReadsBack =
      (content : Str)
      → files.to_string_pretty (default_config files) ≡ ok content
      → files.from_str content ≡ ok (default_config files)

  written_to-read :
      (path content : Str) (store : Store)
      → written_to ((path, content) ∷ []) store path ≡ some content
  unfolding written_to
  written_to-read path content store = rw (eq_refl path) refl

  -- A start that finds no configuration and writes has the default one, and the next start, over the files
  -- that the first one leaves, has it too and writes nothing, provided that the default configuration
  -- reads back as it is printed.
  pub get_or_create_config-again :
      ReadsBack
      → (store : Store) → store (atlas_config_path files) ≡ none
      → (started_from files store).written ≢ []
      → ((started_from files store).config ≡ ok (default_config files))
        × (started_from files (written_to (started_from files store).written store)
            ≡ record { written = []; config = ok (default_config files) })
  unfolding started_from get_or_create_config
  get_or_create_config-again back store fresh wrote = rw fresh (
      go (files.to_string_pretty (default_config files)) refl (λ nothing. wrote (rw fresh nothing)))
    where
      go :
          (printed : Result Str Str)
          → files.to_string_pretty (default_config files) ≡ printed
          → (create files printed).written ≢ []
          → ((create files printed).config ≡ ok (default_config files))
            × (started_from files (written_to (create files printed).written store)
                ≡ record { written = []; config = ok (default_config files) })
      go (err e) p k = absurd (k refl)
      go (ok text) p k = elim (Option-cases (files.write_error (atlas_config_path files))) [
        | inr (e, w) ↦ absurd (k (rw (w, create) refl))
        | inl w ↦
            rw (w, create)
              (refl, rw (written_to-read (atlas_config_path files) text store, back text p) refl)
      ]

  -- The updater does not run after a start that creates the configuration, which has a URL but no key.
  pub get_or_create_config-not_updated :
      (config : AtlasConfig)
      → (get_or_create_config files none).config ≡ ok config
      → start_auto_updater config ≡ none
  unfolding get_or_create_config
  get_or_create_config-not_updated config h = go (files.to_string_pretty (default_config files)) h
    where
      no_key : start_auto_updater (default_config files) ≡ none
      no_key = unfold default_config start_auto_updater in refl

      go :
          (printed : Result Str Str)
          → (create files printed).config ≡ ok config
          → start_auto_updater config ≡ none
      go (err e) k = cc
      go (ok text) k = elim (Option-cases (files.write_error (atlas_config_path files))) [
        | inr (e, w) ↦ absurd (ground arith)
        | inl w ↦ let same : default_config files ≡ config = ground arith in rw (← same) no_key
      ]
