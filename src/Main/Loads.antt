-- ===== src/Main/Loads.antt =====
-- src/main.rs, src/updater.rs: the registry after each load of the networks directory, and what it admits.
use kinetic_atlas.Base.{◌≡◌, refl, subst, Option, List, [], ◌∷◌}
use kinetic_atlas.Text.{Str, Str_eq}
use kinetic_atlas.Types.{AtlasConfig, NetworkConfig}
use kinetic_atlas.Registry.{
  TldRegistry, Dir, absent, unreadable, entries, Entry, new, tld_name, clean_tld, load_from_dir,
  load_entries,
}
use kinetic_atlas.Registry.Spec.{IsAllowed}
use kinetic_atlas.Registry.Loading.{Admitted, loaded, get_config-Admitted}
use kinetic_atlas.Proxy.Locate.{Located}
use kinetic_atlas.Proxy.Locate.Registered.{IsLocated}
use kinetic_atlas.Proxy.Handler.{ProxyState}
use kinetic_atlas.Main.{reloaded, initial_state}

-- The files of the networks directory that the registry holds after a load: a directory that is not
-- there leaves them, and one that cannot be read clears them.
abbrev pub loaded_files : Dir → List Entry → List Entry
loaded_files absent es = es
loaded_files unreadable es = []
loaded_files (entries es) _ = es

module _ (parse : Str → Option NetworkConfig) (data_local_dir : Option Str)
    (global : AtlasConfig) where
  -- The domain of a request, and its network: it is read from a file of the networks directory, and its
  -- name is allowed by the configuration.
  pub record IsAdmitted (es : List Entry) (loc : Located) : Type 0 where
    pub top : Str
    pub tld_is : loc.tld ≡ b'.' ∷ top
    pub admitted : Admitted parse data_local_dir global es loc.tld loc.config
    pub allowed : IsAllowed global top

  abbrev pub registry_of : List Entry → TldRegistry
  registry_of es = loaded parse data_local_dir global (entries es) new

  pub IsLocated-IsAdmitted :
      (es : List Entry) (loc : Located) → IsLocated (registry_of es) loc → IsAdmitted es loc
  unfolding clean_tld
  IsLocated-IsAdmitted es loc l =
      let a =
        get_config-Admitted parse data_local_dir global es new loc.tld loc.config l.registered in
      let same : tld_name loc.config.tld ≡ l.top = cc (a.spelled, l.tld_is) in
      record {
        top = l.top;
        tld_is = l.tld_is;
        admitted = a;
        allowed = subst (IsAllowed global) same a.allowed;
      }

  -- What holds of the state between two steps.
  pub record IsLoaded {Node : Type 0} (es : List Entry) (st : ProxyState Node) : Type 0 where
    pub registry : st.registry ≡ registry_of es
    pub configured : st.global_config ≡ global

  pub reloaded-IsLoaded :
      {Node : Type 0} (es : List Entry) (st : ProxyState Node) (dir : Dir)
      → IsLoaded es st
      → IsLoaded (loaded_files dir es) (reloaded parse data_local_dir dir st)
  unfolding load_from_dir
  reloaded-IsLoaded es st absent h = record { registry = h.registry; configured = h.configured }
  reloaded-IsLoaded es st unreadable h = record {
    registry = unfold load_entries in refl;
    configured = h.configured;
  }
  reloaded-IsLoaded es st (entries fs) h = record {
    registry = rw (h.configured) refl;
    configured = h.configured;
  }

  pub initial_state-IsLoaded :
      {Node : Type 0} (dir : Dir)
      → IsLoaded {Node = Node} (loaded_files dir []) (initial_state parse data_local_dir global dir)
  unfolding initial_state load_from_dir
  initial_state-IsLoaded absent = record {
    registry = unfold load_entries in refl;
    configured = refl;
  }
  initial_state-IsLoaded unreadable = record {
    registry = unfold load_entries in refl;
    configured = refl;
  }
  initial_state-IsLoaded (entries fs) = record { registry = refl; configured = refl }
