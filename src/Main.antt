-- ===== src/Main.antt =====
-- src/main.rs: the configuration of the daemon, and the state that it starts with.
pub mod Config
pub mod Loads
pub mod Serving
pub mod Launched
pub mod Requests
use kinetic_atlas.Base.{ℕ, Option, none, some, List, [], ◌∷◌, ◌++◌, Result, ok, err}
use kinetic_atlas.Text.{Str, str}
use kinetic_atlas.Constants.{default_proxy_port, default_kinetic_api}
use kinetic_atlas.Types.{AtlasConfig, NetworkConfig, default_registry_url}
use kinetic_atlas.Error.{AtlasError, config_error}
use kinetic_atlas.Registry.{TldRegistry, Dir, new, load_from_dir}
use kinetic_atlas.SwarmManager.{collect, empty}
use kinetic_atlas.Proxy.Outside.{HttpRequest, Outside}
use kinetic_atlas.Proxy.Handler.{ProxyState, Outcome, handle_proxy_request}

-- What the start needs from other crates. An error is its text.
pub record Files : Type 0 where
  pub data_local_dir : Option Str
  -- `Path::join`, and `to_string_lossy` of the result
  pub join : Str → Str → Str
  -- `serde_json::from_str::<AtlasConfig>` and `to_string_pretty`
  pub from_str : Str → Result Str AtlasConfig
  pub to_string_pretty : AtlasConfig → Result Str Str
  -- The error of `fs::write` on a path, if any.
  pub write_error : Str → Option Str

-- A start's writes, as path and content, and its configuration.
pub record Started : Type 0 where
  pub written : List (Str × Str)
  pub config : Result AtlasError AtlasConfig

abbrev or_here : Option Str → Str
or_here none = str "."
or_here (some dir) = dir

module _ (files : Files) where
  unfoldable pub base_dir : Str
  base_dir = files.join (or_here files.data_local_dir) (str "kinetic_atlas")

  unfoldable pub atlas_config_path : Str
  unfolding base_dir
  atlas_config_path = files.join base_dir (str "atlas.json")

  unfoldable pub default_config : AtlasConfig
  unfolding base_dir
  default_config = record {
    version = str "1.0";
    whitelist = [];
    blacklist = [];
    bind_port = default_proxy_port;
    kinetic_api = default_kinetic_api;
    kinetic_token = [];
    networks_dir = files.join base_dir (str "networks");
    registry_url = default_registry_url;
    override_ipfs_gateway = none;
    updater_public_key = none;
  }

  abbrev pub parsed : Result Str AtlasConfig → Result AtlasError AtlasConfig
  parsed (ok config) = ok config
  parsed (err e) = err (config_error e)

  abbrev pub create : Result Str Str → Started
  create (err e) = record { written = []; config = err (config_error e) }
  create (ok content) = elim (files.write_error atlas_config_path) [
    | none ↦ record { written = (atlas_config_path, content) ∷ []; config = ok default_config }
    | some e ↦ record {
      written = [];
      config = err (config_error (str "Failed to write default config: " ++ e));
    }
  ]

  -- By what `read_to_string` gives for the configuration's path: none is an error, of whatever kind.
  unfoldable pub get_or_create_config : Option Str → Started
  unfolding atlas_config_path default_config
  get_or_create_config (some content) = record {
    written = [];
    config = parsed (files.from_str content);
  }
  get_or_create_config none = create (files.to_string_pretty default_config)

  -- `read_to_string` of the path, by what the files of the machine have.
  unfoldable pub started_from : (Str → Option Str) → Started
  unfolding get_or_create_config
  started_from store = get_or_create_config (store atlas_config_path)

-- The state of the proxy that `main` sets up: the registry is loaded from the networks directory, and no
-- swarm runs.
unfoldable pub initial_state :
    {Node : Type 0}
    → (Str → Option NetworkConfig)
    → Option Str
    → AtlasConfig
    → Dir
    → ProxyState Node
initial_state parse data_local_dir config dir = record {
  swarms = empty;
  global_config = config;
  registry = record { networks = (load_from_dir parse data_local_dir config dir new).networks };
}

-- A request, with the times of its two critical sections.
pub record Arrival : Type 0 where
  pub before : ℕ
  pub after : ℕ
  pub request : HttpRequest

-- What a daemon does next: a request is served, the collector has a round at a time, or the updater
-- loads the networks directory again, as it is then.
pub data Step : Type 0 where
  serve : Arrival → Step
  collect_idle : (now : ℕ) → Step
  reload : Dir → Step

-- The registry is loaded from the networks directory again.
abbrev pub reloaded :
    {Node : Type 0}
    → (Str → Option NetworkConfig)
    → Option Str
    → Dir
    → ProxyState Node
    → ProxyState Node
reloaded parse data_local_dir dir st = record st {
  registry = record {
    networks = (load_from_dir parse data_local_dir st.global_config dir st.registry).networks;
  };
}

module _ {Reveal Node : Type 0} (out : Outside Reveal)
    (node_new : Str → List Str → Result AtlasError Node) (resolve : Str → List Str)
    (parse : Str → Option NetworkConfig) (data_local_dir : Option Str) where
  abbrev pub handled : ProxyState Node → Arrival → Outcome Node
  handled st a = handle_proxy_request out node_new resolve a.before a.after st a.request

  -- Steps one after the other, over the state that they share, and the outcomes of the requests.
  unfoldable pub run_daemon : List Step → ProxyState Node → List (Outcome Node) × ProxyState Node
  run_daemon [] st = ([], st)
  run_daemon (serve a ∷ later) st =
      let outcome = handled st a in
      let rest = run_daemon later (record st { swarms = outcome.swarms }) in
      (outcome ∷ rest.0, rest.1)
  run_daemon (collect_idle now ∷ later) st =
      run_daemon later (record st { swarms = collect now st.swarms })
  run_daemon (reload dir ∷ later) st = run_daemon later (reloaded parse data_local_dir dir st)
