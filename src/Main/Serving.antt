-- ===== src/Main/Serving.antt =====
-- src/main.rs, src/proxy.rs: `main` as a whole, and the server that it starts.
use Prim.Native.Nat.{◌/◌, ◌%◌}
use kinetic_atlas.Base.{
  ℕ, zero, suc, ◌+◌, ◌*◌, ◌-◌, Option, none, some, List, [], ◌∷◌, ◌++◌, ltb, if◌then◌else◌, Result,
  ok, err,
}
use kinetic_atlas.Text.{Str}
use kinetic_atlas.Constants.{default_bind_ip}
use kinetic_atlas.Types.{AtlasConfig, NetworkConfig}
use kinetic_atlas.Error.{AtlasError, config_error, to_string}
use kinetic_atlas.Registry.{Dir, ProxyFile, new, load_from_dir}
use kinetic_atlas.Proxy.Handler.{ProxyState}
use kinetic_atlas.Main.{Files, get_or_create_config, initial_state}

-- The digits of a number in front of others. A number below ten to the `rounds` has no more of them.
unfoldable pub digits : (rounds : ℕ) → ℕ → Str → Str
digits zero n ds = ds
digits (suc rounds) n ds =
    if ltb n 10 then (b'0' + n) ∷ ds else digits rounds (n / 10) ((b'0' + n % 10) ∷ ds)

-- A `u16` as text. A number has fewer digits than one more than itself.
unfoldable pub decimal : ℕ → Str
unfolding digits
decimal n = digits (suc n) n []

-- The number that digits stand for, behind those that stand for `n`.
abbrev pub number_from : ℕ → Str → ℕ
number_from n [] = n
number_from n (d ∷ ds) = number_from (n * 10 + (d - b'0')) ds

-- What `TcpListener::bind` and `axum::serve` fail with at an address, if they do.
pub record Listener : Type 0 where
  pub bind_error : Str → Option Str
  pub serve_error : Str → Option Str

-- `format!("{}:{}", DEFAULT_BIND_IP, port)`
unfoldable pub address : ℕ → Str
unfolding decimal
address port = default_bind_ip ++ b':' ∷ decimal port

abbrev pub or_config_error : Option Str → Result AtlasError Unit → Result AtlasError Unit
or_config_error none r = r
or_config_error (some e) r = err (config_error e)

unfoldable pub start_proxy_server : Listener → ℕ → Result AtlasError Unit
unfolding address
start_proxy_server listener port =
    or_config_error (listener.bind_error (address port))
      (or_config_error (listener.serve_error (address port)) (ok tt))

-- What `main` comes to: the writes of its configuration, the announcements of the registry's load, the
-- state of the server and the address that it is to listen at, and the result.
pub record Launch (Node : Type 0) : Type 0 where
  pub written : List (Str × Str)
  pub announced : List ProxyFile
  pub state : Option (ProxyState Node)
  pub bound : Option Str
  pub result : Result AtlasError Unit

-- `start_proxy_server(…).await.map_err(|e| AtlasError::ConfigError(e.to_string()))?`
abbrev pub rewrapped : Result AtlasError Unit → Result AtlasError Unit
rewrapped (ok u) = ok u
rewrapped (err e) = err (config_error (to_string e))

module _ {Node : Type 0} (files : Files) (listener : Listener) (parse : Str → Option NetworkConfig)
    (read_dir : Str → Dir) where
  -- The tasks that are spawned beside the server (the collector, the updater, and the one that waits for
  -- Ctrl-C) are steps of the module Daemon.
  abbrev pub launched : List (Str × Str) → Result AtlasError AtlasConfig → Launch Node
  launched written (err e) = record {
    written = written;
    announced = [];
    state = none;
    bound = none;
    result = err e;
  }
  launched written (ok config) = record {
    written = written;
    announced =
        (load_from_dir parse files.data_local_dir config (read_dir config.networks_dir)
          new).written;
    state = some (initial_state parse files.data_local_dir config (read_dir config.networks_dir));
    bound = some (address config.bind_port);
    result = rewrapped (start_proxy_server listener config.bind_port);
  }

  -- `main`, by what `read_to_string` gives for the configuration's path.
  unfoldable pub main : Option Str → Launch Node
  unfolding get_or_create_config start_proxy_server
  main content =
      launched (get_or_create_config files content).written
        (get_or_create_config files content).config
