-- ===== src/Tests/Start.antt =====
-- src/main.rs: a daemon that starts, and one whose port is taken.
use kinetic_atlas.Base.{ℕ, ◌≡◌, refl, [], ◌∷◌, ◌++◌, none, some, ok, err, ◌==◌, if◌then◌else◌}
use kinetic_atlas.Text.{Str_eq, str}
use kinetic_atlas.Registry.{Dir, entries}
use kinetic_atlas.Main.{Files, initial_state}
use kinetic_atlas.Main.Launched.{IsServing, main_serves}
use kinetic_atlas.Proxy.Handler.{ProxyState}
use kinetic_atlas.Main.Serving.{Listener, main}
use kinetic_atlas.Error.{config_error}
use kinetic_atlas.Tests.Requests.{global, parse, network_file}

abbrev files : Files
files = record {
  data_local_dir = some (str "/data");
  join = λ dir name. dir ++ b'/' ∷ name;
  from_str = λ content. ok global;
  to_string_pretty = λ config. ok config.version;
  write_error = λ path. none;
}

abbrev taken : Listener
taken = record {
  bind_error =
      λ at. if at == str "127.0.0.1:17002" then some (str "Address already in use") else none;
  serve_error = λ at. none;
}

abbrev networks : Dir
networks = entries (network_file ∷ [])

abbrev first_state : ProxyState ℕ
first_state = initial_state parse (some (str "/data")) global networks

is_launched :
    (main {Node = ℕ} files taken parse (λ dir. networks) (some (str "config"))).state
    ≡ some first_state
unfolding main
is_launched = refl

main_serves_example :
    IsServing ℕ files taken parse (λ dir. networks) (some (str "config")) first_state
main_serves_example =
    main_serves ℕ files taken parse (λ dir. networks) (some (str "config")) first_state is_launched

-- The message of the error stands behind its prefix twice.
prefixed_twice :
    (main {Node = ℕ} files taken parse (λ dir. entries []) (some (str "config"))).result
    ≡ err (config_error (str "Configuration error: Address already in use"))
unfolding main kinetic_atlas.Base.list_eq kinetic_atlas.Error.to_string
prefixed_twice = refl
