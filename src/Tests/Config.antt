-- ===== src/Tests/Config.antt =====
-- src/registry.rs, src/error.rs, src/main.rs: a directory that is loaded, an error, a first start.
use kinetic_atlas.Base.{
  ℕ, ◌≡◌, ◌↔◌, sym, ◌∙◌, ◌⊎◌, ◌≤◌, ◌<◌, inl, inr, refl, subst, Bool, true, false, Option, none,
  some, List, [], ◌∷◌, ◌++◌, arith, In, Result, ok, err, ◌==◌, if◌then◌else◌,
}
use kinetic_atlas.Text.{Str, Str_eq, str}
use kinetic_atlas.Types.{AtlasConfig, NetworkConfig, default_registry_url}
use kinetic_atlas.Error.{tld_blacklisted, proxy_target_failed}
use kinetic_atlas.Error.Answer.{Tells, error_response-kind, Graded, error_response-severity}
use kinetic_atlas.Registry.{Entry, entries, new, get_config, load_from_dir}
use kinetic_atlas.Registry.Spec.{first_provider}
use kinetic_atlas.Registry.Loading.{loaded, get_config-loaded}
use kinetic_atlas.Registry.Files.{IsAnnounced, load_from_dir-IsAnnounced}
use kinetic_atlas.Main.{Files, default_config, get_or_create_config, started_from}
use kinetic_atlas.Main.Config.{Store, written_to, ReadsBack, get_or_create_config-again}

abbrev network : Str → NetworkConfig
network tld = record {
  version = str "1.0";
  network_id = str "kinetic-" ++ tld;
  tld = tld;
  bootstrap_nodes = [];
  local_bind_ip = str "127.0.0.1";
  api_port = none;
  repo = none;
  seed_domain = none;
  ipfs_gateway = none;
}

abbrev global : AtlasConfig
global = record {
  version = str "1.0";
  whitelist = [];
  blacklist = str "evil" ∷ [];
  bind_port = 17002;
  kinetic_api = [];
  kinetic_token = [];
  networks_dir = str "networks";
  registry_url = default_registry_url;
  override_ipfs_gateway = none;
  updater_public_key = none;
}

abbrev parse : Str → Option NetworkConfig
parse tld = some (network tld)

abbrev file : Str → Entry
file tld = record { extension = some (str "json"); content = some tld }

-- One network twice, one that is blacklisted, and a file that is no JSON.
abbrev files : List Entry
files =
    record { extension = some (str "md"); content = some (str "kin") }
    ∷ file (str ".kin")
    ∷ file (str "evil")
    ∷ file (str "kin")
    ∷ []

get_config-loaded_example :
    get_config (loaded parse none global (entries files) new) (str ".kin")
    ≡ first_provider parse global (str ".kin") files
get_config-loaded_example = get_config-loaded parse none global files new (str ".kin")

load_from_dir-IsAnnounced_example :
    IsAnnounced parse
      (str "/data")
      global
      (load_from_dir parse (some (str "/data")) global (entries files) new)
load_from_dir-IsAnnounced_example = load_from_dir-IsAnnounced parse (str "/data") global files new

error_response-kind_example : Tells (λ n. some n) tld_blacklisted proxy_target_failed
error_response-kind_example = error_response-kind (λ n. some n) tld_blacklisted proxy_target_failed

error_response-severity_example : Graded (λ n. some n) proxy_target_failed
error_response-severity_example =
    error_response-severity (λ n. some n) proxy_target_failed (λ n low high. refl)

abbrev first_config : AtlasConfig
first_config = record {
  version = str "1.0";
  whitelist = [];
  blacklist = [];
  bind_port = 17002;
  kinetic_api = str "http://127.0.0.1:16202";
  kinetic_token = [];
  networks_dir = str "/data/kinetic_atlas/networks";
  registry_url = default_registry_url;
  override_ipfs_gateway = none;
  updater_public_key = none;
}

abbrev read_version : Str → Result Str AtlasConfig
read_version content = if content == str "1.0" then ok first_config else err (str "no version")

-- A printer that writes the version, and its reader.
abbrev plain : Files
plain = record {
  data_local_dir = some (str "/data");
  join = λ dir name. dir ++ b'/' ∷ name;
  from_str = read_version;
  to_string_pretty = λ config. ok config.version;
  write_error = λ path. none;
}

plain-ReadsBack : ReadsBack plain
unfolding default_config kinetic_atlas.Base.list_eq
plain-ReadsBack content h =
    let same : str "1.0" ≡ content = ground arith in
    subst (λ (c : Str). read_version c ≡ ok (default_config plain)) same refl

abbrev nothing : Store
nothing path = none

get_or_create_config-again_example :
    ((started_from plain nothing).config ≡ ok (default_config plain))
    × (started_from plain (written_to (started_from plain nothing).written nothing)
        ≡ record { written = []; config = ok (default_config plain) })
get_or_create_config-again_example =
    get_or_create_config-again plain plain-ReadsBack nothing refl
      (unfold started_from get_or_create_config in (λ h. absurd cc))
