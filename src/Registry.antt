-- ===== src/Registry.antt =====
-- src/registry.rs: the registry of networks by top-level domain, and its loading from a directory.
pub mod Spec
pub mod Loading
pub mod Files
use kinetic_atlas.Base.{
  ℕ, Bool, true, false, not, ◌&&◌, ◌||◌, Option, none, some, List, [], ◌∷◌, ◌++◌, contains,
  is_empty, if◌then◌else◌, ◌==◌,
}
use kinetic_atlas.Base.Map
use kinetic_atlas.Base.Map.{Map}
use kinetic_atlas.Text.{Str, Str_eq, str, trim_start_char}
use kinetic_atlas.Types.{AtlasConfig, NetworkConfig}
use kinetic_atlas.Constants.{default_bind_ip, global_dir_name, proxies_dir_name, atlas_prefix}

pub record TldRegistry : Type 0 where
  pub networks : Map Str NetworkConfig

abbrev pub new : TldRegistry
new = record { networks = [] }

-- A directory entry: its extension, if it has one, and its text, if it can be read.
pub record Entry : Type 0 where
  pub extension : Option Str
  pub content : Option Str

-- `path.exists()`, `path.is_dir()` and `read_dir`; an entry that fails is dropped by `flatten`.
pub data Dir : Type 0 where
  absent : Dir
  unreadable : Dir
  entries : List Entry → Dir

-- The file that announces a top-level domain to kinetic-pac: the components of its path, and its members.
pub record ProxyFile : Type 0 where
  pub path : List Str
  pub tld : Str
  pub proxy_port : ℕ
  pub proxy_ip : Str

-- `config.tld.trim_start_matches('.')`
unfoldable pub tld_name : Str → Str
unfolding trim_start_char
tld_name tld = trim_start_char b'.' tld

unfoldable pub clean_tld : Str → Str
unfolding tld_name
clean_tld tld = b'.' ∷ tld_name tld

unfoldable pub is_whitelisted : AtlasConfig → Str → Bool
is_whitelisted global name = is_empty global.whitelist || contains global.whitelist name

unfoldable pub is_blacklisted : AtlasConfig → Str → Bool
is_blacklisted global name = not (is_empty global.blacklist) && contains global.blacklist name

abbrev pub is_excluded : AtlasConfig → Str → Bool
is_excluded global name = not (is_whitelisted global name) || is_blacklisted global name

unfoldable pub proxy_file : AtlasConfig → Str → Str → ProxyFile
unfolding trim_start_char
proxy_file global base_dir tld = record {
  path =
      base_dir
      ∷ global_dir_name
      ∷ proxies_dir_name
      ∷ (atlas_prefix ++ (trim_start_char b'.' tld ++ str ".json"))
      ∷ [];
  tld = tld;
  proxy_port = global.bind_port;
  proxy_ip = default_bind_ip;
}

-- The networks so far, and the files that it writes, the last one first. A write that fails is only
-- logged.
pub record Loaded : Type 0 where
  pub networks : Map Str NetworkConfig
  pub written : List ProxyFile

-- The configuration in an entry: a readable file with the extension "json" that parses.
-- `parse` is `serde_json::from_str::<NetworkConfig>`.
unfoldable pub config_of : (Str → Option NetworkConfig) → Entry → Option NetworkConfig
config_of parse entry = elim entry.extension [
  | none ↦ none
  | some ext ↦
      if ext == str "json"
      then elim entry.content [ none ↦ none | some content ↦ parse content ]
      else none
]

-- `data_local_dir` is that of the crate `dirs`.
module _ (parse : Str → Option NetworkConfig) (data_local_dir : Option Str)
    (global : AtlasConfig) where
  abbrev pub announce : Str → List ProxyFile → List ProxyFile
  announce tld files = elim data_local_dir [
    | none ↦ files
    | some base_dir ↦ proxy_file global base_dir tld ∷ files
  ]

  unfoldable pub load_config : NetworkConfig → Loaded → Loaded
  unfolding clean_tld tld_name is_whitelisted is_blacklisted
  load_config config l =
      if is_excluded global (tld_name config.tld)
      then l
      else if Map.contains_key l.networks (clean_tld config.tld)
      then l
      else record {
        networks = Map.insert l.networks (clean_tld config.tld) config;
        written = announce (clean_tld config.tld) l.written;
      }

  abbrev pub load_option : Option NetworkConfig → Loaded → Loaded
  load_option none l = l
  load_option (some config) l = load_config config l

  unfoldable pub load_entry : Entry → Loaded → Loaded
  load_entry entry l = load_option (config_of parse entry) l

  unfoldable pub load_entries : List Entry → Loaded → Loaded
  unfolding load_entry
  load_entries [] l = l
  load_entries (entry ∷ es) l = load_entries es (load_entry entry l)

  unfoldable pub load_from_dir : Dir → TldRegistry → Loaded
  unfolding load_entries load_config config_of
  load_from_dir absent reg = record { networks = reg.networks; written = [] }
  load_from_dir unreadable reg = record { networks = []; written = [] }
  load_from_dir (entries es) reg = load_entries es (record { networks = []; written = [] })

unfoldable pub get_config : TldRegistry → Str → Option NetworkConfig
get_config reg tld = Map.get reg.networks tld
