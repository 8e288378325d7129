-- ===== src/Constants.antt =====
-- src/constants.rs
use kinetic_atlas.Base.{ℕ}
use kinetic_atlas.Text.{Str, str}

abbrev pub default_bind_port : ℕ
default_bind_port = 34291

abbrev pub default_proxy_port : ℕ
default_proxy_port = 17002

abbrev pub default_kinetic_api : Str
default_kinetic_api = str "http://127.0.0.1:16202"

abbrev pub default_bind_ip : Str
default_bind_ip = str "127.0.0.1"

abbrev pub global_dir_name : Str
global_dir_name = str "kinetic_global"

abbrev pub proxies_dir_name : Str
proxies_dir_name = str "proxies"

abbrev pub atlas_prefix : Str
atlas_prefix = str "atlas_"

abbrev pub default_ipfs_gateway : Str
default_ipfs_gateway = str "http://127.0.0.1:8080"
