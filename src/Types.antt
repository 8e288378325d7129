-- ===== src/Types.antt =====
-- src/types.rs: the configuration, the DNS zone, and the messages of the proxy protocol. Network
-- addresses are the numbers that they stand for. Their JSON and CBOR forms are generated code.
pub mod Json
use kinetic_atlas.Base.{ℕ, Option, some, List}
use kinetic_atlas.Base.Map.{Map}
use kinetic_atlas.Text.{Str, Bytes, str}

pub record AtlasConfig : Type 0 where
  pub version : Str
  pub whitelist : List Str
  pub blacklist : List Str
  pub bind_port : ℕ
  pub kinetic_api : Str
  pub kinetic_token : Str
  pub networks_dir : Str
  pub registry_url : Option Str
  pub override_ipfs_gateway : Option Str
  pub updater_public_key : Option Str

abbrev pub default_registry_url : Option Str
default_registry_url =
    some (str "https://api.github.com/repos/saifmukhtar/kinetic-atlas/contents/networks")

pub record NetworkConfig : Type 0 where
  pub version : Str
  pub network_id : Str
  pub tld : Str
  pub bootstrap_nodes : List Str
  pub local_bind_ip : Str
  pub api_port : Option ℕ
  pub repo : Option Str
  pub seed_domain : Option Str
  pub ipfs_gateway : Option Str

pub data DnsRecord : Type 0 where
  a aaaa : ℕ → DnsRecord
  cname txt peer_id kid ipfs : Str → DnsRecord
  other : DnsRecord

pub record DnsZone : Type 0 where
  pub records : Map Str (List DnsRecord)

abbrev pub Headers : Type 0
Headers = List (Str × Str)

pub record ProxyRequest : Type 0 where
  pub method : Str
  pub path : Str
  pub headers : Headers
  pub body : Bytes

pub record ProxyResponse : Type 0 where
  pub status : ℕ
  pub headers : Headers
  pub body : Bytes
