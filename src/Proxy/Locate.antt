-- ===== src/Proxy/Locate.antt =====
-- src/proxy.rs: the first part of the handler, which finds the network and the domain of a request.
pub mod Registered
use kinetic_atlas.Base.{ℕ, Option, none, some, List, [], ◌∷◌, ◌++◌, Result, ok, err, ◌>>=◌}
use kinetic_atlas.Text.{Str, str, Bytes, to_lowercase}
use kinetic_atlas.Types.{NetworkConfig}
use kinetic_atlas.Error.{AtlasError, invalid_proxy_request, tld_blacklisted}
use kinetic_atlas.Registry.{TldRegistry, get_config}
use kinetic_atlas.Proxy.Domain.{extract_base_domain_and_subdomain, extract_tld, strip_port}
use kinetic_atlas.Proxy.Outside.{HttpRequest}

pub record Located : Type 0 where
  pub full_domain : Str
  pub tld : Str
  pub config : NetworkConfig
  pub base_domain : Str
  pub subdomain : Str

-- The two matches on the Host header, without its port.
unfoldable pub host_of : (Bytes → Option Str) → HttpRequest → Result AtlasError Str
unfolding strip_port
host_of to_str req = elim req.host [
  | none ↦ err (invalid_proxy_request (str "Missing host header"))
  | some h ↦ elim (to_str h) [
    | none ↦ err (invalid_proxy_request (str "Invalid host header format"))
    | some s ↦ ok (strip_port s)
  ]
]

abbrev pub locate_extracted :
    Str → Str → NetworkConfig → Option (Str × Str) → Result AtlasError Located
locate_extracted full_domain tld config none =
    err (invalid_proxy_request (str "Could not parse base domain"))
locate_extracted full_domain tld config (some (base, sub)) = ok (record {
  full_domain = full_domain;
  tld = tld;
  config = config;
  base_domain = base;
  subdomain = sub;
})

unfoldable pub locate_domain : TldRegistry → Str → Result AtlasError Located
locate_domain reg full_domain = elim (extract_tld full_domain) [
  | none ↦ err (invalid_proxy_request (str "Invalid domain structure: No TLD"))
  | some tld ↦ elim (get_config reg tld) [
    | none ↦ err tld_blacklisted
    | some config ↦
        locate_extracted full_domain tld config (extract_base_domain_and_subdomain full_domain tld)
  ]
]

unfoldable pub locate : (Bytes → Option Str) → TldRegistry → HttpRequest → Result AtlasError Located
locate to_str reg req = do host ← host_of to_str req; locate_domain reg (to_lowercase host)
