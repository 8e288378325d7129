-- ===== src/Tests/Requests.antt =====
-- src/proxy.rs, src/main.rs: a request that is served, and one that fails.
use kinetic_atlas.Base.{
  ℕ, ◌+◌, ◌≡◌, ◌≢◌, ◌⊎◌, ◌↔◌, inl, inr, refl, Bool, true, false, Option, none, some, List, [], ◌∷◌,
  ◌++◌, arith, All, In, length, Result, ok, err, ◌==◌, if◌then◌else◌,
}
use kinetic_atlas.Base.Map
use kinetic_atlas.Text.{Str, Str_eq, str, Bytes}
use kinetic_atlas.Types.{
  AtlasConfig, NetworkConfig, DnsRecord, DnsZone, txt, peer_id, ipfs, ProxyRequest,
  default_registry_url,
}
use kinetic_atlas.Error.{AtlasError, tld_blacklisted, proxy_target_failed}
use kinetic_atlas.Registry.{TldRegistry, Entry, entries, unreadable}
use kinetic_atlas.SwarmManager.{Manager, empty}
use kinetic_atlas.Proxy.Outside.{answered, lost, HttpRequest, HttpResponse, Outside}
use kinetic_atlas.Proxy.Locate.{Located}
use kinetic_atlas.Proxy.Zone.{Listed, is_target, targets_of, targets_of-Listed}
use kinetic_atlas.Proxy.Targets.{peer_request, proxy_request, to_gateway, try_target, try_targets}
use kinetic_atlas.Proxy.Targets.Order.{Silent}
use kinetic_atlas.Proxy.Targets.Requests.{to_gateway-headers}
use kinetic_atlas.Proxy.Handler.{ProxyState, handle_proxy_request}
use kinetic_atlas.Proxy.Handler.Verified.{Prepared}
use kinetic_atlas.Proxy.Handler.Early.{IsEarly}
use kinetic_atlas.Proxy.Handler.Reach.{outcome}
use kinetic_atlas.Proxy.Handler.Answers.{
  Served, handle_proxy_request-Served, handle_proxy_request-answers, handle_proxy_request-failed,
}

abbrev pub config : NetworkConfig
config = record {
  version = str "1.0";
  network_id = str "kinetic-main";
  tld = str "kin";
  bootstrap_nodes = [];
  local_bind_ip = str "127.0.0.1";
  api_port = none;
  repo = none;
  seed_domain = none;
  ipfs_gateway = none;
}

abbrev pub global : AtlasConfig
global = record {
  version = str "1.0";
  whitelist = [];
  blacklist = str "evil" ∷ [];
  bind_port = 17002;
  kinetic_api = [];
  kinetic_token = [];
  networks_dir = str "networks";
  registry_url = default_registry_url;
  override_ipfs_gateway = none;
  updater_public_key = none;
}

abbrev state : ProxyState ℕ
state = record {
  swarms = empty;
  global_config = global;
  registry = record { networks = (str ".kin", config) ∷ [] };
}

abbrev zone : DnsZone
zone = record {
  records = (str "shop", txt (str "hello") ∷ peer_id (str "p") ∷ ipfs (str "cid") ∷ []) ∷ [];
}

abbrev pub page : HttpResponse
page = record { status = 200; headers = []; body = str "page" }

-- The peer does not answer, and the gateway does.
abbrev pub out : Outside Bytes
out = record {
  to_str = λ value. some value;
  dht = λ channel domain. answered (some (str "reveal"));
  parse_reveal = λ bytes. some bytes;
  payload = λ reveal. reveal;
  signature_error = λ reveal network. none;
  parse_zone = λ bytes. some zone;
  read_body = λ limit. some [];
  parse_method = λ method. some method;
  gateway = λ n request. some page;
  parse_peer = λ text. some 7;
  peer = λ n channel peer request. lost;
  build = λ response. some response;
  as_bytes = λ text. text;
}

abbrev pub visit : HttpRequest
visit = record {
  method = str "GET";
  path_and_query = some (str "/");
  host = some (str "shop.acme.kin");
  headers = (str "host", str "shop.acme.kin") ∷ (str "accept", str "text/html") ∷ [];
}

abbrev pub node_new : Str → List Str → Result AtlasError ℕ
node_new id nodes = ok (length nodes)

abbrev pub no_seeds : Str → List Str
no_seeds domain = []

abbrev pub passed_on : ProxyRequest
passed_on = record {
  method = str "GET";
  path = str "/";
  headers = (str "host", str "shop.acme.kin") ∷ (str "accept", str "text/html") ∷ [];
  body = [];
}

abbrev located : Located
located = record {
  full_domain = str "shop.acme.kin";
  tld = str ".kin";
  config = config;
  base_domain = str "acme.kin";
  subdomain = str "shop";
}

sent_to_peer :
    In (peer_request 0 7 passed_on) (outcome out node_new no_seeds 0 1 state visit).attempts
unfolding handle_proxy_request kinetic_atlas.Proxy.Locate.locate kinetic_atlas.Proxy.Locate.host_of
    kinetic_atlas.Proxy.Locate.locate_domain kinetic_atlas.Proxy.Domain.extract_tld
    kinetic_atlas.Text.to_lowercase kinetic_atlas.Registry.get_config Map.get
    kinetic_atlas.Base.list_eq kinetic_atlas.Proxy.Domain.extract_base_domain_and_subdomain
    kinetic_atlas.SwarmManager.get_or_spawn_swarm targets_of kinetic_atlas.Proxy.Zone.records_of
    kinetic_atlas.Text.join kinetic_atlas.Proxy.Zone.target_records try_targets proxy_request
sent_to_peer = inl refl

handle_proxy_request-Served_example : Served out node_new no_seeds 0 1 state visit page
unfolding handle_proxy_request kinetic_atlas.Proxy.Locate.locate kinetic_atlas.Proxy.Locate.host_of
    kinetic_atlas.Proxy.Locate.locate_domain kinetic_atlas.Proxy.Domain.extract_tld
    kinetic_atlas.Text.to_lowercase kinetic_atlas.Registry.get_config Map.get
    kinetic_atlas.Base.list_eq kinetic_atlas.Proxy.Domain.extract_base_domain_and_subdomain
    kinetic_atlas.SwarmManager.get_or_spawn_swarm targets_of kinetic_atlas.Proxy.Zone.records_of
    kinetic_atlas.Text.join kinetic_atlas.Proxy.Zone.target_records try_targets
handle_proxy_request-Served_example =
    handle_proxy_request-Served out node_new no_seeds 0 1 state visit page refl

zone-Prepared : Prepared out 0 located (peer_id (str "p") ∷ ipfs (str "cid") ∷ []) []
unfolding targets_of kinetic_atlas.Proxy.Zone.records_of Map.get kinetic_atlas.Base.list_eq
    kinetic_atlas.Proxy.Zone.target_records
zone-Prepared = record {
  zone = zone;
  is_signed = record {
    bytes = str "reveal";
    reveal = str "reveal";
    answer = refl;
    parse = refl;
    signature = refl;
    payload = refl;
  };
  chosen = refl;
  read = refl;
}

peer-Silent : Silent out global config 0 passed_on 0 (peer_id (str "p") ∷ [])
unfolding try_target
peer-Silent = (refl, tt)

handle_proxy_request-answers_example :
    (outcome out node_new no_seeds 0 1 state visit).result ≡ ok page
unfolding kinetic_atlas.Proxy.Locate.locate kinetic_atlas.Proxy.Locate.host_of
    kinetic_atlas.Proxy.Locate.locate_domain kinetic_atlas.Proxy.Domain.extract_tld
    kinetic_atlas.Text.to_lowercase kinetic_atlas.Registry.get_config Map.get
    kinetic_atlas.Base.list_eq kinetic_atlas.Proxy.Domain.extract_base_domain_and_subdomain
    kinetic_atlas.Text.join kinetic_atlas.SwarmManager.get_or_spawn_swarm proxy_request try_target
handle_proxy_request-answers_example =
    handle_proxy_request-answers out node_new no_seeds 0 1 state visit located 0
      (peer_id (str "p") ∷ []) [] (ipfs (str "cid")) [] (ok page) refl refl zone-Prepared
      peer-Silent refl

abbrev blocked : HttpRequest
blocked = record visit { host = some (str "www.evil") }

handle_proxy_request-failed_example :
    (tld_blacklisted ≡ proxy_target_failed)
    ⊎ (IsEarly tld_blacklisted × ((outcome out node_new no_seeds 0 1 state blocked).attempts ≡ []))
unfolding handle_proxy_request kinetic_atlas.Proxy.Locate.locate kinetic_atlas.Proxy.Locate.host_of
    kinetic_atlas.Proxy.Locate.locate_domain kinetic_atlas.Proxy.Domain.extract_tld
    kinetic_atlas.Text.to_lowercase kinetic_atlas.Registry.get_config Map.get
    kinetic_atlas.Base.list_eq
handle_proxy_request-failed_example =
    handle_proxy_request-failed out node_new no_seeds 0 1 state blocked tld_blacklisted refl

abbrev targets : List DnsRecord
targets = peer_id (str "p") ∷ ipfs (str "cid") ∷ []

to_gateway-headers_example :
    In
      (str "accept", str "text/html")
      (to_gateway out global config 0 (proxy_request out.to_str visit []) (str "cid")).headers
    ↔ ((value : Bytes) × In (str "accept", value) visit.headers
        × (out.to_str value ≡ some (str "text/html"))
        × (str "accept" ≢ str "host"))
to_gateway-headers_example =
    to_gateway-headers out global config 0 passed_on visit [] (str "cid") (str "accept")
      (str "text/html")

targets_of-Listed_example :
    In (ipfs (str "cid")) targets
    ↔ (Listed zone (str "shop") (ipfs (str "cid")) × (is_target (ipfs (str "cid")) ≡ true))
unfolding targets_of kinetic_atlas.Proxy.Zone.records_of Map.get kinetic_atlas.Base.list_eq
    kinetic_atlas.Proxy.Zone.target_records
targets_of-Listed_example = targets_of-Listed zone (str "shop") targets refl (ipfs (str "cid"))

abbrev pub network_file : Entry
network_file = record { extension = some (str "json"); content = some (str "kin") }

abbrev pub parse : Str → Option NetworkConfig
parse content = some config
