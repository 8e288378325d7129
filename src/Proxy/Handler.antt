-- ===== src/Proxy/Handler.antt =====
-- src/proxy.rs: the whole handler of a request, over the state of the proxy.
pub mod Verified
pub mod Early
pub mod Reach
pub mod Answers
pub mod Owner
use kinetic_atlas.Base.{ℕ, ◌*◌, Option, none, some, List, [], ◌∷◌, ◌++◌, Result, ok, err, ◌>>=◌}
use kinetic_atlas.Text.{Str, str, Bytes}
use kinetic_atlas.Types.{AtlasConfig, NetworkConfig, DnsRecord, DnsZone, ProxyRequest}
use kinetic_atlas.Error.{
  AtlasError, network_init_failed, dns_resolution_failed, invalid_proxy_request,
}
use kinetic_atlas.Registry.{TldRegistry}
use kinetic_atlas.SwarmManager.{Manager, get_or_spawn_swarm}
use kinetic_atlas.Proxy.Outside.{Reply, unsent, lost, answered, HttpRequest, HttpResponse, Outside}
use kinetic_atlas.Proxy.Locate.{Located, locate}
use kinetic_atlas.Proxy.Zone.{targets_of}
use kinetic_atlas.Proxy.Targets.{Attempt, proxy_request, try_targets}

pub record ProxyState (Node : Type 0) : Type 0 where
  pub swarms : Manager Node
  pub global_config : AtlasConfig
  pub registry : TldRegistry

-- What a request leaves: the manager of the swarms, the requests that were tried, and the answer.
pub record Outcome (Node : Type 0) : Type 0 where
  pub swarms : Manager Node
  pub attempts : List Attempt
  pub result : Result AtlasError HttpResponse

abbrev pub body_limit : ℕ
body_limit = 10 * 1024 * 1024

module _ {Reveal : Type 0} (out : Outside Reveal) where
  -- The bytes that the swarm finds in the DHT.
  abbrev pub found : Reply Bytes → Result AtlasError Bytes
  found unsent = err (dns_resolution_failed (str "Failed to communicate with swarm"))
  found (answered (some bytes)) = ok bytes
  found _ = err (dns_resolution_failed (str "Domain not found in DHT"))

  abbrev pub parsed : Option Reveal → Result AtlasError Reveal
  parsed none = err (dns_resolution_failed (str "Invalid DHT payload format"))
  parsed (some r) = ok r

  abbrev pub signed : Reveal → Option Str → Result AtlasError Reveal
  signed reveal none = ok reveal
  signed reveal (some e) = err (dns_resolution_failed (str "Invalid DHT payload signature: " ++ e))

  abbrev pub zone_or : Option DnsZone → Result AtlasError DnsZone
  zone_or none = err (dns_resolution_failed (str "Invalid DNS zone format"))
  zone_or (some z) = ok z

  -- The zone of a name, from the record that the swarm finds.
  unfoldable pub resolve_zone : ℕ → NetworkConfig → Str → Result AtlasError DnsZone
  resolve_zone channel config base_domain = do
    bytes ← found (out.dht channel base_domain)
    reveal ← parsed (out.parse_reveal bytes)
    verified ← signed reveal (out.signature_error reveal config.network_id)
    zone_or (out.parse_zone (out.payload verified))

  abbrev pub body_or : Option Bytes → Result AtlasError Bytes
  body_or none = err (invalid_proxy_request (str "Failed to read body"))
  body_or (some b) = ok b

  abbrev with_body : List DnsRecord → Bytes → Result AtlasError (List DnsRecord × Bytes)
  with_body targets body = ok (targets, body)

  -- What precedes the loop over the targets: they, and the body of the request.
  unfoldable pub prepare : ℕ → Located → Result AtlasError (List DnsRecord × Bytes)
  unfolding resolve_zone
  prepare channel loc = do
    zone ← resolve_zone channel loc.config loc.base_domain
    targets ← targets_of zone loc.subdomain
    body ← body_or (out.read_body body_limit)
    with_body targets body

  module _ {Node : Type 0} (node_new : Str → List Str → Result AtlasError Node)
      (resolve : Str → List Str) (before after : ℕ) (st : ProxyState Node) (req : HttpRequest) where
    -- The loop over the targets, for a request that reaches it.
    abbrev pub forward :
        Manager Node → ℕ → Located → Result AtlasError (List DnsRecord × Bytes) → Outcome Node
    forward swarms channel loc (err e) = record { swarms = swarms; attempts = []; result = err e }
    forward swarms channel loc (ok (targets, body)) =
        let request = proxy_request out.to_str req body in
        let tried = try_targets out st.global_config loc.config channel request 0 targets in
        record { swarms = swarms; attempts = tried.0; result = tried.1 }

    abbrev pub serve : Located → Option ℕ × Manager Node → Outcome Node
    serve loc (none, swarms) = record {
      swarms = swarms;
      attempts = [];
      result = err (network_init_failed (str "Failed to connect to network for TLD " ++ loc.tld));
    }
    serve loc (some channel, swarms) = forward swarms channel loc (prepare channel loc)

    abbrev pub handle_located : Result AtlasError Located → Outcome Node
    handle_located (err e) = record { swarms = st.swarms; attempts = []; result = err e }
    handle_located (ok loc) =
        serve loc (get_or_spawn_swarm node_new before after resolve loc.tld loc.config st.swarms)

    unfoldable pub handle_proxy_request : Outcome Node
    unfolding prepare
    handle_proxy_request = handle_located (locate out.to_str st.registry req)
