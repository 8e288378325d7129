-- ===== src/Proxy/Targets.antt =====
-- src/proxy.rs: the loop of the handler over the targets of a zone. `last_error`, which is only
-- logged, is left out.
pub mod Order
pub mod Requests
pub mod Resumed
use kinetic_atlas.Base.{
  ℕ, suc, ◌==◌, Option, none, some, List, [], ◌∷◌, ◌++◌, map, if◌then◌else◌, Result, ok, err,
}
use kinetic_atlas.Text.{Str, Str_eq, str, Bytes}
use kinetic_atlas.Constants.{default_ipfs_gateway}
use kinetic_atlas.Types.{
  AtlasConfig, NetworkConfig, DnsRecord, a, aaaa, cname, txt, peer_id, kid, ipfs, other, Headers,
  ProxyRequest, ProxyResponse,
}
use kinetic_atlas.Error.{AtlasError, proxy_target_failed}
use kinetic_atlas.Proxy.Outside.{
  Reply, unsent, lost, answered, HttpRequest, HttpResponse, GatewayRequest, Outside,
}

-- The headers whose value is text, in order.
unfoldable pub text_headers : (Bytes → Option Str) → List (Str × Bytes) → Headers
text_headers to_str [] = []
text_headers to_str ((name, value) ∷ hs) =
    let rest = text_headers to_str hs in
    elim (to_str value) [ none ↦ rest | some v ↦ (name, v) ∷ rest ]

abbrev or_root : Option Str → Str
or_root none = str "/"
or_root (some p) = p

-- The `method`, `path` and `proxy_headers` of the handler, with the buffered body.
unfoldable pub proxy_request : (Bytes → Option Str) → HttpRequest → Bytes → ProxyRequest
unfolding text_headers
proxy_request to_str req body = record {
  method = req.method;
  path = or_root req.path_and_query;
  headers = text_headers to_str req.headers;
  body = body;
}

abbrev unwrap_or : Option Str → Str → Str
unwrap_or none d = d
unwrap_or (some s) d = s

unfoldable pub gateway_of : AtlasConfig → NetworkConfig → Str
gateway_of global config =
    unwrap_or global.override_ipfs_gateway (unwrap_or config.ipfs_gateway default_ipfs_gateway)

unfoldable pub ipfs_url : Str → Str → Str → Str
ipfs_url gateway cid path = gateway ++ str "/ipfs/" ++ cid ++ (if path == str "/" then [] else path)

unfoldable pub without_host : Headers → Headers
without_host [] = []
without_host ((k, v) ∷ hs) =
    let rest = without_host hs in if k == str "host" then rest else (k, v) ∷ rest

-- A request that the handler tries: one to an IPFS gateway, or one to a peer over a swarm's channel.
pub data Attempt : Type 0 where
  gateway_request : GatewayRequest → Attempt
  peer_request : (channel peer : ℕ) → ProxyRequest → Attempt

-- A target: what is tried for it, if anything, and the handler's answer where it answers with it.
pub record Tried : Type 0 where
  pub attempts : List Attempt
  pub answer : Option (Result AtlasError HttpResponse)

module _ {Reveal : Type 0} (out : Outside Reveal) (global : AtlasConfig) (config : NetworkConfig)
    (channel : ℕ) (request : ProxyRequest) where
  unfoldable pub to_gateway : Str → GatewayRequest
  unfolding ipfs_url gateway_of without_host
  to_gateway cid = record {
    method = unwrap_or (out.parse_method request.method) (str "GET");
    url = ipfs_url (gateway_of global config) cid request.path;
    headers = without_host request.headers;
    body = request.body;
  }

  -- `builder.body(body).map_err(|_| AtlasError::ProxyTargetFailed)`
  abbrev pub respond : HttpResponse → Result AtlasError HttpResponse
  respond res = elim (out.build res) [ none ↦ err proxy_target_failed | some r ↦ ok r ]

  abbrev with_bytes : Str × Str → Str × Bytes
  with_bytes (k, v) = (k, out.as_bytes v)

  abbrev pub from_peer : ProxyResponse → HttpResponse
  from_peer res = record {
    status = res.status;
    headers = map with_bytes res.headers;
    body = res.body;
  }

  abbrev pub peer_answer : Reply ProxyResponse → Option (Result AtlasError HttpResponse)
  peer_answer (answered (some res)) = some (respond (from_peer res))
  peer_answer _ = none

  -- The body of the loop, for the target with the number `n`.
  unfoldable pub try_target : ℕ → DnsRecord → Tried
  unfolding to_gateway
  try_target n (ipfs cid) = record {
    attempts = gateway_request (to_gateway cid) ∷ [];
    answer = elim (out.gateway n (to_gateway cid)) [ none ↦ none | some res ↦ some (respond res) ];
  }
  try_target n (peer_id peer_str) = elim (out.parse_peer peer_str) [
    | none ↦ record { attempts = []; answer = none }
    | some peer ↦ record {
      attempts = peer_request channel peer request ∷ [];
      answer = peer_answer (out.peer n channel peer request);
    }
  ]
  try_target n _ = record { attempts = []; answer = none }

  -- The loop: it ends at the first target that gives an answer.
  unfoldable pub try_targets : ℕ → List DnsRecord → List Attempt × Result AtlasError HttpResponse
  unfolding try_target
  try_targets n [] = ([], err proxy_target_failed)
  try_targets n (t ∷ ts) =
      let rest = try_targets (suc n) ts in
      let tried = try_target n t in
      elim tried.answer [
        | some result ↦ (tried.attempts, result)
        | none ↦ (tried.attempts ++ rest.0, rest.1)
      ]
