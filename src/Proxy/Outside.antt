-- ===== src/Proxy/Outside.antt =====
-- What the proxy gets from other crates and from other programs, as one record of functions. Where the
-- same call may give different answers at different times, the number of the attempt is an argument.
use kinetic_atlas.Base.{ℕ, Option, List}
use kinetic_atlas.Text.{Str, Bytes}
use kinetic_atlas.Types.{DnsZone, Headers, ProxyRequest, ProxyResponse}

-- A request to a swarm: the command could not be sent, no answer came back, or one did.
pub data Reply (A : Type 0) : Type 0 where
  unsent : Reply A
  lost : Reply A
  answered : Option A → Reply A

-- A request that comes in. `host` is `headers().get("host")`; `headers` is what iterating gives.
pub record HttpRequest : Type 0 where
  pub method : Str
  pub path_and_query : Option Str
  pub host : Option Bytes
  pub headers : List (Str × Bytes)

pub record HttpResponse : Type 0 where
  pub status : ℕ
  pub headers : List (Str × Bytes)
  pub body : Bytes

pub record GatewayRequest : Type 0 where
  pub method : Str
  pub url : Str
  pub headers : Headers
  pub body : Bytes

pub record Outside (Reveal : Type 0) : Type 0 where
  -- `HeaderValue::to_str`
  pub to_str : Bytes → Option Str
  -- The answer of the DHT to `GetRecord`, by channel and domain.
  pub dht : ℕ → Str → Reply Bytes
  -- `serde_json::from_slice::<Reveal>`, `Reveal::payload`, and the error of `verify_signature`, if any.
  pub parse_reveal : Bytes → Option Reveal
  pub payload : Reveal → Bytes
  pub signature_error : Reveal → Str → Option Str
  -- `serde_json::from_slice::<DnsZone>`
  pub parse_zone : Bytes → Option DnsZone
  -- `axum::body::to_bytes` with its limit.
  pub read_body : ℕ → Option Bytes
  -- `reqwest::Method::from_str`
  pub parse_method : Str → Option Str
  -- `builder.send()`, by the number of the attempt.
  pub gateway : ℕ → GatewayRequest → Option HttpResponse
  -- `PeerId::from_str`
  pub parse_peer : Str → Option ℕ
  -- The answer to `SendProxyRequest`, by the number of the attempt, the channel and the peer.
  pub peer : ℕ → ℕ → ℕ → ProxyRequest → Reply ProxyResponse
  -- `response::Builder::body`, which fails on a status or a header that is not valid.
  pub build : HttpResponse → Option HttpResponse
  -- The bytes of a header's text.
  pub as_bytes : Str → Bytes
