-- ===== src/Proxy/Handler/Early.antt =====
-- The errors of the handler before the targets of a request are tried.
use kinetic_atlas.Base.{
  ℕ, inl, inr, Option, none, some, List, [], ◌∷◌, Option-cases, Bool-cases, ◌==◌, Result, ok, err,
  ◌>>=◌,
}
use kinetic_atlas.Base.Map
use kinetic_atlas.Text.{Str, Str_eq, str, Bytes, to_lowercase}
use kinetic_atlas.Types.{NetworkConfig, DnsRecord, DnsZone}
use kinetic_atlas.Error.{
  AtlasError, dns_resolution_failed, invalid_proxy_request, network_init_failed, tld_blacklisted,
}
use kinetic_atlas.Registry.{TldRegistry, get_config}
use kinetic_atlas.Proxy.Outside.{Reply, unsent, lost, answered, HttpRequest, Outside}
use kinetic_atlas.Proxy.Domain.{extract_base_domain_and_subdomain, extract_tld}
use kinetic_atlas.Proxy.Locate.{Located, host_of, locate, locate_domain}
use kinetic_atlas.Proxy.Zone.{records_of, target_records, targets_of, targets_or, non_empty}
use kinetic_atlas.Proxy.Handler.{
  body_limit, found, parsed, signed, zone_or, resolve_zone, body_or, prepare,
}

-- The errors with which a request stops before its targets are tried.
abbrev pub IsEarly : AtlasError → Type 0
IsEarly (network_init_failed _) = Unit
IsEarly (dns_resolution_failed _) = Unit
IsEarly (invalid_proxy_request _) = Unit
IsEarly tld_blacklisted = Unit
IsEarly _ = ⊥

-- Every error of a result is early.
abbrev pub AllEarly : {A : Type 0} → Result AtlasError A → Type 0
AllEarly (ok _) = Unit
AllEarly (err e) = IsEarly e

bind-AllEarly :
    {A B : Type 0} (m : Result AtlasError A) (f : A → Result AtlasError B)
    → AllEarly m
    → ((a : A) → AllEarly (f a))
    → AllEarly (m >>= f)
bind-AllEarly (ok a) f h k = k a
bind-AllEarly (err e) f h k = h

records_of-AllEarly : (zone : DnsZone) (sub : Str) → AllEarly (records_of zone sub)
unfolding records_of
records_of-AllEarly zone sub = elim (Option-cases (Map.get zone.records sub)) [
  | inr (rs, e) ↦ rw (e, records_of) tt
  | inl e ↦ elim (Bool-cases (sub == str "@")) [
    | inr b ↦ rw (e, b, records_of) tt
    | inl b ↦ elim (Option-cases (Map.get zone.records (str "www"))) [
      | inl n ↦ rw (e, b, n, records_of) tt
      | inr (rs, w) ↦ rw (e, b, w, records_of) tt
    ]
  ]
]

targets_of-AllEarly : (zone : DnsZone) (sub : Str) → AllEarly (targets_of zone sub)
unfolding targets_of
targets_of-AllEarly zone sub = go (records_of zone sub) (records_of-AllEarly zone sub)
  where
    chosen : (ts : List DnsRecord) → AllEarly (non_empty ts)
    chosen [] = tt
    chosen (t ∷ ts) = tt

    go : (rs : Result AtlasError (List DnsRecord)) → AllEarly rs → AllEarly (targets_or rs)
    go (ok rs) h = chosen (target_records rs)
    go (err e) h = h

host_of-AllEarly : (to_str : Bytes → Option Str) (req : HttpRequest) → AllEarly (host_of to_str req)
unfolding host_of
host_of-AllEarly to_str req = elim (Option-cases req.host) [
  | inl e ↦ rw (e, host_of) tt
  | inr (h, e) ↦ elim (Option-cases (to_str h)) [
    | inl n ↦ rw (e, n, host_of) tt
    | inr (s, n) ↦ rw (e, n, host_of) tt
  ]
]

locate_domain-AllEarly : (reg : TldRegistry) (domain : Str) → AllEarly (locate_domain reg domain)
unfolding locate_domain
locate_domain-AllEarly reg domain = elim (Option-cases (extract_tld domain)) [
  | inl e ↦ rw (e, locate_domain) tt
  | inr (tld, e) ↦ elim (Option-cases (get_config reg tld)) [
    | inl g ↦ rw (e, g, locate_domain) tt
    | inr (config, g) ↦ elim (Option-cases (extract_base_domain_and_subdomain domain tld)) [
      | inl x ↦ rw (e, g, x, locate_domain) tt
      | inr (p, x) ↦ rw (e, g, x, locate_domain) tt
    ]
  ]
]

pub locate-AllEarly :
    (to_str : Bytes → Option Str) (reg : TldRegistry) (req : HttpRequest)
    → AllEarly (locate to_str reg req)
unfolding locate
locate-AllEarly to_str reg req =
    bind-AllEarly (host_of to_str req) _ (host_of-AllEarly to_str req)
      (λ host. locate_domain-AllEarly reg (to_lowercase host))

module _ {Reveal : Type 0} (out : Outside Reveal) where
  found-AllEarly : (r : Reply Bytes) → AllEarly (found out r)
  found-AllEarly unsent = tt
  found-AllEarly lost = tt
  found-AllEarly (answered none) = tt
  found-AllEarly (answered (some b)) = tt

  parsed-AllEarly : (r : Option Reveal) → AllEarly (parsed out r)
  parsed-AllEarly none = tt
  parsed-AllEarly (some r) = tt

  signed-AllEarly : (r : Reveal) (e : Option Str) → AllEarly (signed out r e)
  signed-AllEarly r none = tt
  signed-AllEarly r (some e) = tt

  zone_or-AllEarly : (z : Option DnsZone) → AllEarly (zone_or out z)
  zone_or-AllEarly none = tt
  zone_or-AllEarly (some z) = tt

  body_or-AllEarly : (b : Option Bytes) → AllEarly (body_or out b)
  body_or-AllEarly none = tt
  body_or-AllEarly (some b) = tt

  resolve_zone-AllEarly :
      (channel : ℕ) (config : NetworkConfig) (base_domain : Str)
      → AllEarly (resolve_zone out channel config base_domain)
  unfolding resolve_zone
  resolve_zone-AllEarly channel config base_domain =
      bind-AllEarly (found out (out.dht channel base_domain)) _
        (found-AllEarly (out.dht channel base_domain))
        (λ bytes.
          bind-AllEarly (parsed out (out.parse_reveal bytes)) _
            (parsed-AllEarly (out.parse_reveal bytes))
            (λ reveal.
              bind-AllEarly (signed out reveal (out.signature_error reveal config.network_id)) _
                (signed-AllEarly reveal (out.signature_error reveal config.network_id))
                (λ verified. zone_or-AllEarly (out.parse_zone (out.payload verified)))))

  pub prepare-AllEarly : (channel : ℕ) (loc : Located) → AllEarly (prepare out channel loc)
  unfolding prepare
  prepare-AllEarly channel loc =
      bind-AllEarly (resolve_zone out channel loc.config loc.base_domain) _
        (resolve_zone-AllEarly channel loc.config loc.base_domain)
        (λ zone.
          bind-AllEarly (targets_of zone loc.subdomain) _ (targets_of-AllEarly zone loc.subdomain)
            (λ targets.
              bind-AllEarly (body_or out (out.read_body body_limit)) _
                (body_or-AllEarly (out.read_body body_limit)) (λ body. tt)))
