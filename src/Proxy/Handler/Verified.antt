-- ===== src/Proxy/Handler/Verified.antt =====
-- What stands behind every request that the handler sends.
use kinetic_atlas.Base.{ℕ, ◌≡◌, ◌↔◌, refl, ap, ◌∙◌, Option, none, some, List, arith, ok, bind-eq-ok}
use kinetic_atlas.Text.{Str, Bytes}
use kinetic_atlas.Types.{NetworkConfig, DnsRecord, DnsZone}
use kinetic_atlas.Proxy.Outside.{Reply, unsent, lost, answered, Outside}
use kinetic_atlas.Proxy.Locate.{Located}
use kinetic_atlas.Proxy.Zone.{targets_of}
use kinetic_atlas.Proxy.Handler.{
  body_limit, found, parsed, signed, zone_or, resolve_zone, body_or, prepare,
}

module _ {Reveal : Type 0} (out : Outside Reveal) where
  -- The zone of a name: what the DHT holds for it, with a signature that is good for the network.
  pub record IsSigned (channel : ℕ) (config : NetworkConfig) (base_domain : Str) (zone : DnsZone)
      : Type 0 where
    pub bytes : Bytes
    pub reveal : Reveal
    pub answer : out.dht channel base_domain ≡ answered (some bytes)
    pub parse : out.parse_reveal bytes ≡ some reveal
    pub signature : out.signature_error reveal config.network_id ≡ none
    pub payload : out.parse_zone (out.payload reveal) ≡ some zone

  found-eq : (r : Reply Bytes) (bytes : Bytes) → found out r ≡ ok bytes → r ≡ answered (some bytes)
  found-eq unsent bytes h = cc
  found-eq lost bytes h = cc
  found-eq (answered none) bytes h = cc
  found-eq (answered (some b)) bytes h = ground arith

  parsed-eq : (r : Option Reveal) (reveal : Reveal) → parsed out r ≡ ok reveal → r ≡ some reveal
  parsed-eq none reveal h = cc
  parsed-eq (some r) reveal h = ground arith

  signed-eq :
      (e : Option Str) (r reveal : Reveal) → signed out r e ≡ ok reveal → (e ≡ none) × (r ≡ reveal)
  signed-eq none r reveal h = (refl, ground arith)
  signed-eq (some e) r reveal h = cc

  zone_or-eq : (z : Option DnsZone) (zone : DnsZone) → zone_or out z ≡ ok zone → z ≡ some zone
  zone_or-eq none zone h = cc
  zone_or-eq (some z) zone h = ground arith

  body_or-eq : (b : Option Bytes) (body : Bytes) → body_or out b ≡ ok body → b ≡ some body
  body_or-eq none body h = cc
  body_or-eq (some b) body h = ground arith

  resolve_zone_sound :
      (channel : ℕ) (config : NetworkConfig) (base_domain : Str) (zone : DnsZone)
      → resolve_zone out channel config base_domain ≡ ok zone
      → IsSigned channel config base_domain zone
  unfolding resolve_zone
  resolve_zone_sound channel config base_domain zone h =
      let (bytes, b, h1) = bind-eq-ok (found out (out.dht channel base_domain)) _ h in
      let (reveal, r, h2) = bind-eq-ok (parsed out (out.parse_reveal bytes)) _ h1 in
      let (verified, s, h3) =
        bind-eq-ok (signed out reveal (out.signature_error reveal config.network_id)) _ h2 in
      let (none_wrong, same) =
        signed-eq (out.signature_error reveal config.network_id) reveal verified s in
      record {
        bytes = bytes;
        reveal = reveal;
        answer = found-eq (out.dht channel base_domain) bytes b;
        parse = parsed-eq (out.parse_reveal bytes) reveal r;
        signature = none_wrong;
        payload = rw same (zone_or-eq (out.parse_zone (out.payload verified)) zone h3);
      }

  -- The zone that the handler uses is the payload of a record that the DHT answered for exactly this
  -- name and whose signature was verified for the network's identifier, and every such zone is accepted.
  pub resolve_zone-IsSigned :
      (channel : ℕ) (config : NetworkConfig) (base_domain : Str) (zone : DnsZone)
      → (resolve_zone out channel config base_domain ≡ ok zone)
        ↔ IsSigned channel config base_domain zone
  unfolding resolve_zone
  resolve_zone-IsSigned channel config base_domain zone = (
    resolve_zone_sound channel config base_domain zone,
    λ s. rw (s.answer, s.parse, s.signature, s.payload, resolve_zone) refl,
  )

  pub record Prepared (channel : ℕ) (loc : Located) (targets : List DnsRecord) (body : Bytes)
      : Type 0 where
    pub zone : DnsZone
    pub is_signed : IsSigned channel loc.config loc.base_domain zone
    pub chosen : targets_of zone loc.subdomain ≡ ok targets
    pub read : out.read_body body_limit ≡ some body

  prepare_sound :
      (channel : ℕ) (loc : Located) (targets : List DnsRecord) (body : Bytes)
      → prepare out channel loc ≡ ok (targets, body)
      → Prepared channel loc targets body
  unfolding prepare
  prepare_sound channel loc targets body h =
      let (zone, z, h1) = bind-eq-ok (resolve_zone out channel loc.config loc.base_domain) _ h in
      let (ts, t, h2) = bind-eq-ok (targets_of zone loc.subdomain) _ h1 in
      let (b, r, h3) = bind-eq-ok (body_or out (out.read_body body_limit)) _ h2 in
      let same_targets : ts ≡ targets = ground arith in
      let same_body : b ≡ body = ground arith in
      record {
        zone = zone;
        is_signed = resolve_zone_sound channel loc.config loc.base_domain zone z;
        chosen = t ∙ ap ok same_targets;
        read = body_or-eq (out.read_body body_limit) b r ∙ ap some same_body;
      }

  -- The loop over the targets is reached exactly when the name has a zone that is signed for the network,
  -- the zone has targets for the subdomain, and the body is within its limit.
  pub prepare-Prepared :
      (channel : ℕ) (loc : Located) (targets : List DnsRecord) (body : Bytes)
      → (prepare out channel loc ≡ ok (targets, body)) ↔ Prepared channel loc targets body
  unfolding prepare
  prepare-Prepared channel loc targets body = (
    prepare_sound channel loc targets body,
    λ p.
        rw
          (
            (resolve_zone-IsSigned channel loc.config loc.base_domain p.zone).1 p.is_signed,
            p.chosen,
            p.read,
            prepare,
          )
          refl,
  )
