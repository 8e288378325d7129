-- ===== src/Proxy/Handler/Reach.antt =====
-- The ways through the handler: a request stops before anything is sent, or its targets are tried.
use kinetic_atlas.Base.{
  ℕ, ◌≡◌, ◌⊎◌, inl, inr, refl, ap, subst, Option, none, some, List, [], ◌∷◌, ◌++◌, Result, ok, err,
  In,
}
use kinetic_atlas.Text.{Str, str, Bytes}
use kinetic_atlas.Types.{DnsRecord, DnsZone, ipfs, peer_id}
use kinetic_atlas.Error.{AtlasError, network_init_failed}
use kinetic_atlas.SwarmManager.{Manager, get_or_spawn_swarm}
use kinetic_atlas.Proxy.Outside.{HttpRequest, Outside}
use kinetic_atlas.Proxy.Locate.{Located, locate}
use kinetic_atlas.Proxy.Locate.Registered.{IsLocated, locate-IsLocated}
use kinetic_atlas.Proxy.Zone.{Listed, targets_of-Listed}
use kinetic_atlas.Proxy.Targets.{Attempt, proxy_request, try_targets}
use kinetic_atlas.Proxy.Targets.Requests.{For, for_ipfs, for_peer, try_targets-For}
use kinetic_atlas.Proxy.Handler.{ProxyState, Outcome, prepare, handle_proxy_request}
use kinetic_atlas.Proxy.Handler.Verified.{IsSigned, Prepared, prepare-Prepared}
use kinetic_atlas.Proxy.Handler.Early.{IsEarly, AllEarly, locate-AllEarly, prepare-AllEarly}

module _ {Reveal Node : Type 0} (out : Outside Reveal)
    (node_new : Str → List Str → Result AtlasError Node) (resolve : Str → List Str)
    (before after : ℕ) (st : ProxyState Node) (req : HttpRequest) where
  abbrev pub outcome : Outcome Node
  outcome = handle_proxy_request out node_new resolve before after st req

  -- The answer of the swarm manager for a located request.
  abbrev pub swarm_for : Located → Option ℕ × Manager Node
  swarm_for loc = get_or_spawn_swarm node_new before after resolve loc.tld loc.config st.swarms

  -- A request whose targets are tried.
  pub record Reached : Type 0 where
    pub loc : Located
    pub located : locate out.to_str st.registry req ≡ ok loc
    pub channel : ℕ
    pub given : (swarm_for loc).0 ≡ some channel
    pub targets : List DnsRecord
    pub body : Bytes
    pub prepared : Prepared out channel loc targets body
    pub outcome_is : outcome ≡ (record {
      swarms = (swarm_for loc).1;
      attempts =
          (try_targets out st.global_config loc.config channel
            (proxy_request out.to_str req body)
            0
            targets).0;
      result =
          (try_targets out st.global_config loc.config channel
            (proxy_request out.to_str req body)
            0
            targets).1;
    })

  -- A request that stops before: nothing is sent.
  pub record Stopped : Type 0 where
    pub error : AtlasError
    pub early : IsEarly error
    pub nothing_sent : outcome.attempts ≡ []
    pub failed : outcome.result ≡ err error

  pub Stopped_or_Reached : Stopped ⊎ Reached
  unfolding handle_proxy_request
  Stopped_or_Reached = at_locate (locate out.to_str st.registry req) refl
    where
      at_prepare :
          (loc : Located)
          → locate out.to_str st.registry req ≡ ok loc
          → (channel : ℕ) (swarms : Manager Node) → swarm_for loc ≡ (some channel, swarms)
          → (p : Result AtlasError (List DnsRecord × Bytes)) → prepare out channel loc ≡ p
          → Stopped ⊎ Reached
      at_prepare loc l channel swarms s (err e) p = inl (record {
        error = e;
        early = subst AllEarly p (prepare-AllEarly out channel loc);
        nothing_sent = rw (l, s, p) refl;
        failed = rw (l, s, p) refl;
      })
      at_prepare loc l channel swarms s (ok (targets, body)) p = inr (record {
        loc = loc;
        located = l;
        channel = channel;
        given = ap (λ (o : Option ℕ × Manager Node). o.0) s;
        targets = targets;
        body = body;
        prepared = (prepare-Prepared out channel loc targets body).0 p;
        outcome_is = rw (l, s, p) refl;
      })

      at_swarm :
          (loc : Located)
          → locate out.to_str st.registry req ≡ ok loc
          → (s : Option ℕ × Manager Node) → swarm_for loc ≡ s
          → Stopped ⊎ Reached
      at_swarm loc l (none, swarms) s = inl (record {
        error = network_init_failed (str "Failed to connect to network for TLD " ++ loc.tld);
        early = tt;
        nothing_sent = rw (l, s) refl;
        failed = rw (l, s) refl;
      })
      at_swarm loc l (some channel, swarms) s =
          at_prepare loc l channel swarms s (prepare out channel loc) refl

      at_locate :
          (l : Result AtlasError Located)
          → locate out.to_str st.registry req ≡ l
          → Stopped ⊎ Reached
      at_locate (err e) l = inl (record {
        error = e;
        early = subst AllEarly l (locate-AllEarly out.to_str st.registry req);
        nothing_sent = rw l refl;
        failed = rw l refl;
      })
      at_locate (ok loc) l = at_swarm loc l (swarm_for loc) refl

  -- What stands behind a request that the handler sends.
  pub record Backed (q : Attempt) : Type 0 where
    pub loc : Located
    pub located : locate out.to_str st.registry req ≡ ok loc
    pub is_located : IsLocated st.registry loc
    pub channel : ℕ
    pub given : (swarm_for loc).0 ≡ some channel
    pub zone : DnsZone
    pub is_signed : IsSigned out channel loc.config loc.base_domain zone
    pub target : DnsRecord
    pub listed : Listed zone loc.subdomain target
    pub body : Bytes
    pub sent :
        For out st.global_config loc.config channel
          (proxy_request out.to_str req body)
          (target ∷ [])
          q

  Backed-of_For :
      (r : Reached) (q : Attempt)
      → For out st.global_config r.loc.config r.channel
          (proxy_request out.to_str req r.body)
          r.targets
          q
      → Backed q
  Backed-of_For r _ (for_ipfs cid i) = record {
    loc = r.loc;
    located = r.located;
    is_located = locate-IsLocated out.to_str st.registry req r.loc r.located;
    channel = r.channel;
    given = r.given;
    zone = r.prepared.zone;
    is_signed = r.prepared.is_signed;
    target = ipfs cid;
    listed =
        ((targets_of-Listed r.prepared.zone r.loc.subdomain r.targets r.prepared.chosen
            (ipfs cid)).0
          i).0;
    body = r.body;
    sent = for_ipfs cid (inl refl);
  }
  Backed-of_For r _ (for_peer s p i e) = record {
    loc = r.loc;
    located = r.located;
    is_located = locate-IsLocated out.to_str st.registry req r.loc r.located;
    channel = r.channel;
    given = r.given;
    zone = r.prepared.zone;
    is_signed = r.prepared.is_signed;
    target = peer_id s;
    listed =
        ((targets_of-Listed r.prepared.zone r.loc.subdomain r.targets r.prepared.chosen
            (peer_id s)).0
          i).0;
    body = r.body;
    sent = for_peer s p (inl refl) e;
  }

  -- Every request that the handler sends is for a target that a zone lists for the subdomain of the
  -- incoming request, where the network is the registered one of its top-level domain, and the zone is
  -- the payload of a record that the swarm's DHT holds for the name and that is signed for that network.
  pub handle_proxy_request-Backed : (q : Attempt) → In q outcome.attempts → Backed q
  handle_proxy_request-Backed q i = elim Stopped_or_Reached [
    | inl s ↦ absurd ((subst (λ (qs : List Attempt). In q qs) s.nothing_sent i).lower)
    | inr r ↦ Backed-of_For r q (
        try_targets-For out st.global_config r.loc.config r.channel
          (proxy_request out.to_str req r.body) 0 r.targets q
          (subst (λ (o : Outcome Node). In q o.attempts) r.outcome_is i))
  ]
