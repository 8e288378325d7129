-- ===== src/Proxy/Handler/Owner.antt =====
-- The handler and the swarm manager: the account of nodes is kept, and a request goes over the node of
-- its own network.
use kinetic_atlas.Base.{
  ℕ, ◌≡◌, inl, inr, refl, ap, sym, ◌∙◌, subst, Option, none, some, List, [], ◌∷◌, arith,
  Option-cases, Result, ok, err, In,
}
use kinetic_atlas.Text.{Str, Bytes}
use kinetic_atlas.Types.{AtlasConfig, NetworkConfig, DnsRecord, ProxyRequest}
use kinetic_atlas.Error.{AtlasError}
use kinetic_atlas.SwarmManager.{Manager, touch, with_seeds, get_or_spawn_swarm}
use kinetic_atlas.SwarmManager.Ownership.{IsOwned, IsGood}
use kinetic_atlas.SwarmManager.Ownership.Keeping.{Serves, touch-Serves, check_and_spawn-Serves}
use kinetic_atlas.Proxy.Outside.{HttpRequest, Outside}
use kinetic_atlas.Proxy.Locate.{Located, locate}
use kinetic_atlas.Proxy.Locate.Registered.{IsLocated}
use kinetic_atlas.Proxy.Targets.{Attempt, peer_request, proxy_request}
use kinetic_atlas.Proxy.Targets.Requests.{For, for_ipfs, for_peer}
use kinetic_atlas.Proxy.Handler.{ProxyState, prepare, serve, forward, handle_proxy_request}
use kinetic_atlas.Proxy.Handler.Reach.{outcome, swarm_for, handle_proxy_request-Backed}

module _ {Node : Type 0} (node_new : Str → List Str → Result AtlasError Node) (m : Manager Node)
    (g : IsGood node_new m) where
  get_or_spawn_swarm-Serves :
      (before after : ℕ) (resolve : Str → List Str) (tld : Str) (config : NetworkConfig)
      → Serves node_new m tld (get_or_spawn_swarm node_new before after resolve tld config m)
  unfolding get_or_spawn_swarm
  get_or_spawn_swarm-Serves before after resolve tld config =
      elim (Option-cases (touch before tld m).0) [
        | inl e ↦
            rw (e, get_or_spawn_swarm)
              (check_and_spawn-Serves node_new m g after tld (with_seeds resolve config))
        | inr (tx, e) ↦
            let s = touch-Serves node_new m g before tld in
            rw (e, get_or_spawn_swarm)
              (record { good = s.good; extends = s.extends; owner = λ t q. s.owner t (e ∙ q) })
      ]

module _ {Reveal : Type 0} (out : Outside Reveal) (global : AtlasConfig) (config : NetworkConfig)
    (channel : ℕ) (request : ProxyRequest) (ts : List DnsRecord) where
  For-channel :
      (q : Attempt) (used peer : ℕ) (sent : ProxyRequest)
      → For out global config channel request ts q
      → q ≡ peer_request used peer sent
      → channel ≡ used
  For-channel _ used peer sent (for_ipfs cid i) e = cc
  For-channel _ used peer sent (for_peer s p i k) e = ground arith

module _ {Reveal Node : Type 0} (out : Outside Reveal)
    (node_new : Str → List Str → Result AtlasError Node) (resolve : Str → List Str)
    (before after : ℕ) (st : ProxyState Node) (req : HttpRequest)
    (g : IsGood node_new st.swarms) where
  -- The node that a request to a peer goes over: it runs, and was started for the network of the request.
  pub record OverOwnNode (channel : ℕ) : Type 0 where
    pub loc : Located
    pub is_located : IsLocated st.registry loc
    pub owned :
        IsOwned node_new (outcome out node_new resolve before after st req).swarms loc.tld channel

  swarms_of-Serves :
      (loc : Located)
      → Serves node_new st.swarms loc.tld (swarm_for out node_new resolve before after st req loc)
  swarms_of-Serves loc =
      get_or_spawn_swarm-Serves node_new st.swarms g before after resolve loc.tld loc.config

  module _ (loc : Located) (l : locate out.to_str st.registry req ≡ ok loc) where
    serve-swarms :
        (s : Option ℕ × Manager Node)
        → (serve out node_new resolve before after st req loc s).swarms ≡ s.1
    serve-swarms (none, m) = refl
    serve-swarms (some channel, m) = forwarded (prepare out channel loc)
      where
        forwarded :
            (p : Result AtlasError (List DnsRecord × Bytes))
            → (forward out node_new resolve before after st req m channel loc p).swarms ≡ m
        forwarded (err e) = refl
        forwarded (ok (targets, body)) = refl

    swarms-located :
        (outcome out node_new resolve before after st req).swarms
        ≡ (swarm_for out node_new resolve before after st req loc).1
    unfolding handle_proxy_request
    swarms-located = rw l (serve-swarms (swarm_for out node_new resolve before after st req loc))

  -- Where the manager's channels and nodes are accounted for, they are so after the handler, on every
  -- way through it.
  pub handle_proxy_request-IsGood :
      IsGood node_new (outcome out node_new resolve before after st req).swarms
  unfolding handle_proxy_request
  handle_proxy_request-IsGood = go (locate out.to_str st.registry req) refl
    where
      go :
          (l : Result AtlasError Located)
          → locate out.to_str st.registry req ≡ l
          → IsGood node_new (outcome out node_new resolve before after st req).swarms
      go (err e) l = rw l g
      go (ok loc) l =
          subst (IsGood node_new) (sym (swarms-located loc l)) (swarms_of-Serves loc).good

  -- Where the manager's channels and nodes are accounted for, a request to a peer goes over a channel
  -- that belongs, when the handler is done, to a node that was started for the top-level domain of the
  -- incoming request.
  pub handle_proxy_request-OverOwnNode :
      (channel peer : ℕ) (request : ProxyRequest)
      → In
          (peer_request channel peer request)
          (outcome out node_new resolve before after st req).attempts
      → OverOwnNode channel
  handle_proxy_request-OverOwnNode channel peer request i =
      let b =
        handle_proxy_request-Backed out node_new resolve before after st req
          (peer_request channel peer request) i in
      record {
        loc = b.loc;
        is_located = b.is_located;
        owned =
            subst (λ (m : Manager Node). IsOwned node_new m b.loc.tld channel)
              (sym (swarms-located b.loc b.located))
              ((swarms_of-Serves b.loc).owner channel (
                b.given
                ∙ ap some (
                    For-channel out st.global_config b.loc.config b.channel
                      (proxy_request out.to_str req b.body) (b.target ∷ []) _ channel peer request
                      b.sent refl)));
      }
