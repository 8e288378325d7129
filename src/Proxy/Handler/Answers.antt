-- ===== src/Proxy/Handler/Answers.antt =====
-- What the handler answers: the first target's answer, or an error.
use kinetic_atlas.Base.{
  ℕ, ◌+◌, ◌≡◌, ◌⊎◌, inl, inr, refl, ap, sym, ◌∙◌, subst, Option, some, List, [], ◌∷◌, ◌++◌, arith,
  Result, ok, err, length,
}
use kinetic_atlas.Text.{Str, Bytes}
use kinetic_atlas.Types.{DnsRecord}
use kinetic_atlas.Error.{AtlasError, proxy_target_failed}
use kinetic_atlas.Proxy.Outside.{HttpRequest, HttpResponse, Outside}
use kinetic_atlas.Proxy.Locate.{Located, locate}
use kinetic_atlas.Proxy.Targets.{Attempt, proxy_request, try_target, try_targets}
use kinetic_atlas.Proxy.Targets.Order.{
  First, Silent, try_targets-First, try_targets-append, try_targets-err,
}
use kinetic_atlas.Proxy.Handler.{ProxyState, Outcome, handle_proxy_request}
use kinetic_atlas.Proxy.Handler.Verified.{Prepared, prepare-Prepared}
use kinetic_atlas.Proxy.Handler.Early.{IsEarly}
use kinetic_atlas.Proxy.Handler.Reach.{outcome, swarm_for, Reached, Stopped_or_Reached}

module _ {Reveal Node : Type 0} (out : Outside Reveal)
    (node_new : Str → List Str → Result AtlasError Node) (resolve : Str → List Str)
    (before after : ℕ) (st : ProxyState Node) (req : HttpRequest) where
  -- An error of the handler is `ProxyTargetFailed`, or one that it meets before it sends anything.
  pub handle_proxy_request-failed :
      (e : AtlasError)
      → (outcome out node_new resolve before after st req).result ≡ err e
      → (e ≡ proxy_target_failed)
        ⊎ (IsEarly e × ((outcome out node_new resolve before after st req).attempts ≡ []))
  handle_proxy_request-failed e h =
      elim (Stopped_or_Reached out node_new resolve before after st req) [
        | inl s ↦ inr (subst IsEarly (ground (arith, s.failed)) s.early, s.nothing_sent)
        | inr r ↦ inl (
            try_targets-err out st.global_config r.loc.config r.channel
              (proxy_request out.to_str req r.body) 0 r.targets e
              (subst (λ (o : Outcome Node). o.result ≡ err e) r.outcome_is h))
      ]

  -- A response, and where it comes from.
  pub record Served (response : HttpResponse) : Type 0 where
    pub reached : Reached out node_new resolve before after st req
    pub first :
        First out st.global_config reached.loc.config reached.channel
          (proxy_request out.to_str req reached.body)
          0
          reached.targets
          (outcome out node_new resolve before after st req).attempts
          (ok response)

  abbrev loop_of :
      Reached out node_new resolve before after st req
      → List Attempt × Result AtlasError HttpResponse
  loop_of r =
      try_targets out st.global_config r.loc.config r.channel (proxy_request out.to_str req r.body)
        0 r.targets

  -- A response of the handler is the answer of the first target that has one, for a request whose targets
  -- are tried; the targets in front of it were tried without an answer, and none behind it was tried.
  pub handle_proxy_request-Served :
      (response : HttpResponse)
      → (outcome out node_new resolve before after st req).result ≡ ok response
      → Served response
  handle_proxy_request-Served response h =
      elim (Stopped_or_Reached out node_new resolve before after st req) [
        | inl s ↦ absurd (ground (arith, s.failed))
        | inr r ↦
            let sent : (outcome out node_new resolve before after st req).attempts ≡ (loop_of r).0 =
              ap (λ (o : Outcome Node). o.attempts) r.outcome_is in
            let given : (loop_of r).1 ≡ ok response =
              sym (ap (λ (o : Outcome Node). o.result) r.outcome_is) ∙ h in
            elim (try_targets-First out st.global_config r.loc.config r.channel
              (proxy_request out.to_str req r.body) 0 r.targets) [
                | inr (_, k) ↦ absurd (ground (arith, given))
                | inl f ↦ record {
                  reached = r;
                  first =
                      subst
                        (λ (qs : List Attempt).
                          First out st.global_config r.loc.config r.channel
                            (proxy_request out.to_str req r.body) 0 r.targets qs (ok response))
                        (sym sent)
                        (subst
                          (First out st.global_config r.loc.config r.channel
                            (proxy_request out.to_str req r.body) 0 r.targets (loop_of r).0)
                          given f);
                }
              ]
      ]

  -- A request for a located name, for which the manager gives a channel, whose zone is signed for the
  -- network and whose body is read, has the answer of the first of its targets that gives one for its
  -- result, whatever the targets behind it.
  pub handle_proxy_request-answers :
      (loc : Located) (channel : ℕ) (front back : List DnsRecord) (target : DnsRecord)
      (body : Bytes) (result : Result AtlasError HttpResponse)
      → locate out.to_str st.registry req ≡ ok loc
      → (swarm_for out node_new resolve before after st req loc).0 ≡ some channel
      → Prepared out channel loc (front ++ target ∷ back) body
      → Silent out st.global_config loc.config channel (proxy_request out.to_str req body) 0 front
      → (try_target out st.global_config loc.config channel
          (proxy_request out.to_str req body)
          (length front)
          target).answer
        ≡ some result
      → (outcome out node_new resolve before after st req).result ≡ result
  unfolding handle_proxy_request
  handle_proxy_request-answers loc channel front back target body result l s p silent answer =
      let request = proxy_request out.to_str req body in
      let ready = (prepare-Prepared out channel loc (front ++ target ∷ back) body).1 p in
      let pair : swarm_for out node_new resolve before after st req loc
          ≡ (some channel, (swarm_for out node_new resolve before after st req loc).1) =
        ap (λ (o : Option ℕ). (o, (swarm_for out node_new resolve before after st req loc).1)) s in
      let at : 0 + length front ≡ length front = omega arith in
      let e =
        subst
          (λ (k : ℕ).
            (try_target out st.global_config loc.config channel request k target).answer
            ≡ some result)
          (sym at) answer in
      let loop =
        try_targets-append out st.global_config loc.config channel request 0 front target back
          result silent e in
      rw (l, pair, ready, loop) refl
