-- ===== src/Daemon/Sound/Rounds.antt =====
-- What a handler keeps in a round of the loop over its targets.
use kinetic_atlas.Base.{
  ℕ, suc, ◌+◌, ◌≡◌, inl, inr, ap, sym, subst, ◌∙◌, Option, none, some, List, [], ◌∷◌, ◌++◌, length,
  arith, Result, err, Option-cases, append_assoc, append-nil, length-append,
}
use kinetic_atlas.Text.{Str, Bytes}
use kinetic_atlas.Types.{AtlasConfig, NetworkConfig, DnsRecord, ProxyRequest}
use kinetic_atlas.Error.{AtlasError, proxy_target_failed}
use kinetic_atlas.Registry.{Dir}
use kinetic_atlas.SwarmManager.Ownership.{IsGood}
use kinetic_atlas.Proxy.Outside.{HttpRequest, HttpResponse, Outside}
use kinetic_atlas.Proxy.Locate.{Located}
use kinetic_atlas.Proxy.Targets.{Attempt, Tried, proxy_request, try_target, try_targets}
use kinetic_atlas.Proxy.Targets.Order.{attempted, try_targets-append}
use kinetic_atlas.Proxy.Targets.Resumed.{try_targets-Silent, Silent-append, attempted-append}
use kinetic_atlas.Proxy.Handler.{ProxyState}
use kinetic_atlas.Proxy.Handler.Verified.{Prepared, prepare-Prepared}
use kinetic_atlas.Daemon.{Phase, trying, finished, after_target, advance}
use kinetic_atlas.Daemon.Invariant.{from_targets, Trying, Answered, PhaseOk}
use kinetic_atlas.Daemon.Sound.{Goes, alone, stops}

module _ {Reveal Node : Type 0} (node_new : Str → List Str → Result AtlasError Node)
    (resolve : Str → List Str) (parse : Str → Option NetworkConfig) (data_local_dir : Option Str)
    (global : AtlasConfig) where
  module _ (dirs : List Dir) (world : Outside Reveal) (st : ProxyState Node) (now : ℕ)
      (req : HttpRequest) (g : IsGood node_new st.swarms) (loc : Located) (channel : ℕ)
      (body : Bytes) (attempts : List Attempt) where
    abbrev Ok : Phase → Type 0
    Ok = PhaseOk node_new parse data_local_dir global dirs st.swarms world

    abbrev request : ProxyRequest
    request = proxy_request world.to_str req body

    abbrev tried : ℕ → DnsRecord → Tried
    tried = try_target world global loc.config channel request

    -- The loop over the targets, as it is for the request alone, ends with `result`.
    ends :
        (next : ℕ) (left : List DnsRecord) (sent : List Attempt)
        (result : Result AtlasError HttpResponse)
        → (h : Trying node_new parse data_local_dir global dirs st.swarms world req loc channel body
            next left attempts)
        → try_targets world global loc.config channel request 0 (h.front ++ left) ≡ (sent, result)
        → Ok (finished req sent result)
    ends next left sent result h e =
        stops node_new resolve parse data_local_dir global dirs world st now req g loc channel sent
          result h.found h.owned
          (sym (
            ap (from_targets world global req loc channel)
              ((prepare-Prepared world channel loc (h.front ++ left) body).1 h.prepared)
            ∙ e))

    out_of_targets :
        (next : ℕ)
        → Ok (trying req loc channel body next [] attempts)
        → Ok (finished req attempts (err proxy_target_failed))
    out_of_targets next h = ends next [] attempts (err proxy_target_failed) h (
        ap (try_targets world global loc.config channel request 0) (append-nil h.front)
        ∙ try_targets-Silent world global loc.config channel request 0 h.front h.silent
        ∙ ap (λ (l : List Attempt). (l, err proxy_target_failed)) (sym h.sent))

    module _ (next : ℕ) (t : DnsRecord) (left : List DnsRecord)
        (h : Ok (trying req loc channel body next (t ∷ left) attempts)) where
      here : next ≡ 0 + length h.front
      here = omega (arith, h.at)

      answers :
          (result : Result AtlasError HttpResponse)
          → (tried next t).answer ≡ some result
          → Ok (finished req (attempts ++ (tried next t).attempts) result)
      answers result e = ends next (t ∷ left) (attempts ++ (tried next t).attempts) result h (
          try_targets-append world global loc.config channel request 0 h.front t left result
            h.silent (subst (λ (k : ℕ). (tried k t).answer ≡ some result) here e)
          ∙ ap (λ (l : List Attempt). (l ++ (tried (0 + length h.front) t).attempts, result))
              (sym h.sent)
          ∙ ap (λ (k : ℕ). (attempts ++ (tried k t).attempts, result)) (sym here))

      goes_on :
          (tried next t).answer ≡ none
          → Ok (trying req loc channel body (suc next) left (attempts ++ (tried next t).attempts))
      goes_on e = record {
        found = h.found;
        owned = h.owned;
        front = h.front ++ t ∷ [];
        prepared =
            subst (λ (ts : List DnsRecord). Prepared world channel loc ts body)
              (sym (append_assoc h.front (t ∷ []) left)) h.prepared;
        at = omega (arith, h.at, length-append h.front (t ∷ []));
        silent =
            Silent-append world global loc.config channel request 0 h.front t h.silent
              (subst (λ (k : ℕ). (tried k t).answer ≡ none) here e);
        sent =
            ap (λ (l : List Attempt). l ++ (tried next t).attempts) h.sent
            ∙ ap
                (λ (k : ℕ).
                  attempted world global loc.config channel request 0 h.front
                  ++ (tried k t).attempts)
                here
            ∙ sym (attempted-append world global loc.config channel request 0 h.front t);
      }

      after_round : Ok (after_target req loc channel body next left attempts (tried next t))
      after_round = elim (Option-cases (tried next t).answer) [
        | inl e ↦ rw e (goes_on e)
        | inr (result, e) ↦ rw e (answers result e)
      ]

    pub trying-Goes :
        (next : ℕ) (left : List DnsRecord)
        → st.global_config ≡ global
        → Ok (trying req loc channel body next left attempts)
        → Goes node_new resolve parse data_local_dir global dirs world st
            (advance node_new resolve world now (trying req loc channel body next left attempts) st)
    unfolding advance
    trying-Goes next [] c h =
        alone node_new resolve parse data_local_dir global dirs world st now req g _
          (out_of_targets next h)
    trying-Goes next (t ∷ left) c h =
        alone node_new resolve parse data_local_dir global dirs world st now req g _ (
          subst
            (λ (config : AtlasConfig). Ok (
              after_target req loc channel body next left attempts
                (try_target world config loc.config channel request next t)))
            (sym c) (after_round next t left h))

  module _ (dirs : List Dir) (world : Outside Reveal) (st : ProxyState Node) (now : ℕ)
      (req : HttpRequest) (g : IsGood node_new st.swarms) where
    pub finished-Goes :
        (attempts : List Attempt) (result : Result AtlasError HttpResponse)
        → Answered node_new parse data_local_dir global dirs st.swarms world req attempts result
        → Goes node_new resolve parse data_local_dir global dirs world st
            (advance node_new resolve world now (finished req attempts result) st)
    unfolding advance
    finished-Goes attempts result h =
        alone node_new resolve parse data_local_dir global dirs world st now req g
          (finished req attempts result) h
