-- ===== src/Proxy/Targets/Order.antt =====
-- Which target of the loop answers, and which ones are tried before it.
use kinetic_atlas.Base.{
  ℕ, suc, ◌+◌, ◌≡◌, ◌⊎◌, inl, inr, refl, ap, sym, ◌∙◌, subst, none, some, List, [], ◌∷◌, ◌++◌,
  append_assoc, arith, length, Result, err, Option-cases,
}
use kinetic_atlas.Types.{
  AtlasConfig, NetworkConfig, DnsRecord, a, aaaa, cname, txt, peer_id, kid, ipfs, other,
  ProxyRequest, ProxyResponse,
}
use kinetic_atlas.Error.{AtlasError, proxy_target_failed}
use kinetic_atlas.Proxy.Outside.{Reply, unsent, lost, answered, HttpResponse, Outside}
use kinetic_atlas.Proxy.Targets.{
  Attempt, Tried, try_target, try_targets, respond, from_peer, peer_answer, to_gateway,
}

module _ {Reveal : Type 0} (out : Outside Reveal) (global : AtlasConfig) (config : NetworkConfig)
    (channel : ℕ) (request : ProxyRequest) where
  abbrev pub tried_at : ℕ → DnsRecord → Tried
  tried_at = try_target out global config channel request

  -- None of the targets gives an answer, where the first one has the number `n`.
  abbrev pub Silent : ℕ → List DnsRecord → Type 0
  Silent n [] = Unit
  Silent n (t ∷ ts) = ((tried_at n t).answer ≡ none) × Silent (suc n) ts

  abbrev pub attempted : ℕ → List DnsRecord → List Attempt
  attempted n [] = []
  attempted n (t ∷ ts) = (tried_at n t).attempts ++ attempted (suc n) ts

  -- The first target with an answer, those in front of it having none.
  pub record First (n : ℕ) (ts : List DnsRecord) (attempts : List Attempt)
      (result : Result AtlasError HttpResponse) : Type 0 where
    pub front : List DnsRecord
    pub target : DnsRecord
    pub back : List DnsRecord
    pub parts : ts ≡ front ++ target ∷ back
    pub silent : Silent n front
    pub answers : (tried_at (n + length front) target).answer ≡ some result
    pub attempts_are : attempts ≡ attempted n front ++ (tried_at (n + length front) target).attempts

  First-later :
      (n : ℕ) (t : DnsRecord) (ts : List DnsRecord) (attempts : List Attempt)
      (result : Result AtlasError HttpResponse)
      → (tried_at n t).answer ≡ none
      → First (suc n) ts attempts result
      → First n (t ∷ ts) ((tried_at n t).attempts ++ attempts) result
  First-later n t ts attempts result e f =
      let at : suc n + length f.front ≡ n + length (t ∷ f.front) = omega arith in
      record {
        front = t ∷ f.front;
        target = f.target;
        back = f.back;
        parts = ap (λ (l : List DnsRecord). t ∷ l) f.parts;
        silent = (e, f.silent);
        answers = subst (λ (k : ℕ). (tried_at k f.target).answer ≡ some result) at f.answers;
        attempts_are =
            ap (λ (l : List Attempt). (tried_at n t).attempts ++ l)
              (subst
                (λ (k : ℕ). attempts ≡ attempted (suc n) f.front ++ (tried_at k f.target).attempts)
                at f.attempts_are)
            ∙ sym (
                append_assoc (tried_at n t).attempts (attempted (suc n) f.front)
                  (tried_at (n + suc (length f.front)) f.target).attempts);
      }

  -- The loop answers with the first target that has an answer, having tried the ones in front of it and
  -- none behind it; where no target has one, all are tried and the result is `ProxyTargetFailed`.
  pub try_targets-First :
      (n : ℕ) (ts : List DnsRecord)
      → First n ts
          (try_targets out global config channel request n ts).0
          (try_targets out global config channel request n ts).1
        ⊎ (Silent n ts
            × (try_targets out global config channel request n ts
                ≡ (attempted n ts, err proxy_target_failed)))
  unfolding try_targets
  try_targets-First n [] = inr (tt, refl)
  try_targets-First n (t ∷ ts) = elim (Option-cases (tried_at n t).answer) [
    | inr (result, e) ↦
        let start : n + length {A = DnsRecord} [] ≡ n = omega arith in
        rw (e, try_targets)
          (inl (record {
            front = [];
            target = t;
            back = ts;
            parts = refl;
            silent = tt;
            answers = rw start e;
            attempts_are = rw start refl;
          }))
    | inl e ↦
        rw (e, try_targets)
          (elim (try_targets-First (suc n) ts) [
            | inl f ↦ inl (First-later n t ts _ _ e f)
            | inr (s, k) ↦ inr ((refl, s), rw k refl)
          ])
  ]

  -- A target behind others without an answer gives the loop's result, whatever stands behind it.
  pub try_targets-append :
      (n : ℕ) (front : List DnsRecord) (target : DnsRecord) (back : List DnsRecord)
      (result : Result AtlasError HttpResponse)
      → Silent n front
      → (tried_at (n + length front) target).answer ≡ some result
      → try_targets out global config channel request n (front ++ target ∷ back)
        ≡ (attempted n front ++ (tried_at (n + length front) target).attempts, result)
  unfolding try_targets
  try_targets-append n [] target back result s e =
      let start : n + length {A = DnsRecord} [] ≡ n = omega arith in
      let e' = subst (λ (k : ℕ). (tried_at k target).answer ≡ some result) start e in
      rw (start, e', try_targets) refl
  try_targets-append n (t ∷ front) target back result (s, ss) e =
      let at : n + length (t ∷ front) ≡ suc n + length front = omega arith in
      let e' = subst (λ (k : ℕ). (tried_at k target).answer ≡ some result) at e in
      rw (s, try_targets-append (suc n) front target back result ss e', try_targets)
        (ap (λ (l : List Attempt). (l, result))
          (subst
              (λ (k : ℕ).
                (tried_at n t).attempts
                  ++ (attempted (suc n) front ++ (tried_at (suc n + length front) target).attempts)
                ≡ (tried_at n t).attempts
                  ++ (attempted (suc n) front ++ (tried_at k target).attempts))
              (sym at) refl
            ∙ sym (
                append_assoc (tried_at n t).attempts (attempted (suc n) front)
                  (tried_at (n + suc (length front)) target).attempts)))

  respond-err :
      (res : HttpResponse) (e : AtlasError)
      → respond out global config channel request res ≡ err e
      → e ≡ proxy_target_failed
  respond-err res e h = elim (Option-cases (out.build res)) [
    | inl k ↦ ground arith
    | inr (r, k) ↦ absurd (ground arith)
  ]

  peer_answer-err :
      (r : Reply ProxyResponse) (e : AtlasError)
      → peer_answer out global config channel request r ≡ some (err e)
      → e ≡ proxy_target_failed
  peer_answer-err unsent e h = cc
  peer_answer-err lost e h = cc
  peer_answer-err (answered none) e h = cc
  peer_answer-err (answered (some res)) e h =
      respond-err (from_peer out global config channel request res) e (ground arith)

  try_target-err :
      (n : ℕ) (t : DnsRecord) (e : AtlasError)
      → (tried_at n t).answer ≡ some (err e)
      → e ≡ proxy_target_failed
  unfolding try_target
  try_target-err n (ipfs cid) e h =
      elim (Option-cases (out.gateway n (to_gateway out global config channel request cid))) [
        | inl k ↦ absurd (ground arith)
        | inr (res, k) ↦ respond-err res e (ground arith)
      ]
  try_target-err n (peer_id s) e h = elim (Option-cases (out.parse_peer s)) [
    | inl k ↦ absurd (ground arith)
    | inr (peer, k) ↦ peer_answer-err (out.peer n channel peer request) e (rw (k, try_target) at h)
  ]
  try_target-err n (a _) e h = cc
  try_target-err n (aaaa _) e h = cc
  try_target-err n (cname _) e h = cc
  try_target-err n (txt _) e h = cc
  try_target-err n (kid _) e h = cc
  try_target-err n other e h = cc

  pub try_targets-err :
      (n : ℕ) (ts : List DnsRecord) (e : AtlasError)
      → (try_targets out global config channel request n ts).1 ≡ err e
      → e ≡ proxy_target_failed
  try_targets-err n ts e h = elim (try_targets-First n ts) [
    | inl f ↦ try_target-err (n + length f.front) f.target e (f.answers ∙ ap some h)
    | inr (s, k) ↦ ground arith
  ]
