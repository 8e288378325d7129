-- ===== src/Proxy/Targets/Resumed.antt =====
-- src/proxy.rs: the loop over the targets, cut between two rounds.
use kinetic_atlas.Base.{
  ℕ, suc, ◌+◌, ◌≡◌, refl, ap, sym, ◌∙◌, subst, none, List, [], ◌∷◌, ◌++◌, append_assoc, append-nil,
  arith, length, err,
}
use kinetic_atlas.Types.{AtlasConfig, NetworkConfig, DnsRecord, ProxyRequest}
use kinetic_atlas.Error.{proxy_target_failed}
use kinetic_atlas.Proxy.Outside.{Outside}
use kinetic_atlas.Proxy.Targets.{Attempt, Tried, try_targets}
use kinetic_atlas.Proxy.Targets.Order.{Silent, attempted, tried_at}

module _ {Reveal : Type 0} (out : Outside Reveal) (global : AtlasConfig) (config : NetworkConfig)
    (channel : ℕ) (request : ProxyRequest) where
  abbrev at : ℕ → DnsRecord → Tried
  at = tried_at out global config channel request

  abbrev AllSilent : ℕ → List DnsRecord → Type 0
  AllSilent = Silent out global config channel request

  abbrev sent : ℕ → List DnsRecord → List Attempt
  sent = attempted out global config channel request

  pub try_targets-Silent :
      (n : ℕ) (ts : List DnsRecord)
      → AllSilent n ts
      → try_targets out global config channel request n ts ≡ (sent n ts, err proxy_target_failed)
  unfolding try_targets
  try_targets-Silent n [] s = refl
  try_targets-Silent n (t ∷ ts) (e, s) = rw (e, try_targets-Silent (suc n) ts s, try_targets) refl

  pub Silent-append :
      (n : ℕ) (front : List DnsRecord) (t : DnsRecord)
      → AllSilent n front
      → (at (n + length front) t).answer ≡ none
      → AllSilent n (front ++ t ∷ [])
  Silent-append n [] t s e =
      let start : n + length {A = DnsRecord} [] ≡ n = omega arith in
      (subst (λ (k : ℕ). (at k t).answer ≡ none) start e, tt)
  Silent-append n (f ∷ front) t (q, s) e =
      let there : n + length (f ∷ front) ≡ suc n + length front = omega arith in
      (q, Silent-append (suc n) front t s (subst (λ (k : ℕ). (at k t).answer ≡ none) there e))

  pub attempted-append :
      (n : ℕ) (front : List DnsRecord) (t : DnsRecord)
      → sent n (front ++ t ∷ []) ≡ sent n front ++ (at (n + length front) t).attempts
  attempted-append n [] t =
      let start : n + length {A = DnsRecord} [] ≡ n = omega arith in
      append-nil (at n t).attempts ∙ ap (λ (k : ℕ). (at k t).attempts) (sym start)
  attempted-append n (f ∷ front) t =
      let there : suc n + length front ≡ n + length (f ∷ front) = omega arith in
      ap (λ (l : List Attempt). (at n f).attempts ++ l)
        (attempted-append (suc n) front t
          ∙ ap (λ (k : ℕ). sent (suc n) front ++ (at k t).attempts) there)
      ∙ sym (
          append_assoc (at n f).attempts (sent (suc n) front)
            (at (n + length (f ∷ front)) t).attempts)
