-- ===== src/SwarmManager/Ownership/Shutdown.antt =====
-- A round of the collector keeps the account of channels and nodes.
use kinetic_atlas.Base.{
  ℕ, ◌+◌, ◌≡◌, refl, sym, subst, ◌∙◌, Bool, Option, none, some, List, [], ◌∷◌, ◌++◌, arith, Result,
  ◌==◌, ℕ_eq, Bool-cases, inl, inr,
}
use kinetic_atlas.Base.Map
use kinetic_atlas.Base.Map.{Map, get-insert}
use kinetic_atlas.Base.Map.Keys.{
  IsFunctional, retain-IsFunctional, get-retain, keep_if, Lacks, get-Lacks,
}
use kinetic_atlas.Text.{Str, Str_eq}
use kinetic_atlas.Error.{AtlasError}
use kinetic_atlas.SwarmManager.{Manager, SwarmHandle, collect, idle, is_fresh}
use kinetic_atlas.SwarmManager.Ownership.{times, present, IsGood, IsOwned-Extends}

-- The domains that a round shuts down are those whose swarms it takes out.
times-idle :
    (now : ℕ) (tld : Str) (s : Map Str SwarmHandle)
    → IsFunctional s
    → times tld (idle now s) + present (Map.get (Map.retain (is_fresh now) s) tld)
      ≡ present (Map.get s tld)
unfolding idle Map.retain Map.get
times-idle now tld [] f = refl
times-idle now tld ((t, h) ∷ s) f = elim (Bool-cases (t == tld)) [
  | inl same ↦
      let here : t ≡ tld = (Str_eq.equal_iff t tld).0 same in
      let gone : Map.get s tld ≡ none = get-Lacks tld s (subst (λ x. Lacks x s) here f.0) in
      ground (arith, times-idle now tld s f.1)
  | inr other ↦ ground (arith, times-idle now tld s f.1)
]

times-append : (tld : Str) (xs ys : List Str) → times tld (xs ++ ys) ≡ times tld xs + times tld ys
times-append tld [] ys = omega arith
times-append tld (x ∷ xs) ys = omega (arith, times-append tld xs ys)

pub keep_if-some :
    (p : SwarmHandle → Bool) (o : Option SwarmHandle) (h : SwarmHandle)
    → keep_if p o ≡ some h
    → o ≡ some h
keep_if-some p none h e = cc
keep_if-some p (some k) h e = ground arith

module _ {Node : Type 0} (node_new : Str → List Str → Result AtlasError Node) (m : Manager Node)
    (g : IsGood node_new m) where
  pub collect-IsGood : (now : ℕ) → IsGood node_new (collect now m)
  unfolding collect
  collect-IsGood now = record {
    functional = retain-IsFunctional (is_fresh now) m.swarms g.functional;
    bounded = g.bounded;
    owned = λ t k q.
        IsOwned-Extends node_new m (collect now m) t k.tx (λ tx r f. f)
          (g.owned t k (
            keep_if-some (is_fresh now) (Map.get m.swarms t) k
              (sym (get-retain (is_fresh now) m.swarms t g.functional) ∙ q)));
    counted = λ t. omega (
      arith,
      g.counted t,
      times-idle now t m.swarms g.functional,
      times-append t (idle now m.swarms) m.shut_down,
    );
  }
