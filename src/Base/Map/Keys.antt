-- ===== src/Base/Map/Keys.antt =====
-- Maps in which no key stands twice: the operations keep this, and it lets `retain` be read by key.
use kinetic_atlas.Base.Equality.{Eq}
use kinetic_atlas.Base.Tests.{if◌then◌else◌, Bool-cases}
use kinetic_atlas.Base.Map
use kinetic_atlas.Base.Map.{Map}
use mathlib.Core.Path.{◌≡◌, refl, subst}
use mathlib.Core.Logic.{◌≢◌, inl, inr}
use mathlib.Core.Bool.{Bool}
use mathlib.Core.Option.{Option, none, some}
use mathlib.Core.List.{[], ◌∷◌}
use native.Mathlib.Omega.{arith}

abbrev pub keep_if {ℓ} : {V : Type ℓ} → (V → Bool) → Option V → Option V
keep_if p none = none
keep_if p (some v) = if p v then some v else none

module _ {ℓ} {K V : Type ℓ} where
  abbrev pub Lacks : K → Map K V → Type ℓ
  Lacks k [] = Unit
  Lacks k ((j, s) ∷ m) = (j ≢ k) × Lacks k m

  abbrev pub IsFunctional : Map K V → Type ℓ
  IsFunctional [] = Unit
  IsFunctional ((k, s) ∷ m) = Lacks k m × IsFunctional m

module _ {ℓ} {K V : Type ℓ} ⦃e : Eq K⦄ where
  Lacks-remove : (k : K) (m : Map K V) → Lacks k (Map.remove m k)
  unfolding Map.remove
  Lacks-remove k [] = tt
  Lacks-remove k ((j, s) ∷ m) = ground (arith, Lacks-remove k m, e.equal_iff j k)

  Lacks-remove_keeps : (k i : K) (m : Map K V) → Lacks k m → Lacks k (Map.remove m i)
  unfolding Map.remove
  Lacks-remove_keeps k i [] h = tt
  Lacks-remove_keeps k i ((j, s) ∷ m) h = ground (arith, Lacks-remove_keeps k i m)

  pub remove-IsFunctional : (k : K) (m : Map K V) → IsFunctional m → IsFunctional (Map.remove m k)
  unfolding Map.remove
  remove-IsFunctional k [] h = tt
  remove-IsFunctional k ((j, s) ∷ m) h =
      ground (arith, remove-IsFunctional k m, Lacks-remove_keeps j k m)

  pub insert-IsFunctional :
      (k : K) (s : V) (m : Map K V) → IsFunctional m → IsFunctional (Map.insert m k s)
  unfolding Map.insert
  insert-IsFunctional k s m h = (Lacks-remove k m, remove-IsFunctional k m h)

  pub remove-Lacks : (k : K) (m : Map K V) → Lacks k m → Map.remove m k ≡ m
  unfolding Map.remove
  remove-Lacks k [] h = refl
  remove-Lacks k ((j, s) ∷ m) h = ground (arith, remove-Lacks k m, e.equal_iff j k)

  pub get-Lacks : (k : K) (m : Map K V) → Lacks k m → Map.get m k ≡ none
  unfolding Map.get
  get-Lacks k [] h = refl
  get-Lacks k ((j, s) ∷ m) h = ground (arith, get-Lacks k m, e.equal_iff j k)

  Lacks-retain : (p : V → Bool) (k : K) (m : Map K V) → Lacks k m → Lacks k (Map.retain p m)
  unfolding Map.retain
  Lacks-retain p k [] h = tt
  Lacks-retain p k ((j, s) ∷ m) h = ground (arith, Lacks-retain p k m)

  pub retain-IsFunctional :
      (p : V → Bool) (m : Map K V) → IsFunctional m → IsFunctional (Map.retain p m)
  unfolding Map.retain
  retain-IsFunctional p [] h = tt
  retain-IsFunctional p ((j, s) ∷ m) h = ground (arith, retain-IsFunctional p m, Lacks-retain p j m)

  -- `retain` keeps the entries whose value passes, and no other.
  pub get-retain :
      (p : V → Bool) (m : Map K V) (k : K)
      → IsFunctional m
      → Map.get (Map.retain p m) k ≡ keep_if p (Map.get m k)
  unfolding Map.retain Map.get
  get-retain p [] k h = refl
  get-retain p ((j, v) ∷ m) k h = elim (Bool-cases (e.equal j k)) [
    | inl same ↦
        let here : j ≡ k = (e.equal_iff j k).0 same in
        let gone = get-Lacks k m (subst (λ x. Lacks x m) here h.0) in
        ground (arith, get-retain p m k)
    | inr other ↦ ground (arith, get-retain p m k)
  ]
