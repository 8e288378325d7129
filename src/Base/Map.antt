-- ===== src/Base/Map.antt =====
-- `std::collections::HashMap` as an association list: no operation of the program depends on the
-- order of its entries.
pub mod Keys
use kinetic_atlas.Base.Equality.{Eq}
use kinetic_atlas.Base.Tests.{if◌then◌else◌}
use mathlib.Core.Path.{◌≡◌}
use mathlib.Core.Logic.{◌≢◌}
use mathlib.Core.Bool.{Bool, true, false}
use mathlib.Core.Option.{Option, none, some}
use mathlib.Core.List.{List, [], ◌∷◌}
use native.Mathlib.Omega.{arith}

abbrev pub Map {ℓ} : Type ℓ → Type ℓ → Type ℓ
Map K V = List (K × V)

module _ {ℓ} {K V : Type ℓ} ⦃e : Eq K⦄ where
  unfoldable pub get : Map K V → K → Option V
  get [] k = none
  get ((j, v) ∷ m) k = if e.equal j k then some v else get m k

  unfoldable pub contains_key : Map K V → K → Bool
  unfolding get
  contains_key m k = elim (get m k) [ none ↦ false | some _ ↦ true ]

  unfoldable pub remove : Map K V → K → Map K V
  remove [] k = []
  remove ((j, v) ∷ m) k = let rest = remove m k in if e.equal j k then rest else (j, v) ∷ rest

  unfoldable pub insert : Map K V → K → V → Map K V
  unfolding remove
  insert m k v = (k, v) ∷ remove m k

  -- `HashMap::retain`, with a test that reads only the value.
  unfoldable pub retain : (V → Bool) → Map K V → Map K V
  retain p [] = []
  retain p ((j, v) ∷ m) = let rest = retain p m in if p v then (j, v) ∷ rest else rest

  pub get-remove :
      (m : Map K V) (k j : K) → get (remove m k) j ≡ (if e.equal k j then none else get m j)
  unfolding get remove
  get-remove [] k j = ground arith
  get-remove ((i, v) ∷ m) k j =
      ground (arith, get-remove m k j, e.equal_iff i k, e.equal_iff i j, e.equal_iff k j)

  pub get-insert :
      (m : Map K V) (k j : K) (v : V)
      → get (insert m k v) j ≡ (if e.equal k j then some v else get m j)
  unfolding get insert
  get-insert m k j v = ground (arith, get-remove m k j)

  pub get-insert_self : (m : Map K V) (k : K) (v : V) → get (insert m k v) k ≡ some v
  unfolding get insert
  get-insert_self m k v = ground (arith, e.equal_iff k k)

  pub get-insert_ne : (m : Map K V) (k j : K) (v : V) → k ≢ j → get (insert m k v) j ≡ get m j
  get-insert_ne m k j v h = ground (arith, get-insert m k j v, e.equal_iff k j)
