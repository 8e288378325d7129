-- ===== src/Base/Equality.antt =====
-- Boolean equality as an interface, with its instances at numbers and at lists.
use Prim.Native.Nat.{ℕ}
use mathlib.Core.Path.{◌≡◌, refl}
use mathlib.Core.Logic.{◌↔◌, ◌≢◌}
use mathlib.Core.Bool.{Bool, true, false, ◌&&◌}
use mathlib.Core.List.{List, [], ◌∷◌}
use native.Mathlib.Omega.{arith}
use kinetic_atlas.Base.Tests.{nat_eq, nat_eq_iff}

-- The derived `PartialEq` and `Eq` of a key type: a test, and that it decides equality.
pub record Eq {ℓ} (Key : Type ℓ) : Type ℓ where
  pub equal : Key → Key → Bool
  pub equal_iff : (j k : Key) → (equal j k ≡ true) ↔ (j ≡ k)

instance abbrev pub ℕ_eq : Eq ℕ
ℕ_eq = record { equal = nat_eq; equal_iff = nat_eq_iff }

infix 50 ◌==◌
abbrev pub ◌==◌ {ℓ} : {Key : Type ℓ} ⦃of_keys : Eq Key⦄ → Key → Key → Bool
◌==◌ ⦃of_keys⦄ = of_keys.equal

module _ {ℓ} {A : Type ℓ} ⦃e : Eq A⦄ where
  unfoldable pub list_eq : List A → List A → Bool
  list_eq [] [] = true
  list_eq [] (_ ∷ _) = false
  list_eq (_ ∷ _) [] = false
  list_eq (x ∷ xs) (y ∷ ys) = e.equal x y && list_eq xs ys

  pub list_eq_iff : (xs ys : List A) → (list_eq xs ys ≡ true) ↔ (xs ≡ ys)
  unfolding list_eq
  list_eq_iff [] [] = ground arith
  list_eq_iff [] (_ ∷ _) = ground arith
  list_eq_iff (_ ∷ _) [] = ground arith
  list_eq_iff (x ∷ xs) (y ∷ ys) = ground (arith, e.equal_iff x y, list_eq_iff xs ys)

instance abbrev pub List_eq {ℓ} : {A : Type ℓ} ⦃e : Eq A⦄ → Eq (List A)
List_eq ⦃e⦄ = record { equal = list_eq; equal_iff = list_eq_iff }

module _ {ℓ} {A : Type ℓ} ⦃e : Eq A⦄ where
  pub eq_refl : (a : A) → e.equal a a ≡ true
  eq_refl a = (e.equal_iff a a).1 refl

  pub ne→eq_false : (a b : A) → a ≢ b → e.equal a b ≡ false
  ne→eq_false a b h = ground (arith, e.equal_iff a b)
