-- ===== src/Base/Outcome.antt =====
-- `Result<T, E>` and its `?`.
use mathlib.Core.Path.{◌≡◌, refl}

pub data Result {ℓ} (E : Type ℓ) (A : Type ℓ) : Type ℓ where
  err : E → Result E A
  ok : A → Result E A

-- `let value = result?;`, with what follows it.
infixl 5 ◌>>=◌
abbrev pub ◌>>=◌ {ℓ} : {E A B : Type ℓ} → Result E A → (A → Result E B) → Result E B
err why >>= next = err why
ok value >>= next = next value

module _ {ℓ} {E A B : Type ℓ} where
  pub bind-eq-ok :
      (result : Result E A) (next : A → Result E B) {end : B}
      → (result >>= next) ≡ ok end
      → (value : A) × (result ≡ ok value) × (next value ≡ ok end)
  bind-eq-ok (err why) next h = cc
  bind-eq-ok (ok value) next h = (value, refl, h)
