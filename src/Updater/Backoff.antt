-- ===== src/Updater/Backoff.antt =====
-- How long the task sleeps between rounds, and when the registry changes.
use kinetic_atlas.Base.{
  ℕ, suc, zero, ◌*◌, ◌≤◌, ◌≡◌, inl, inr, refl, ap, ◌∙◌, List, [], ◌∷◌, ◌++◌, arith, length, ltb,
  All, Bool-cases, Result, ok, err,
}
use kinetic_atlas.Error.{AtlasError}
use kinetic_atlas.Registry.{TldRegistry}
use kinetic_atlas.Updater.{hour, min, Task, run}

-- A delay between an hour and a day.
abbrev pub IsDelay : ℕ → Type 0
IsDelay d = (hour ≤ d) × (d ≤ 24 * hour)

-- A number doubled, a number of times.
abbrev pub doubled : ℕ → ℕ → ℕ
doubled zero d = d
doubled (suc k) d = 2 * doubled k d

-- The results of a number of rounds that all fail.
abbrev pub AllFailed : List (Result AtlasError ℕ) → Type 0
AllFailed [] = Unit
AllFailed (ok _ ∷ rs) = ⊥
AllFailed (err _ ∷ rs) = AllFailed rs

doubled-start : (n d : ℕ) → doubled n (d * 2) ≡ 2 * doubled n d
doubled-start zero d = omega arith
doubled-start (suc n) d = omega (arith, doubled-start n d)

doubled-le : (n d : ℕ) → d ≤ doubled n d
doubled-le zero d = omega arith
doubled-le (suc n) d = omega (arith, doubled-le n d)

-- Doubling from the day's limit stays at it.
min-doubled :
    (n d : ℕ)
    → min (doubled n (min (d * 2) (24 * hour))) (24 * hour) ≡ min (doubled (suc n) d) (24 * hour)
min-doubled n d = elim (Bool-cases (ltb (d * 2) (24 * hour))) [
  | inl e ↦ ground (arith, doubled-start n d)
  | inr e ↦ ground (arith, doubled-start n d, doubled-le n (d * 2), doubled-le n (24 * hour))
]

-- How many rounds succeed.
abbrev pub successes : List (Result AtlasError ℕ) → ℕ
successes [] = 0
successes (ok _ ∷ rs) = suc (successes rs)
successes (err _ ∷ rs) = successes rs

-- The registry loaded again, a number of times.
abbrev pub reloaded : (TldRegistry → TldRegistry) → ℕ → TldRegistry → TldRegistry
reloaded reload zero reg = reg
reloaded reload (suc k) reg = reloaded reload k (reload reg)

module _ (reload : TldRegistry → TldRegistry) where
  -- The task never sleeps less than an hour or more than a day, however its rounds come out.
  pub run-IsDelay :
      (rs : List (Result AtlasError ℕ)) (t : Task)
      → IsDelay t.fail_delay
      → All IsDelay (run reload rs t).0 × IsDelay (run reload rs t).1.fail_delay
  unfolding run
  run-IsDelay [] t h = (tt, h)
  run-IsDelay (ok n ∷ rs) t h =
      let day : IsDelay (24 * hour) = (omega arith, omega arith) in
      let (all, last) =
        run-IsDelay rs (record { fail_delay = hour; registry = reload t.registry })
          (omega arith, omega arith) in
      ((day, all), last)
  run-IsDelay (err e ∷ rs) t (low, high) =
      let (all, last) =
        run-IsDelay rs
          (record { fail_delay = min (t.fail_delay * 2) (24 * hour); registry = t.registry })
          (ground arith, ground arith) in
      (((low, high), all), last)

  -- The registry is loaded again once for each round that succeeds; a round that fails leaves it.
  pub run-reloaded :
      (rs : List (Result AtlasError ℕ)) (t : Task)
      → (run reload rs t).1.registry ≡ reloaded reload (successes rs) t.registry
  unfolding run
  run-reloaded [] t = refl
  run-reloaded (ok n ∷ rs) t =
      run-reloaded rs (record { fail_delay = hour; registry = reload t.registry })
  run-reloaded (err e ∷ rs) t =
      run-reloaded rs
        (record { fail_delay = min (t.fail_delay * 2) (24 * hour); registry = t.registry })

  run-AllFailed :
      (rs : List (Result AtlasError ℕ)) (t : Task)
      → AllFailed rs
      → t.fail_delay ≤ 24 * hour
      → (run reload rs t).1.fail_delay ≡ min (doubled (length rs) t.fail_delay) (24 * hour)
  unfolding run
  run-AllFailed [] t h d = ground arith
  run-AllFailed (ok n ∷ rs) t h d = absurd h
  run-AllFailed (err e ∷ rs) t h d =
      run-AllFailed rs
        (record { fail_delay = min (t.fail_delay * 2) (24 * hour); registry = t.registry }) h
        (ground arith)
      ∙ min-doubled (length rs) t.fail_delay

  run-append :
      (rs qs : List (Result AtlasError ℕ)) (t : Task)
      → (run reload (rs ++ qs) t).1 ≡ (run reload qs (run reload rs t).1).1
  unfolding run
  run-append [] qs t = refl
  run-append (ok n ∷ rs) qs t =
      run-append rs qs (record { fail_delay = hour; registry = reload t.registry })
  run-append (err e ∷ rs) qs t =
      run-append rs qs
        (record { fail_delay = min (t.fail_delay * 2) (24 * hour); registry = t.registry })

  -- After a success and any number of failures, the next failure's delay is an hour doubled that number
  -- of times, or a day where that is more, whatever came before the success.
  pub run-backoff :
      (before failures : List (Result AtlasError ℕ)) (count : ℕ) (t : Task)
      → AllFailed failures
      → (run reload (before ++ ok count ∷ failures) t).1.fail_delay
        ≡ min (doubled (length failures) hour) (24 * hour)
  unfolding run
  run-backoff before failures count t h =
      let reg = (run reload before t).1.registry in
      ap (λ (x : Task). x.fail_delay) (run-append before (ok count ∷ failures) t)
      ∙ run-AllFailed failures (record { fail_delay = hour; registry = reload reg }) h (omega arith)
