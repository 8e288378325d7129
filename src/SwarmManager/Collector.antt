-- ===== src/SwarmManager/Collector.antt =====
-- A round of the garbage collector, by top-level domain.
use kinetic_atlas.Base.{ℕ, ◌+◌, ◌≤◌, ◌≡◌, some, arith, ◌↔◌}
use kinetic_atlas.Base.Map
use kinetic_atlas.Base.Map.{Map}
use kinetic_atlas.Base.Map.Keys.{IsFunctional, get-retain}
use kinetic_atlas.Text.{Str, Str_eq}
use kinetic_atlas.SwarmManager.{Manager, SwarmHandle, collect, is_fresh, timeout}

module _ {Node : Type 0} where
  -- A swarm is still there after a round of the collector, unchanged, exactly when it was there before
  -- and was last used no more than ten minutes ago.
  pub collect-get :
      (now : ℕ) (m : Manager Node) (tld : Str) (handle : SwarmHandle)
      → IsFunctional m.swarms
      → (Map.get (collect now m).swarms tld ≡ some handle)
        ↔ ((Map.get m.swarms tld ≡ some handle) × (now ≤ handle.last_used + timeout))
  unfolding collect is_fresh
  collect-get now m tld handle h =
      let e = get-retain (is_fresh now) m.swarms tld h in (λ k. ground arith, λ k. ground arith)
