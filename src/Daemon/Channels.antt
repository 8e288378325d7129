-- ===== src/Daemon/Channels.antt =====
-- The channels that the operations of the manager hand out: those of its handles, and new ones.
use kinetic_atlas.Base.{
  ℕ, ◌≤◌, ◌≡◌, ◌⊎◌, inl, inr, sym, ◌∙◌, Option, some, List, arith, Bool-cases, Option-cases, Result,
  ok, err, ◌==◌,
}
use kinetic_atlas.Base.Map
use kinetic_atlas.Base.Map.{get-insert}
use kinetic_atlas.Base.Map.Keys.{IsFunctional, get-retain}
use kinetic_atlas.Text.{Str, Str_eq}
use kinetic_atlas.Types.{NetworkConfig}
use kinetic_atlas.Error.{AtlasError}
use kinetic_atlas.SwarmManager.Ownership.Shutdown.{keep_if-some}
use kinetic_atlas.SwarmManager.{
  Manager, SwarmHandle, touch, register, spawn, check_and_spawn, collect, is_fresh,
}

module _ {Node : Type 0} where
  -- A handle of the manager has the channel.
  abbrev pub IsHandled : Manager Node → ℕ → Type 0
  IsHandled m tx = (tld : Str) × (h : SwarmHandle) × (Map.get m.swarms tld ≡ some h) × (h.tx ≡ tx)

  -- A channel of `m`, or the next one that it gives out.
  abbrev pub IsKnown : Manager Node → ℕ → Type 0
  IsKnown m tx = IsHandled m tx ⊎ (tx ≡ m.next_tx)

  pub record Keeps (m : Manager Node) (out : Option ℕ × Manager Node) : Type 0 where
    pub handles : (tx : ℕ) → IsHandled out.1 tx → IsKnown m tx
    pub given : (tx : ℕ) → out.0 ≡ some tx → IsKnown m tx
    pub grows : m.next_tx ≤ out.1.next_tx

  pub touch-Keeps : (now : ℕ) (tld : Str) (m : Manager Node) → Keeps m (touch now tld m)
  unfolding touch
  touch-Keeps now tld m = elim (Option-cases (Map.get m.swarms tld)) [
    | inl e ↦
        rw (e, touch) (record { handles = λ tx h. inl h; given = λ tx q. cc; grows = omega arith })
    | inr (k, e) ↦
        rw (e, touch)
          (record {
            handles = λ tx (t, h, q, same). elim (Bool-cases (tld == t)) [
              | inl here ↦ inl (
                tld,
                k,
                e,
                ground (arith, get-insert m.swarms tld t (record { tx = k.tx; last_used = now })),
              )
              | inr other ↦ inl (
                t,
                h,
                ground (arith, get-insert m.swarms tld t (record { tx = k.tx; last_used = now })),
                same,
              )
            ];
            given = λ tx q. inl (tld, k, e, ground arith);
            grows = omega arith;
          })
  ]

  module _ (node_new : Str → List Str → Result AtlasError Node) where
    register-Keeps :
        (now : ℕ) (tld : Str) (config : NetworkConfig) (r : Result AtlasError Node)
        (m : Manager Node)
        → Keeps m (register node_new now tld config r m)
    register-Keeps now tld config (err x) m = record {
      handles = λ tx h. inl h;
      given = λ tx q. cc;
      grows = omega arith;
    }
    register-Keeps now tld config (ok node) m = record {
      handles = λ tx (t, h, q, same). elim (Bool-cases (tld == t)) [
        | inl here ↦
            inr (
              ground
                (arith, get-insert m.swarms tld t (record { tx = m.next_tx; last_used = now })))
        | inr other ↦ inl (
          t,
          h,
          ground (arith, get-insert m.swarms tld t (record { tx = m.next_tx; last_used = now })),
          same,
        )
      ];
      given = λ tx q. inr (ground arith);
      grows = omega arith;
    }

    pub check_and_spawn-Keeps :
        (now : ℕ) (tld : Str) (config : NetworkConfig) (m : Manager Node)
        → Keeps m (check_and_spawn node_new now tld config m)
    unfolding check_and_spawn
    check_and_spawn-Keeps now tld config m = elim (Option-cases (touch now tld m).0) [
      | inl e ↦
          rw (e, check_and_spawn)
            (unfold spawn in
              register-Keeps now tld config (node_new config.network_id config.bootstrap_nodes) m)
      | inr (tx, e) ↦
          let k = touch-Keeps now tld m in
          rw (e, check_and_spawn)
            (record { handles = k.handles; given = λ t q. k.given t (e ∙ q); grows = k.grows })
    ]

  pub collect-IsHandled :
      (now : ℕ) (m : Manager Node)
      → IsFunctional m.swarms
      → (tx : ℕ) → IsHandled (collect now m) tx
      → IsHandled m tx
  unfolding collect
  collect-IsHandled now m f tx (tld, h, q, same) = (
    tld,
    h,
    keep_if-some (is_fresh now) (Map.get m.swarms tld) h
        (sym (get-retain (is_fresh now) m.swarms tld f) ∙ q),
    same,
  )
