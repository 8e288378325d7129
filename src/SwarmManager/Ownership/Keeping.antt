-- ===== src/SwarmManager/Ownership/Keeping.antt =====
-- Every operation keeps the account of channels and nodes.
use kinetic_atlas.Base.{
  ℕ, suc, ◌+◌, ◌<◌, ◌≡◌, refl, subst, Option, none, some, List, arith, Result, ok, err, ◌==◌, ℕ_eq,
  nat_eq, nat_eq_iff, Option-cases, Bool-cases, inl, inr,
}
use kinetic_atlas.Base.Map
use kinetic_atlas.Base.Map.{Map, get-insert}
use kinetic_atlas.Base.Map.Keys.{insert-IsFunctional}
use kinetic_atlas.Text.{Str, Str_eq}
use kinetic_atlas.Types.{NetworkConfig}
use kinetic_atlas.Error.{AtlasError}
use kinetic_atlas.SwarmManager.{
  Manager, Running, SwarmHandle, touch, start, register, spawn, check_and_spawn, with_seeds,
}
use kinetic_atlas.SwarmManager.Ownership.{
  times, present, started, IsOwned, IsGood, Extends, IsOwned-Extends,
}

module _ {Node : Type 0} (node_new : Str → List Str → Result AtlasError Node) where
  -- What a critical section promises of its result.
  pub record Serves (m : Manager Node) (tld : Str) (out : Option ℕ × Manager Node) : Type 0 where
    pub good : IsGood node_new out.1
    pub extends : Extends node_new m out.1
    pub owner : (tx : ℕ) → out.0 ≡ some tx → IsOwned node_new out.1 tld tx

  module _ (m : Manager Node) (g : IsGood node_new m) where
    abbrev touched : ℕ → Str → SwarmHandle → Manager Node
    touched now tld h = record m {
      swarms = Map.insert m.swarms tld (record { tx = h.tx; last_used = now });
    }

    module _ (now : ℕ) (tld : Str) (h : SwarmHandle) (e : Map.get m.swarms tld ≡ some h) where
      -- The handle keeps its channel.
      tx-touched :
          (t : Str) (k : SwarmHandle)
          → Map.get (touched now tld h).swarms t ≡ some k
          → (k' : SwarmHandle) × (Map.get m.swarms t ≡ some k') × (k'.tx ≡ k.tx)
      tx-touched t k q = elim (Bool-cases (tld == t)) [
        | inl same ↦
            let here : tld ≡ t = (Str_eq.equal_iff tld t).0 same in
            (
              h,
              subst (λ x. Map.get m.swarms x ≡ some h) here e,
              ground (arith, get-insert m.swarms tld t (record { tx = h.tx; last_used = now })),
            )
        | inr other ↦ (
          k,
          ground (arith, get-insert m.swarms tld t (record { tx = h.tx; last_used = now })),
          refl,
        )
      ]

      touched-IsOwned :
          (t : Str) (k : SwarmHandle)
          → Map.get (touched now tld h).swarms t ≡ some k
          → IsOwned node_new (touched now tld h) t k.tx
      touched-IsOwned t k q =
          let (k', q', same) = tx-touched t k q in
          IsOwned-Extends node_new m (touched now tld h) t k.tx (λ tx r f. f)
            (subst (λ x. IsOwned node_new m t x) same (g.owned t k' q'))

      present-touched :
          (t : Str) → present (Map.get (touched now tld h).swarms t) ≡ present (Map.get m.swarms t)
      present-touched t = elim (Bool-cases (tld == t)) [
        | inl same ↦
            let here : tld ≡ t = (Str_eq.equal_iff tld t).0 same in
            let e' : Map.get m.swarms t ≡ some h =
              subst (λ x. Map.get m.swarms x ≡ some h) here e in
            ground (arith, get-insert m.swarms tld t (record { tx = h.tx; last_used = now }))
        | inr other ↦
            ground (arith, get-insert m.swarms tld t (record { tx = h.tx; last_used = now }))
      ]

      touched-IsGood : IsGood node_new (touched now tld h)
      touched-IsGood = record {
        functional =
            insert-IsFunctional tld (record { tx = h.tx; last_used = now }) m.swarms g.functional;
        bounded = g.bounded;
        owned = touched-IsOwned;
        counted = λ t. rw (present-touched t) (g.counted t);
      }

    pub touch-Serves : (now : ℕ) (tld : Str) → Serves m tld (touch now tld m)
    unfolding touch
    touch-Serves now tld = elim (Option-cases (Map.get m.swarms tld)) [
      | inl e ↦ rw (e, touch) (record { good = g; extends = λ tx r f. f; owner = λ tx q. cc })
      | inr (h, e) ↦
          rw (e, touch)
            (record {
              good = touched-IsGood now tld h e;
              extends = λ tx r f. f;
              owner = λ tx q.
                  IsOwned-Extends node_new m (touched now tld h) tld tx (λ tx r f. f)
                    (subst (λ x. IsOwned node_new m tld x) (ground arith) (g.owned tld h e));
            })
    ]

    module _ (now : ℕ) (tld : Str) (config : NetworkConfig) (node : Node)
        (made : node_new config.network_id config.bootstrap_nodes ≡ ok node)
        (absent : Map.get m.swarms tld ≡ none) where
      abbrev after_start : Manager Node
      after_start = start now tld config node m

      abbrev new_task : Running Node
      new_task = record { tld = tld; config = config; node = node }

      abbrev new_handle : SwarmHandle
      new_handle = record { tx = m.next_tx; last_used = now }

      start-Extends : Extends node_new m after_start
      unfolding Map.get
      start-Extends tx r f =
          let below : tx < m.next_tx = g.bounded tx r f in ground (arith, nat_eq_iff m.next_tx tx)

      start-IsOwned : IsOwned node_new after_start tld m.next_tx
      start-IsOwned = record {
        task = new_task;
        found = unfold Map.get in ground (arith, nat_eq_iff m.next_tx m.next_tx);
        of_tld = refl;
        created = made;
      }

      start-bounded :
          (tx : ℕ) (r : Running Node) → Map.get after_start.running tx ≡ some r → tx < suc m.next_tx
      unfolding Map.get
      start-bounded tx r f = elim (Bool-cases (nat_eq m.next_tx tx)) [
        | inl e ↦ ground (arith, nat_eq_iff m.next_tx tx)
        | inr e ↦
            let old : Map.get m.running tx ≡ some r = ground arith in
            let below = g.bounded tx r old in omega arith
      ]

      start-IsOwned' :
          (t : Str) (k : SwarmHandle)
          → Map.get after_start.swarms t ≡ some k
          → IsOwned node_new after_start t k.tx
      start-IsOwned' t k q = elim (Bool-cases (tld == t)) [
        | inl same ↦
            let here : tld ≡ t = (Str_eq.equal_iff tld t).0 same in
            let tx_is : m.next_tx ≡ k.tx = ground (arith, get-insert m.swarms tld t new_handle) in
            subst (λ x. IsOwned node_new after_start t x) tx_is
              (subst (λ x. IsOwned node_new after_start x m.next_tx) here start-IsOwned)
        | inr other ↦
            let old : Map.get m.swarms t ≡ some k =
              ground (arith, get-insert m.swarms tld t new_handle) in
            IsOwned-Extends node_new m after_start t k.tx start-Extends (g.owned t k old)
      ]

      start-counted :
          (t : Str)
          → started node_new t after_start.running
            ≡ times t m.shut_down + present (Map.get after_start.swarms t)
      start-counted t = elim (Bool-cases (tld == t)) [
        | inl same ↦
            let here : tld ≡ t = (Str_eq.equal_iff tld t).0 same in
            let none_here : Map.get m.swarms t ≡ none =
              subst (λ x. Map.get m.swarms x ≡ none) here absent in
            ground (arith, g.counted t, get-insert m.swarms tld t new_handle)
        | inr other ↦ ground (arith, g.counted t, get-insert m.swarms tld t new_handle)
      ]

      start-Serves : Serves m tld (some m.next_tx, after_start)
      start-Serves = record {
        good = record {
          functional = insert-IsFunctional tld new_handle m.swarms g.functional;
          bounded = start-bounded;
          owned = start-IsOwned';
          counted = start-counted;
        };
        extends = start-Extends;
        owner =
            λ tx q. subst (λ x. IsOwned node_new after_start tld x) (ground arith) start-IsOwned;
      }

    -- A node that cannot be created uses up its channel and changes nothing else.
    failed-Serves : (tld : Str) → Serves m tld (none, record m { next_tx = suc m.next_tx })
    failed-Serves tld = record {
      good = record {
        functional = g.functional;
        bounded = λ tx r f. let below = g.bounded tx r f in omega arith;
        owned = λ t k q.
            IsOwned-Extends node_new m (record m { next_tx = suc m.next_tx }) t k.tx (λ tx r f. f)
              (g.owned t k q);
        counted = g.counted;
      };
      extends = λ tx r f. f;
      owner = λ tx q. cc;
    }

    register-Serves :
        (now : ℕ) (tld : Str) (config : NetworkConfig) (out : Result AtlasError Node)
        → node_new config.network_id config.bootstrap_nodes ≡ out
        → Map.get m.swarms tld ≡ none
        → Serves m tld (register node_new now tld config out m)
    register-Serves now tld config (ok node) e absent = start-Serves now tld config node e absent
    register-Serves now tld config (err x) e absent = failed-Serves tld

    touch-absent : (now : ℕ) (tld : Str) → Map.get m.swarms tld ≡ none → touch now tld m ≡ (none, m)
    unfolding touch
    touch-absent now tld e = rw (e, touch) refl

    touch-present :
        (now : ℕ) (tld : Str) (h : SwarmHandle)
        → Map.get m.swarms tld ≡ some h
        → touch now tld m ≡ (some h.tx, touched now tld h)
    unfolding touch
    touch-present now tld h e = rw (e, touch) refl

    pub check_and_spawn-Serves :
        (now : ℕ) (tld : Str) (config : NetworkConfig)
        → Serves m tld (check_and_spawn node_new now tld config m)
    unfolding check_and_spawn
    check_and_spawn-Serves now tld config = elim (Option-cases (Map.get m.swarms tld)) [
      | inl e ↦
          rw (touch-absent now tld e, check_and_spawn)
            (unfold spawn in
              register-Serves now tld config (node_new config.network_id config.bootstrap_nodes)
                refl e)
      | inr (h, e) ↦
          rw (touch-present now tld h e, check_and_spawn)
            (rw (touch-present now tld h e)
              (subst (Serves m tld) (touch-present now tld h e) (touch-Serves now tld)))
    ]

pub with_seeds-network_id :
    (resolve : Str → List Str) (config : NetworkConfig)
    → (with_seeds resolve config).network_id ≡ config.network_id
unfolding with_seeds
with_seeds-network_id resolve config = elim (Option-cases config.seed_domain) [
  | inl e ↦ rw (e, with_seeds) refl
  | inr (seed, e) ↦ rw (e, with_seeds) refl
]

-- The second critical section gives no channel only where no node could be created.
pub check_and_spawn-refused :
    {Node : Type 0}
    → (node_new : Str → List Str → Result AtlasError Node) (now : ℕ) (tld : Str)
      (config : NetworkConfig) (m : Manager Node)
    → (check_and_spawn node_new now tld config m).0 ≡ none
    → (e : AtlasError) × (node_new config.network_id config.bootstrap_nodes ≡ err e)
unfolding check_and_spawn spawn
check_and_spawn-refused {Node} node_new now tld config m q =
    elim (Option-cases (touch now tld m).0) [
      | inl e ↦
          created (node_new config.network_id config.bootstrap_nodes) refl
            (rw (e, check_and_spawn) at q)
      | inr (tx, e) ↦ absurd (ground (arith, rw (e, check_and_spawn) at q))
    ]
  where
    created :
        (r : Result AtlasError Node)
        → node_new config.network_id config.bootstrap_nodes ≡ r
        → (register node_new now tld config r m).0 ≡ none
        → (e : AtlasError) × (node_new config.network_id config.bootstrap_nodes ≡ err e)
    created (ok node) e h = cc
    created (err x) e h = (x, e)
