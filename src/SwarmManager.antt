-- ===== src/SwarmManager.antt =====
-- src/swarm_manager.rs: one running node for each top-level domain, started on demand and shut down
-- when idle. Channels are numbers, given out in order. Times are in nanoseconds.
pub mod Collector
pub mod Schedule
pub mod Ownership
pub mod Seeds
use kinetic_atlas.Base.{
  ℕ, suc, ◌+◌, ◌-◌, ◌*◌, Bool, true, false, not, Option, none, some, List, [], ◌∷◌, ◌++◌, map, ltb,
  if◌then◌else◌, Result, ok, err,
}
use kinetic_atlas.Base.Map
use kinetic_atlas.Base.Map.{Map}
use kinetic_atlas.Text.{Str, Str_eq}
use kinetic_atlas.Types.{NetworkConfig}
use kinetic_atlas.Error.{AtlasError}

pub record SwarmHandle : Type 0 where
  pub tx : ℕ
  pub last_used : ℕ

-- The task that runs a node: the node, and the top-level domain that it was started for.
pub record Running (Node : Type 0) : Type 0 where
  pub tld : Str
  pub config : NetworkConfig
  pub node : Node

-- `swarms`, with what the manager has done so far: the tasks that it started by their channel, the
-- last one first, and the domains of the swarms that it shut down, as it logs them.
pub record Manager (Node : Type 0) : Type 0 where
  pub swarms : Map Str SwarmHandle
  pub running : Map ℕ (Running Node)
  pub next_tx : ℕ
  pub shut_down : List Str

abbrev pub timeout : ℕ
timeout = 10 * 60 * 1000000000

-- `config_clone` with the addresses of the seed domain; `resolve` is `resolve_dns_tree` with the texts
-- of its addresses.
unfoldable pub with_seeds : (Str → List Str) → NetworkConfig → NetworkConfig
with_seeds resolve config = elim config.seed_domain [
  | none ↦ config
  | some seed_domain ↦ record config {
    bootstrap_nodes = config.bootstrap_nodes ++ resolve seed_domain;
  }
]

unfoldable pub is_fresh : ℕ → SwarmHandle → Bool
is_fresh now handle = if ltb timeout (now - handle.last_used) then false else true

-- The domains whose swarms a round of the collector shuts down.
unfoldable pub idle : ℕ → Map Str SwarmHandle → List Str
unfolding is_fresh
idle now [] = []
idle now ((tld, handle) ∷ m) =
    let rest = idle now m in if is_fresh now handle then rest else tld ∷ rest

module _ {Node : Type 0} where
  abbrev pub empty : Manager Node
  empty = record { swarms = []; running = []; next_tx = 0; shut_down = [] }

  -- `if let Some(handle) = lock.get_mut(tld)`: the channel in use, its time of use set to `now`.
  unfoldable pub touch : ℕ → Str → Manager Node → Option ℕ × Manager Node
  touch now tld m = elim (Map.get m.swarms tld) [
    | none ↦ (none, m)
    | some handle ↦ (
      some handle.tx,
      record m { swarms = Map.insert m.swarms tld (record { tx = handle.tx; last_used = now }) },
    )
  ]

  abbrev pub start : ℕ → Str → NetworkConfig → Node → Manager Node → Manager Node
  start now tld config node m = record {
    swarms = Map.insert m.swarms tld (record { tx = m.next_tx; last_used = now });
    running = (m.next_tx, record { tld = tld; config = config; node = node }) ∷ m.running;
    next_tx = suc m.next_tx;
    shut_down = m.shut_down;
  }

  -- A round of the garbage collector.
  unfoldable pub collect : ℕ → Manager Node → Manager Node
  unfolding is_fresh idle
  collect now m = record m {
    swarms = Map.retain (is_fresh now) m.swarms;
    shut_down = idle now m.swarms ++ m.shut_down;
  }

module _ {Node : Type 0} (node_new : Str → List Str → Result AtlasError Node) where
  -- `match KineticAtlasNode::new(…)`: the channel is made before, and given up with a node that fails.
  abbrev pub register :
      ℕ → Str → NetworkConfig → Result AtlasError Node → Manager Node → Option ℕ × Manager Node
  register now tld config (ok node) m = (some m.next_tx, start now tld config node m)
  register now tld config (err e) m = (none, record m { next_tx = suc m.next_tx })

  unfoldable pub spawn : ℕ → Str → NetworkConfig → Manager Node → Option ℕ × Manager Node
  spawn now tld config m =
      register now tld config (node_new config.network_id config.bootstrap_nodes) m

  -- The second critical section: the check is made again, since another request may have started the
  -- swarm meanwhile.
  unfoldable pub check_and_spawn : ℕ → Str → NetworkConfig → Manager Node → Option ℕ × Manager Node
  check_and_spawn now tld config m = elim (touch now tld m).0 [
    | some tx ↦ (some tx, (touch now tld m).1)
    | none ↦ spawn now tld config m
  ]

  -- The whole of `get_or_spawn_swarm`, with no other task between its critical sections, at the times
  -- `before` and `after` of the two.
  unfoldable pub get_or_spawn_swarm :
      ℕ → ℕ → (Str → List Str) → Str → NetworkConfig → Manager Node → Option ℕ × Manager Node
  unfolding check_and_spawn spawn touch with_seeds
  get_or_spawn_swarm before after resolve tld config m = elim (touch before tld m).0 [
    | some tx ↦ (some tx, (touch before tld m).1)
    | none ↦ check_and_spawn after tld (with_seeds resolve config) m
  ]
