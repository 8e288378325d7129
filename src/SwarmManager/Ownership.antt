-- ===== src/SwarmManager/Ownership.antt =====
-- Which node a channel belongs to, and how many nodes are started for a top-level domain.
pub mod Keeping
pub mod Shutdown
pub mod Runs
use kinetic_atlas.Base.{
  ℕ, zero, suc, ◌+◌, ◌≤◌, ◌<◌, ◌≡◌, refl, Bool, true, false, Option, none, some, List, [], ◌∷◌,
  ◌++◌, if◌then◌else◌, arith, Result, ok, err, ◌==◌, ℕ_eq,
}
use kinetic_atlas.Base.Map
use kinetic_atlas.Base.Map.{Map}
use kinetic_atlas.Base.Map.Keys.{IsFunctional}
use kinetic_atlas.Text.{Str, Str_eq}
use kinetic_atlas.Types.{NetworkConfig}
use kinetic_atlas.Error.{AtlasError}
use kinetic_atlas.SwarmManager.{Manager, Running, SwarmHandle}
use kinetic_atlas.SwarmManager.Schedule.{Phase, asked, resolving, done}

-- How often a domain stands in a list.
abbrev pub times : Str → List Str → ℕ
times tld [] = 0
times tld (t ∷ ts) = (if t == tld then 1 else 0) + times tld ts

abbrev pub present : Option SwarmHandle → ℕ
present none = 0
present (some _) = 1

module _ {Node : Type 0} (node_new : Str → List Str → Result AtlasError Node) where
  -- How many nodes were started for a domain.
  abbrev pub started : Str → Map ℕ (Running Node) → ℕ
  started tld [] = 0
  started tld ((_, r) ∷ rs) = (if r.tld == tld then 1 else 0) + started tld rs

  -- The channel belongs to a node that was started for the domain, from a configuration.
  pub record IsOwned (m : Manager Node) (tld : Str) (tx : ℕ) : Type 0 where
    pub task : Running Node
    pub found : Map.get m.running tx ≡ some task
    pub of_tld : task.tld ≡ tld
    pub created : node_new task.config.network_id task.config.bootstrap_nodes ≡ ok task.node

  pub record IsGood (m : Manager Node) : Type 0 where
    pub functional : IsFunctional m.swarms
    pub bounded : (tx : ℕ) (r : Running Node) → Map.get m.running tx ≡ some r → tx < m.next_tx
    pub owned : (tld : Str) (h : SwarmHandle) → Map.get m.swarms tld ≡ some h → IsOwned m tld h.tx
    pub counted :
        (tld : Str) → started tld m.running ≡ times tld m.shut_down + present (Map.get m.swarms tld)

  -- Nothing that runs is forgotten.
  abbrev pub Extends : Manager Node → Manager Node → Type 0
  Extends m m' =
      (tx : ℕ) (r : Running Node) → Map.get m.running tx ≡ some r → Map.get m'.running tx ≡ some r

  pub IsOwned-Extends :
      (m m' : Manager Node) (tld : Str) (tx : ℕ)
      → Extends m m'
      → IsOwned m tld tx
      → IsOwned m' tld tx
  IsOwned-Extends m m' tld tx ext o = record {
    task = o.task;
    found = ext tx o.task o.found;
    of_tld = o.of_tld;
    created = o.created;
  }

  -- The channel that a request has got belongs to its domain.
  abbrev pub PhaseOk : Manager Node → Phase → Type 0
  PhaseOk m (asked _ _) = Unit
  PhaseOk m (resolving _ _) = Unit
  PhaseOk m (done tld none) = Unit
  PhaseOk m (done tld (some tx)) = IsOwned m tld tx

  pub PhaseOk-Extends :
      (m m' : Manager Node) (p : Phase) → Extends m m' → PhaseOk m p → PhaseOk m' p
  PhaseOk-Extends m m' (asked _ _) ext h = tt
  PhaseOk-Extends m m' (resolving _ _) ext h = tt
  PhaseOk-Extends m m' (done tld none) ext h = tt
  PhaseOk-Extends m m' (done tld (some tx)) ext h = IsOwned-Extends m m' tld tx ext h
