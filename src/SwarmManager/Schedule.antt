-- ===== src/SwarmManager/Schedule.antt =====
-- Requests that interleave at the awaits of `get_or_spawn_swarm`, with rounds of the collector between.
use kinetic_atlas.Base.{ℕ, zero, suc, Option, none, some, List, [], ◌∷◌, ◌++◌, Result}
use kinetic_atlas.Text.{Str}
use kinetic_atlas.Types.{NetworkConfig}
use kinetic_atlas.Error.{AtlasError}
use kinetic_atlas.SwarmManager.{Manager, check_and_spawn, collect, empty, touch, with_seeds}

-- Where a request stands: before the first critical section, between the two, where it resolves the seed
-- domain, or at its end with a channel or without one.
pub data Phase : Type 0 where
  asked : Str → NetworkConfig → Phase
  resolving : Str → NetworkConfig → Phase
  done : Str → Option ℕ → Phase

-- The times of the moves are any numbers: nothing below rests on their order.
pub data Move : Type 0 where
  arrive : Str → NetworkConfig → Move
  advance : (task now : ℕ) → Move
  round : (now : ℕ) → Move

pub record System (Node : Type 0) : Type 0 where
  pub manager : Manager Node
  pub tasks : List Phase

module _ {Node : Type 0} (node_new : Str → List Str → Result AtlasError Node)
    (resolve : Str → List Str) where
  abbrev pub after_check : Str → NetworkConfig → Option ℕ → Phase
  after_check tld config none = resolving tld (with_seeds resolve config)
  after_check tld config (some tx) = done tld (some tx)

  -- One critical section of one request.
  unfoldable pub advance_phase : ℕ → Phase → Manager Node → Phase × Manager Node
  advance_phase now (asked tld config) m =
      (after_check tld config (touch now tld m).0, (touch now tld m).1)
  advance_phase now (resolving tld config) m = (
    done tld (check_and_spawn node_new now tld config m).0,
    (check_and_spawn node_new now tld config m).1,
  )
  advance_phase now (done tld tx) m = (done tld tx, m)

  -- The same for the request at an index; a move of a request that is not there does nothing.
  unfoldable pub advance_task : ℕ → ℕ → List Phase → Manager Node → List Phase × Manager Node
  unfolding advance_phase
  advance_task i now [] m = ([], m)
  advance_task zero now (p ∷ ps) m = ((advance_phase now p m).0 ∷ ps, (advance_phase now p m).1)
  advance_task (suc i) now (p ∷ ps) m = let rest = advance_task i now ps m in (p ∷ rest.0, rest.1)

  unfoldable pub move : Move → System Node → System Node
  unfolding advance_task
  move (arrive tld config) s = record s { tasks = s.tasks ++ asked tld config ∷ [] }
  move (advance task now) s = record {
    tasks = (advance_task task now s.tasks s.manager).0;
    manager = (advance_task task now s.tasks s.manager).1;
  }
  move (round now) s = record s { manager = collect now s.manager }

  unfoldable pub run_schedule : List Move → System Node → System Node
  unfolding move
  run_schedule [] s = s
  run_schedule (mv ∷ moves) s = run_schedule moves (move mv s)

  abbrev pub initial : System Node
  initial = record { manager = empty; tasks = [] }
