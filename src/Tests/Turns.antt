-- ===== src/Tests/Turns.antt =====
-- src/proxy.rs, src/swarm_manager.rs, src/updater.rs: runs of the daemon, a step at a time.
use kinetic_atlas.Base.{ℕ, ◌≡◌, refl, Option, none, List, [], ◌∷◌}
use kinetic_atlas.Text.{Str, Bytes}
use kinetic_atlas.Types.{NetworkConfig}
use kinetic_atlas.Registry.{Dir}
use kinetic_atlas.SwarmManager.{collect}
use kinetic_atlas.Main.{reloaded, initial_state}
use kinetic_atlas.Daemon.{
  Task, arrived, System, go, arrive, go_on, collect_idle, Reach, start, next,
}
use kinetic_atlas.Tests.Requests.{global, out, visit, node_new}

module _ (resolve : Str → List Str) (parse : Str → Option NetworkConfig) (networks : Dir) where
  abbrev pub Reached : Type 0
  Reached = (s : System Bytes ℕ) × Reach node_new resolve parse none global networks s

  -- A request comes in.
  abbrev pub arriving : Reached → Reached
  arriving (s, r) = (
    record s { tasks = record { world = out; phase = arrived visit } ∷ s.tasks },
    next r (arrive s out visit),
  )

  -- The last request that came in goes on.
  abbrev pub turn : ℕ → Reached → Reached
  turn now (s, r) = on s.tasks refl
    where
      on : (tasks : List (Task Bytes)) → s.tasks ≡ tasks → Reached
      on [] e = (s, r)
      on (t ∷ back) e = (
        record s {
          state = (go node_new resolve now t s.state).1;
          tasks = (go node_new resolve now t s.state).0 ∷ back;
        },
        next r (go_on s [] t back now e),
      )

  abbrev pub collecting : ℕ → Reached → Reached
  collecting now (s, r) = (
    record s { state = record s.state { swarms = collect now s.state.swarms } },
    next r (collect_idle s now),
  )

  abbrev pub reloading : Dir → Reached → Reached
  reloading dir (s, r) = (
    record s { state = reloaded parse none dir s.state; dirs = dir ∷ s.dirs },
    next r (kinetic_atlas.Daemon.reload s dir),
  )

  abbrev pub two_arrived : Reached
  two_arrived = arriving (
      arriving (
        record {
          state = initial_state parse none global networks;
          tasks = [];
          closed = [];
          signalled = none;
          stopped = [];
          dirs = networks ∷ [];
        },
        start,
      ))
