-- ===== src/Tests/Swarms.antt =====
-- src/swarm_manager.rs: two requests for a top-level domain at once, and a round of the collector.
use kinetic_atlas.Base.{
  ℕ, ◌+◌, ◌≡◌, ◌≢◌, ◌⊎◌, ◌↔◌, ◌≤◌, inl, inr, refl, Bool, true, false, Option, none, some, List, [],
  ◌∷◌, ◌++◌, arith, In, length, Result, ok, err,
}
use kinetic_atlas.Base.Map
use kinetic_atlas.Text.{Str, Str_eq, str}
use kinetic_atlas.Types.{NetworkConfig}
use kinetic_atlas.Error.{AtlasError}
use kinetic_atlas.SwarmManager.{Manager, SwarmHandle, Running, collect, timeout}
use kinetic_atlas.SwarmManager.Collector.{collect-get}
use kinetic_atlas.SwarmManager.Schedule.{Move, arrive, advance, round, done, run_schedule}
use kinetic_atlas.SwarmManager.Ownership.{started, times, present}
use kinetic_atlas.SwarmManager.Ownership.Runs.{
  after_run, run_schedule-started, run_schedule-same_channel,
}

abbrev config : NetworkConfig
config = record {
  version = str "1.0";
  network_id = str "kinetic-main";
  tld = str ".kin";
  bootstrap_nodes = [];
  local_bind_ip = str "127.0.0.1";
  api_port = none;
  repo = none;
  seed_domain = some (str "seeds.kin");
  ipfs_gateway = none;
}

abbrev node_new : Str → List Str → Result AtlasError ℕ
node_new id nodes = ok (length nodes)

abbrev seeds : Str → List Str
seeds domain = str "/ip4/9.9.9.9" ∷ []

-- Both requests find no swarm, and both come to their second critical section.
abbrev moves : List Move
moves =
    arrive (str ".kin") config
    ∷ arrive (str ".kin") config
    ∷ advance 0 1
    ∷ advance 1 2
    ∷ round 3
    ∷ advance 1 4
    ∷ advance 0 5
    ∷ []

both_done :
    (after_run node_new seeds moves).tasks
    ≡ done (str ".kin") (some 0) ∷ done (str ".kin") (some 0) ∷ []
unfolding run_schedule kinetic_atlas.SwarmManager.touch Map.get
    kinetic_atlas.SwarmManager.check_and_spawn collect Map.retain kinetic_atlas.SwarmManager.spawn
    Map.insert kinetic_atlas.Base.list_eq
both_done = refl

none_shut_down : times (str ".kin") (after_run node_new seeds moves).manager.shut_down ≡ 0
unfolding run_schedule kinetic_atlas.SwarmManager.touch Map.get
    kinetic_atlas.SwarmManager.check_and_spawn collect Map.retain kinetic_atlas.SwarmManager.spawn
    Map.insert kinetic_atlas.Base.list_eq
none_shut_down = refl

first_done : In (done (str ".kin") (some 0)) (after_run node_new seeds moves).tasks
unfolding run_schedule kinetic_atlas.SwarmManager.touch Map.get
    kinetic_atlas.SwarmManager.check_and_spawn collect Map.retain kinetic_atlas.SwarmManager.spawn
    Map.insert kinetic_atlas.Base.list_eq
first_done = inl refl

run_schedule-started_example :
    started node_new (str ".kin") (after_run node_new seeds moves).manager.running
    ≡ times (str ".kin") (after_run node_new seeds moves).manager.shut_down
      + present (Map.get (after_run node_new seeds moves).manager.swarms (str ".kin"))
run_schedule-started_example = run_schedule-started node_new seeds moves (str ".kin")

abbrev channel : ℕ
channel = 0

run_schedule-same_channel_example : channel ≡ channel
run_schedule-same_channel_example =
    run_schedule-same_channel node_new seeds moves (str ".kin") channel channel none_shut_down
      first_done first_done

abbrev handle : SwarmHandle
handle = record { tx = 0; last_used = 5 }

abbrev manager : Manager ℕ
manager = record { swarms = (str ".kin", handle) ∷ []; running = []; next_tx = 1; shut_down = [] }

collect-get_example : (Map.get (collect 700000000000 manager).swarms (str ".kin") ≡ some handle) ↔ (
    (Map.get manager.swarms (str ".kin") ≡ some handle)
    × (700000000000 ≤ handle.last_used + timeout))
collect-get_example = collect-get 700000000000 manager (str ".kin") handle (ground arith)
