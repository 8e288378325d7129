-- ===== src/Tests/Flight.antt =====
-- src/proxy.rs, src/swarm_manager.rs: requests in flight beside the collector and the updater.
use kinetic_atlas.Base.{ℕ, ◌≡◌, inl, inr, refl, List, [], ◌∷◌, ◌++◌, none, some, In, ok}
use kinetic_atlas.Text.{str, Bytes}
use kinetic_atlas.Registry.{Dir, entries, unreadable}
use kinetic_atlas.SwarmManager.Ownership.{IsOwned}
use kinetic_atlas.SwarmManager.{empty}
use kinetic_atlas.Proxy.Handler.{ProxyState}
use kinetic_atlas.Proxy.Locate.{locate}
use kinetic_atlas.Proxy.Targets.{Attempt, gateway_request, peer_request}
use kinetic_atlas.Proxy.Outside.{GatewayRequest}
use kinetic_atlas.Daemon.{
  Phase, arrived, finished, trying, Task, System, go, arrive, go_on, interrupt, stop, Reach, start,
  next,
}
use kinetic_atlas.Daemon.Invariant.{Answered}
use kinetic_atlas.Daemon.Answers.{Reach-Answered}
use kinetic_atlas.Daemon.Sent.{Behind, Reach-Behind}
use kinetic_atlas.Daemon.Open.{HasSender, by_handler, HasEnded, IsTold, Reach-open}
use kinetic_atlas.Tests.Turns.{Reached, turn, collecting, reloading, two_arrived}
use kinetic_atlas.Tests.Requests.{
  config, global, out, visit, page, node_new, no_seeds, network_file, parse, passed_on,
}

abbrev idle_state : ProxyState ℕ
idle_state = record {
  swarms = empty;
  global_config = global;
  registry = record { networks = (str ".kin", config) ∷ [] };
}

abbrev networks : Dir
networks = entries (network_file ∷ [])

-- The handler has its channel, and the collector has taken its handle since.
abbrev cut_off : Reached no_seeds parse networks
cut_off = collecting no_seeds parse networks 100000 (
    turn no_seeds parse networks 3 (
      turn no_seeds parse networks 2
        (turn no_seeds parse networks 1 (two_arrived no_seeds parse networks))))

-- It has tried the peer, and the gateway next, after the networks could not be read.
abbrev tried : Reached no_seeds parse networks
tried =
    turn no_seeds parse networks 100002
      (turn no_seeds parse networks 100001 (reloading no_seeds parse networks unreadable cut_off))

abbrev served : Reached no_seeds parse networks
served = turn no_seeds parse networks 100003 tried

abbrev to_page : GatewayRequest
to_page = record {
  method = str "GET";
  url = str "http://127.0.0.1:8080/ipfs/cid";
  headers = (str "accept", str "text/html") ∷ [];
  body = [];
}

abbrev sent : List Attempt
sent = peer_request 0 7 passed_on ∷ gateway_request to_page ∷ []

abbrev front : List (Task Bytes) → Task Bytes
front [] = record { world = out; phase = arrived visit }
front (t ∷ ts) = t

is_served : In (record { world = out; phase = finished visit sent (ok page) }) served.0.tasks
unfolding kinetic_atlas.Daemon.advance kinetic_atlas.Proxy.Locate.locate
    kinetic_atlas.Proxy.Locate.host_of kinetic_atlas.Proxy.Locate.locate_domain
    kinetic_atlas.Proxy.Domain.extract_tld kinetic_atlas.Text.to_lowercase
    kinetic_atlas.Registry.get_config kinetic_atlas.Base.Map.get kinetic_atlas.Main.initial_state
    kinetic_atlas.Registry.load_from_dir kinetic_atlas.Base.list_eq kinetic_atlas.Base.contains
    kinetic_atlas.Base.Map.contains_key kinetic_atlas.Base.Map.insert
    kinetic_atlas.Proxy.Domain.extract_base_domain_and_subdomain kinetic_atlas.SwarmManager.touch
    kinetic_atlas.SwarmManager.check_and_spawn kinetic_atlas.Proxy.Handler.prepare
    kinetic_atlas.Proxy.Targets.try_target kinetic_atlas.Proxy.Targets.proxy_request
    kinetic_atlas.Proxy.Zone.targets_of kinetic_atlas.Proxy.Zone.records_of
    kinetic_atlas.Proxy.Zone.target_records kinetic_atlas.Text.join
    kinetic_atlas.SwarmManager.collect kinetic_atlas.SwarmManager.spawn
is_served = inl refl

Reach-Answered_example :
    Answered node_new parse none global served.0.dirs served.0.state.swarms out visit sent (ok page)
Reach-Answered_example =
    Reach-Answered node_new no_seeds parse none global networks served.0 served.1 out visit sent
      (ok page) is_served

is_tried :
    In (peer_request 0 7 passed_on) (kinetic_atlas.Daemon.attempts_of (front tried.0.tasks).phase)
unfolding kinetic_atlas.Daemon.advance kinetic_atlas.Proxy.Locate.locate
    kinetic_atlas.Proxy.Locate.host_of kinetic_atlas.Proxy.Locate.locate_domain
    kinetic_atlas.Proxy.Domain.extract_tld kinetic_atlas.Text.to_lowercase
    kinetic_atlas.Registry.get_config kinetic_atlas.Base.Map.get kinetic_atlas.Main.initial_state
    kinetic_atlas.Registry.load_from_dir kinetic_atlas.Base.list_eq kinetic_atlas.Base.contains
    kinetic_atlas.Base.Map.contains_key kinetic_atlas.Base.Map.insert
    kinetic_atlas.Proxy.Domain.extract_base_domain_and_subdomain kinetic_atlas.SwarmManager.touch
    kinetic_atlas.SwarmManager.check_and_spawn kinetic_atlas.Proxy.Handler.prepare
    kinetic_atlas.Proxy.Targets.try_target kinetic_atlas.Proxy.Targets.proxy_request
    kinetic_atlas.Proxy.Zone.targets_of kinetic_atlas.Proxy.Zone.records_of
    kinetic_atlas.Proxy.Zone.target_records kinetic_atlas.Text.join
    kinetic_atlas.SwarmManager.collect kinetic_atlas.SwarmManager.spawn
is_tried = inl refl

Reach-Behind_example :
    Behind node_new parse none global tried.0.dirs tried.0.state.swarms out visit
      (peer_request 0 7 passed_on)
unfolding kinetic_atlas.Daemon.advance kinetic_atlas.Proxy.Locate.locate
    kinetic_atlas.Proxy.Locate.host_of kinetic_atlas.Proxy.Locate.locate_domain
    kinetic_atlas.Proxy.Domain.extract_tld kinetic_atlas.Text.to_lowercase
    kinetic_atlas.Registry.get_config kinetic_atlas.Base.Map.get kinetic_atlas.Main.initial_state
    kinetic_atlas.Registry.load_from_dir kinetic_atlas.Base.list_eq kinetic_atlas.Base.contains
    kinetic_atlas.Base.Map.contains_key kinetic_atlas.Base.Map.insert
    kinetic_atlas.Proxy.Domain.extract_base_domain_and_subdomain kinetic_atlas.SwarmManager.touch
    kinetic_atlas.SwarmManager.check_and_spawn kinetic_atlas.Proxy.Handler.prepare
    kinetic_atlas.Proxy.Targets.try_target kinetic_atlas.Proxy.Targets.proxy_request
    kinetic_atlas.Proxy.Zone.targets_of kinetic_atlas.Proxy.Zone.records_of
    kinetic_atlas.Proxy.Zone.target_records kinetic_atlas.Text.join
    kinetic_atlas.SwarmManager.collect kinetic_atlas.SwarmManager.spawn
Reach-Behind_example =
    Reach-Behind node_new no_seeds parse none global networks tried.0 tried.1 (front tried.0.tasks)
      (inl refl) (peer_request 0 7 passed_on) is_tried

-- Ctrl-C comes while the handler has its channel, and the node ends for that.
abbrev interrupted : Reached no_seeds parse networks
interrupted = (_, next cut_off.1 (interrupt cut_off.0 refl))

node_told : interrupted.0.signalled ≡ some (0 ∷ [])
unfolding kinetic_atlas.Daemon.advance kinetic_atlas.Proxy.Locate.locate
    kinetic_atlas.Proxy.Locate.host_of kinetic_atlas.Proxy.Locate.locate_domain
    kinetic_atlas.Proxy.Domain.extract_tld kinetic_atlas.Text.to_lowercase
    kinetic_atlas.Registry.get_config kinetic_atlas.Base.Map.get kinetic_atlas.Main.initial_state
    kinetic_atlas.Registry.load_from_dir kinetic_atlas.Base.list_eq kinetic_atlas.Base.contains
    kinetic_atlas.Base.Map.contains_key kinetic_atlas.Base.Map.insert
    kinetic_atlas.Proxy.Domain.extract_base_domain_and_subdomain kinetic_atlas.SwarmManager.touch
    kinetic_atlas.SwarmManager.check_and_spawn kinetic_atlas.Proxy.Handler.prepare
    kinetic_atlas.Proxy.Targets.try_target kinetic_atlas.Proxy.Targets.proxy_request
    kinetic_atlas.Proxy.Zone.targets_of kinetic_atlas.Proxy.Zone.records_of
    kinetic_atlas.Proxy.Zone.target_records kinetic_atlas.Text.join
    kinetic_atlas.SwarmManager.collect kinetic_atlas.SwarmManager.spawn
node_told = refl

abbrev stopped : Reached no_seeds parse networks
stopped =
    (_, next interrupted.1 (stop interrupted.0 (0 ∷ []) 0 node_told (inl refl) (λ i. i.lower)))

is_held : HasSender node_new no_seeds parse none global networks stopped.0 0
unfolding kinetic_atlas.Daemon.advance kinetic_atlas.Proxy.Locate.locate
    kinetic_atlas.Proxy.Locate.host_of kinetic_atlas.Proxy.Locate.locate_domain
    kinetic_atlas.Proxy.Domain.extract_tld kinetic_atlas.Text.to_lowercase
    kinetic_atlas.Registry.get_config kinetic_atlas.Base.Map.get kinetic_atlas.Main.initial_state
    kinetic_atlas.Registry.load_from_dir kinetic_atlas.Base.list_eq kinetic_atlas.Base.contains
    kinetic_atlas.Base.Map.contains_key kinetic_atlas.Base.Map.insert
    kinetic_atlas.Proxy.Domain.extract_base_domain_and_subdomain kinetic_atlas.SwarmManager.touch
    kinetic_atlas.SwarmManager.check_and_spawn kinetic_atlas.Proxy.Handler.prepare
    kinetic_atlas.Proxy.Targets.try_target kinetic_atlas.Proxy.Targets.proxy_request
    kinetic_atlas.Proxy.Zone.targets_of kinetic_atlas.Proxy.Zone.records_of
    kinetic_atlas.Proxy.Zone.target_records kinetic_atlas.Text.join
    kinetic_atlas.SwarmManager.collect kinetic_atlas.SwarmManager.spawn
is_held = by_handler (front stopped.0.tasks) (inl refl) refl

Reach-open_example :
    (HasEnded node_new no_seeds parse none global networks stopped.0 0
      → IsTold node_new no_seeds parse none global networks stopped.0 0)
    × ((tld : kinetic_atlas.Text.Str) × IsOwned node_new stopped.0.state.swarms tld 0)
Reach-open_example =
    Reach-open node_new no_seeds parse none global networks stopped.0 stopped.1 0 is_held
