-- ===== src/Daemon.antt =====
-- src/proxy.rs, src/swarm_manager.rs, src/updater.rs: requests in flight at once, with rounds of the
-- collector, reloads of the registry and nodes that end between them, and Ctrl-C (src/main.rs). A request
-- gives way to others between its accesses to what the tasks share, and between the targets that it
-- tries. An await that never ends is a handler that has no further turn.
pub mod Invariant
pub mod Channels
pub mod Closing
pub mod Open
pub mod Sound
pub mod Answers
pub mod Sent
pub mod Sources
use kinetic_atlas.Base.{
  ℕ, ℕ_eq, suc, ◌≡◌, ◌≢◌, Bool, true, false, Option, none, some, List, [], ◌∷◌, ◌++◌, All, In,
  Result, ok, err,
}
use kinetic_atlas.Base.Map
use kinetic_atlas.Text.{Str, Str_eq, str, Bytes}
use kinetic_atlas.Types.{AtlasConfig, NetworkConfig, DnsRecord}
use kinetic_atlas.Error.{AtlasError, network_init_failed, proxy_target_failed}
use kinetic_atlas.Registry.{Dir}
use kinetic_atlas.SwarmManager.{
  Manager, SwarmHandle, Running, touch, check_and_spawn, collect, with_seeds, empty,
}
use kinetic_atlas.Proxy.Outside.{HttpRequest, HttpResponse, Outside}
use kinetic_atlas.Proxy.Locate.{Located, locate}
use kinetic_atlas.Proxy.Targets.{Attempt, Tried, proxy_request, try_target}
use kinetic_atlas.Proxy.Handler.{ProxyState, prepare}
use kinetic_atlas.Main.{reloaded, initial_state}

-- Where the handler of a request stands. From `granted` on it holds a sender of the channel.
pub data Phase : Type 0 where
  arrived : HttpRequest → Phase
  asked : HttpRequest → Located → Phase
  resolving : HttpRequest → Located → Phase
  granted : HttpRequest → Located → (channel : ℕ) → Phase
  trying :
      HttpRequest
      → Located
      → (channel : ℕ) → (body : Bytes) → (next : ℕ) → (left : List DnsRecord)
      → (attempts : List Attempt) → Phase
  finished : HttpRequest → List Attempt → Result AtlasError HttpResponse → Phase

-- The request of a phase.
abbrev pub request_of : Phase → HttpRequest
request_of (arrived req) = req
request_of (asked req loc) = req
request_of (resolving req loc) = req
request_of (granted req loc channel) = req
request_of (trying req loc channel body next left attempts) = req
request_of (finished req attempts result) = req

-- The sender that a handler holds.
abbrev pub held : Phase → Option ℕ
held (granted req loc channel) = some channel
held (trying req loc channel body next left attempts) = some channel
held _ = none

-- The requests that a handler has sent to gateways and peers.
abbrev pub attempts_of : Phase → List Attempt
attempts_of (trying req loc channel body next left attempts) = attempts
attempts_of (finished req attempts result) = attempts
attempts_of _ = []

-- A request, with what its handler gets from outside while it goes on.
pub record Task (Reveal : Type 0) : Type 0 where
  pub world : Outside Reveal
  pub phase : Phase

-- The daemon: what its tasks share, the handlers, the channels whose node has ended since no sender was
-- left, the channels whose node Ctrl-C is told to, once it came, those of them whose node has ended for
-- that, and the networks directory as it was at each load, the last one first.
pub record System (Reveal Node : Type 0) : Type 0 where
  pub state : ProxyState Node
  pub tasks : List (Task Reveal)
  pub closed : List ℕ
  pub signalled : Option (List ℕ)
  pub stopped : List ℕ
  pub dirs : List Dir

-- The channels of nodes.
abbrev pub channels : {Node : Type 0} → List (ℕ × Node) → List ℕ
channels [] = []
channels ((tx, node) ∷ rest) = tx ∷ channels rest

abbrev pub Holds : {Reveal : Type 0} → ℕ → Task Reveal → Type 0
Holds tx t = held t.phase ≡ some tx

-- No handle of the manager and no handler has a sender of the channel.
pub record IsUnheld {Reveal Node : Type 0} (swarms : Manager Node) (tasks : List (Task Reveal))
    (tx : ℕ) : Type 0 where
  pub handles : (tld : Str) (h : SwarmHandle) → Map.get swarms.swarms tld ≡ some h → h.tx ≢ tx
  pub handlers : All (λ t. ¬ Holds tx t) tasks

-- The first match of the handler: the registry is read once, and given up at once.
abbrev pub after_locate : HttpRequest → Result AtlasError Located → Phase
after_locate req (err e) = finished req [] (err e)
after_locate req (ok loc) = asked req loc

-- The first critical section of `get_or_spawn_swarm`.
abbrev pub after_touch : HttpRequest → Located → Option ℕ → Phase
after_touch req loc none = resolving req loc
after_touch req loc (some channel) = granted req loc channel

-- The second one.
abbrev pub after_spawn : HttpRequest → Located → Option ℕ → Phase
after_spawn req loc none =
    finished req []
      (err (network_init_failed (str "Failed to connect to network for TLD " ++ loc.tld)))
after_spawn req loc (some channel) = granted req loc channel

abbrev pub after_prepare :
    HttpRequest → Located → ℕ → Result AtlasError (List DnsRecord × Bytes) → Phase
after_prepare req loc channel (err e) = finished req [] (err e)
after_prepare req loc channel (ok (targets, body)) = trying req loc channel body 0 targets []

-- A round of the loop over the targets.
abbrev pub after_target :
    HttpRequest → Located → ℕ → Bytes → ℕ → List DnsRecord → List Attempt → Tried → Phase
after_target req loc channel body next left attempts tried = elim tried.answer [
  | some result ↦ finished req (attempts ++ tried.attempts) result
  | none ↦ trying req loc channel body (suc next) left (attempts ++ tried.attempts)
]

module _ {Reveal Node : Type 0} (node_new : Str → List Str → Result AtlasError Node)
    (resolve : Str → List Str) where
  -- What a handler does in a turn, at a time. Where it awaits answers of its own, and touches nothing that
  -- the tasks share, these awaits are one turn.
  unfoldable pub advance : Outside Reveal → ℕ → Phase → ProxyState Node → Phase × ProxyState Node
  advance out now (arrived req) st = (after_locate req (locate out.to_str st.registry req), st)
  advance out now (asked req loc) st =
      let touched = touch now loc.tld st.swarms in
      (after_touch req loc touched.0, record st { swarms = touched.1 })
  advance out now (resolving req loc) st =
      let spawned =
        check_and_spawn node_new now loc.tld (with_seeds resolve loc.config) st.swarms in
      (after_spawn req loc spawned.0, record st { swarms = spawned.1 })
  advance out now (granted req loc channel) st =
      (after_prepare req loc channel (prepare out channel loc), st)
  advance out now (trying req loc channel body next [] attempts) st =
      (finished req attempts (err proxy_target_failed), st)
  advance out now (trying req loc channel body next (t ∷ left) attempts) st = (
    after_target req loc channel body next left attempts (
        try_target out st.global_config loc.config channel (proxy_request out.to_str req body) next
          t),
    st,
  )
  advance out now (finished req attempts result) st = (finished req attempts result, st)

  -- A handler goes on, in its own world.
  abbrev pub go : ℕ → Task Reveal → ProxyState Node → Task Reveal × ProxyState Node
  go now t st =
      let out = advance t.world now t.phase st in (record { world = t.world; phase = out.0 }, out.1)

  module _ (parse : Str → Option NetworkConfig) (data_local_dir : Option Str) where
    -- One step of the daemon: a request comes in, a handler goes on, or is dropped since its client is
    -- gone, the collector has a round, the updater loads the networks again, the loop of a node ends as
    -- its channel is closed, Ctrl-C is broadcast to the nodes that have been started, or one of these
    -- ends for that. The handlers go on until the process exits, which no step follows.
    pub data Step : System Reveal Node → System Reveal Node → Type 0 where
      arrive :
          (s : System Reveal Node) (world : Outside Reveal) (req : HttpRequest)
          → Step s (record s { tasks = record { world = world; phase = arrived req } ∷ s.tasks })
      go_on :
          (s : System Reveal Node) (front : List (Task Reveal)) (t : Task Reveal)
          (back : List (Task Reveal)) (now : ℕ)
          → s.tasks ≡ front ++ t ∷ back
          → Step s (record s {
            state = (go now t s.state).1;
            tasks = front ++ (go now t s.state).0 ∷ back;
          })
      disconnect :
          (s : System Reveal Node) (front : List (Task Reveal)) (t : Task Reveal)
          (back : List (Task Reveal))
          → s.tasks ≡ front ++ t ∷ back
          → Step s (record s { tasks = front ++ back })
      collect_idle :
          (s : System Reveal Node) (now : ℕ)
          → Step s (record s { state = record s.state { swarms = collect now s.state.swarms } })
      reload :
          (s : System Reveal Node) (dir : Dir)
          → Step s
              (record s { state = reloaded parse data_local_dir dir s.state; dirs = dir ∷ s.dirs })
      close :
          (s : System Reveal Node) (tx : ℕ) (node : Running Node)
          → Map.get s.state.swarms.running tx ≡ some node
          → IsUnheld s.state.swarms s.tasks tx
          → ¬ In tx s.stopped
          → Step s (record s { closed = tx ∷ s.closed })
      interrupt :
          (s : System Reveal Node)
          → s.signalled ≡ none
          → Step s (record s { signalled = some (channels s.state.swarms.running) })
      stop :
          (s : System Reveal Node) (told : List ℕ) (tx : ℕ)
          → s.signalled ≡ some told
          → In tx told
          → ¬ In tx s.closed
          → Step s (record s { stopped = tx ∷ s.stopped })

    -- What a daemon comes to that starts with a configuration and the networks directory as it is then.
    pub data Reach (global : AtlasConfig) (dir : Dir) : System Reveal Node → Type 0 where
      start : Reach global dir (record {
        state = initial_state parse data_local_dir global dir;
        tasks = [];
        closed = [];
        signalled = none;
        stopped = [];
        dirs = dir ∷ [];
      })
      next : {s t : System Reveal Node} → Reach global dir s → Step s t → Reach global dir t
