-- ===== src/Main/Requests.antt =====
-- What holds of every request that a daemon serves, over the registry that it starts with.
use kinetic_atlas.Base.{◌≡◌, refl, Option, List, [], ◌∷◌, In, Result, ok}
use kinetic_atlas.Text.{Str, Str_eq}
use kinetic_atlas.Types.{AtlasConfig, NetworkConfig}
use kinetic_atlas.Error.{AtlasError}
use kinetic_atlas.Registry.{entries, Entry}
use kinetic_atlas.SwarmManager.{collect}
use kinetic_atlas.SwarmManager.Ownership.{IsGood}
use kinetic_atlas.SwarmManager.Ownership.Shutdown.{collect-IsGood}
use kinetic_atlas.SwarmManager.Ownership.Runs.{empty-IsGood}
use kinetic_atlas.Proxy.Outside.{Outside}
use kinetic_atlas.Proxy.Targets.{Attempt}
use kinetic_atlas.Proxy.Locate.{Located, locate}
use kinetic_atlas.Proxy.Handler.{ProxyState, Outcome}
use kinetic_atlas.Proxy.Handler.Reach.{handle_proxy_request-Backed}
use kinetic_atlas.Proxy.Handler.Owner.{handle_proxy_request-IsGood}
use kinetic_atlas.Main.Loads.{
  loaded_files, IsAdmitted, registry_of, IsLocated-IsAdmitted, IsLoaded, reloaded-IsLoaded,
}
use kinetic_atlas.Main.{
  Arrival, Step, serve, collect_idle, reload, handled, reloaded, run_daemon, initial_state,
}

module _ {Reveal Node : Type 0} (out : Outside Reveal)
    (node_new : Str → List Str → Result AtlasError Node) (resolve : Str → List Str)
    (parse : Str → Option NetworkConfig) (data_local_dir : Option Str) (global : AtlasConfig) where
  -- A request that a daemon sends for an arrival, and the domain that it is sent for.
  pub record SentFor (es : List Entry) (a : Arrival) : Type 0 where
    pub loc : Located
    pub located : locate out.to_str (registry_of parse data_local_dir global es) a.request ≡ ok loc
    pub is_admitted : IsAdmitted parse data_local_dir global es loc

  attempt-SentFor :
      (es : List Entry) (st : ProxyState Node) (a : Arrival) (q : Attempt)
      → IsLoaded parse data_local_dir global es st
      → In q (handled out node_new resolve parse data_local_dir st a).attempts
      → SentFor es a
  attempt-SentFor es st a q h i =
      let b = handle_proxy_request-Backed out node_new resolve a.before a.after st a.request q i in
      record {
        loc = b.loc;
        located = rw (← h.registry) b.located;
        is_admitted =
            IsLocated-IsAdmitted parse data_local_dir global es b.loc
              (rw (← h.registry) b.is_located);
      }

  -- The outcomes of some steps, with the files that are loaded: each request has one, and whatever is
  -- sent for it is sent for a domain that is admitted by the files loaded then.
  abbrev pub AllSent : List Entry → List Step → List (Outcome Node) → Type 0
  AllSent es [] outcomes = outcomes ≡ []
  AllSent es (collect_idle now ∷ later) outcomes = AllSent es later outcomes
  AllSent es (reload dir ∷ later) outcomes = AllSent (loaded_files dir es) later outcomes
  AllSent es (serve a ∷ later) [] = ⊥
  AllSent es (serve a ∷ later) (o ∷ outcomes) =
      ((q : Attempt) → In q o.attempts → SentFor es a) × AllSent es later outcomes

  run_daemon-AllSent :
      (steps : List Step) (es : List Entry) (st : ProxyState Node)
      → IsLoaded parse data_local_dir global es st
      → AllSent es steps (run_daemon out node_new resolve parse data_local_dir steps st).0
  unfolding run_daemon
  run_daemon-AllSent [] es st h = refl
  run_daemon-AllSent (serve a ∷ later) es st h = (
    λ q i. attempt-SentFor es st a q h i,
    run_daemon-AllSent later es
        (record st { swarms = (handled out node_new resolve parse data_local_dir st a).swarms })
        (record { registry = h.registry; configured = h.configured }),
  )
  run_daemon-AllSent (collect_idle now ∷ later) es st h =
      run_daemon-AllSent later es (record st { swarms = collect now st.swarms })
        (record { registry = h.registry; configured = h.configured })
  run_daemon-AllSent (reload dir ∷ later) es st h =
      run_daemon-AllSent later (loaded_files dir es) (reloaded parse data_local_dir dir st)
        (reloaded-IsLoaded parse data_local_dir global es st dir h)

  run_daemon-IsGood :
      (steps : List Step) (st : ProxyState Node)
      → IsGood node_new st.swarms
      → IsGood node_new (run_daemon out node_new resolve parse data_local_dir steps st).1.swarms
  unfolding run_daemon
  run_daemon-IsGood [] st g = g
  run_daemon-IsGood (serve a ∷ later) st g =
      run_daemon-IsGood later
        (record st { swarms = (handled out node_new resolve parse data_local_dir st a).swarms })
        (handle_proxy_request-IsGood out node_new resolve a.before a.after st a.request g)
  run_daemon-IsGood (collect_idle now ∷ later) st g =
      run_daemon-IsGood later (record st { swarms = collect now st.swarms })
        (collect-IsGood node_new st.swarms g now)
  run_daemon-IsGood (reload dir ∷ later) st g =
      run_daemon-IsGood later (reloaded parse data_local_dir dir st) g

  abbrev start : List Entry → ProxyState Node
  start es = initial_state parse data_local_dir global (entries es)

  start-IsLoaded : (es : List Entry) → IsLoaded parse data_local_dir global es (start es)
  unfolding initial_state
  start-IsLoaded es = record { registry = refl; configured = refl }

  -- A daemon whose requests, rounds of the collector and reloads come one after the other gives each
  -- request an outcome, and whatever it sends for one is sent for a domain whose network is read from a
  -- file of the networks directory as it was loaded last, where the name of the top-level domain is not
  -- on the blacklist, and is on the whitelist unless that is empty.
  pub start-AllSent :
      (es : List Entry) (steps : List Step)
      → AllSent es steps (run_daemon out node_new resolve parse data_local_dir steps (start es)).0
  start-AllSent es steps = run_daemon-AllSent steps es (start es) (start-IsLoaded es)

  -- After any requests, rounds and reloads, each channel that the daemon's manager holds belongs to a node
  -- that was started for its top-level domain, and the nodes that were started are accounted for.
  pub start-IsGood :
      (es : List Entry) (steps : List Step)
      → IsGood node_new
          (run_daemon out node_new resolve parse data_local_dir steps (start es)).1.swarms
  unfolding initial_state
  start-IsGood es steps = run_daemon-IsGood steps (start es) (empty-IsGood node_new)
