-- ===== src/Daemon/Answers.antt =====
-- What a request in flight beside others is answered.
use kinetic_atlas.Base.{ℕ, ◌≡◌, refl, Option, none, some, List, In, In-All, Result, ok, err}
use kinetic_atlas.Text.{Str}
use kinetic_atlas.Types.{AtlasConfig, NetworkConfig, DnsRecord}
use kinetic_atlas.Text.{Bytes}
use kinetic_atlas.Error.{AtlasError}
use kinetic_atlas.Registry.{Dir}
use kinetic_atlas.SwarmManager.{Manager}
use kinetic_atlas.Proxy.Outside.{HttpRequest, HttpResponse, Outside}
use kinetic_atlas.Proxy.Locate.{Located, locate}
use kinetic_atlas.Proxy.Targets.{Attempt}
use kinetic_atlas.Proxy.Handler.{ProxyState, Outcome, prepare, serve, forward, handle_proxy_request}
use kinetic_atlas.Proxy.Handler.Reach.{outcome, swarm_for}
use kinetic_atlas.Daemon.{finished, System, Reach}
use kinetic_atlas.Daemon.Invariant.{from_targets, answer_of, Answered, TaskOk}
use kinetic_atlas.Daemon.Sound.Steps.{Reach-IsSound}

module _ {Reveal Node : Type 0} (world : Outside Reveal)
    (node_new : Str → List Str → Result AtlasError Node) (resolve : Str → List Str)
    (before after : ℕ) (st : ProxyState Node) (req : HttpRequest) where
  abbrev pub alone : Outcome Node
  alone = outcome world node_new resolve before after st req

  abbrev pub given_to : Result AtlasError Located → Option ℕ
  given_to (err e) = none
  given_to (ok loc) = (swarm_for world node_new resolve before after st req loc).0

  -- The handler that runs alone, with no other task between its steps, leaves the attempts and the result
  -- that `answer_of` gives for its request, over the registry of its state and with the channel that the
  -- manager gives to it.
  pub handle_proxy_request-answer_of :
      (alone.attempts, alone.result)
      ≡ answer_of world st.global_config req
          (locate world.to_str st.registry req)
          (given_to (locate world.to_str st.registry req))
  unfolding handle_proxy_request
  handle_proxy_request-answer_of = at_locate (locate world.to_str st.registry req) refl
    where
      at_forward :
          (loc : Located) (swarms : Manager Node) (channel : ℕ)
          (p : Result AtlasError (List DnsRecord × Bytes))
          → (
            (forward world node_new resolve before after st req swarms channel loc p).attempts,
            (forward world node_new resolve before after st req swarms channel loc p).result,
          )
            ≡ from_targets world st.global_config req loc channel p
      at_forward loc swarms channel (err e) = refl
      at_forward loc swarms channel (ok (targets, body)) = refl

      at_serve :
          (loc : Located) (s : Option ℕ × Manager Node)
          → (
            (serve world node_new resolve before after st req loc s).attempts,
            (serve world node_new resolve before after st req loc s).result,
          )
            ≡ answer_of world st.global_config req (ok loc) s.0
      at_serve loc (none, swarms) = refl
      at_serve loc (some channel, swarms) =
          at_forward loc swarms channel (prepare world channel loc)

      at_locate :
          (l : Result AtlasError Located)
          → locate world.to_str st.registry req ≡ l
          → (alone.attempts, alone.result) ≡ answer_of world st.global_config req l (given_to l)
      at_locate (err e) l = rw l refl
      at_locate (ok loc) l =
          rw l (at_serve loc (swarm_for world node_new resolve before after st req loc))

module _ {Reveal Node : Type 0} (node_new : Str → List Str → Result AtlasError Node)
    (resolve : Str → List Str) (parse : Str → Option NetworkConfig) (data_local_dir : Option Str)
    (global : AtlasConfig) where
  -- However requests, rounds of the collector, reloads of the registry and ends of nodes interleave, a
  -- request that is finished was answered, after the same attempts, as `answer_of` says over the registry
  -- that one of the loads left and with a channel that belongs to a node started for the top-level domain
  -- of the request, or with none where no node could be created for its network; a load of a directory that is not there leaves the registry of the
  -- loads before it.
  pub Reach-Answered :
      (dir : Dir) (s : System Reveal Node)
      → Reach node_new resolve parse data_local_dir global dir s
      → (world : Outside Reveal) (req : HttpRequest) (attempts : List Attempt)
        (result : Result AtlasError HttpResponse)
      → In (record { world = world; phase = finished req attempts result }) s.tasks
      → Answered node_new parse data_local_dir global s.dirs s.state.swarms world req attempts
          result
  Reach-Answered dir s r world req attempts result i =
      In-All (TaskOk node_new parse data_local_dir global s.dirs s.state.swarms) s.tasks
        (Reach-IsSound node_new resolve parse data_local_dir global dir s r).tasks i
