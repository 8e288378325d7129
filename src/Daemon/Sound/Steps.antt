-- ===== src/Daemon/Sound/Steps.antt =====
-- Every step of the daemon keeps what holds of the requests in flight.
use kinetic_atlas.Base.{
  ℕ, ◌≡◌, inl, inr, refl, subst, ◌∙◌, Option, List, ◌∷◌, ◌++◌, All, All-append, All-append_left,
  All-append_right, Result,
}
use kinetic_atlas.Text.{Str}
use kinetic_atlas.Types.{AtlasConfig, NetworkConfig}
use kinetic_atlas.Error.{AtlasError}
use kinetic_atlas.Registry.{Dir}
use kinetic_atlas.SwarmManager.{collect}
use kinetic_atlas.SwarmManager.Ownership.Shutdown.{collect-IsGood}
use kinetic_atlas.SwarmManager.Ownership.Runs.{empty-IsGood}
use kinetic_atlas.Main.{initial_state}
use kinetic_atlas.Main.Loads.{reloaded-IsLoaded, initial_state-IsLoaded}
use kinetic_atlas.Daemon.{
  Phase, arrived, asked, resolving, granted, trying, finished, Task, System, advance, go, Step,
  arrive, go_on, disconnect, collect_idle, reload, close, interrupt, stop, Reach, start, next,
}
use kinetic_atlas.Daemon.Invariant.{files_of, TaskOk, IsSound, All-more}
use kinetic_atlas.Daemon.Sound.{Goes, arrived-Goes, granted-Goes, asked-Goes, resolving-Goes}
use kinetic_atlas.Daemon.Sound.Rounds.{trying-Goes, finished-Goes}

module _ {Reveal Node : Type 0} (node_new : Str → List Str → Result AtlasError Node)
    (resolve : Str → List Str) (parse : Str → Option NetworkConfig) (data_local_dir : Option Str)
    (global : AtlasConfig) where
  abbrev Sound : System Reveal Node → Type 0
  Sound = IsSound node_new parse data_local_dir global

  advance-Goes :
      (s : System Reveal Node) (h : Sound s) (t : Task Reveal) (now : ℕ)
      → TaskOk node_new parse data_local_dir global s.dirs s.state.swarms t
      → Goes node_new resolve parse data_local_dir global s.dirs t.world s.state
          (advance node_new resolve t.world now t.phase s.state)
  advance-Goes s h t now q = at t.phase q
    where
      at :
          (p : Phase)
          → TaskOk node_new parse data_local_dir global s.dirs s.state.swarms
              (record { world = t.world; phase = p })
          → Goes node_new resolve parse data_local_dir global s.dirs t.world s.state
              (advance node_new resolve t.world now p s.state)
      at (arrived req) q =
          arrived-Goes node_new resolve parse data_local_dir global s.dirs t.world s.state now req
            h.good (files_of s.dirs) h.recorded h.current
      at (asked req loc) q =
          asked-Goes node_new resolve parse data_local_dir global s.dirs t.world s.state now req
            h.good loc q
      at (resolving req loc) q =
          resolving-Goes node_new resolve parse data_local_dir global s.dirs t.world s.state now req
            h.good loc q
      at (granted req loc channel) (f, o) =
          granted-Goes node_new resolve parse data_local_dir global s.dirs t.world s.state now req
            h.good loc channel f o
      at (trying req loc channel body number left attempts) q =
          trying-Goes node_new resolve parse data_local_dir global s.dirs t.world s.state now req
            h.good loc channel body attempts number left h.configured q
      at (finished req attempts result) q =
          finished-Goes node_new resolve parse data_local_dir global s.dirs t.world s.state now req
            h.good attempts result q

  go_on-IsSound :
      (s : System Reveal Node) (front : List (Task Reveal)) (t : Task Reveal)
      (back : List (Task Reveal)) (now : ℕ)
      → s.tasks ≡ front ++ t ∷ back
      → Sound s
      → Sound (record s {
        state = (go node_new resolve now t s.state).1;
        tasks = front ++ (go node_new resolve now t s.state).0 ∷ back;
      })
  go_on-IsSound s front t back now e h =
      let Ok = TaskOk node_new parse data_local_dir global s.dirs s.state.swarms in
      let all : All Ok (front ++ t ∷ back) = subst (All Ok) e h.tasks in
      let behind = All-append_right Ok front (t ∷ back) all in
      let a = advance-Goes s h t now behind.0 in
      let keep =
        All-more node_new parse data_local_dir global s.dirs s.dirs s.state.swarms
          (go node_new resolve now t s.state).1.swarms (λ es r. r) a.extends in
      record {
        good = a.good;
        configured = a.same_config ∙ h.configured;
        recorded = h.recorded;
        current = a.same_registry ∙ h.current;
        tasks =
            All-append
              (TaskOk node_new parse data_local_dir global s.dirs
                (go node_new resolve now t s.state).1.swarms)
              front ((go node_new resolve now t s.state).0 ∷ back)
              (keep front (All-append_left Ok front (t ∷ back) all)) (a.phase, keep back behind.1);
      }

  Step-IsSound :
      (s s' : System Reveal Node)
      → Step node_new resolve parse data_local_dir s s'
      → Sound s
      → Sound s'
  Step-IsSound s _ (arrive _ world req) h = record {
    good = h.good;
    configured = h.configured;
    recorded = h.recorded;
    current = h.current;
    tasks = (tt, h.tasks);
  }
  Step-IsSound s _ (go_on _ front t back now e) h = go_on-IsSound s front t back now e h
  Step-IsSound s _ (collect_idle _ now) h = record {
    good = collect-IsGood node_new s.state.swarms h.good now;
    configured = h.configured;
    recorded = h.recorded;
    current = h.current;
    tasks =
        All-more node_new parse data_local_dir global s.dirs s.dirs s.state.swarms
          (collect now s.state.swarms) (λ es r. r) (unfold collect in (λ t r f. f)) s.tasks h.tasks;
  }
  Step-IsSound s _ (reload _ dir) h =
      let l =
        reloaded-IsLoaded parse data_local_dir global (files_of s.dirs) s.state dir
          (record { registry = h.current; configured = h.configured }) in
      record {
        good = h.good;
        configured = l.configured;
        recorded = inl refl;
        current = l.registry;
        tasks =
            All-more node_new parse data_local_dir global s.dirs (dir ∷ s.dirs) s.state.swarms
              s.state.swarms (λ es r. inr r) (λ t r f. f) s.tasks h.tasks;
      }
  Step-IsSound s _ (disconnect _ front t back e) h =
      let Ok = TaskOk node_new parse data_local_dir global s.dirs s.state.swarms in
      let all : All Ok (front ++ t ∷ back) = subst (All Ok) e h.tasks in
      record {
        good = h.good;
        configured = h.configured;
        recorded = h.recorded;
        current = h.current;
        tasks =
            All-append Ok front back (All-append_left Ok front (t ∷ back) all)
              (All-append_right Ok front (t ∷ back) all).1;
      }
  Step-IsSound s _ (close _ tx node r u n) h = record {
    good = h.good;
    configured = h.configured;
    recorded = h.recorded;
    current = h.current;
    tasks = h.tasks;
  }
  Step-IsSound s _ (interrupt _ n) h = record {
    good = h.good;
    configured = h.configured;
    recorded = h.recorded;
    current = h.current;
    tasks = h.tasks;
  }
  Step-IsSound s _ (stop _ told tx c i n) h = record {
    good = h.good;
    configured = h.configured;
    recorded = h.recorded;
    current = h.current;
    tasks = h.tasks;
  }

  pub Reach-IsSound :
      (dir : Dir) (s : System Reveal Node)
      → Reach node_new resolve parse data_local_dir global dir s
      → Sound s
  Reach-IsSound dir _ start =
      let l = initial_state-IsLoaded parse data_local_dir global {Node = Node} dir in
      record {
        good = unfold initial_state in empty-IsGood node_new;
        configured = l.configured;
        recorded = inl refl;
        current = l.registry;
        tasks = tt;
      }
  Reach-IsSound dir _ (next {s = s} {t = t} r step) = Step-IsSound s t step (Reach-IsSound dir s r)
