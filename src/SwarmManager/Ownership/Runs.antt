-- ===== src/SwarmManager/Ownership/Runs.antt =====
-- Every schedule keeps the account; what this says of channels and of the number of nodes.
use kinetic_atlas.Base.{
  ℕ, zero, suc, ◌+◌, ◌≤◌, ◌≡◌, ◌≢◌, refl, Option, none, some, List, [], ◌∷◌, arith, Result, ℕ_eq,
  nat_eq, nat_eq_iff, Bool-cases, inl, inr, All, All-append, In, In-All,
}
use kinetic_atlas.Base.Map
use kinetic_atlas.Base.Map.{Map}
use kinetic_atlas.Text.{Str, Str_eq}
use kinetic_atlas.Error.{AtlasError}
use kinetic_atlas.SwarmManager.{
  Manager, Running, SwarmHandle, touch, check_and_spawn, collect, empty,
}
use kinetic_atlas.SwarmManager.Schedule.{
  Phase, asked, resolving, done, Move, arrive, advance, round, System, advance_phase, advance_task,
  after_check, move, run_schedule, initial,
}
use kinetic_atlas.SwarmManager.Ownership.{
  times, present, started, IsOwned, IsGood, Extends, PhaseOk, PhaseOk-Extends,
}
use kinetic_atlas.SwarmManager.Ownership.Shutdown.{collect-IsGood}
use kinetic_atlas.SwarmManager.Ownership.Keeping.{Serves, touch-Serves, check_and_spawn-Serves}

pub empty-IsGood :
    {Node : Type 0} (node_new : Str → List Str → Result AtlasError Node) → IsGood node_new empty
empty-IsGood node_new = record {
  functional = tt;
  bounded = λ tx r f. unfold Map.get in cc;
  owned = λ t k q. unfold Map.get in cc;
  counted = λ t. unfold Map.get in refl;
}

module _ {Node : Type 0} (node_new : Str → List Str → Result AtlasError Node)
    (resolve : Str → List Str) where
  record Steps (m : Manager Node) (p : Phase × Manager Node) : Type 0 where
    good : IsGood node_new p.1
    extends : Extends node_new m p.1
    phase : PhaseOk node_new p.1 p.0

  module _ (m : Manager Node) (g : IsGood node_new m) where
    advance_phase-Steps :
        (now : ℕ) (p : Phase)
        → PhaseOk node_new m p
        → Steps m (advance_phase node_new resolve now p m)
    unfolding advance_phase
    advance_phase-Steps now (asked tld config) h =
        let s = touch-Serves node_new m g now tld in
        record { good = s.good; extends = s.extends; phase = ok_after (touch now tld m) s }
      where
        ok_after :
            (out : Option ℕ × Manager Node)
            → Serves node_new m tld out
            → PhaseOk node_new out.1 (after_check node_new resolve tld config out.0)
        ok_after (none, m') s = tt
        ok_after (some tx, m') s = s.owner tx refl
    advance_phase-Steps now (resolving tld config) h =
        let s = check_and_spawn-Serves node_new m g now tld config in
        record {
          good = s.good;
          extends = s.extends;
          phase = ok_done (check_and_spawn node_new now tld config m) s;
        }
      where
        ok_done :
            (out : Option ℕ × Manager Node)
            → Serves node_new m tld out
            → PhaseOk node_new out.1 (done tld out.0)
        ok_done (none, m') s = tt
        ok_done (some tx, m') s = s.owner tx refl
    advance_phase-Steps now (done tld tx) h = record { good = g; extends = λ t r f. f; phase = h }

  All-Extends :
      (m m' : Manager Node) (ps : List Phase)
      → Extends node_new m m'
      → All (PhaseOk node_new m) ps
      → All (PhaseOk node_new m') ps
  All-Extends m m' [] ext h = tt
  All-Extends m m' (p ∷ ps) ext (q, h) =
      (PhaseOk-Extends node_new m m' p ext q, All-Extends m m' ps ext h)

  record IsSound (s : System Node) : Type 0 where
    good : IsGood node_new s.manager
    phases : All (PhaseOk node_new s.manager) s.tasks

  record Advanced (m : Manager Node) (out : List Phase × Manager Node) : Type 0 where
    good : IsGood node_new out.1
    extends : Extends node_new m out.1
    phases : All (PhaseOk node_new out.1) out.0

  advance_task-Advanced :
      (i now : ℕ) (ps : List Phase) (m : Manager Node)
      → IsGood node_new m
      → All (PhaseOk node_new m) ps
      → Advanced m (advance_task node_new resolve i now ps m)
  advance_task-Advanced i now [] m g h =
      unfold advance_task in record { good = g; extends = λ t r f. f; phases = tt }
  advance_task-Advanced zero now (p ∷ ps) m g (q, h) =
      let s = advance_phase-Steps m g now p q in
      unfold advance_task in
      record {
        good = s.good;
        extends = s.extends;
        phases = (s.phase, All-Extends m (advance_phase node_new resolve now p m).1 ps s.extends h);
      }
  advance_task-Advanced (suc i) now (p ∷ ps) m g (q, h) =
      behind (advance_task-Advanced i now ps m g h)
    where
      behind :
          Advanced m (advance_task node_new resolve i now ps m)
          → Advanced m (advance_task node_new resolve (suc i) now (p ∷ ps) m)
      behind a =
          unfold advance_task in
          record {
            good = a.good;
            extends = a.extends;
            phases = (
              PhaseOk-Extends node_new m (advance_task node_new resolve i now ps m).1 p a.extends q,
              a.phases,
            );
          }

  move-IsSound : (mv : Move) (s : System Node) → IsSound s → IsSound (move node_new resolve mv s)
  unfolding move
  move-IsSound (arrive tld config) s h = record {
    good = h.good;
    phases =
        All-append (PhaseOk node_new s.manager) s.tasks (asked tld config ∷ []) h.phases (tt, tt);
  }
  move-IsSound (advance task now) s h =
      let a = advance_task-Advanced task now s.tasks s.manager h.good h.phases in
      record { good = a.good; phases = a.phases }
  move-IsSound (round now) s h = record {
    good = collect-IsGood node_new s.manager h.good now;
    phases =
        All-Extends s.manager (collect now s.manager) s.tasks (unfold collect in (λ t r f. f))
          h.phases;
  }

  run_schedule-IsSound :
      (moves : List Move) (s : System Node)
      → IsSound s
      → IsSound (run_schedule node_new resolve moves s)
  unfolding run_schedule
  run_schedule-IsSound [] s h = h
  run_schedule-IsSound (mv ∷ moves) s h =
      run_schedule-IsSound moves (move node_new resolve mv s) (move-IsSound mv s h)

  initial-IsSound : IsSound (initial node_new resolve)
  initial-IsSound = record { good = empty-IsGood node_new; phases = tt }

  abbrev pub after_run : List Move → System Node
  after_run moves = run_schedule node_new resolve moves (initial node_new resolve)

  -- However requests and rounds of the collector interleave, the channel that a request gets belongs to
  -- a node that was started for its top-level domain.
  pub run_schedule-IsOwned :
      (moves : List Move) (tld : Str) (tx : ℕ)
      → In (done tld (some tx)) (after_run moves).tasks
      → IsOwned node_new (after_run moves).manager tld tx
  run_schedule-IsOwned moves tld tx i =
      In-All (PhaseOk node_new (after_run moves).manager) (after_run moves).tasks
        (run_schedule-IsSound moves (initial node_new resolve) initial-IsSound).phases i

  -- However requests and rounds of the collector interleave, the nodes started for a domain are one for
  -- each time that its swarm was shut down, and one more while it has a swarm: two requests at once
  -- never start two.
  pub run_schedule-started :
      (moves : List Move) (tld : Str)
      → started node_new tld (after_run moves).manager.running
        ≡ times tld (after_run moves).manager.shut_down
          + present (Map.get (after_run moves).manager.swarms tld)
  run_schedule-started moves tld =
      (run_schedule-IsSound moves (initial node_new resolve) initial-IsSound).good.counted tld

  started-one :
      (tld : Str) (rs : Map ℕ (Running Node)) (tx : ℕ) (r : Running Node)
      → Map.get rs tx ≡ some r
      → r.tld ≡ tld
      → 1 ≤ started node_new tld rs
  unfolding Map.get
  started-one tld [] tx r f e = cc
  started-one tld ((k, q) ∷ rs) tx r f e =
      ground (arith, Str_eq.equal_iff q.tld tld, started-one tld rs tx r)

  -- Two channels of a domain are two nodes that were started for it.
  started-two :
      (tld : Str) (rs : Map ℕ (Running Node)) (tx tx' : ℕ) (r r' : Running Node)
      → Map.get rs tx ≡ some r
      → Map.get rs tx' ≡ some r'
      → r.tld ≡ tld
      → r'.tld ≡ tld
      → tx ≢ tx'
      → 2 ≤ started node_new tld rs
  unfolding Map.get
  started-two tld [] tx tx' r r' f f' e e' apart = cc
  started-two tld ((k, q) ∷ rs) tx tx' r r' f f' e e' apart = ground (
    arith,
    Str_eq.equal_iff q.tld tld,
    nat_eq_iff k tx,
    nat_eq_iff k tx',
    started-one tld rs tx r,
    started-one tld rs tx' r',
    started-two tld rs tx tx' r r',
  )

  -- While no swarm of a domain was shut down, all requests for it that get a channel get the same one.
  pub run_schedule-same_channel :
      (moves : List Move) (tld : Str) (tx tx' : ℕ)
      → times tld (after_run moves).manager.shut_down ≡ 0
      → In (done tld (some tx)) (after_run moves).tasks
      → In (done tld (some tx')) (after_run moves).tasks
      → tx ≡ tx'
  run_schedule-same_channel moves tld tx tx' calm i i' = elim (Bool-cases (nat_eq tx tx')) [
    | inl same ↦ (nat_eq_iff tx tx').0 same
    | inr other ↦
        let apart : tx ≢ tx' = ground (arith, nat_eq_iff tx tx') in
        let o = run_schedule-IsOwned moves tld tx i in
        let o' = run_schedule-IsOwned moves tld tx' i' in
        let two =
          started-two tld (after_run moves).manager.running tx tx' o.task o'.task o.found o'.found
            o.of_tld o'.of_tld apart in
        let one = present-le (Map.get (after_run moves).manager.swarms tld) in
        absurd (omega (arith, run_schedule-started moves tld))
  ]
    where
      present-le : (h : Option SwarmHandle) → present h ≤ 1
      present-le none = omega arith
      present-le (some h) = omega arith
