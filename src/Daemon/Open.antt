-- ===== src/Daemon/Open.antt =====
-- The channels that handles and handlers have, in whatever the daemon comes to.
use kinetic_atlas.Base.{
  ℕ, ◌≡◌, inl, inr, subst, sym, Option, some, List, [], ◌∷◌, ◌++◌, All, All-append, All-append_left,
  All-append_right, In, In-All, arith, Result, ℕ_eq,
}
use kinetic_atlas.Text.{Str}
use kinetic_atlas.Types.{AtlasConfig, NetworkConfig}
use kinetic_atlas.Error.{AtlasError}
use kinetic_atlas.Registry.{Dir}
use kinetic_atlas.SwarmManager.{Manager, collect}
use kinetic_atlas.SwarmManager.Ownership.{IsOwned}
use kinetic_atlas.Proxy.Outside.{Outside}
use kinetic_atlas.Daemon.{
  Phase, arrived, asked, resolving, granted, trying, finished, held, Holds, Task, System, go, Step,
  arrive, go_on, disconnect, collect_idle, reload, close, interrupt, stop, Reach, start, next,
}
use kinetic_atlas.Daemon.Channels.{IsHandled, collect-IsHandled}
use kinetic_atlas.Daemon.Closing.{advance-Holding, IsGone, IsGone-unknown, IsGone-later}
use kinetic_atlas.Daemon.Invariant.{PhaseOk, TaskOk}
use kinetic_atlas.Daemon.Sound.Steps.{Reach-IsSound}

module _ {Reveal Node : Type 0} (node_new : Str → List Str → Result AtlasError Node)
    (resolve : Str → List Str) (parse : Str → Option NetworkConfig) (data_local_dir : Option Str)
    (global : AtlasConfig) (dir : Dir) where
  abbrev Reached : System Reveal Node → Type 0
  Reached = Reach node_new resolve parse data_local_dir global dir

  abbrev AllGone : System Reveal Node → Type 0
  AllGone s = All (IsGone s.state.swarms s.tasks) s.closed

  All-later :
      (m m' : Manager Node) (tasks tasks' : List (Task Reveal)) (txs : List ℕ)
      → ((tx : ℕ) → IsGone m tasks tx → IsGone m' tasks' tx)
      → All (IsGone m tasks) txs
      → All (IsGone m' tasks') txs
  All-later m m' tasks tasks' [] f h = tt
  All-later m m' tasks tasks' (tx ∷ txs) f (g, h) = (f tx g, All-later m m' tasks tasks' txs f h)

  go_on-IsGone :
      (s : System Reveal Node) (front : List (Task Reveal)) (t : Task Reveal)
      (back : List (Task Reveal)) (now : ℕ)
      → s.tasks ≡ front ++ t ∷ back
      → (tx : ℕ) → IsGone s.state.swarms s.tasks tx
      → IsGone
          (go node_new resolve now t s.state).1.swarms
          (front ++ (go node_new resolve now t s.state).0 ∷ back)
          tx
  go_on-IsGone s front t back now e tx g =
      let Free = λ (t : Task Reveal). ¬ Holds tx t in
      let k = advance-Holding node_new resolve t.world now s.state t.phase in
      let before : All Free (front ++ t ∷ back) = subst (All Free) e g.unheld.handlers in
      let behind = All-append_right Free front (t ∷ back) before in
      let free : ¬ Holds tx (go node_new resolve now t s.state).0 = λ q. elim (k.taken tx q) [
        | inl had ↦ behind.0 had
        | inr known ↦ IsGone-unknown s.state.swarms s.tasks tx g known
      ] in
      IsGone-later s.state.swarms (go node_new resolve now t s.state).1.swarms s.tasks
        (front ++ (go node_new resolve now t s.state).0 ∷ back) tx k.grows (k.handles tx)
        (All-append Free front ((go node_new resolve now t s.state).0 ∷ back)
          (All-append_left Free front (t ∷ back) before) (free, behind.1))
        g

  Step-AllGone :
      (s s' : System Reveal Node)
      → Reached s
      → Step node_new resolve parse data_local_dir s s'
      → AllGone s
      → AllGone s'
  Step-AllGone s _ r (arrive _ world req) h =
      All-later s.state.swarms s.state.swarms s.tasks
        (record { world = world; phase = arrived req } ∷ s.tasks) s.closed
        (λ tx g.
          IsGone-later s.state.swarms s.state.swarms s.tasks
            (record { world = world; phase = arrived req } ∷ s.tasks) tx (omega arith) (λ q. inl q)
            ((λ q. absurd (ground arith)), g.unheld.handlers) g)
        h
  Step-AllGone s _ r (go_on _ front t back now e) h =
      All-later s.state.swarms (go node_new resolve now t s.state).1.swarms s.tasks
        (front ++ (go node_new resolve now t s.state).0 ∷ back) s.closed
        (go_on-IsGone s front t back now e) h
  Step-AllGone s _ r (collect_idle _ now) h =
      let sound = Reach-IsSound node_new resolve parse data_local_dir global dir s r in
      All-later s.state.swarms (collect now s.state.swarms) s.tasks s.tasks s.closed
        (λ tx g.
          IsGone-later s.state.swarms (collect now s.state.swarms) s.tasks s.tasks tx
            (unfold collect in omega arith)
            (λ q. inl (collect-IsHandled now s.state.swarms sound.good.functional tx q))
            g.unheld.handlers g)
        h
  Step-AllGone s _ r (reload _ d) h = h
  Step-AllGone s _ r (disconnect _ front t back e) h =
      All-later s.state.swarms s.state.swarms s.tasks (front ++ back) s.closed
        (λ tx g.
          let Free = λ (t : Task Reveal). ¬ Holds tx t in
          let before : All Free (front ++ t ∷ back) = subst (All Free) e g.unheld.handlers in
          IsGone-later s.state.swarms s.state.swarms s.tasks (front ++ back) tx (omega arith)
            (λ q. inl q)
            (All-append Free front back (All-append_left Free front (t ∷ back) before)
              (All-append_right Free front (t ∷ back) before).1)
            g)
        h
  Step-AllGone s _ r (interrupt _ n) h = h
  Step-AllGone s _ r (stop _ told tx c i n) h = h
  Step-AllGone s _ r (close _ tx node f u n) h =
      let sound = Reach-IsSound node_new resolve parse data_local_dir global dir s r in
      (record { below = sound.good.bounded tx node f; unheld = u }, h)

  Reach-AllGone : (s : System Reveal Node) → Reached s → AllGone s
  Reach-AllGone _ start = tt
  Reach-AllGone _ (next {s = s} {t = t} r step) = Step-AllGone s t r step (Reach-AllGone s r)

  -- A handle of the manager, or a handler, has a sender of the channel.
  pub data HasSender (s : System Reveal Node) (tx : ℕ) : Type 0 where
    by_handle : IsHandled s.state.swarms tx → HasSender s tx
    by_handler : (t : Task Reveal) → In t s.tasks → Holds tx t → HasSender s tx

  phase-running :
      (s : System Reveal Node) (world : Outside Reveal) (tx : ℕ) (p : Phase)
      → PhaseOk node_new parse data_local_dir global s.dirs s.state.swarms world p
      → held p ≡ some tx
      → (tld : Str) × IsOwned node_new s.state.swarms tld tx
  phase-running s world tx (arrived req) h q = cc
  phase-running s world tx (asked req loc) h q = cc
  phase-running s world tx (resolving req loc) h q = cc
  phase-running s world tx (granted req loc channel) (f, o) q =
      (loc.tld, subst (IsOwned node_new s.state.swarms loc.tld) (ground arith) o)
  phase-running s world tx (trying req loc channel body number left attempts) h q =
      (loc.tld, subst (IsOwned node_new s.state.swarms loc.tld) (ground arith) h.owned)
  phase-running s world tx (finished req attempts result) h q = cc

  HasSender-open :
      (s : System Reveal Node) → Reached s → (tx : ℕ) → HasSender s tx → ¬ In tx s.closed
  HasSender-open s r tx (by_handle q) i =
      let g = In-All (IsGone s.state.swarms s.tasks) s.closed (Reach-AllGone s r) i in
      IsGone-unknown s.state.swarms s.tasks tx g (inl q)
  HasSender-open s r tx (by_handler t j q) i =
      let g = In-All (IsGone s.state.swarms s.tasks) s.closed (Reach-AllGone s r) i in
      In-All (λ t. ¬ Holds tx t) s.tasks g.unheld.handlers j q

  HasSender-IsOwned :
      (s : System Reveal Node)
      → Reached s
      → (tx : ℕ) → HasSender s tx
      → (tld : Str) × IsOwned node_new s.state.swarms tld tx
  HasSender-IsOwned s r tx (by_handle (tld, h, q, same)) =
      let sound = Reach-IsSound node_new resolve parse data_local_dir global dir s r in
      (tld, subst (IsOwned node_new s.state.swarms tld) same (sound.good.owned tld h q))
  HasSender-IsOwned s r tx (by_handler t j q) =
      let sound = Reach-IsSound node_new resolve parse data_local_dir global dir s r in
      phase-running s t.world tx t.phase
        (In-All (TaskOk node_new parse data_local_dir global s.dirs s.state.swarms) s.tasks
          sound.tasks j)
        q

  -- Ctrl-C was broadcast to the node of the channel: it came after the node was started.
  abbrev pub IsTold : System Reveal Node → ℕ → Type 0
  IsTold s tx = (told : List ℕ) × (s.signalled ≡ some told) × In tx told

  -- The node of the channel has ended, since nobody had a sender of it, or for Ctrl-C.
  pub data HasEnded (s : System Reveal Node) (tx : ℕ) : Type 0 where
    by_closing : In tx s.closed → HasEnded s tx
    by_signal : In tx s.stopped → HasEnded s tx

  StoppedTold : System Reveal Node → Type 0
  StoppedTold s = (tx : ℕ) → In tx s.stopped → IsTold s tx

  Step-StoppedTold :
      (s s' : System Reveal Node)
      → Step node_new resolve parse data_local_dir s s'
      → StoppedTold s
      → StoppedTold s'
  unfolding StoppedTold
  Step-StoppedTold s _ (arrive _ world req) h = h
  Step-StoppedTold s _ (go_on _ front t back now e) h = h
  Step-StoppedTold s _ (disconnect _ front t back e) h = h
  Step-StoppedTold s _ (collect_idle _ now) h = h
  Step-StoppedTold s _ (reload _ d) h = h
  Step-StoppedTold s _ (close _ tx node f u n) h = h
  Step-StoppedTold s _ (interrupt _ n) h = λ tx i. let (told, e, j) = h tx i in absurd cc
  Step-StoppedTold s _ (stop _ told tx c i n) h = λ other j. elim j [
    | inl same ↦ (told, c, subst (λ (k : ℕ). In k told) (sym same) i)
    | inr k ↦ h other k
  ]

  Reach-StoppedTold : (s : System Reveal Node) → Reached s → StoppedTold s
  unfolding StoppedTold
  Reach-StoppedTold _ start = λ tx i. absurd i.lower
  Reach-StoppedTold _ (next {s = s} {t = t} r step) =
      Step-StoppedTold s t step (Reach-StoppedTold s r)

  HasEnded-IsTold :
      (s : System Reveal Node) → Reached s → (tx : ℕ) → HasSender s tx → HasEnded s tx → IsTold s tx
  unfolding StoppedTold
  HasEnded-IsTold s r tx h (by_closing i) = absurd (HasSender-open s r tx h i)
  HasEnded-IsTold s r tx h (by_signal i) = Reach-StoppedTold s r tx i

  -- However the steps of the daemon interleave, a channel that a handle of the manager or a handler that
  -- goes on has a sender of belongs to a node that was started, and that has ended only where Ctrl-C was
  -- broadcast to it: a round of the collector never ends the node of a request in flight, and the manager
  -- never gives out the channel of a node that has ended otherwise.
  pub Reach-open :
      (s : System Reveal Node)
      → Reached s
      → (tx : ℕ) → HasSender s tx
      → (HasEnded s tx → IsTold s tx) × ((tld : Str) × IsOwned node_new s.state.swarms tld tx)
  Reach-open s r tx h = (HasEnded-IsTold s r tx h, HasSender-IsOwned s r tx h)
