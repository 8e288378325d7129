-- ===== src/Network/Channel/Refines.antt =====
-- The task of a node over its channel is the event loop over the commands in the order in which they were sent.
use kinetic_atlas.Base.{
  ℕ, suc, ◌≡◌, ◌⊎◌, inl, inr, refl, ap, sym, ◌∙◌, true, false, List, [], ◌∷◌, ◌++◌, append_assoc,
  append-nil, arith, some, none, All, All-append,
}
use kinetic_atlas.Network.{NetworkCommand}
use kinetic_atlas.Network.Loop.{
  Tables, no_tables, Turn, command, event, Output, Issued, SwarmEvent, on_command, on_event,
  run_from, run,
}
use kinetic_atlas.Network.Channel.{
  Line, drop_commands, drop_tables, ended, turned, Step, clone, drop, send, refuse, take, happen,
  close, shut_down, Reach, start, next,
}

abbrev pub taken : List Turn → List NetworkCommand
taken [] = []
taken (command none i ∷ turns) = taken turns
taken (command (some cmd) i ∷ turns) = cmd ∷ taken turns
taken (event ev ∷ turns) = taken turns

taken-append : (ts us : List Turn) → taken (ts ++ us) ≡ taken ts ++ taken us
taken-append [] us = refl
taken-append (command none i ∷ ts) us = taken-append ts us
taken-append (command (some cmd) i ∷ ts) us =
    ap (λ (l : List NetworkCommand). cmd ∷ l) (taken-append ts us)
taken-append (event ev ∷ ts) us = taken-append ts us

-- The loop does not end with the turn.
abbrev pub GoesOn : Turn → Type 0
GoesOn (command none i) = ⊥
GoesOn _ = Unit

abbrev joined : Tables × List Output → List Turn → Tables × List Output
joined a us = ((run_from a.0 us).0, a.1 ++ (run_from a.0 us).1)

joined-later :
    (os : List Output) (whole part : Tables × List Output) (us : List Turn)
    → whole ≡ joined part us
    → (whole.0, os ++ whole.1) ≡ joined (part.0, os ++ part.1) us
joined-later os whole part us e =
    ap (λ (p : Tables × List Output). (p.0, os ++ p.1)) e
    ∙ ap (λ (l : List Output). ((run_from part.0 us).0, l))
        (sym (append_assoc os part.1 (run_from part.0 us).1))

run_from-append :
    (t : Tables) (ts us : List Turn)
    → All GoesOn ts
    → run_from t (ts ++ us) ≡ joined (run_from t ts) us
unfolding run_from
run_from-append t [] us h = refl
run_from-append t (command none i ∷ ts) us h = absurd h.0
run_from-append t (command (some cmd) i ∷ ts) us (_, h) =
    joined-later (on_command cmd i t).1 _ _ us (run_from-append (on_command cmd i t).0 ts us h)
run_from-append t (event ev ∷ ts) us (_, h) =
    joined-later (on_event ev t).1 _ _ us (run_from-append (on_event ev t).0 ts us h)

-- The loop has made the turns that are recorded, over the commands in their order, and the others are in
-- the queue.
pub record IsLive (l : Line) : Type 0 where
  pub runs : l.running ≡ true
  pub goes_on : All GoesOn l.turns
  pub order : l.log ≡ taken l.turns ++ l.queue
  pub state_is : (l.tables, l.outputs) ≡ run l.turns

-- The loop is over; the commands that it did not take, and what waited in its tables, were dropped.
pub record IsOver (l : Line) : Type 0 where
  pub stopped : l.running ≡ false
  pub left : List NetworkCommand
  pub order : l.log ≡ taken l.turns ++ left
  pub empty : l.queue ≡ []
  pub tables_are : l.tables ≡ no_tables
  pub outputs_are :
      l.outputs ≡ (run l.turns).1 ++ (drop_commands left ++ drop_tables (run l.turns).0)

ended-IsOver : (l : Line) → IsLive l → IsOver (ended l)
ended-IsOver l h = record {
  stopped = refl;
  left = l.queue;
  order = h.order;
  empty = refl;
  tables_are = refl;
  outputs_are =
      ap (λ (p : Tables × List Output). p.1 ++ (drop_commands l.queue ++ drop_tables p.0))
        h.state_is;
}

-- A turn more of a live loop.
turned-IsLive :
    (l : Line) (turn : Turn) (queue : List NetworkCommand) (out : Tables × List Output)
    → IsLive l
    → GoesOn turn
    → l.queue ≡ taken (turn ∷ []) ++ queue
    → run_from l.tables (turn ∷ []) ≡ out
    → IsLive (turned (record l { queue = queue }) turn out)
unfolding run
turned-IsLive l turn queue out h g q e = record {
  runs = h.runs;
  goes_on = All-append GoesOn l.turns (turn ∷ []) h.goes_on (g, tt);
  order =
      h.order
      ∙ ap (λ (cmds : List NetworkCommand). taken l.turns ++ cmds) q
      ∙ sym (append_assoc (taken l.turns) (taken (turn ∷ [])) queue)
      ∙ ap (λ (cmds : List NetworkCommand). cmds ++ queue) (sym (taken-append l.turns (turn ∷ [])));
  state_is =
      ap (λ (p : Tables × List Output). (p.0, l.outputs ++ p.1)) (sym e)
      ∙ ap (λ (p : Tables × List Output). joined p (turn ∷ [])) h.state_is
      ∙ sym (run_from-append no_tables l.turns (turn ∷ []) h.goes_on);
}

-- Whatever the line has come to.
abbrev pub Standing : Line → Type 0
Standing l = IsLive l ⊎ IsOver l

IsLive-of_Standing : (l : Line) → l.running ≡ true → Standing l → IsLive l
IsLive-of_Standing l p (inl h) = h
IsLive-of_Standing l p (inr o) = let s = o.stopped in absurd (ground arith)

senders-Standing : (l : Line) (n : ℕ) → Standing l → Standing (record l { senders = n })
senders-Standing l n (inl h) =
    inl (record { runs = h.runs; goes_on = h.goes_on; order = h.order; state_is = h.state_is })
senders-Standing l n (inr h) = inr (record {
  stopped = h.stopped;
  left = h.left;
  order = h.order;
  empty = h.empty;
  tables_are = h.tables_are;
  outputs_are = h.outputs_are;
})

one-command :
    (cmd : NetworkCommand) (i : Issued) (t : Tables)
    → run_from t (command (some cmd) i ∷ []) ≡ ((on_command cmd i t).0, (on_command cmd i t).1)
unfolding run_from
one-command cmd i t =
    ap (λ (l : List Output). ((on_command cmd i t).0, l)) (append-nil (on_command cmd i t).1)

one-event :
    (ev : SwarmEvent) (t : Tables)
    → run_from t (event ev ∷ []) ≡ ((on_event ev t).0, (on_event ev t).1)
unfolding run_from
one-event ev t = ap (λ (l : List Output). ((on_event ev t).0, l)) (append-nil (on_event ev t).1)

Step-Standing : (l m : Line) → Step l m → Standing l → Standing m
Step-Standing l _ (clone _ p) h = senders-Standing l (suc l.senders) h
Step-Standing l _ (drop _ n e) h = senders-Standing l n h
Step-Standing l _ (send _ cmd p q room) s =
    let h = IsLive-of_Standing l q s in
    inl (record {
      runs = h.runs;
      goes_on = h.goes_on;
      order =
          ap (λ (cmds : List NetworkCommand). cmds ++ cmd ∷ []) h.order
          ∙ append_assoc (taken l.turns) l.queue (cmd ∷ []);
      state_is = h.state_is;
    })
Step-Standing l _ (refuse _ cmd p q) h = h
Step-Standing l _ (take _ cmd rest i p e) s = inl (
    turned-IsLive l (command (some cmd) i) rest (on_command cmd i l.tables)
      (IsLive-of_Standing l p s) tt e (one-command cmd i l.tables))
Step-Standing l _ (happen _ ev p) s = inl (
    turned-IsLive l (event ev) l.queue (on_event ev l.tables) (IsLive-of_Standing l p s) tt refl
      (one-event ev l.tables))
Step-Standing l _ (close _ p n e) s = inr (ended-IsOver l (IsLive-of_Standing l p s))
Step-Standing l _ (shut_down _ p) s =
    let o = ended-IsOver l (IsLive-of_Standing l p s) in
    inr (record {
      stopped = o.stopped;
      left = o.left;
      order = o.order;
      empty = o.empty;
      tables_are = o.tables_are;
      outputs_are = o.outputs_are;
    })

-- While the task of a node runs, its tables and what its responders were sent are those of the event loop
-- over the turns that it has made, and the commands that were sent are the ones that these turns took, in
-- the same order, and behind them the queue. Once it is over, the loop had made such turns, and the
-- commands behind them and the responders that waited then were dropped, each of them.
pub Reach-Standing : (l : Line) → Reach l → Standing l
unfolding run run_from
Reach-Standing _ start = inl (record { runs = refl; goes_on = tt; order = refl; state_is = refl })
Reach-Standing _ (next {l = l} {m = m} r s) = Step-Standing l m s (Reach-Standing l r)
