-- ===== src/Network/Channel/Accounts.antt =====
-- No command is lost between a sender and its answer.
use kinetic_atlas.Base.{
  ℕ, ◌+◌, ◌≤◌, ◌≡◌, refl, ap, subst, List, [], ◌∷◌, ◌++◌, length, length-append, arith,
}
use kinetic_atlas.Base.Map.{Map}
use kinetic_atlas.Network.{NetworkCommand}
use kinetic_atlas.Network.Loop.{Tables, on_command, on_event}
use kinetic_atlas.Network.Loop.Pending.{hit, waiting}
use kinetic_atlas.Network.Loop.Accounts.{
  responder, waits, settled, settled-append, IsTidy, command_accounts, event_accounts,
  command-IsTidy, event-IsTidy,
}
use kinetic_atlas.Network.Channel.{
  capacity, Line, drop_table, drop_commands, drop_tables, ended, Step, clone, drop, send, refuse,
  take, happen, close, shut_down, Reach, start, next,
}

-- How often a responder stands in commands.
abbrev pub asks : ℕ → List NetworkCommand → ℕ
asks r [] = 0
asks r (cmd ∷ cmds) = hit r (responder cmd) + asks r cmds

asks-append : (r : ℕ) (xs ys : List NetworkCommand) → asks r (xs ++ ys) ≡ asks r xs + asks r ys
asks-append r [] ys = omega arith
asks-append r (x ∷ xs) ys = omega (arith, asks-append r xs ys)

settled-drop_commands :
    (r : ℕ) (cmds : List NetworkCommand) → settled r (drop_commands cmds) ≡ asks r cmds
settled-drop_commands r [] = refl
settled-drop_commands r (c ∷ cmds) = omega (arith, settled-drop_commands r cmds)

settled-drop_table : (r : ℕ) (m : Map ℕ ℕ) → settled r (drop_table m) ≡ waiting r m
settled-drop_table r [] = refl
settled-drop_table r ((k, s) ∷ m) = omega (arith, settled-drop_table r m)

settled-drop_tables : (r : ℕ) (t : Tables) → settled r (drop_tables t) ≡ waits r t
settled-drop_tables r t = omega (
  arith,
  settled-append r (drop_table t.pending_queries)
      (drop_table t.pending_dials ++ drop_table t.pending_requests),
  settled-append r (drop_table t.pending_dials) (drop_table t.pending_requests),
  settled-drop_table r t.pending_queries,
  settled-drop_table r t.pending_dials,
  settled-drop_table r t.pending_requests,
)

-- The account of a line: where the responder of each command that was sent is, and that the queue keeps to
-- its capacity.
pub record IsAccounted (l : Line) : Type 0 where
  pub tidy : IsTidy l.tables
  pub room : length l.queue ≤ capacity
  pub account : (r : ℕ) → asks r l.queue + waits r l.tables + settled r l.outputs ≡ asks r l.log

ended-IsAccounted : (l : Line) → IsAccounted l → IsAccounted (ended l)
ended-IsAccounted l h = record {
  tidy = record { queries = tt; dials = tt; requests = tt };
  room = omega arith;
  account = λ r. omega (
    arith,
    h.account r,
    settled-append r l.outputs (drop_commands l.queue ++ drop_tables l.tables),
    settled-append r (drop_commands l.queue) (drop_tables l.tables),
    settled-drop_commands r l.queue,
    settled-drop_tables r l.tables,
  );
}

Step-IsAccounted : (l m : Line) → Step l m → IsAccounted l → IsAccounted m
Step-IsAccounted l _ (clone _ p) h = record { tidy = h.tidy; room = h.room; account = h.account }
Step-IsAccounted l _ (drop _ n e) h = record { tidy = h.tidy; room = h.room; account = h.account }
Step-IsAccounted l _ (send _ cmd p q room) h = record {
  tidy = h.tidy;
  room = omega (arith, length-append l.queue (cmd ∷ []));
  account = λ r.
      omega (arith, h.account r, asks-append r l.queue (cmd ∷ []), asks-append r l.log (cmd ∷ []));
}
Step-IsAccounted l _ (refuse _ cmd p q) h = h
Step-IsAccounted l _ (take _ cmd rest i p e) h =
    let full : length (cmd ∷ rest) ≤ capacity =
      subst (λ (q : List NetworkCommand). length q ≤ capacity) e h.room in
    record {
      tidy = command-IsTidy cmd i l.tables h.tidy;
      room = omega arith;
      account = λ r. omega (
        arith,
        h.account r,
        ap (asks r) e,
        command_accounts r l.tables h.tidy cmd i,
        settled-append r l.outputs (on_command cmd i l.tables).1,
      );
    }
Step-IsAccounted l _ (happen _ ev p) h = record {
  tidy = event-IsTidy ev l.tables h.tidy;
  room = h.room;
  account = λ r. omega (
    arith,
    h.account r,
    event_accounts r l.tables h.tidy ev,
    settled-append r l.outputs (on_event ev l.tables).1,
  );
}
Step-IsAccounted l _ (close _ p s e) h = ended-IsAccounted l h
Step-IsAccounted l _ (shut_down _ p) h =
    let e = ended-IsAccounted l h in record { tidy = e.tidy; room = e.room; account = e.account }

-- At any time, the responder of each command that was sent stands in the queue, which holds 32 commands at
-- most, waits in a table of the loop, or has been answered or dropped, as often as it was sent: no command
-- is lost on its way, and none is answered twice.
pub Reach-IsAccounted : (l : Line) → Reach l → IsAccounted l
Reach-IsAccounted _ start = record {
  tidy = record { queries = tt; dials = tt; requests = tt };
  room = omega arith;
  account = λ r. omega arith;
}
Reach-IsAccounted _ (next {l = l} {m = m} r s) = Step-IsAccounted l m s (Reach-IsAccounted l r)
