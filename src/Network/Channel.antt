-- ===== src/Network/Channel.antt =====
-- src/swarm_manager.rs, src/network.rs: the command channel of a node, from its senders to the event loop,
-- and the ends of the node's task.
pub mod Accounts
pub mod Refines
pub mod Replies
use kinetic_atlas.Base.{
  ℕ, suc, ◌+◌, ◌<◌, ◌≤◌, ◌≡◌, Bool, true, false, List, [], ◌∷◌, ◌++◌, length, Option, some, none,
}
use kinetic_atlas.Base.Map.{Map}
use kinetic_atlas.Network.{NetworkCommand}
use kinetic_atlas.Network.Loop.{
  Tables, no_tables, Turn, command, event, Issued, SwarmEvent, Output, dropped, on_command,
  on_event,
}
use kinetic_atlas.Network.Loop.Accounts.{responder}

-- `mpsc::channel(32)`
abbrev pub capacity : ℕ
capacity = 32

-- The channel and the task: the commands that are sent and not taken yet, how many senders there are, the
-- tables of the loop, what its responders were sent or that they were dropped, whether it runs, and
-- whether the end of the process took it away. All commands that were sent, and the turns that the loop
-- has made, are recorded.
pub record Line : Type 0 where
  pub queue : List NetworkCommand
  pub senders : ℕ
  pub tables : Tables
  pub outputs : List Output
  pub running : Bool
  pub aborted : Bool
  pub log : List NetworkCommand
  pub turns : List Turn

-- The responders of a table, or of commands, are dropped with it.
abbrev pub drop_table : Map ℕ ℕ → List Output
drop_table [] = []
drop_table ((_, resp) ∷ m) = dropped resp ∷ drop_table m

abbrev pub drop_commands : List NetworkCommand → List Output
drop_commands [] = []
drop_commands (cmd ∷ cmds) = dropped (responder cmd) ∷ drop_commands cmds

abbrev pub drop_tables : Tables → List Output
drop_tables t =
    drop_table t.pending_queries ++ (drop_table t.pending_dials ++ drop_table t.pending_requests)

-- A node that was just started: the manager has a sender, and the request that it was started for.
abbrev pub opened : Line
opened = record {
  queue = [];
  senders = 2;
  tables = no_tables;
  outputs = [];
  running = true;
  aborted = false;
  log = [];
  turns = [];
}

abbrev pub ended : Line → Line
ended l = record l {
  queue = [];
  tables = no_tables;
  outputs = l.outputs ++ (drop_commands l.queue ++ drop_tables l.tables);
  running = false;
}

abbrev pub turned : Line → Turn → Tables × List Output → Line
turned l turn (tables, outputs) = record l {
  tables = tables;
  outputs = l.outputs ++ outputs;
  turns = l.turns ++ turn ∷ [];
}

pub data Step : Line → Line → Type 0 where
  -- `tx.clone()` and the drop of a sender.
  clone : (l : Line) → 1 ≤ l.senders → Step l (record l { senders = suc l.senders })
  drop : (l : Line) (n : ℕ) → l.senders ≡ suc n → Step l (record l { senders = n })
  -- `send(cmd).await` comes back when there is room, with an error where the receiver is gone.
  send :
      (l : Line) (cmd : NetworkCommand)
      → 1 ≤ l.senders
      → l.running ≡ true
      → length l.queue < capacity
      → Step l (record l { queue = l.queue ++ cmd ∷ []; log = l.log ++ cmd ∷ [] })
  refuse : (l : Line) (cmd : NetworkCommand) → 1 ≤ l.senders → l.running ≡ false → Step l l
  -- The loop takes the first command, or an event of the swarm.
  take :
      (l : Line) (cmd : NetworkCommand) (rest : List NetworkCommand) (i : Issued)
      → l.running ≡ true
      → l.queue ≡ cmd ∷ rest
      → Step l
          (turned (record l { queue = rest }) (command (some cmd) i) (on_command cmd i l.tables))
  happen :
      (l : Line) (ev : SwarmEvent)
      → l.running ≡ true
      → Step l (turned l (event ev) (on_event ev l.tables))
  -- `recv` gives `None` once there is neither a sender nor a command.
  close : (l : Line) → l.running ≡ true → l.senders ≡ 0 → l.queue ≡ [] → Step l (ended l)
  -- The broadcast at the end of the process takes the task of the node away.
  shut_down : (l : Line) → l.running ≡ true → Step l (record (ended l) { aborted = true })

pub data Reach : Line → Type 0 where
  start : Reach opened
  next : {l m : Line} → Reach l → Step l m → Reach m
