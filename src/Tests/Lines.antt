-- ===== src/Tests/Lines.antt =====
-- src/network.rs, src/swarm_manager.rs: a command on its way through the channel of a node.
use kinetic_atlas.Base.{refl, true, some, [], ◌∷◌, arith}
use kinetic_atlas.Text.{str}
use kinetic_atlas.Network.{get_record}
use kinetic_atlas.Network.Loop.{Issued, query_progressed, found_record}
use kinetic_atlas.Network.Channel.{Line, opened, send, take, happen, shut_down, Reach, start, next}
use kinetic_atlas.Network.Channel.Accounts.{IsAccounted, Reach-IsAccounted}
use kinetic_atlas.Network.Channel.Replies.{Awaited, Reach-Awaited}

abbrev returned : Issued
returned = record { query_id = 3; request_id = 4; parsed_peer = some 5; dial_ok = true }

abbrev Reached : Type 0
Reached = (l : Line) × Reach l

-- Two requests ask for a record, and the loop takes the first one.
abbrev sent : Line
sent = record opened {
  queue = get_record (str "acme.kin") 10 ∷ get_record (str "shop.kin") 11 ∷ [];
  log = get_record (str "acme.kin") 10 ∷ get_record (str "shop.kin") 11 ∷ [];
}

sent-Reach : Reach sent
sent-Reach =
    next
      (next start (send opened (get_record (str "acme.kin") 10) (omega arith) refl (omega arith)))
      (send
        (record opened {
          queue = get_record (str "acme.kin") 10 ∷ [];
          log = get_record (str "acme.kin") 10 ∷ [];
        })
        (get_record (str "shop.kin") 11) (omega arith) refl (omega arith))

abbrev taken_first : Reached
taken_first = (
  _,
  next sent-Reach (
      take sent (get_record (str "acme.kin") 10) (get_record (str "shop.kin") 11 ∷ []) returned refl
        refl),
)

-- The query finds a record, and the process ends before the second command is taken.
abbrev answered_first : Reached
answered_first = (
  _,
  next taken_first.1 (happen taken_first.0 (query_progressed 3 (found_record (str "zone"))) refl),
)

abbrev over : Reached
over = (_, next answered_first.1 (shut_down answered_first.0 refl))

Reach-IsAccounted_example : IsAccounted answered_first.0
Reach-IsAccounted_example = Reach-IsAccounted answered_first.0 answered_first.1

Reach-Awaited_example : Awaited 11 over.0
Reach-Awaited_example = Reach-Awaited over.0 over.1 11 refl
