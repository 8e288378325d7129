-- ===== src/Network/Loop/Answers.antt =====
-- What a responder is told, and when.
use kinetic_atlas.Base.{
  ℕ, ◌≡◌, ◌≢◌, refl, ap, true, Option, none, some, List, [], ◌∷◌, ◌++◌, arith, ℕ_eq, append_assoc,
  sym, ◌∙◌, nat_eq, All, nat_eq_iff,
}
use kinetic_atlas.Base.Map
use kinetic_atlas.Base.Map.{get-remove, get-insert, get-insert_self}
use kinetic_atlas.Text.{Str}
use kinetic_atlas.Types.{ProxyResponse}
use kinetic_atlas.Network.{NetworkCommand, get_record, lookup_peer, send_proxy_request}
use kinetic_atlas.Network.Loop.{
  Tables, Turn, command, event, Output, sent, Issued, SwarmEvent, QueryResult, query_progressed,
  response_message, request_message, outbound_failure, connection_established,
  outgoing_connection_error, identify_event, other_event, record_value, on_command, on_event,
  run_from, Protocol, ip4, ip6, other, IpAddr, v4, v6, ip_of, value_of,
}

-- The protocol is no address.
abbrev pub IsOther : Protocol → Type 0
IsOther p = p ≡ other

ip_of-other : (ip : Option IpAddr) (ps : List Protocol) → All IsOther ps → ip_of ip ps ≡ ip
unfolding ip_of
ip_of-other ip [] h = refl
ip_of-other ip (ip4 a ∷ ps) (e, h) = cc
ip_of-other ip (ip6 a ∷ ps) (e, h) = cc
ip_of-other ip (other ∷ ps) (e, h) = ip_of-other ip ps h

-- The address of a connection is the last IP component of its multiaddress, whatever stands before it.
pub ip_of-last :
    (ip : Option IpAddr) (ps : List Protocol) (a : ℕ) (qs : List Protocol)
    → All IsOther qs
    → (ip_of ip (ps ++ ip4 a ∷ qs) ≡ some (v4 a)) × (ip_of ip (ps ++ ip6 a ∷ qs) ≡ some (v6 a))
unfolding ip_of
ip_of-last ip [] a qs h = (ip_of-other (some (v4 a)) qs h, ip_of-other (some (v6 a)) qs h)
ip_of-last ip (ip4 b ∷ ps) a qs h = ip_of-last (some (v4 b)) ps a qs h
ip_of-last ip (ip6 b ∷ ps) a qs h = ip_of-last (some (v6 b)) ps a qs h
ip_of-last ip (other ∷ ps) a qs h = ip_of-last ip ps a qs h

-- A turn that is not about the query.
abbrev pub LeavesQuery : ℕ → Turn → Type 0
LeavesQuery id (command none i) = ⊥
LeavesQuery id (command (some (get_record _ _)) i) = i.query_id ≢ id
LeavesQuery id (command (some (lookup_peer _ _)) i) = Unit
LeavesQuery id (command (some (send_proxy_request _ _ _)) i) = Unit
LeavesQuery id (event (query_progressed j _)) = j ≢ id
LeavesQuery id (event _) = Unit

command-get_query :
    (id : ℕ) (cmd : NetworkCommand) (i : Issued) (t : Tables)
    → LeavesQuery id (command (some cmd) i)
    → Map.get (on_command cmd i t).0.pending_queries id ≡ Map.get t.pending_queries id
unfolding on_command
command-get_query id (get_record domain resp) i t h =
    ground (arith, get-insert t.pending_queries i.query_id id resp, nat_eq_iff i.query_id id)
command-get_query id (lookup_peer peer resp) i t h = ground arith
command-get_query id (send_proxy_request peer req resp) i t h = refl

event-get_query :
    (id : ℕ) (ev : SwarmEvent) (t : Tables)
    → LeavesQuery id (event ev)
    → Map.get (on_event ev t).0.pending_queries id ≡ Map.get t.pending_queries id
unfolding on_event
event-get_query id (query_progressed j result) t h =
    ground (arith, get-remove t.pending_queries j id, nat_eq_iff j id)
event-get_query id (outgoing_connection_error none) t h = refl
event-get_query id (outgoing_connection_error (some p)) t h = refl
event-get_query id (response_message _ _) t h = refl
event-get_query id request_message t h = refl
event-get_query id (outbound_failure _) t h = refl
event-get_query id (connection_established _ _) t h = refl
event-get_query id identify_event t h = refl
event-get_query id other_event t h = refl

abbrev pub Ends : List Output → Output → Type 0
Ends outs o = (os : List Output) × (outs ≡ os ++ o ∷ [])

pub Ends-append : (os rest : List Output) (o : Output) → Ends rest o → Ends (os ++ rest) o
Ends-append os rest o (xs, e) =
    (os ++ xs, ap (λ (l : List Output). os ++ l) e ∙ sym (append_assoc os xs (o ∷ [])))

progressed-Ends :
    (id resp : ℕ) (result : QueryResult) (t : Tables) (turns : List Turn)
    → All (LeavesQuery id) turns
    → Map.get t.pending_queries id ≡ some resp
    → Ends
        (run_from t (turns ++ event (query_progressed id result) ∷ [])).1
        (sent resp (record_value (value_of result)))
unfolding run_from
progressed-Ends id resp result t [] h e = unfold on_event in ([], rw e refl)
progressed-Ends id resp result t (command none i ∷ turns) (f, h) e = absurd f
progressed-Ends id resp result t (command (some cmd) i ∷ turns) (f, h) e =
    Ends-append (on_command cmd i t).1 _ (sent resp (record_value (value_of result))) (
      progressed-Ends id resp result (on_command cmd i t).0 turns h
        (command-get_query id cmd i t f ∙ e))
progressed-Ends id resp result t (event ev ∷ turns) (f, h) e =
    Ends-append (on_event ev t).1 _ (sent resp (record_value (value_of result)))
      (progressed-Ends id resp result (on_event ev t).0 turns h (event-get_query id ev t f ∙ e))

-- The first progress of a query answers the responder that asked for the record: with the value, if it is
-- a found record, and with none otherwise, whatever other commands and events come in between.
pub get_record-answered :
    (domain : Str) (resp : ℕ) (i : Issued) (t : Tables) (turns : List Turn) (result : QueryResult)
    → All (LeavesQuery i.query_id) turns
    → Ends
        (run_from t (
          command (some (get_record domain resp)) i
          ∷ (turns ++ event (query_progressed i.query_id result) ∷ []))).1
        (sent resp (record_value (value_of result)))
unfolding run_from
get_record-answered domain resp i t turns result h =
    Ends-append (on_command (get_record domain resp) i t).1 _
      (sent resp (record_value (value_of result)))
      (progressed-Ends i.query_id resp result (on_command (get_record domain resp) i t).0 turns h
        (unfold on_command in get-insert_self t.pending_queries i.query_id resp))

-- What comes in for a query, a dial or a request that has been answered is ignored.
pub answered_once :
    (id peer request : ℕ) (first second : QueryResult) (remote : List Protocol)
    (res : ProxyResponse) (t : Tables)
    → ((on_event (query_progressed id second) (on_event (query_progressed id first) t).0).1 ≡ [])
      × ((on_event
            (connection_established peer remote)
            (on_event (outgoing_connection_error (some peer)) t).0).1
          ≡ [])
      × ((on_event (response_message request res) (on_event (outbound_failure request) t).0).1 ≡ [])
unfolding on_event
answered_once id peer request first second remote res t = (
  rw (get-remove t.pending_queries id id, nat_eq_true id) refl,
  rw (get-remove t.pending_dials peer peer, nat_eq_true peer) refl,
  rw (get-remove t.pending_requests request request, nat_eq_true request) refl,
)
  where
    nat_eq_true : (n : ℕ) → nat_eq n n ≡ true
    nat_eq_true n = ground arith
