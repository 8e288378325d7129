-- ===== src/Network/Loop.antt =====
-- src/network.rs: the event loop of a node. Each turn takes a command or an event of the swarm, and
-- answers responders. The identifiers that the swarm gives out come with the command.
pub mod Pending
pub mod Accounts
pub mod Answers
pub mod Replies
pub mod Responses
use kinetic_atlas.Base.{
  ℕ, Bool, true, false, Option, none, some, List, [], ◌∷◌, ◌++◌, if◌then◌else◌, Eq, ℕ_eq,
}
use kinetic_atlas.Base.Map
use kinetic_atlas.Base.Map.{Map}
use kinetic_atlas.Text.{Str, Bytes}
use kinetic_atlas.Types.{ProxyRequest, ProxyResponse}
use kinetic_atlas.Network.{NetworkCommand, get_record, lookup_peer, send_proxy_request}

-- A component of a multiaddress.
pub data Protocol : Type 0 where
  ip4 ip6 : ℕ → Protocol
  other : Protocol

pub data IpAddr : Type 0 where
  v4 v6 : ℕ → IpAddr

-- What a responder is sent.
pub data Payload : Type 0 where
  record_value : Option Bytes → Payload
  address : Option IpAddr → Payload
  response : Option ProxyResponse → Payload

-- A responder is sent a payload, or dropped without one when a later responder takes its place.
pub data Output : Type 0 where
  sent : (resp : ℕ) → Payload → Output
  dropped : (resp : ℕ) → Output

-- The three tables, from the swarm's identifiers to responders; a peer is a number.
pub record Tables : Type 0 where
  pub pending_queries : Map ℕ ℕ
  pub pending_dials : Map ℕ ℕ
  pub pending_requests : Map ℕ ℕ

-- What the swarm returns to the calls that a command makes.
pub record Issued : Type 0 where
  -- `kad.get_record(key)` and `request_response.send_request(…)`
  pub query_id : ℕ
  pub request_id : ℕ
  -- `peer_id_str.parse::<PeerId>()`
  pub parsed_peer : Option ℕ
  -- `swarm.dial(peer_id).is_ok()`, as the swarm says: it may refuse a peer that is being dialled.
  pub dial_ok : Bool

pub data QueryResult : Type 0 where
  found_record : Bytes → QueryResult
  other_result : QueryResult

pub data SwarmEvent : Type 0 where
  query_progressed : (id : ℕ) → QueryResult → SwarmEvent
  response_message : (request_id : ℕ) → ProxyResponse → SwarmEvent
  request_message : SwarmEvent
  outbound_failure : (request_id : ℕ) → SwarmEvent
  connection_established : (peer_id : ℕ) (remote : List Protocol) → SwarmEvent
  outgoing_connection_error : (peer_id : Option ℕ) → SwarmEvent
  identify_event : SwarmEvent
  other_event : SwarmEvent

-- `none` is a command channel that was closed.
pub data Turn : Type 0 where
  command : Option NetworkCommand → Issued → Turn
  event : SwarmEvent → Turn

-- The last address among the components.
unfoldable pub ip_of : Option IpAddr → List Protocol → Option IpAddr
ip_of ip [] = ip
ip_of ip (ip4 a ∷ ps) = ip_of (some (v4 a)) ps
ip_of ip (ip6 a ∷ ps) = ip_of (some (v6 a)) ps
ip_of ip (other ∷ ps) = ip_of ip ps

-- `HashMap::insert` drops the value that it replaces.
abbrev pub replaced : Option ℕ → List Output
replaced none = []
replaced (some resp) = dropped resp ∷ []

-- `if let Some(resp_tx) = table.remove(&id) { resp_tx.send(payload) }`
abbrev pub answer : Option ℕ → Payload → List Output
answer none payload = []
answer (some resp) payload = sent resp payload ∷ []

unfoldable pub on_command : NetworkCommand → Issued → Tables → Tables × List Output
on_command (get_record domain resp) i t = (
  record t { pending_queries = Map.insert t.pending_queries i.query_id resp },
  replaced (Map.get t.pending_queries i.query_id),
)
on_command (lookup_peer peer_id_str resp) i t = elim i.parsed_peer [
  | none ↦ (t, sent resp (address none) ∷ [])
  | some peer_id ↦
      if i.dial_ok
      then (
        record t { pending_dials = Map.insert t.pending_dials peer_id resp },
        replaced (Map.get t.pending_dials peer_id),
      )
      else (t, sent resp (address none) ∷ [])
]
on_command (send_proxy_request peer_id request resp) i t = (
  record t { pending_requests = Map.insert t.pending_requests i.request_id resp },
  replaced (Map.get t.pending_requests i.request_id),
)

abbrev pub value_of : QueryResult → Option Bytes
value_of (found_record value) = some value
value_of other_result = none

abbrev pub end_query : ℕ → Payload → Tables → Tables × List Output
end_query id payload t = (
  record t { pending_queries = Map.remove t.pending_queries id },
  answer (Map.get t.pending_queries id) payload,
)

abbrev pub end_dial : ℕ → Payload → Tables → Tables × List Output
end_dial peer_id payload t = (
  record t { pending_dials = Map.remove t.pending_dials peer_id },
  answer (Map.get t.pending_dials peer_id) payload,
)

abbrev pub end_request : ℕ → Payload → Tables → Tables × List Output
end_request request_id payload t = (
  record t { pending_requests = Map.remove t.pending_requests request_id },
  answer (Map.get t.pending_requests request_id) payload,
)

unfoldable pub on_event : SwarmEvent → Tables → Tables × List Output
unfolding ip_of
on_event (query_progressed id result) t = end_query id (record_value (value_of result)) t
on_event (response_message request_id res) t = end_request request_id (response (some res)) t
on_event request_message t = (t, [])
on_event (outbound_failure request_id) t = end_request request_id (response none) t
on_event (connection_established peer_id remote) t =
    end_dial peer_id (address (ip_of none remote)) t
on_event (outgoing_connection_error none) t = (t, [])
on_event (outgoing_connection_error (some peer_id)) t = end_dial peer_id (address none) t
on_event identify_event t = (t, [])
on_event other_event t = (t, [])

abbrev pub no_tables : Tables
no_tables = record { pending_queries = []; pending_dials = []; pending_requests = [] }

-- The loop of `run`: the tables and all outputs, up to the turn that closes the channel.
unfoldable pub run_from : Tables → List Turn → Tables × List Output
run_from t [] = (t, [])
run_from t (command none i ∷ turns) = (t, [])
run_from t (command (some cmd) i ∷ turns) =
    let rest = run_from (on_command cmd i t).0 turns in (rest.0, (on_command cmd i t).1 ++ rest.1)
run_from t (event ev ∷ turns) =
    let rest = run_from (on_event ev t).0 turns in (rest.0, (on_event ev t).1 ++ rest.1)

unfoldable pub run : List Turn → Tables × List Output
unfolding run_from on_command on_event
run turns = run_from no_tables turns
