-- ===== src/Network/Loop/Accounts.antt =====
-- No responder is lost: each one that comes in waits in a table, or has been answered or dropped.
use kinetic_atlas.Base.{
  ℕ, ◌+◌, ◌≡◌, refl, Option, none, some, List, [], ◌∷◌, ◌++◌, arith, Bool-cases, Option-cases, inl,
  inr, ℕ_eq,
}
use kinetic_atlas.Base.Map
use kinetic_atlas.Base.Map.Keys.{IsFunctional, remove-IsFunctional, insert-IsFunctional}
use kinetic_atlas.Network.{NetworkCommand, get_record, lookup_peer, send_proxy_request}
use kinetic_atlas.Network.Loop.{
  Tables, Turn, command, event, Output, sent, dropped, Issued, SwarmEvent, query_progressed,
  response_message, request_message, outbound_failure, connection_established,
  outgoing_connection_error, identify_event, other_event, Payload, address, answer, replaced,
  on_command, on_event, run_from, run, no_tables, end_query, end_dial, end_request,
}
use kinetic_atlas.Network.Loop.Pending.{hit, hit_some, waiting, waiting-remove, waiting-insert}

abbrev pub responder : NetworkCommand → ℕ
responder (get_record _ resp) = resp
responder (lookup_peer _ resp) = resp
responder (send_proxy_request _ _ resp) = resp

-- How often a responder comes in, up to the turn that closes the channel.
abbrev pub issued : ℕ → List Turn → ℕ
issued r [] = 0
issued r (command none i ∷ turns) = 0
issued r (command (some cmd) i ∷ turns) = hit r (responder cmd) + issued r turns
issued r (event ev ∷ turns) = issued r turns

abbrev pub waits : ℕ → Tables → ℕ
waits r t = waiting r t.pending_queries + waiting r t.pending_dials + waiting r t.pending_requests

abbrev pub out_of : Output → ℕ
out_of (sent resp _) = resp
out_of (dropped resp) = resp

-- How often a responder is answered or dropped.
abbrev pub settled : ℕ → List Output → ℕ
settled r [] = 0
settled r (o ∷ os) = hit r (out_of o) + settled r os

-- No key stands twice in a table.
pub record IsTidy (t : Tables) : Type 0 where
  pub queries : IsFunctional t.pending_queries
  pub dials : IsFunctional t.pending_dials
  pub requests : IsFunctional t.pending_requests

pub settled-append :
    (r : ℕ) (os ps : List Output) → settled r (os ++ ps) ≡ settled r os + settled r ps
settled-append r [] ps = omega arith
settled-append r (o ∷ os) ps = omega (arith, settled-append r os ps)

settled-answer : (r : ℕ) (o : Option ℕ) (p : Payload) → settled r (answer o p) ≡ hit_some r o
settled-answer r none p = refl
settled-answer r (some s) p = omega arith

settled-replaced : (r : ℕ) (o : Option ℕ) → settled r (replaced o) ≡ hit_some r o
settled-replaced r none = refl
settled-replaced r (some s) = omega arith

module _ (r : ℕ) (t : Tables) (h : IsTidy t) where
  pub command_accounts :
      (cmd : NetworkCommand) (i : Issued)
      → waits r (on_command cmd i t).0 + settled r (on_command cmd i t).1
        ≡ waits r t + hit r (responder cmd)
  unfolding on_command
  command_accounts (get_record domain resp) i = omega (
    arith,
    settled-replaced r (Map.get t.pending_queries i.query_id),
    waiting-insert r i.query_id resp t.pending_queries h.queries,
  )
  command_accounts (lookup_peer peer resp) i = elim (Option-cases i.parsed_peer) [
    | inl e ↦ rw (e, on_command) (omega arith)
    | inr (p, e) ↦ elim (Bool-cases i.dial_ok) [
      | inl d ↦
          rw (e, d, on_command)
            (omega (
              arith,
              settled-replaced r (Map.get t.pending_dials p),
              waiting-insert r p resp t.pending_dials h.dials,
            ))
      | inr d ↦ rw (e, d, on_command) (omega arith)
    ]
  ]
  command_accounts (send_proxy_request peer request resp) i = omega (
    arith,
    settled-replaced r (Map.get t.pending_requests i.request_id),
    waiting-insert r i.request_id resp t.pending_requests h.requests,
  )

  query_accounts :
      (id : ℕ) (p : Payload)
      → waits r (end_query id p t).0 + settled r (end_query id p t).1 ≡ waits r t
  query_accounts id p = omega (
    arith,
    settled-answer r (Map.get t.pending_queries id) p,
    waiting-remove r id t.pending_queries h.queries,
  )

  dial_accounts :
      (id : ℕ) (p : Payload)
      → waits r (end_dial id p t).0 + settled r (end_dial id p t).1 ≡ waits r t
  dial_accounts id p = omega (
    arith,
    settled-answer r (Map.get t.pending_dials id) p,
    waiting-remove r id t.pending_dials h.dials,
  )

  request_accounts :
      (id : ℕ) (p : Payload)
      → waits r (end_request id p t).0 + settled r (end_request id p t).1 ≡ waits r t
  request_accounts id p = omega (
    arith,
    settled-answer r (Map.get t.pending_requests id) p,
    waiting-remove r id t.pending_requests h.requests,
  )

  pub event_accounts :
      (ev : SwarmEvent) → waits r (on_event ev t).0 + settled r (on_event ev t).1 ≡ waits r t
  unfolding on_event
  event_accounts (query_progressed id result) = query_accounts id _
  event_accounts (response_message id res) = request_accounts id _
  event_accounts request_message = omega arith
  event_accounts (outbound_failure id) = request_accounts id _
  event_accounts (connection_established id remote) = dial_accounts id _
  event_accounts (outgoing_connection_error none) = omega arith
  event_accounts (outgoing_connection_error (some id)) = dial_accounts id _
  event_accounts identify_event = omega arith
  event_accounts other_event = omega arith

pub command-IsTidy :
    (cmd : NetworkCommand) (i : Issued) (t : Tables) → IsTidy t → IsTidy (on_command cmd i t).0
unfolding on_command
command-IsTidy (get_record domain resp) i t h = record {
  queries = insert-IsFunctional i.query_id resp t.pending_queries h.queries;
  dials = h.dials;
  requests = h.requests;
}
command-IsTidy (lookup_peer peer resp) i t h = elim (Option-cases i.parsed_peer) [
  | inl e ↦ rw (e, on_command) h
  | inr (p, e) ↦ elim (Bool-cases i.dial_ok) [
    | inl d ↦
        rw (e, d, on_command)
          (record {
            queries = h.queries;
            dials = insert-IsFunctional p resp t.pending_dials h.dials;
            requests = h.requests;
          })
    | inr d ↦ rw (e, d, on_command) h
  ]
]
command-IsTidy (send_proxy_request peer request resp) i t h = record {
  queries = h.queries;
  dials = h.dials;
  requests = insert-IsFunctional i.request_id resp t.pending_requests h.requests;
}

query-IsTidy : (id : ℕ) (p : Payload) (t : Tables) → IsTidy t → IsTidy (end_query id p t).0
query-IsTidy id p t h = record {
  queries = remove-IsFunctional id t.pending_queries h.queries;
  dials = h.dials;
  requests = h.requests;
}

dial-IsTidy : (id : ℕ) (p : Payload) (t : Tables) → IsTidy t → IsTidy (end_dial id p t).0
dial-IsTidy id p t h = record {
  queries = h.queries;
  dials = remove-IsFunctional id t.pending_dials h.dials;
  requests = h.requests;
}

request-IsTidy : (id : ℕ) (p : Payload) (t : Tables) → IsTidy t → IsTidy (end_request id p t).0
request-IsTidy id p t h = record {
  queries = h.queries;
  dials = h.dials;
  requests = remove-IsFunctional id t.pending_requests h.requests;
}

pub event-IsTidy : (ev : SwarmEvent) (t : Tables) → IsTidy t → IsTidy (on_event ev t).0
unfolding on_event
event-IsTidy (query_progressed id result) t h = query-IsTidy id (address none) t h
event-IsTidy (response_message id res) t h = request-IsTidy id (address none) t h
event-IsTidy request_message t h = h
event-IsTidy (outbound_failure id) t h = request-IsTidy id (address none) t h
event-IsTidy (connection_established id remote) t h = dial-IsTidy id (address none) t h
event-IsTidy (outgoing_connection_error none) t h = h
event-IsTidy (outgoing_connection_error (some id)) t h = dial-IsTidy id (address none) t h
event-IsTidy identify_event t h = h
event-IsTidy other_event t h = h

pub run_from_accounts :
    (r : ℕ) (t : Tables) (turns : List Turn)
    → IsTidy t
    → waits r (run_from t turns).0 + settled r (run_from t turns).1 ≡ waits r t + issued r turns
unfolding run_from
run_from_accounts r t [] h = omega arith
run_from_accounts r t (command none i ∷ turns) h = omega arith
run_from_accounts r t (command (some cmd) i ∷ turns) h =
    let now = command_accounts r t h cmd i in
    let later = run_from_accounts r (on_command cmd i t).0 turns (command-IsTidy cmd i t h) in
    omega (
      arith,
      now,
      later,
      settled-append r (on_command cmd i t).1 (run_from (on_command cmd i t).0 turns).1,
    )
run_from_accounts r t (event ev ∷ turns) h =
    let now = event_accounts r t h ev in
    let later = run_from_accounts r (on_event ev t).0 turns (event-IsTidy ev t h) in
    omega
      (arith, now, later, settled-append r (on_event ev t).1 (run_from (on_event ev t).0 turns).1)

-- However the loop runs, a responder that came in with the commands waits in a table or has been settled,
-- as often as it came in: none is lost, and none is answered twice.
pub run_accounts :
    (r : ℕ) (turns : List Turn) → waits r (run turns).0 + settled r (run turns).1 ≡ issued r turns
unfolding run
run_accounts r turns =
    let h =
      run_from_accounts r no_tables turns (record { queries = tt; dials = tt; requests = tt }) in
    omega arith
