-- ===== src/Network/Loop/Responses.antt =====
-- src/network.rs, src/proxy.rs: what the handler receives for a request that it sends to a peer.
use kinetic_atlas.Base.{
  ℕ, ◌≡◌, ◌≢◌, refl, ap, ◌∙◌, true, Option, none, some, List, [], ◌∷◌, ◌++◌, arith, if◌then◌else◌,
  ℕ_eq, nat_eq, nat_eq_iff, All,
}
use kinetic_atlas.Base.Map
use kinetic_atlas.Base.Map.{get-remove, get-insert, get-insert_self}
use kinetic_atlas.Types.{ProxyRequest, ProxyResponse}
use kinetic_atlas.Network.{NetworkCommand, get_record, lookup_peer, send_proxy_request}
use kinetic_atlas.Network.Loop.{
  Turn, command, event, Output, sent, dropped, Issued, SwarmEvent, query_progressed,
  response_message, request_message, outbound_failure, connection_established,
  outgoing_connection_error, identify_event, other_event, record_value, address, response, Tables,
  on_command, on_event, run_from,
}
use kinetic_atlas.Network.Loop.Pending.{hit}
use kinetic_atlas.Network.Loop.Accounts.{
  IsTidy, waits, settled, issued, settled-append, run_from_accounts,
}
use kinetic_atlas.Network.Loop.Answers.{Ends, Ends-append}
use kinetic_atlas.Network.Loop.Replies.{issued-event}
use kinetic_atlas.Proxy.Outside.{Reply, lost, answered}

-- `rx.await` for a request to a peer: the payload that is sent first, or the error that the responder was
-- dropped. `none` stands for an await that goes on.
unfoldable pub received_response : ℕ → List Output → Option (Reply ProxyResponse)
received_response r [] = none
received_response r (sent s (response value) ∷ os) =
    let rest = received_response r os in if nat_eq r s then some (answered value) else rest
received_response r (sent s (address _) ∷ os) =
    let rest = received_response r os in if nat_eq r s then some lost else rest
received_response r (sent s (record_value _) ∷ os) =
    let rest = received_response r os in if nat_eq r s then some lost else rest
received_response r (dropped s ∷ os) =
    let rest = received_response r os in if nat_eq r s then some lost else rest

received_response-last :
    (r : ℕ) (os : List Output) (value : Option ProxyResponse)
    → settled r os ≡ 0
    → received_response r (os ++ sent r (response value) ∷ []) ≡ some (answered value)
unfolding received_response
received_response-last r [] value h = ground (arith, nat_eq_iff r r)
received_response-last r (sent s (record_value v) ∷ os) value h =
    ground (arith, received_response-last r os value)
received_response-last r (sent s (address _) ∷ os) value h =
    ground (arith, received_response-last r os value)
received_response-last r (sent s (response _) ∷ os) value h =
    ground (arith, received_response-last r os value)
received_response-last r (dropped s ∷ os) value h =
    ground (arith, received_response-last r os value)

-- How a request to a peer ends: with a response, or with a failure.
abbrev pub ending : ℕ → Option ProxyResponse → SwarmEvent
ending id (some res) = response_message id res
ending id none = outbound_failure id

-- A turn that is not about the request.
abbrev pub LeavesRequest : ℕ → Turn → Type 0
LeavesRequest id (command none i) = ⊥
LeavesRequest id (command (some (send_proxy_request _ _ _)) i) = i.request_id ≢ id
LeavesRequest id (command (some (get_record _ _)) i) = Unit
LeavesRequest id (command (some (lookup_peer _ _)) i) = Unit
LeavesRequest id (event (response_message j _)) = j ≢ id
LeavesRequest id (event (outbound_failure j)) = j ≢ id
LeavesRequest id (event _) = Unit

command-get_request :
    (id : ℕ) (cmd : NetworkCommand) (i : Issued) (t : Tables)
    → LeavesRequest id (command (some cmd) i)
    → Map.get (on_command cmd i t).0.pending_requests id ≡ Map.get t.pending_requests id
unfolding on_command
command-get_request id (send_proxy_request peer req resp) i t h =
    ground (arith, get-insert t.pending_requests i.request_id id resp, nat_eq_iff i.request_id id)
command-get_request id (lookup_peer peer resp) i t h = ground arith
command-get_request id (get_record domain resp) i t h = refl

event-get_request :
    (id : ℕ) (ev : SwarmEvent) (t : Tables)
    → LeavesRequest id (event ev)
    → Map.get (on_event ev t).0.pending_requests id ≡ Map.get t.pending_requests id
unfolding on_event
event-get_request id (response_message j _) t h =
    ground (arith, get-remove t.pending_requests j id, nat_eq_iff j id)
event-get_request id (outbound_failure j) t h =
    ground (arith, get-remove t.pending_requests j id, nat_eq_iff j id)
event-get_request id (query_progressed _ _) t h = refl
event-get_request id (outgoing_connection_error none) t h = refl
event-get_request id (outgoing_connection_error (some p)) t h = refl
event-get_request id request_message t h = refl
event-get_request id (connection_established _ _) t h = refl
event-get_request id identify_event t h = refl
event-get_request id other_event t h = refl

ending-Ends :
    (id resp : ℕ) (value : Option ProxyResponse) (t : Tables) (turns : List Turn)
    → All (LeavesRequest id) turns
    → Map.get t.pending_requests id ≡ some resp
    → Ends (run_from t (turns ++ event (ending id value) ∷ [])).1 (sent resp (response value))
unfolding run_from
ending-Ends id resp none t [] h e = unfold on_event in ([], rw e refl)
ending-Ends id resp (some res) t [] h e = unfold on_event in ([], rw e refl)
ending-Ends id resp value t (command none i ∷ turns) (f, h) e = absurd f
ending-Ends id resp value t (command (some cmd) i ∷ turns) (f, h) e =
    Ends-append (on_command cmd i t).1 _ (sent resp (response value)) (
      ending-Ends id resp value (on_command cmd i t).0 turns h
        (command-get_request id cmd i t f ∙ e))
ending-Ends id resp value t (event ev ∷ turns) (f, h) e =
    Ends-append (on_event ev t).1 _ (sent resp (response value))
      (ending-Ends id resp value (on_event ev t).0 turns h (event-get_request id ev t f ∙ e))

send_proxy_request-answered :
    (peer : ℕ) (req : ProxyRequest) (resp : ℕ) (i : Issued) (t : Tables) (turns : List Turn)
    (value : Option ProxyResponse)
    → All (LeavesRequest i.request_id) turns
    → Ends
        (run_from t (
          command (some (send_proxy_request peer req resp)) i
          ∷ (turns ++ event (ending i.request_id value) ∷ []))).1
        (sent resp (response value))
unfolding run_from
send_proxy_request-answered peer req resp i t turns value h =
    Ends-append (on_command (send_proxy_request peer req resp) i t).1 _ (sent resp (response value))
      (ending-Ends i.request_id resp value (on_command (send_proxy_request peer req resp) i t).0
        turns h (unfold on_command in get-insert_self t.pending_requests i.request_id resp))

-- The handler that sends a request to a peer, with a responder that neither waits nor comes in again,
-- receives the response that the request ends with, or none where it fails, whatever other commands and
-- events come in between, as long as the channel stays open.
pub send_proxy_request-received :
    (peer : ℕ) (req : ProxyRequest) (resp : ℕ) (i : Issued) (t : Tables) (turns : List Turn)
    (value : Option ProxyResponse)
    → IsTidy t
    → waits resp t ≡ 0
    → issued resp turns ≡ 0
    → All (LeavesRequest i.request_id) turns
    → received_response resp
        (run_from t (
          command (some (send_proxy_request peer req resp)) i
          ∷ (turns ++ event (ending i.request_id value) ∷ []))).1
      ≡ some (answered value)
send_proxy_request-received peer req resp i t turns value tidy fresh once leaves =
    let all =
      command (some (send_proxy_request peer req resp)) i
      ∷ (turns ++ event (ending i.request_id value) ∷ []) in
    let (os, ends) = send_proxy_request-answered peer req resp i t turns value leaves in
    let account = run_from_accounts resp t all tidy in
    let outs = ap (settled resp) ends ∙ settled-append resp os (sent resp (response value) ∷ []) in
    let self : nat_eq resp resp ≡ true = (nat_eq_iff resp resp).1 refl in
    let one : hit resp resp ≡ 1 = rw self refl in
    let none_before : settled resp os ≡ 0 =
      omega (arith, account, outs, one, issued-event resp turns (ending i.request_id value)) in
    ap (received_response resp) ends ∙ received_response-last resp os value none_before
