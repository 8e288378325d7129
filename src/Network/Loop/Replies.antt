-- ===== src/Network/Loop/Replies.antt =====
-- src/network.rs, src/proxy.rs: what the handler receives for a command, by the outputs of the loop.
use kinetic_atlas.Base.{
  ℕ, ◌≡◌, refl, ap, ◌∙◌, true, Option, none, some, List, [], ◌∷◌, ◌++◌, arith, if◌then◌else◌, ℕ_eq,
  nat_eq, nat_eq_iff, All,
}
use kinetic_atlas.Text.{Str, Bytes}
use kinetic_atlas.Network.{get_record}
use kinetic_atlas.Network.Loop.{
  Turn, command, event, Output, sent, dropped, Issued, QueryResult, SwarmEvent, query_progressed,
  record_value, address, response, Tables, run_from, value_of,
}
use kinetic_atlas.Network.Loop.Pending.{hit}
use kinetic_atlas.Network.Loop.Accounts.{
  IsTidy, waits, settled, issued, settled-append, run_from_accounts,
}
use kinetic_atlas.Network.Loop.Answers.{LeavesQuery, get_record-answered}
use kinetic_atlas.Proxy.Outside.{Reply, lost, answered}

-- `rx.await` of the receiver whose sender is the responder: the payload that is sent first, or the error
-- that it was dropped. `none` stands for an await that goes on. The payloads of the other two commands do
-- not come to a receiver of a record; they end the await here.
unfoldable pub received : ℕ → List Output → Option (Reply Bytes)
received r [] = none
received r (sent s (record_value value) ∷ os) =
    let rest = received r os in if nat_eq r s then some (answered value) else rest
received r (sent s (address _) ∷ os) =
    let rest = received r os in if nat_eq r s then some lost else rest
received r (sent s (response _) ∷ os) =
    let rest = received r os in if nat_eq r s then some lost else rest
received r (dropped s ∷ os) = let rest = received r os in if nat_eq r s then some lost else rest

-- The last output is received by a responder that is settled only once.
received-last :
    (r : ℕ) (os : List Output) (value : Option Bytes)
    → settled r os ≡ 0
    → received r (os ++ sent r (record_value value) ∷ []) ≡ some (answered value)
unfolding received
received-last r [] value h = ground (arith, nat_eq_iff r r)
received-last r (sent s (record_value v) ∷ os) value h = ground (arith, received-last r os value)
received-last r (sent s (address _) ∷ os) value h = ground (arith, received-last r os value)
received-last r (sent s (response _) ∷ os) value h = ground (arith, received-last r os value)
received-last r (dropped s ∷ os) value h = ground (arith, received-last r os value)

pub issued-event :
    (r : ℕ) (turns : List Turn) (ev : SwarmEvent)
    → issued r (turns ++ event ev ∷ []) ≡ issued r turns
issued-event r [] ev = refl
issued-event r (command none i ∷ turns) ev = refl
issued-event r (command (some cmd) i ∷ turns) ev = omega (arith, issued-event r turns ev)
issued-event r (event _ ∷ turns) ev = issued-event r turns ev

-- The handler that asks for a record, with a responder that neither waits nor comes in again, receives
-- what the first progress of the query brings: its value, if it is a found record, and none otherwise,
-- whatever other commands and events come in between, as long as the channel stays open.
pub get_record-received :
    (domain : Str) (resp : ℕ) (i : Issued) (t : Tables) (turns : List Turn) (result : QueryResult)
    → IsTidy t
    → waits resp t ≡ 0
    → issued resp turns ≡ 0
    → All (LeavesQuery i.query_id) turns
    → received resp
        (run_from t (
          command (some (get_record domain resp)) i
          ∷ (turns ++ event (query_progressed i.query_id result) ∷ []))).1
      ≡ some (answered (value_of result))
get_record-received domain resp i t turns result tidy fresh once leaves =
    let all =
      command (some (get_record domain resp)) i
      ∷ (turns ++ event (query_progressed i.query_id result) ∷ []) in
    let (os, ends) = get_record-answered domain resp i t turns result leaves in
    let account = run_from_accounts resp t all tidy in
    let outs =
      ap (settled resp) ends
      ∙ settled-append resp os (sent resp (record_value (value_of result)) ∷ []) in
    let self : nat_eq resp resp ≡ true = (nat_eq_iff resp resp).1 refl in
    let one : hit resp resp ≡ 1 = rw self refl in
    let none_before : settled resp os ≡ 0 =
      omega
        (arith, account, outs, one, issued-event resp turns (query_progressed i.query_id result)) in
    ap (received resp) ends ∙ received-last resp os (value_of result) none_before
