-- ===== src/Network/Channel/Replies.antt =====
-- src/proxy.rs, src/network.rs: until when the handler waits for what it asked the node for.
use kinetic_atlas.Base.{
  ℕ, ◌+◌, ◌≤◌, ◌≡◌, ◌⊎◌, inl, inr, refl, true, arith, none, some, List, [], ◌∷◌, Option-cases, zero,
  suc,
}
use kinetic_atlas.Text.{Bytes}
use kinetic_atlas.Network.Loop.{Output, sent, dropped, record_value, address, response}
use kinetic_atlas.Network.Loop.Accounts.{waits, settled}
use kinetic_atlas.Network.Loop.Replies.{received}
use kinetic_atlas.Proxy.Outside.{Reply}
use kinetic_atlas.Network.Channel.{Line, Reach}
use kinetic_atlas.Network.Channel.Accounts.{asks, Reach-IsAccounted}
use kinetic_atlas.Network.Channel.Refines.{IsOver, Reach-Standing}

-- An await that goes on, and one that is over.
received-none : (r : ℕ) (os : List Output) → settled r os ≡ 0 → received r os ≡ none
unfolding received
received-none r [] h = refl
received-none r (sent s (record_value v) ∷ os) h = ground (arith, received-none r os)
received-none r (sent s (address _) ∷ os) h = ground (arith, received-none r os)
received-none r (sent s (response _) ∷ os) h = ground (arith, received-none r os)
received-none r (dropped s ∷ os) h = ground (arith, received-none r os)

none-received : (r : ℕ) (os : List Output) → received r os ≡ none → settled r os ≡ 0
unfolding received
none-received r [] h = refl
none-received r (sent s (record_value v) ∷ os) h = ground (arith, none-received r os)
none-received r (sent s (address _) ∷ os) h = ground (arith, none-received r os)
none-received r (sent s (response _) ∷ os) h = ground (arith, none-received r os)
none-received r (dropped s ∷ os) h = ground (arith, none-received r os)

-- The command stands in the queue or waits in a table of the loop, and its handler waits for it; or it does
-- neither, and the handler has a reply.
pub data Awaited (r : ℕ) (l : Line) : Type 0 where
  goes_on :
      l.running ≡ true
      → asks r l.queue + waits r l.tables ≡ 1
      → received r l.outputs ≡ none
      → Awaited r l
  over :
      (reply : Reply Bytes)
      → asks r l.queue + waits r l.tables ≡ 0
      → received r l.outputs ≡ some reply
      → Awaited r l

over-idle : (r : ℕ) (l : Line) → IsOver l → asks r l.queue + waits r l.tables ≡ 0
over-idle r l o = rw (o.empty, o.tables_are) refl

-- The handler that has sent a command with a responder of its own waits exactly as long as the command
-- stands in the queue or in a table of the loop, which it does only while the loop runs: once the node has
-- ended, every handler has its reply, if only that its responder was dropped.
pub Reach-Awaited : (l : Line) → Reach l → (r : ℕ) → asks r l.log ≡ 1 → Awaited r l
Reach-Awaited l reach r once =
    let account = (Reach-IsAccounted l reach).account r in
    elim (Option-cases (received r l.outputs)) [
      | inl n ↦
          let unsettled = none-received r l.outputs n in
          elim (Reach-Standing l reach) [
            | inl live ↦ goes_on live.runs (omega arith) n
            | inr o ↦ let idle = over-idle r l o in absurd (omega arith)
          ]
      | inr (reply, s) ↦
          over reply
            (elim (Nat-cases (settled r l.outputs)) [
              | inl none_settled ↦ absurd (ground (arith, received-none r l.outputs none_settled))
              | inr one ↦ omega arith
            ])
            s
    ]
  where
    Nat-cases : (n : ℕ) → (n ≡ 0) ⊎ (1 ≤ n)
    Nat-cases zero = inl refl
    Nat-cases (suc n) = inr (omega arith)
