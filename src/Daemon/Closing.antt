-- ===== src/Daemon/Closing.antt =====
-- A channel that somebody holds a sender of is not closed.
use kinetic_atlas.Base.{
  ℕ, ◌≤◌, ◌<◌, ◌≡◌, ◌⊎◌, inl, inr, Option, none, some, List, [], ◌∷◌, All, arith, Result, ok, err,
  Option-cases, ℕ_eq,
}
use kinetic_atlas.Text.{Str, Str_eq, Bytes}
use kinetic_atlas.Types.{DnsRecord}
use kinetic_atlas.Error.{AtlasError}
use kinetic_atlas.SwarmManager.{Manager, touch, check_and_spawn, with_seeds}
use kinetic_atlas.Proxy.Outside.{HttpRequest, Outside}
use kinetic_atlas.Proxy.Locate.{Located, locate}
use kinetic_atlas.Proxy.Targets.{Attempt, Tried, proxy_request, try_target}
use kinetic_atlas.Proxy.Handler.{ProxyState, prepare}
use kinetic_atlas.Daemon.{
  Phase, arrived, asked, resolving, granted, trying, finished, held, Holds, Task, IsUnheld,
  after_locate, after_touch, after_spawn, after_prepare, after_target, advance,
}
use kinetic_atlas.Daemon.Channels.{IsHandled, IsKnown, touch-Keeps, check_and_spawn-Keeps}

module _ {Reveal Node : Type 0} (node_new : Str → List Str → Result AtlasError Node)
    (resolve : Str → List Str) (world : Outside Reveal) (now : ℕ) (st : ProxyState Node) where
  -- A handler that goes on leaves the channels as `Keeps` says, and has none that it had not, save one
  -- that the manager has.
  pub record Holding (p : Phase) (out : Phase × ProxyState Node) : Type 0 where
    pub handles : (tx : ℕ) → IsHandled out.1.swarms tx → IsKnown st.swarms tx
    pub taken : (tx : ℕ) → held out.0 ≡ some tx → (held p ≡ some tx) ⊎ IsKnown st.swarms tx
    pub grows : st.swarms.next_tx ≤ out.1.swarms.next_tx

  keeps_same :
      (p p' : Phase) → ((tx : ℕ) → held p' ≡ some tx → held p ≡ some tx) → Holding p (p', st)
  keeps_same p p' h = record {
    handles = λ tx q. inl q;
    taken = λ tx q. inl (h tx q);
    grows = omega arith;
  }

  located_none :
      (req : HttpRequest) (l : Result AtlasError Located) (tx : ℕ)
      → held (after_locate req l) ≡ some tx
      → ⊥
  located_none req (err e) tx q = cc
  located_none req (ok loc) tx q = cc

  touched_given :
      (req : HttpRequest) (loc : Located) (given : Option ℕ) (tx : ℕ)
      → held (after_touch req loc given) ≡ some tx
      → given ≡ some tx
  touched_given req loc none tx q = cc
  touched_given req loc (some c) tx q = q

  spawned_given :
      (req : HttpRequest) (loc : Located) (given : Option ℕ) (tx : ℕ)
      → held (after_spawn req loc given) ≡ some tx
      → given ≡ some tx
  spawned_given req loc none tx q = cc
  spawned_given req loc (some c) tx q = q

  prepared_same :
      (req : HttpRequest) (loc : Located) (channel : ℕ)
      (p : Result AtlasError (List DnsRecord × Bytes)) (tx : ℕ)
      → held (after_prepare req loc channel p) ≡ some tx
      → some channel ≡ some tx
  prepared_same req loc channel (err e) tx q = cc
  prepared_same req loc channel (ok (targets, body)) tx q = q

  tried_same :
      (req : HttpRequest) (loc : Located) (channel : ℕ) (body : Bytes) (number : ℕ)
      (left : List DnsRecord) (attempts : List Attempt) (tried : Tried) (tx : ℕ)
      → held (after_target req loc channel body number left attempts tried) ≡ some tx
      → some channel ≡ some tx
  tried_same req loc channel body number left attempts tried tx q =
      elim (Option-cases tried.answer) [
        | inl e ↦ rw e at q
        | inr (r, e) ↦ absurd (ground (arith, rw e at q))
      ]

  pub advance-Holding : (p : Phase) → Holding p (advance node_new resolve world now p st)
  unfolding advance
  advance-Holding (arrived req) =
      keeps_same (arrived req) _
        (λ tx q. absurd (located_none req (locate world.to_str st.registry req) tx q))
  advance-Holding (asked req loc) =
      let k = touch-Keeps now loc.tld st.swarms in
      record {
        handles = k.handles;
        taken =
            λ tx q. inr (k.given tx (touched_given req loc (touch now loc.tld st.swarms).0 tx q));
        grows = k.grows;
      }
  advance-Holding (resolving req loc) =
      let config = with_seeds resolve loc.config in
      let k = check_and_spawn-Keeps node_new now loc.tld config st.swarms in
      record {
        handles = k.handles;
        taken = λ tx q. inr (
            k.given tx (
              spawned_given req loc (check_and_spawn node_new now loc.tld config st.swarms).0 tx
                q));
        grows = k.grows;
      }
  advance-Holding (granted req loc channel) =
      keeps_same (granted req loc channel) _
        (prepared_same req loc channel (prepare world channel loc))
  advance-Holding (trying req loc channel body number [] attempts) =
      keeps_same (trying req loc channel body number [] attempts) _ (λ tx q. absurd (ground arith))
  advance-Holding (trying req loc channel body number (t ∷ left) attempts) =
      keeps_same (trying req loc channel body number (t ∷ left) attempts) _ (
        tried_same req loc channel body number left attempts (
          try_target world st.global_config loc.config channel (proxy_request world.to_str req body)
            number t))
  advance-Holding (finished req attempts result) =
      keeps_same (finished req attempts result) _ (λ tx q. q)

module _ {Reveal Node : Type 0} where
  -- The channel was given out, and nobody has a sender of it.
  pub record IsGone (m : Manager Node) (tasks : List (Task Reveal)) (tx : ℕ) : Type 0 where
    pub below : tx < m.next_tx
    pub unheld : IsUnheld m tasks tx

  IsGone-unhandled :
      (m : Manager Node) (tasks : List (Task Reveal)) (tx : ℕ)
      → IsGone m tasks tx
      → ¬ IsHandled m tx
  IsGone-unhandled m tasks tx g (tld, h, q, same) = g.unheld.handles tld h q same

  pub IsGone-unknown :
      (m : Manager Node) (tasks : List (Task Reveal)) (tx : ℕ) → IsGone m tasks tx → ¬ IsKnown m tx
  IsGone-unknown m tasks tx g (inl q) = IsGone-unhandled m tasks tx g q
  IsGone-unknown m tasks tx g (inr e) = let b = g.below in absurd (omega arith)

  -- A channel stays gone while no handle and no handler gets it.
  pub IsGone-later :
      (m m' : Manager Node) (tasks tasks' : List (Task Reveal)) (tx : ℕ)
      → m.next_tx ≤ m'.next_tx
      → (IsHandled m' tx → IsKnown m tx)
      → All (λ t. ¬ Holds tx t) tasks'
      → IsGone m tasks tx
      → IsGone m' tasks' tx
  IsGone-later m m' tasks tasks' tx le known free g =
      let b = g.below in
      record {
        below = omega arith;
        unheld = record {
          handles = λ tld h q same. IsGone-unknown m tasks tx g (known (tld, h, q, same));
          handlers = free;
        };
      }
