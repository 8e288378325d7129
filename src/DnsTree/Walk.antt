-- ===== src/DnsTree/Walk.antt =====
-- The induction rule of the walk: what every round keeps holds when the walk ends.
use kinetic_atlas.Base.{
  ℕ, zero, suc, ◌≤◌, ◌<◌, ◌≡◌, ◌⊎◌, inl, inr, refl, true, false, Option, List, [], ◌∷◌, length,
  contains, leb, arith, Bool-cases, Option-cases, none, some,
}
use kinetic_atlas.Text.{Str, Str_eq}
use kinetic_atlas.DnsTree.{
  Branches, Scan, TxtRecords, Walked, branch_texts, max_addrs, max_lookups, read_texts, walk,
  walk_root,
}

module _ {Multiaddr : Type 0} (parse : Str → Option Multiaddr)
    (txt_lookup : Str → Option TxtRecords) (domain : Str) where
  -- The stack and the addresses after the branch `hash` is read.
  abbrev pub after : Str → List Str → List Multiaddr → Branches parse
  after hash stack addrs =
      read_texts parse (branch_texts parse txt_lookup domain hash)
        (record { stack = stack; addrs = addrs })

  module _ (P : ℕ → List Str → List Str → List Multiaddr → Type 0) where
    pub record Keeps : Type 0 where
      pub skip :
          (left : ℕ) (hash : Str) (stack visited : List Str) (addrs : List Multiaddr)
          → P (suc left) (hash ∷ stack) visited addrs
          → contains visited hash ≡ true
          → P (suc left) stack visited addrs
      pub look :
          (left : ℕ) (hash : Str) (stack visited : List Str) (addrs : List Multiaddr)
          → P (suc left) (hash ∷ stack) visited addrs
          → contains visited hash ≡ false
          → length addrs < max_addrs
          → P left (after hash stack addrs).stack (hash ∷ visited) (after hash stack addrs).addrs

    -- The end of a walk: what is left on the stack, and why it ended.
    pub record Ended (w : Walked parse txt_lookup domain) : Type 0 where
      pub stack : List Str
      pub kept : P w.left stack w.visited w.addrs
      pub reason : (stack ≡ []) ⊎ ((w.left ≡ 0) ⊎ (max_addrs ≤ length w.addrs))

    module _ (keeps : Keeps) where
      pub walk-Ended :
          (left : ℕ) (stack visited : List Str) (addrs : List Multiaddr)
          → P left stack visited addrs
          → Ended (walk parse txt_lookup domain left stack visited addrs)
      unfolding walk
      walk-Ended zero [] visited addrs h = record { stack = []; kept = h; reason = inl refl }
      walk-Ended (suc left) [] visited addrs h = record { stack = []; kept = h; reason = inl refl }
      walk-Ended zero (hash ∷ stack) visited addrs h = record {
        stack = hash ∷ stack;
        kept = h;
        reason = inr (inl refl);
      }
      walk-Ended (suc left) (hash ∷ stack) visited addrs h =
          elim (Bool-cases (leb max_addrs (length addrs))) [
            | inl full ↦
                let h' : max_addrs ≤ length addrs = ground arith in
                rw full (record { stack = hash ∷ stack; kept = h; reason = inr (inr h') })
            | inr room ↦
                let h' : length addrs < max_addrs = ground arith in
                elim (Bool-cases (contains visited hash)) [
                  | inl old ↦
                      rw (room, old)
                        (walk-Ended (suc left) stack visited addrs
                          (keeps.skip left hash stack visited addrs h old))
                  | inr new ↦
                      rw (room, new)
                        (walk-Ended left (after hash stack addrs).stack (hash ∷ visited)
                          (after hash stack addrs).addrs
                          (keeps.look left hash stack visited addrs h new h'))
                ]
          ]

      -- The same for the whole exploration, from what the root answer gave.
      pub walk_root-Ended :
          (s : Scan parse)
          → (s.root_hash ≡ none → P max_lookups [] [] s.addrs)
          → ((hash : Str) → s.root_hash ≡ some hash → P max_lookups (hash ∷ []) [] s.addrs)
          → Ended (walk_root parse txt_lookup domain s)
      walk_root-Ended s without with_root = elim (Option-cases s.root_hash) [
        | inl e ↦ rw (e, walk_root) (record { stack = []; kept = without e; reason = inl refl })
        | inr (hash, e) ↦
            rw (e, walk_root) (walk-Ended max_lookups (hash ∷ []) [] s.addrs (with_root hash e))
      ]
