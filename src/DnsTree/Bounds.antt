-- ===== src/DnsTree/Bounds.antt =====
-- The walk is bounded: twenty lookups at most, each of another branch, and an answer more than the
-- limit of addresses at most.
use kinetic_atlas.Base.{
  ℕ, ◌+◌, ◌≤◌, ◌≡◌, ◌⊎◌, inl, inr, refl, Option, none, List, [], length, Distinct, In-contains,
  arith,
}
use kinetic_atlas.Text.{Str, Str_eq}
use kinetic_atlas.DnsTree.{TxtRecords, branch_texts, explore, max_lookups, scan_root, texts}
use kinetic_atlas.DnsTree.Walk.{Keeps, walk_root-Ended}
use kinetic_atlas.DnsTree.Read.{length-read_texts}

module _ {Multiaddr : Type 0} (parse : Str → Option Multiaddr)
    (txt_lookup : Str → Option TxtRecords) (domain : Str) where
  abbrev Counted : ℕ → List Str → List Str → List Multiaddr → Type 0
  Counted left stack visited addrs = (left + length visited ≡ max_lookups) × Distinct visited

  Counted-Keeps : Keeps parse txt_lookup domain Counted
  Counted-Keeps = record {
    skip = λ left hash stack visited addrs h old. h;
    look = λ left hash stack visited addrs h new room.
        (omega arith, ((λ k. cc (new, In-contains visited hash k)), h.1));
  }

  -- Whatever the answers, at most twenty branches are looked up, and no branch twice.
  pub explore_bounded :
      (root_records : TxtRecords)
      → (length (explore parse txt_lookup domain root_records).visited ≤ 20)
        × Distinct (explore parse txt_lookup domain root_records).visited
  unfolding explore
  explore_bounded root_records =
      let s = scan_root parse (texts root_records) (record { root_hash = none; addrs = [] }) in
      let w =
        walk_root-Ended parse txt_lookup domain Counted Counted-Keeps s (λ _. (refl, tt))
          (λ _ _. (refl, tt)) in
      let (count, distinct) = w.kept in (omega arith, distinct)

  module _ (most : ℕ)
      (short : (hash : Str) → length (branch_texts parse txt_lookup domain hash) ≤ most)
      (flat : List Multiaddr) where
    abbrev Few : ℕ → List Str → List Str → List Multiaddr → Type 0
    Few left stack visited addrs = (length addrs ≤ length flat) ⊎ (length addrs ≤ 49 + most)

    Few-Keeps : Keeps parse txt_lookup domain Few
    Few-Keeps = record {
      skip = λ left hash stack visited addrs h old. h;
      look = λ left hash stack visited addrs h new room. inr (
          omega (
            arith,
            short hash,
            length-read_texts parse (branch_texts parse txt_lookup domain hash)
                (record { stack = stack; addrs = addrs }),
          ));
    }

  -- Where no branch has more than `most` texts, there are no more addresses than the root answer has,
  -- or at most 49 and `most`.
  pub explore-addrs_bounded :
      (root_records : TxtRecords) (most : ℕ)
      → ((hash : Str) → length (branch_texts parse txt_lookup domain hash) ≤ most)
      → (length (explore parse txt_lookup domain root_records).addrs
          ≤ length
              (scan_root parse
                (texts root_records)
                (record { root_hash = none; addrs = [] })).addrs)
        ⊎ (length (explore parse txt_lookup domain root_records).addrs ≤ 49 + most)
  unfolding explore
  explore-addrs_bounded root_records most short =
      let s = scan_root parse (texts root_records) (record { root_hash = none; addrs = [] }) in
      let few = Few most short s.addrs in
      let w =
        walk_root-Ended parse txt_lookup domain few (Few-Keeps most short s.addrs) s
          (λ _. inl (omega arith)) (λ _ _. inl (omega arith)) in
      w.kept
