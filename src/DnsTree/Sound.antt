-- ===== src/DnsTree/Sound.antt =====
-- Where the addresses come from: the root answer, or a leaf of a branch that was looked up and that a
-- chain of branch texts leads to from the root hash.
use kinetic_atlas.Base.{
  ℕ, suc, ◌≡◌, ◌⊎◌, inl, inr, refl, true, Option, none, some, List, [], ◌∷◌, In, All, All-append,
  Bool-cases, Option-cases,
}
use kinetic_atlas.Text.{Str, Str_eq, starts_with}
use kinetic_atlas.DnsTree.{
  TxtRecords, Scan, branch_texts, explore, is_flat, push_parsed, root_prefix, scan_root, scan_text,
  texts,
}
use kinetic_atlas.DnsTree.Walk.{Keeps, walk_root-Ended, after}
use kinetic_atlas.DnsTree.Read.{Names, Gives, read_texts-All}

module _ {Multiaddr : Type 0} (parse : Str → Option Multiaddr) where
  -- An address that stands in the root answer itself.
  abbrev pub IsFlatOf : List Str → Multiaddr → Type 0
  IsFlatOf txts ma = (txt : Str) × In txt txts × (is_flat txt ≡ true) × (parse txt ≡ some ma)

  scan_text-All :
      (R : Multiaddr → Type 0) (txt : Str) (s : Scan parse)
      → All R s.addrs
      → ((ma : Multiaddr) → is_flat txt ≡ true → parse txt ≡ some ma → R ma)
      → All R (scan_text parse txt s).addrs
  unfolding scan_text
  scan_text-All R txt s h f = elim (Bool-cases (starts_with root_prefix txt)) [
    | inl e ↦ rw (e, scan_text) h
    | inr e ↦ elim (Bool-cases (is_flat txt)) [
      | inr n ↦ rw (e, n, scan_text) h
      | inl y ↦ elim (Option-cases (parse txt)) [
        | inl p ↦ rw (e, y, scan_text, p, push_parsed) h
        | inr (ma, p) ↦
            rw (e, y, scan_text, p, push_parsed) (All-append R s.addrs (ma ∷ []) h (f ma y p, tt))
      ]
    ]
  ]

  scan_root-All :
      (R : Multiaddr → Type 0) (txts : List Str) (s : Scan parse)
      → All R s.addrs
      → ((txt : Str) (ma : Multiaddr)
          → In txt txts
          → is_flat txt ≡ true
          → parse txt ≡ some ma
          → R ma)
      → All R (scan_root parse txts s).addrs
  unfolding scan_root
  scan_root-All R [] s h f = h
  scan_root-All R (txt ∷ txts) s h f =
      scan_root-All R txts (scan_text parse txt s)
        (scan_text-All R txt s h (λ ma. f txt ma (inl refl))) (λ t ma i. f t ma (inr i))

  abbrev pub scanned : TxtRecords → Scan parse
  scanned root_records =
      scan_root parse (texts root_records) (record { root_hash = none; addrs = [] })

  module _ (txt_lookup : Str → Option TxtRecords) (domain : Str) where
    -- A branch of the tree under `root`: the root, or one that a text of a branch names.
    pub data Reachable (root : Str) : Str → Type 0 where
      here : Reachable root root
      child :
          {parent : Str} (hash txt : Str)
          → Reachable root parent
          → In txt (branch_texts parse txt_lookup domain parent)
          → Names txt hash
          → Reachable root hash

    abbrev pub IsLeafOf : Str → Multiaddr → Type 0
    IsLeafOf hash ma =
        (txt : Str) × In txt (branch_texts parse txt_lookup domain hash) × Gives parse txt ma

    module _ (root_records : TxtRecords) where
      -- A branch of the tree that the root answer points to.
      abbrev pub InTree : Str → Type 0
      InTree hash =
          (root : Str) × ((scanned root_records).root_hash ≡ some root) × Reachable root hash

      abbrev pub FromTree : List Str → Multiaddr → Type 0
      FromTree visited ma =
          IsFlatOf (texts root_records) ma ⊎ ((hash : Str) × In hash visited × IsLeafOf hash ma)

      abbrev Sourced : ℕ → List Str → List Str → List Multiaddr → Type 0
      Sourced left stack visited addrs =
          All InTree stack × All InTree visited × All (FromTree visited) addrs

      widen :
          (hash : Str) (visited : List Str) (ma : Multiaddr)
          → FromTree visited ma
          → FromTree (hash ∷ visited) ma
      widen hash visited ma (inl f) = inl f
      widen hash visited ma (inr (h, i, l)) = inr (h, inr i, l)

      widen-All :
          (hash : Str) (visited : List Str) (addrs : List Multiaddr)
          → All (FromTree visited) addrs
          → All (FromTree (hash ∷ visited)) addrs
      widen-All hash visited [] h = tt
      widen-All hash visited (ma ∷ addrs) (p, h) =
          (widen hash visited ma p, widen-All hash visited addrs h)

      Sourced-look :
          (left : ℕ) (hash : Str) (stack visited : List Str) (addrs : List Multiaddr)
          → Sourced (suc left) (hash ∷ stack) visited addrs
          → Sourced left
              (after parse txt_lookup domain hash stack addrs).stack
              (hash ∷ visited)
              (after parse txt_lookup domain hash stack addrs).addrs
      Sourced-look left hash stack visited addrs (((root, e, r), hs), hv, ha) =
          let (hs', ha') =
            read_texts-All parse InTree (FromTree (hash ∷ visited))
              (branch_texts parse txt_lookup domain hash) (record { stack = stack; addrs = addrs })
              hs (widen-All hash visited addrs ha) (λ txt k i n. (root, e, child k txt r i n))
              (λ txt ma i g. inr (hash, inl refl, (txt, i, g))) in
          (hs', ((root, e, r), hv), ha')

      Sourced-Keeps : Keeps parse txt_lookup domain Sourced
      Sourced-Keeps = record {
        skip = λ left hash stack visited addrs h old. (h.0.1, h.1, h.2);
        look = λ left hash stack visited addrs h new room.
            Sourced-look left hash stack visited addrs h;
      }

      -- Every branch that is looked up belongs to the tree, and every address is one of the root
      -- answer or of a leaf of a branch that was looked up.
      pub explore-Sourced :
          All InTree (explore parse txt_lookup domain root_records).visited
          × All
              (FromTree (explore parse txt_lookup domain root_records).visited)
              (explore parse txt_lookup domain root_records).addrs
      explore-Sourced =
          let s = scanned root_records in
          let flat : All (FromTree []) s.addrs =
            scan_root-All (FromTree []) (texts root_records)
              (record { root_hash = none; addrs = [] }) tt (λ txt ma i f p. inl (txt, i, f, p)) in
          let w =
            walk_root-Ended parse txt_lookup domain Sourced Sourced-Keeps s (λ _. (tt, tt, flat))
              (λ hash e. (((hash, e, here), tt), tt, flat)) in
          unfold explore in (w.kept.1, w.kept.2)
