-- ===== src/DnsTree/Complete.antt =====
-- What the walk does not miss: the addresses of the root answer in any case, and the whole tree where
-- neither limit ends the walk.
use kinetic_atlas.Base.{
  ℕ, suc, ◌<◌, ◌≡◌, ◌⊎◌, inl, inr, refl, true, false, Option, none, some, List, [], ◌∷◌, length, In,
  contains, contains-In, arith, Bool-cases, sym, ◌∙◌, subst, ap,
}
use kinetic_atlas.Text.{Str, Str_eq, starts_with, str, strip_prefix}
use kinetic_atlas.Text.Prefix.{eq_of_starts_with}
use kinetic_atlas.DnsTree.{
  Branches, TxtRecords, Scan, branch_texts, explore, is_flat, max_addrs, root_prefix, scan_root,
  scan_text, texts, walk_root,
}
use kinetic_atlas.DnsTree.Walk.{Keeps, Ended, walk_root-Ended, after}
use kinetic_atlas.DnsTree.Read.{
  Names, read_texts-keeps, read_texts-Names, read_texts-Gives, In-push_parsed, In-push_parsed_new,
}
use kinetic_atlas.DnsTree.Sound.{IsFlatOf, scanned, Reachable, here, child, IsLeafOf, InTree}

-- A flat address is no root text.
flat-not_root : (txt : Str) → is_flat txt ≡ true → starts_with root_prefix txt ≡ false
flat-not_root txt h = elim (Bool-cases (starts_with (str "/ip4/") txt)) [
  | inl e ↦
      let (r, p) = eq_of_starts_with (str "/ip4/") txt e in
      rw p (unfold starts_with strip_prefix in refl)
  | inr e ↦
      let h' : starts_with (str "/ip6/") txt ≡ true = ground arith in
      let (r, p) = eq_of_starts_with (str "/ip6/") txt h' in
      rw p (unfold starts_with strip_prefix in refl)
]

-- A branch on top of the stack that was visited before, or that gets visited, stays accounted for.
shift :
    (hash k : Str) (stack visited : List Str)
    → In hash visited
    → In k visited ⊎ In k (hash ∷ stack)
    → In k visited ⊎ In k stack
shift hash k stack visited old (inl i) = inl i
shift hash k stack visited old (inr (inl e)) = inl (subst (λ x. In x visited) (sym e) old)
shift hash k stack visited old (inr (inr i)) = inr i

shift_read :
    (hash k : Str) (stack visited stack' : List Str)
    → ((x : Str) → In x stack → In x stack')
    → In k visited ⊎ In k (hash ∷ stack)
    → In k (hash ∷ visited) ⊎ In k stack'
shift_read hash k stack visited stack' f (inl i) = inl (inr i)
shift_read hash k stack visited stack' f (inr (inl e)) = inl (inl e)
shift_read hash k stack visited stack' f (inr (inr i)) = inr (f k i)

module _ {Multiaddr : Type 0} (parse : Str → Option Multiaddr) where
  scan_text-keeps :
      (txt : Str) (s : Scan parse) (ma : Multiaddr)
      → In ma s.addrs
      → In ma (scan_text parse txt s).addrs
  unfolding scan_text
  scan_text-keeps txt s ma h = ground (arith, In-push_parsed parse ma txt s.addrs)

  scan_text-flat :
      (txt : Str) (s : Scan parse) (ma : Multiaddr)
      → is_flat txt ≡ true
      → parse txt ≡ some ma
      → In ma (scan_text parse txt s).addrs
  unfolding scan_text
  scan_text-flat txt s ma f p =
      rw (flat-not_root txt f, f, scan_text) (In-push_parsed_new parse ma txt s.addrs p)

  scan_root-keeps :
      (txts : List Str) (s : Scan parse) (ma : Multiaddr)
      → In ma s.addrs
      → In ma (scan_root parse txts s).addrs
  unfolding scan_root
  scan_root-keeps [] s ma h = h
  scan_root-keeps (txt ∷ txts) s ma h =
      scan_root-keeps txts (scan_text parse txt s) ma (scan_text-keeps txt s ma h)

  scan_root-flat :
      (txts : List Str) (s : Scan parse) (ma : Multiaddr)
      → IsFlatOf parse txts ma
      → In ma (scan_root parse txts s).addrs
  unfolding scan_root
  scan_root-flat [] s ma (txt, i, f, p) = absurd i.lower
  scan_root-flat (t ∷ txts) s ma (txt, inl e, f, p) =
      scan_root-keeps txts (scan_text parse t s) ma
        (scan_text-flat t s ma (sym (ap is_flat e) ∙ f) (sym (ap parse e) ∙ p))
  scan_root-flat (t ∷ txts) s ma (txt, inr i, f, p) =
      scan_root-flat txts (scan_text parse t s) ma (txt, i, f, p)

  module _ (txt_lookup : Str → Option TxtRecords) (domain : Str) (root_records : TxtRecords) where
    record Searched (left : ℕ) (stack visited : List Str) (addrs : List Multiaddr) : Type 0 where
      closed :
          (hash txt k : Str)
          → In hash visited
          → In txt (branch_texts parse txt_lookup domain hash)
          → Names txt k
          → In k visited ⊎ In k stack
      leaves :
          (hash : Str) (ma : Multiaddr)
          → In hash visited
          → IsLeafOf parse txt_lookup domain hash ma
          → In ma addrs
      rooted :
          (root : Str)
          → (scanned parse root_records).root_hash ≡ some root
          → In root visited ⊎ In root stack
      flat : (ma : Multiaddr) → In ma (scanned parse root_records).addrs → In ma addrs

    module _ (left : ℕ) (hash : Str) (stack visited : List Str) (addrs : List Multiaddr)
        (s : Searched (suc left) (hash ∷ stack) visited addrs) where
      Searched-skip : contains visited hash ≡ true → Searched (suc left) stack visited addrs
      Searched-skip old =
          let seen = contains-In visited hash old in
          record {
            closed = λ h txt k i t n. shift hash k stack visited seen (s.closed h txt k i t n);
            leaves = s.leaves;
            rooted = λ root e. shift hash root stack visited seen (s.rooted root e);
            flat = s.flat;
          }

      abbrev read : Branches parse
      read = after parse txt_lookup domain hash stack addrs

      abbrev old_branches : Branches parse
      old_branches = record { stack = stack; addrs = addrs }

      kept :
          ((x : Str) → In x stack → In x read.stack)
          × ((a : Multiaddr) → In a addrs → In a read.addrs)
      kept = read_texts-keeps parse (branch_texts parse txt_lookup domain hash) old_branches

      closed_after :
          (h txt k : Str)
          → In h (hash ∷ visited)
          → In txt (branch_texts parse txt_lookup domain h)
          → Names txt k
          → In k (hash ∷ visited) ⊎ In k read.stack
      closed_after h txt k (inl e) t n = inr (
          read_texts-Names parse (branch_texts parse txt_lookup domain hash) txt k old_branches
            (subst (λ x. In txt (branch_texts parse txt_lookup domain x)) e t) n)
      closed_after h txt k (inr i) t n =
          shift_read hash k stack visited read.stack kept.0 (s.closed h txt k i t n)

      leaves_after :
          (h : Str) (ma : Multiaddr)
          → In h (hash ∷ visited)
          → IsLeafOf parse txt_lookup domain h ma
          → In ma read.addrs
      leaves_after h ma (inl e) (txt, t, g) =
          read_texts-Gives parse (branch_texts parse txt_lookup domain hash) txt ma old_branches
            (subst (λ x. In txt (branch_texts parse txt_lookup domain x)) e t) g
      leaves_after h ma (inr i) l = kept.1 ma (s.leaves h ma i l)

      Searched-look : Searched left read.stack (hash ∷ visited) read.addrs
      Searched-look = record {
        closed = closed_after;
        leaves = leaves_after;
        rooted = λ root e. shift_read hash root stack visited read.stack kept.0 (s.rooted root e);
        flat = λ ma i. kept.1 ma (s.flat ma i);
      }

    Searched-Keeps : Keeps parse txt_lookup domain Searched
    Searched-Keeps = record {
      skip =
          λ left hash stack visited addrs s old. Searched-skip left hash stack visited addrs s old;
      look =
          λ left hash stack visited addrs s new room. Searched-look left hash stack visited addrs s;
    }

    walk_root-Searched :
        Ended parse txt_lookup domain Searched
          (walk_root parse txt_lookup domain (scanned parse root_records))
    walk_root-Searched =
        walk_root-Ended parse txt_lookup domain Searched Searched-Keeps (scanned parse root_records)
          (λ e. record {
            closed = λ h txt k i t n. absurd i.lower;
            leaves = λ h ma i l. absurd i.lower;
            rooted = λ root r. cc;
            flat = λ ma i. i;
          })
          (λ hash e. record {
            closed = λ h txt k i t n. absurd i.lower;
            leaves = λ h ma i l. absurd i.lower;
            rooted = λ root r. inr (inl (ground arith));
            flat = λ ma i. i;
          })

    -- The addresses that the root answer holds are always part of the result, with a root hash or not.
    pub explore-flat :
        (ma : Multiaddr)
        → IsFlatOf parse (texts root_records) ma
        → In ma (explore parse txt_lookup domain root_records).addrs
    unfolding explore
    explore-flat ma f =
        walk_root-Searched.kept.flat ma
          (scan_root-flat (texts root_records) (record { root_hash = none; addrs = [] }) ma f)

    visited_of_Reachable :
        {root hash : Str} (left : ℕ) (visited : List Str) (addrs : List Multiaddr)
        → Searched left [] visited addrs
        → (scanned parse root_records).root_hash ≡ some root
        → Reachable parse txt_lookup domain root hash
        → In hash visited
    visited_of_Reachable left visited addrs s e here = elim (s.rooted _ e) [
      | inl i ↦ i
      | inr n ↦ absurd n.lower
    ]
    visited_of_Reachable left visited addrs s e (child {parent} k txt r t n) =
        elim (s.closed parent txt k (visited_of_Reachable left visited addrs s e r) t n) [
          | inl i ↦ i
          | inr n' ↦ absurd n'.lower
        ]

    -- An exploration with lookups left and fewer addresses than the limit has looked up every branch of
    -- the tree and holds the address of every leaf.
    pub explore_complete :
        0 < (explore parse txt_lookup domain root_records).left
        → length (explore parse txt_lookup domain root_records).addrs < max_addrs
        → ((hash : Str)
            → InTree parse txt_lookup domain root_records hash
            → In hash (explore parse txt_lookup domain root_records).visited)
          × ((hash : Str) (ma : Multiaddr)
              → InTree parse txt_lookup domain root_records hash
              → IsLeafOf parse txt_lookup domain hash ma
              → In ma (explore parse txt_lookup domain root_records).addrs)
    explore_complete room space =
        let w = walk_root parse txt_lookup domain (scanned parse root_records) in
        let same : explore parse txt_lookup domain root_records ≡ w = unfold explore in refl in
        let ended = walk_root-Searched in
        let room' : 0 < w.left = unfold explore in room in
        let space' : length w.addrs < max_addrs = unfold explore in space in
        let done : ended.stack ≡ [] = elim ended.reason [
          | inl e ↦ e
          | inr (inl e) ↦ absurd (omega arith)
          | inr (inr e) ↦ absurd (omega arith)
        ] in
        let searched : Searched w.left [] w.visited w.addrs =
          subst (λ st. Searched w.left st w.visited w.addrs) done ended.kept in
        let all_visited : (hash : Str)
            → InTree parse txt_lookup domain root_records hash
            → In hash w.visited =
          λ hash t. visited_of_Reachable w.left w.visited w.addrs searched t.1 t.2 in
        unfold explore in
        (all_visited, λ hash ma t l. searched.leaves hash ma (all_visited hash t) l)
