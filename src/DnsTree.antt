-- ===== src/DnsTree.antt =====
-- src/dns_tree.rs: the kintree protocol. A walk over TXT records from a root hash, with a stack of the
-- branches to visit and a set of the visited ones.
mod Walk
mod Read
pub mod Bounds
pub mod Sound
pub mod Complete
use kinetic_atlas.Base.{
  ℕ, zero, suc, ◌-◌, Bool, true, false, ◌||◌, Option, none, some, List, [], ◌∷◌, ◌++◌, length,
  is_empty, contains, leb, if◌then◌else◌,
}
use kinetic_atlas.Text.{
  Str, Bytes, Str_eq, str, starts_with, split, trim_start_matches, second_piece, first_word,
}
use kinetic_atlas.Text.Utf8.{from_utf8}

abbrev pub root_prefix : Str
root_prefix = str "kintree-root:v1"

abbrev pub branch_prefix : Str
branch_prefix = str "kintree-branch:"

abbrev pub leaf_prefix : Str
leaf_prefix = str "kintree-leaf:"

abbrev pub max_lookups : ℕ
max_lookups = 20

abbrev pub max_addrs : ℕ
max_addrs = 50

-- An answer to a TXT query: records, each a list of character strings.
abbrev pub TxtRecords : Type 0
TxtRecords = List (List Bytes)

-- The strings of an answer that are UTF-8, in the order of the two nested loops.
unfoldable pub texts_of_record : List Bytes → List Str
texts_of_record [] = []
texts_of_record (raw ∷ raws) = elim (from_utf8 raw) [
  | none ↦ texts_of_record raws
  | some txt ↦ txt ∷ texts_of_record raws
]

unfoldable pub texts : TxtRecords → List Str
unfolding texts_of_record
texts [] = []
texts (record_data ∷ more) = texts_of_record record_data ++ texts more

-- The hash of a root text: the first word behind " e=", and all that stands there if it has no word.
unfoldable pub root_hash_of : Str → Option Str
unfolding second_piece first_word
root_hash_of txt = elim (second_piece (str " e=") txt) [
  | none ↦ none
  | some part ↦ some (elim (first_word part) [ none ↦ part | some w ↦ w ])
]

abbrev or_else : Option Str → Option Str → Option Str
or_else (some h) old = some h
or_else none old = old

abbrev pub is_flat : Str → Bool
is_flat txt = starts_with (str "/ip4/") txt || starts_with (str "/ip6/") txt

-- The branches that a branch text names.
unfoldable pub branch_hashes : Str → List Str
unfolding trim_start_matches split
branch_hashes txt = split b',' (trim_start_matches branch_prefix txt)

-- `branches_to_visit.push` of each hash that is not empty; the top of the stack is the head.
unfoldable pub push_hashes : List Str → List Str → List Str
push_hashes [] stack = stack
push_hashes (h ∷ hs) stack = push_hashes hs (if is_empty h then stack else h ∷ stack)

-- `format!("{}.{}", branch_hash, domain)`
abbrev pub branch_domain : Str → Str → Str
branch_domain hash domain = hash ++ b'.' ∷ domain

module _ {Multiaddr : Type 0} (parse : Str → Option Multiaddr) where
  abbrev pub push_parsed : Str → List Multiaddr → List Multiaddr
  push_parsed txt addrs = elim (parse txt) [ none ↦ addrs | some ma ↦ addrs ++ ma ∷ [] ]

  pub record Scan : Type 0 where
    pub root_hash : Option Str
    pub addrs : List Multiaddr

  -- One text of the answer for the domain itself.
  unfoldable pub scan_text : Str → Scan → Scan
  scan_text txt s =
      if starts_with root_prefix txt
      then record s { root_hash = or_else (root_hash_of txt) s.root_hash }
      else if is_flat txt
      then record s { addrs = push_parsed txt s.addrs }
      else s

  unfoldable pub scan_root : List Str → Scan → Scan
  unfolding scan_text
  scan_root [] s = s
  scan_root (txt ∷ txts) s = scan_root txts (scan_text txt s)

  pub record Branches : Type 0 where
    pub stack : List Str
    pub addrs : List Multiaddr

  -- One text of the answer for a branch.
  unfoldable pub read_text : Str → Branches → Branches
  read_text txt b =
      if starts_with branch_prefix txt
      then record b { stack = push_hashes (branch_hashes txt) b.stack }
      else if starts_with leaf_prefix txt
      then record b { addrs = push_parsed (trim_start_matches leaf_prefix txt) b.addrs }
      else b

  unfoldable pub read_texts : List Str → Branches → Branches
  unfolding read_text
  read_texts [] b = b
  read_texts (txt ∷ txts) b = read_texts txts (read_text txt b)

  module _ (txt_lookup : Str → Option TxtRecords) (domain : Str) where
    -- The texts of a branch; an answer that fails has none.
    unfoldable pub branch_texts : Str → List Str
    unfolding texts
    branch_texts hash = elim (txt_lookup (branch_domain hash domain)) [
      | none ↦ []
      | some response ↦ texts response
    ]

    pub record Walked : Type 0 where
      pub left : ℕ
      pub visited : List Str
      pub addrs : List Multiaddr

    -- The `while` loop. `left` is `max_lookups - lookups`: it ends on an empty stack, on `left` zero
    -- and on enough addresses. `visited` has the names in the reverse order of their lookups.
    unfoldable pub walk : ℕ → List Str → List Str → List Multiaddr → Walked
    unfolding read_texts branch_texts
    walk left [] visited addrs = record { left = left; visited = visited; addrs = addrs }
    walk zero (hash ∷ stack) visited addrs = record { left = 0; visited = visited; addrs = addrs }
    walk (suc left) (hash ∷ stack) visited addrs =
        let full : Walked = record { left = suc left; visited = visited; addrs = addrs } in
        let again = walk (suc left) stack visited addrs in
        let read = read_texts (branch_texts hash) (record { stack = stack; addrs = addrs }) in
        let rest = walk left read.stack (hash ∷ visited) read.addrs in
        if leb max_addrs (length addrs) then full else if contains visited hash then again else rest

    abbrev walk_root : Scan → Walked
    walk_root s = elim s.root_hash [
      | none ↦ record { left = max_lookups; visited = []; addrs = s.addrs }
      | some hash ↦ walk max_lookups (hash ∷ []) [] s.addrs
    ]

    unfoldable pub explore : TxtRecords → Walked
    unfolding walk scan_root texts
    explore root_records =
        walk_root (scan_root (texts root_records) (record { root_hash = none; addrs = [] }))

    unfoldable pub answer_addrs : Option TxtRecords → List Multiaddr
    unfolding explore
    answer_addrs none = []
    answer_addrs (some root_records) = (explore root_records).addrs

  -- `resolver` is `none` where the system's resolver cannot be set up.
  unfoldable pub resolve_dns_tree : Option (Str → Option TxtRecords) → Str → List Multiaddr
  unfolding answer_addrs
  resolve_dns_tree none domain = []
  resolve_dns_tree (some txt_lookup) domain = answer_addrs txt_lookup domain (txt_lookup domain)
