-- ===== src/Tests/Records.antt =====
-- src/dns_tree.rs: a tree with one branch and one leaf, beside a flat address.
use kinetic_atlas.Base.{
  ℕ, ◌+◌, ◌≡◌, ◌⊎◌, ◌≤◌, ◌<◌, inl, inr, refl, Bool, true, false, Option, none, some, List, [], ◌∷◌,
  ◌++◌, arith, All, In, length, Distinct, ◌==◌, if◌then◌else◌,
}
use kinetic_atlas.Text.{Str, Str_eq, str}
use kinetic_atlas.DnsTree.{TxtRecords, texts, scan_root, branch_texts, explore, max_addrs}
use kinetic_atlas.DnsTree.Bounds.{explore_bounded, explore-addrs_bounded}
use kinetic_atlas.DnsTree.Sound.{InTree, FromTree, IsLeafOf, explore-Sourced}
use kinetic_atlas.DnsTree.Complete.{explore_complete}

abbrev pub parse : Str → Option Str
parse text = some text

abbrev pub root_answer : TxtRecords
root_answer = (str "kintree-root:v1 e=AB" ∷ []) ∷ (str "/ip4/9.9.9.9" ∷ []) ∷ []

-- The branch "AB" names itself again and has a leaf.
abbrev branch_answer : TxtRecords
branch_answer = (str "kintree-branch:AB" ∷ str "kintree-leaf:/ip4/1.2.3.4" ∷ []) ∷ []

abbrev pub lookup : Str → Option TxtRecords
lookup name = some branch_answer

abbrev domain : Str
domain = str "seeds.kin"

explore_bounded_example :
    (length (explore parse lookup domain root_answer).visited ≤ 20)
    × Distinct (explore parse lookup domain root_answer).visited
explore_bounded_example = explore_bounded parse lookup domain root_answer

two_texts : (hash : Str) → length (branch_texts parse lookup domain hash) ≤ 2
unfolding branch_texts kinetic_atlas.Text.Utf8.from_utf8
two_texts hash = omega arith

lookups_left : (explore parse lookup domain root_answer).left ≡ 19
unfolding explore kinetic_atlas.Text.Utf8.from_utf8 kinetic_atlas.Text.starts_with
    kinetic_atlas.DnsTree.root_hash_of kinetic_atlas.Base.contains kinetic_atlas.DnsTree.push_hashes
    kinetic_atlas.DnsTree.branch_hashes kinetic_atlas.Base.list_eq
lookups_left = refl

addrs_found : length (explore parse lookup domain root_answer).addrs ≡ 2
unfolding explore kinetic_atlas.Text.Utf8.from_utf8 kinetic_atlas.Text.starts_with
    kinetic_atlas.DnsTree.root_hash_of kinetic_atlas.Base.contains kinetic_atlas.DnsTree.push_hashes
    kinetic_atlas.DnsTree.branch_hashes kinetic_atlas.Base.list_eq
addrs_found = refl

explore_complete_example :
    ((hash : Str)
      → InTree parse lookup domain root_answer hash
      → In hash (explore parse lookup domain root_answer).visited)
    × ((hash : Str) (ma : Str)
        → InTree parse lookup domain root_answer hash
        → IsLeafOf parse lookup domain hash ma
        → In ma (explore parse lookup domain root_answer).addrs)
explore_complete_example =
    explore_complete parse lookup domain root_answer (omega (arith, lookups_left))
      (omega (arith, addrs_found))

explore-Sourced_example :
    All (InTree parse lookup domain root_answer) (explore parse lookup domain root_answer).visited
    × All
        (FromTree parse lookup domain root_answer (explore parse lookup domain root_answer).visited)
        (explore parse lookup domain root_answer).addrs
explore-Sourced_example = explore-Sourced parse lookup domain root_answer

explore-addrs_bounded_example :
    (length (explore parse lookup domain root_answer).addrs
      ≤ length
          (scan_root parse (texts root_answer) (record { root_hash = none; addrs = [] })).addrs)
    ⊎ (length (explore parse lookup domain root_answer).addrs ≤ 49 + 2)
explore-addrs_bounded_example = explore-addrs_bounded parse lookup domain root_answer 2 two_texts
