-- ===== src/SwarmManager/Seeds.antt =====
-- src/swarm_manager.rs, src/dns_tree.rs: the bootstrap addresses with which a node is started.
use kinetic_atlas.Base.{
  ◌≡◌, inl, inr, refl, Option, none, some, List, [], ◌∷◌, map, Option-cases, In, In-All, In-append,
}
use kinetic_atlas.Text.{Str}
use kinetic_atlas.Types.{NetworkConfig}
use kinetic_atlas.DnsTree.{TxtRecords, explore, answer_addrs, resolve_dns_tree}
use kinetic_atlas.DnsTree.Sound.{FromTree, explore-Sourced}
use kinetic_atlas.SwarmManager.{with_seeds}

In-map :
    {A B : Type 0} (f : A → B) (xs : List A) (b : B)
    → In b (map f xs)
    → (a : A) × In a xs × (b ≡ f a)
In-map f [] b h = absurd h.lower
In-map f (x ∷ xs) b (inl e) = (x, inl refl, e)
In-map f (x ∷ xs) b (inr i) = let (a, j, e) = In-map f xs b i in (a, inr j, e)

module _ {Multiaddr : Type 0} (parse : Str → Option Multiaddr) (to_text : Multiaddr → Str)
    (resolver : Option (Str → Option TxtRecords)) where
  -- `resolve_dns_tree`, and `addr.to_string()` of each of its addresses.
  abbrev pub seeds_of : Str → List Str
  seeds_of seed_domain = map to_text (resolve_dns_tree parse resolver seed_domain)

  -- The address stands in the configuration, or in the answers of the resolver for its seed domain: in a
  -- text of the domain itself, or in a leaf of a branch of its tree.
  pub data IsSeed (config : NetworkConfig) (b : Str) : Type 0 where
    listed : In b config.bootstrap_nodes → IsSeed config b
    resolved :
        (seed_domain : Str)
        → config.seed_domain ≡ some seed_domain
        → (lookup : Str → Option TxtRecords) → resolver ≡ some lookup
        → (root_records : TxtRecords) → lookup seed_domain ≡ some root_records
        → (ma : Multiaddr) → b ≡ to_text ma
        → FromTree parse lookup seed_domain root_records
            (explore parse lookup seed_domain root_records).visited
            ma
        → IsSeed config b

  answer_addrs-In :
      (lookup : Str → Option TxtRecords) (seed_domain : Str) (ma : Multiaddr)
      (o : Option TxtRecords)
      → In ma (answer_addrs parse lookup seed_domain o)
      → (root_records : TxtRecords) × (o ≡ some root_records)
        × In ma (explore parse lookup seed_domain root_records).addrs
  unfolding answer_addrs
  answer_addrs-In lookup seed_domain ma none i = absurd i.lower
  answer_addrs-In lookup seed_domain ma (some root_records) i = (root_records, refl, i)

  resolve_dns_tree-FromTree :
      (seed_domain : Str) (ma : Multiaddr)
      → In ma (resolve_dns_tree parse resolver seed_domain)
      → (lookup : Str → Option TxtRecords) × (resolver ≡ some lookup)
        × ((root_records : TxtRecords) × (lookup seed_domain ≡ some root_records)
            × FromTree parse lookup seed_domain root_records
                (explore parse lookup seed_domain root_records).visited
                ma)
  unfolding resolve_dns_tree
  resolve_dns_tree-FromTree seed_domain ma i = elim (Option-cases resolver) [
    | inl n ↦ absurd ((rw (n, resolve_dns_tree) at i).lower)
    | inr (lookup, e) ↦
        let j : In ma (answer_addrs parse lookup seed_domain (lookup seed_domain)) =
          rw (e, resolve_dns_tree) at i in
        let (root_records, f, k) = answer_addrs-In lookup seed_domain ma (lookup seed_domain) j in
        (
          lookup,
          e,
          (
            root_records,
            f,
            In-All
                (FromTree parse lookup seed_domain root_records
                  (explore parse lookup seed_domain root_records).visited)
                (explore parse lookup seed_domain root_records).addrs
                (explore-Sourced parse lookup seed_domain root_records).1 k,
          ),
        )
  ]

  pub with_seeds-IsSeed :
      (config : NetworkConfig) (b : Str)
      → In b (with_seeds seeds_of config).bootstrap_nodes
      → IsSeed config b
  unfolding with_seeds
  with_seeds-IsSeed config b i = elim (Option-cases config.seed_domain) [
    | inl n ↦ listed (rw (n, with_seeds) at i)
    | inr (seed_domain, e) ↦
        elim (In-append b config.bootstrap_nodes (seeds_of seed_domain) (rw (e, with_seeds) at i)) [
          | inl j ↦ listed j
          | inr j ↦
              let (ma, k, same) =
                In-map to_text (resolve_dns_tree parse resolver seed_domain) b j in
              let (lookup, l, (root_records, f, tree)) =
                resolve_dns_tree-FromTree seed_domain ma k in
              resolved seed_domain e lookup l root_records f ma same tree
        ]
  ]
