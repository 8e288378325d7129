-- ===== src/Tests/Founded.antt =====
-- src/swarm_manager.rs, src/dns_tree.rs: a node that is started with the addresses of its seed domain.
use kinetic_atlas.Base.{
  ℕ, ◌≡◌, refl, inl, inr, Option, none, some, List, [], ◌∷◌, In, length, Result, ok, ℕ_eq,
}
use kinetic_atlas.Base.Map
use kinetic_atlas.Text.{Str, str}
use kinetic_atlas.Types.{NetworkConfig}
use kinetic_atlas.Registry.{Dir, Entry, entries}
use kinetic_atlas.SwarmManager.{Running}
use kinetic_atlas.SwarmManager.Seeds.{seeds_of, IsSeed}
use kinetic_atlas.Daemon.Sources.{IsFounded, Reach-IsFounded, Reach-IsSeed}
use kinetic_atlas.Tests.Turns.{Reached, turn, two_arrived}
use kinetic_atlas.Tests.Requests.{config, global, node_new, network_file}
use kinetic_atlas.DnsTree.{TxtRecords}
use kinetic_atlas.Tests.Records.{parse, root_answer}

abbrev seeded : NetworkConfig
seeded = record config {
  seed_domain = some (str "seeds.kin");
  bootstrap_nodes = str "/ip4/5.6.7.8" ∷ [];
}

abbrev parse_seeded : Str → Option NetworkConfig
parse_seeded content = some seeded

abbrev networks : Dir
networks = entries (network_file ∷ [])

abbrev same : Str → Str
same text = text

abbrev resolver : Option (Str → Option TxtRecords)
resolver = some (λ name. some root_answer)

abbrev seeds : Str → List Str
seeds = seeds_of parse same resolver

abbrev granted : Reached seeds parse_seeded networks
granted = turn seeds parse_seeded networks 3 (
    turn seeds parse_seeded networks 2
      (turn seeds parse_seeded networks 1 (two_arrived seeds parse_seeded networks)))

abbrev node : Running ℕ
node = record {
  tld = str ".kin";
  config = record seeded { bootstrap_nodes = str "/ip4/5.6.7.8" ∷ str "/ip4/9.9.9.9" ∷ [] };
  node = 2;
}

node_runs : Map.get granted.0.state.swarms.running 0 ≡ some node
unfolding kinetic_atlas.Daemon.advance kinetic_atlas.Proxy.Locate.locate
    kinetic_atlas.Proxy.Locate.host_of kinetic_atlas.Proxy.Locate.locate_domain
    kinetic_atlas.Proxy.Domain.extract_tld kinetic_atlas.Text.to_lowercase
    kinetic_atlas.Registry.get_config kinetic_atlas.Base.Map.get kinetic_atlas.Main.initial_state
    kinetic_atlas.Registry.load_from_dir kinetic_atlas.Base.list_eq kinetic_atlas.Base.contains
    kinetic_atlas.Base.Map.contains_key kinetic_atlas.Base.Map.insert
    kinetic_atlas.Proxy.Domain.extract_base_domain_and_subdomain kinetic_atlas.SwarmManager.touch
    kinetic_atlas.SwarmManager.check_and_spawn kinetic_atlas.SwarmManager.spawn
    kinetic_atlas.SwarmManager.with_seeds kinetic_atlas.DnsTree.resolve_dns_tree
    kinetic_atlas.DnsTree.explore kinetic_atlas.DnsTree.walk kinetic_atlas.Text.Utf8.from_utf8
    kinetic_atlas.Text.starts_with kinetic_atlas.DnsTree.root_hash_of
    kinetic_atlas.DnsTree.push_hashes kinetic_atlas.DnsTree.branch_hashes
    kinetic_atlas.Registry.load_entries kinetic_atlas.Registry.config_of
    kinetic_atlas.Registry.load_config kinetic_atlas.Registry.clean_tld
    kinetic_atlas.Registry.tld_name
node_runs = refl

Reach-IsFounded_example : IsFounded node_new seeds parse_seeded none global granted.0.dirs node
Reach-IsFounded_example =
    Reach-IsFounded node_new seeds parse_seeded none global networks granted.0 granted.1 0 node
      node_runs

Reach-IsSeed_example :
    (f : IsFounded node_new seeds parse_seeded none global granted.0.dirs node) × IsSeed parse same
      resolver f.config
      (str "/ip4/9.9.9.9")
Reach-IsSeed_example =
    Reach-IsSeed node_new parse same resolver parse_seeded none global networks granted.0 granted.1
      0 node node_runs (str "/ip4/9.9.9.9") (inr (inl refl))
