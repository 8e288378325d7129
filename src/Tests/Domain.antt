-- ===== src/Tests/Domain.antt =====
-- src/proxy.rs: domains that are put together and taken apart.
use kinetic_atlas.Base.{
  not, ◌==◌, ◌≡◌, ◌≢◌, ◌⊎◌, inl, inr, refl, Option, none, some, List, [], ◌∷◌, ◌++◌, arith, All,
  Result, ok, err,
}
use kinetic_atlas.Base.Map
use kinetic_atlas.Text.{Str, Str_eq, str, Bytes}
use kinetic_atlas.Types.{NetworkConfig}
use kinetic_atlas.Registry.{TldRegistry, get_config}
use kinetic_atlas.Proxy.Domain.{extract_base_domain_and_subdomain}
use kinetic_atlas.Proxy.Domain.RoundTrip.{IsLabel, extract_round_trip}
use kinetic_atlas.Proxy.Domain.UnitTests.{
  test_extract_domain_proptest, test_extract_domain_proptest_passes,
}
use kinetic_atlas.Proxy.Outside.{HttpRequest}
use kinetic_atlas.Proxy.Locate.{Located, locate_domain}
use kinetic_atlas.Proxy.Locate.Registered.{locate_domain-dotted}

abbrev labels : List Str
labels = str "dev" ∷ str "shop" ∷ []

labels-IsLabel : All IsLabel (labels ++ str "acme" ∷ [])
labels-IsLabel = ground arith

top-IsLabel : IsLabel (str "kin")
top-IsLabel = ground arith

extract_round_trip_example :
    extract_base_domain_and_subdomain (str "dev.shop.acme.kin") (str ".kin")
    ≡ some (str "acme.kin", str "dev.shop")
unfolding kinetic_atlas.Text.join
extract_round_trip_example =
    extract_round_trip labels (str "acme") (str "kin") labels-IsLabel top-IsLabel (ground arith)
      (inr (ground arith))

abbrev config : NetworkConfig
config = record {
  version = str "1.0";
  network_id = str "kinetic-main";
  tld = str ".kin";
  bootstrap_nodes = [];
  local_bind_ip = str "127.0.0.1";
  api_port = none;
  repo = none;
  seed_domain = none;
  ipfs_gateway = none;
}

abbrev registry : TldRegistry
registry = record { networks = (str ".kin", config) ∷ [] }

abbrev visit : HttpRequest
visit = record {
  method = str "GET";
  path_and_query = some (str "/");
  host = some (str "Shop.Acme.KIN:8080");
  headers = [];
}

abbrev located : Located
located = record {
  full_domain = str "shop.acme.kin";
  tld = str ".kin";
  config = config;
  base_domain = str "acme.kin";
  subdomain = str "shop";
}

locate_domain-dotted_example :
    locate_domain registry (str "dev.shop.acme.kin")
    ≡ ok (record {
      full_domain = str "dev.shop.acme.kin";
      tld = str ".kin";
      config = config;
      base_domain = str "acme.kin";
      subdomain = str "dev.shop";
    })
unfolding get_config Map.get kinetic_atlas.Base.list_eq kinetic_atlas.Text.join
locate_domain-dotted_example =
    locate_domain-dotted registry labels (str "acme") (str "kin") config labels-IsLabel top-IsLabel
      (ground arith) (inr (ground arith)) refl

not_at : kinetic_atlas.Text.join (str ".") (str "dev" ∷ str "shop" ∷ []) ≢ str "@"
unfolding kinetic_atlas.Text.join
not_at h = cc

test_extract_domain_proptest_passes_example :
    test_extract_domain_proptest (str "dev.shop") (str "kin") (str ".kin")
    ≡ not (str "kin" == str "kin")
unfolding kinetic_atlas.Text.join
test_extract_domain_proptest_passes_example =
    test_extract_domain_proptest_passes (str "dev") (str "shop" ∷ []) (str "kin") (str "kin")
      (ground arith) top-IsLabel (ground arith) not_at
