-- ===== src/Network/Bootstrap.antt =====
-- src/network.rs: the creation of a node and its dialling of the bootstrap nodes.
pub mod Dialling
use kinetic_atlas.Base.{
  ℕ, zero, suc, ◌+◌, ◌≤◌, ◌<◌, ◌≡◌, refl, Bool, true, false, Option, none, some, List, [], ◌∷◌,
  ◌++◌, ltb, length, length-append, if◌then◌else◌, arith, Result, ok, err, ◌>>=◌, In, inl, inr,
  In-append_left, In-append_right,
}
use kinetic_atlas.Text.{Str, str, starts_with}
use kinetic_atlas.Error.{AtlasError, network_init_failed}

abbrev pub max_dials : ℕ
max_dials = 8

-- What `libp2p` does when a node is set up.
pub record Libp2p (Multiaddr PeerId : Type 0) : Type 0 where
  -- `node_str.parse::<Multiaddr>()`
  pub parse : Str → Option Multiaddr
  -- The peer of the last component, if that is `P2p`.
  pub last_peer : Multiaddr → Option PeerId
  -- Whether the n-th call of `swarm.dial` succeeds.
  pub dial : ℕ → Multiaddr → Bool
  -- `StreamProtocol::try_from_owned`, with the text of its error.
  pub protocol : Str → Result Str Str
  -- The three stages of the builder, with the text of the error.
  pub transport : Result Str (Unit {0})
  pub dns : Result Str (Unit {0})
  pub behaviour : Result Str (Unit {0})

-- `map_err(|e| AtlasError::NetworkInitFailed(format!(…)))`
abbrev pub init_error : {A : Type 0} → Str → Result Str A → Result AtlasError A
init_error prefix (ok a) = ok a
init_error prefix (err e) = err (network_init_failed (prefix ++ e))

module _ {Multiaddr PeerId : Type 0} (lib : Libp2p Multiaddr PeerId) where
  open lib use {parse, last_peer, dial, protocol, transport, dns, behaviour}

  -- The calls of `add_address`, which the routing table may decline, those of `dial`, and the count of the
  -- latter that succeeded.
  pub record Contacts : Type 0 where
    pub table : List (PeerId × Multiaddr)
    pub dialed : List Multiaddr
    pub dials : ℕ

  unfoldable pub contact : PeerId → Multiaddr → Contacts → Contacts
  contact peer ma c =
      let table : List (PeerId × Multiaddr) = (peer, ma) ∷ c.table in
      if ltb c.dials max_dials
      then record {
        table = table;
        dialed = ma ∷ c.dialed;
        dials = if dial (length c.dialed) ma then c.dials + 1 else c.dials;
      }
      else record c { table = table }

  abbrev pub contact_parsed : Option Multiaddr → Contacts → Contacts
  contact_parsed none c = c
  contact_parsed (some ma) c = elim (last_peer ma) [ none ↦ c | some peer ↦ contact peer ma c ]

  -- The loop over the bootstrap nodes.
  unfoldable pub contact_all : List Str → Contacts → Contacts
  unfolding contact
  contact_all [] c = c
  contact_all (node_str ∷ nodes) c = contact_all nodes (contact_parsed (parse node_str) c)

  pub record Node : Type 0 where
    pub network_id : Str
    pub kad_protocol : Str
    pub proxy_protocol : Str
    pub contacts : Contacts

  abbrev pub no_contacts : Contacts
  no_contacts = record { table = []; dialed = []; dials = 0 }

  -- `KineticAtlasNode::new`; the bootstrap of Kademlia that ends it is only logged when it fails.
  unfoldable pub new : Str → List Str → Result AtlasError Node
  unfolding contact_all
  new network_id bootstrap_nodes = do
    kad ←
        init_error (str "Invalid protocol name: ")
          (protocol (str "/" ++ (network_id ++ str "/kad/2.0.0")))
    proxy ←
        init_error (str "Invalid proxy protocol name: ")
          (protocol (str "/" ++ (network_id ++ str "/proxy/1.0.0")))
    _ ← init_error (str "Transport config failed: ") transport
    _ ← init_error (str "DNS config failed: ") dns
    _ ← init_error (str "Behaviour config failed: ") behaviour
    ok (record {
      network_id = network_id;
      kad_protocol = kad;
      proxy_protocol = proxy;
      contacts = contact_all bootstrap_nodes no_contacts;
    })
