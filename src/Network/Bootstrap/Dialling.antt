-- ===== src/Network/Bootstrap/Dialling.antt =====
-- Which bootstrap nodes a new node knows and dials.
use kinetic_atlas.Base.{
  ℕ, ◌≤◌, ◌≡◌, refl, ap, false, Option, none, some, List, [], ◌∷◌, length, arith, ok, In, inl, inr,
  Option-cases, ◌↔◌, subst,
}
use kinetic_atlas.Text.{Str}
use kinetic_atlas.Network.Bootstrap.{
  Libp2p, Contacts, Node, contact, contact_all, contact_parsed, max_dials, new, no_contacts,
}

module _ {Multiaddr PeerId : Type 0} (lib : Libp2p Multiaddr PeerId) where
  -- A bootstrap node that can be used: it parses, and it ends in a peer.
  abbrev pub IsUsable : Str → PeerId → Multiaddr → Type 0
  IsUsable node peer ma = (lib.parse node ≡ some ma) × (lib.last_peer ma ≡ some peer)

  -- What the loop keeps: the counters, and where the entries of the routing table come from.
  pub record IsGood (nodes : List Str) (c : Contacts lib) : Type 0 where
    pub few : c.dials ≤ max_dials
    pub attempts : length c.dialed ≤ length c.table
    pub sourced :
        (peer : PeerId) (ma : Multiaddr)
        → In (peer, ma) c.table
        → (node : Str) × In node nodes × IsUsable node peer ma

  table-contact :
      (peer : PeerId) (ma : Multiaddr) (c : Contacts lib)
      → (contact lib peer ma c).table ≡ (peer, ma) ∷ c.table
  unfolding contact
  table-contact peer ma c = ground arith

  few-contact :
      (peer : PeerId) (ma : Multiaddr) (c : Contacts lib)
      → c.dials ≤ max_dials
      → length c.dialed ≤ length c.table
      → ((contact lib peer ma c).dials ≤ max_dials)
        × (length (contact lib peer ma c).dialed ≤ length (contact lib peer ma c).table)
  unfolding contact
  few-contact peer ma c h k = ground arith

  sourced-contact :
      (nodes : List Str) (node : Str) (peer : PeerId) (ma : Multiaddr) (c : Contacts lib)
      → In node nodes
      → IsUsable node peer ma
      → IsGood nodes c
      → (p : PeerId) (m : Multiaddr) → In (p, m) ((peer, ma) ∷ c.table)
      → (n : Str) × In n nodes × IsUsable n p m
  sourced-contact nodes node peer ma c i u g p m (inl e) =
      let ep : p ≡ peer = ap (λ (t : PeerId × Multiaddr). t.0) e in
      let em : m ≡ ma = ap (λ (t : PeerId × Multiaddr). t.1) e in
      (node, i, (cc (u.0, em), cc (u.1, em, ep)))
  sourced-contact nodes node peer ma c i u g p m (inr h) = g.sourced p m h

  contact-IsGood :
      (nodes : List Str) (node : Str) (peer : PeerId) (ma : Multiaddr) (c : Contacts lib)
      → In node nodes
      → IsUsable node peer ma
      → IsGood nodes c
      → IsGood nodes (contact lib peer ma c)
  contact-IsGood nodes node peer ma c i u g =
      let (few, attempts) = few-contact peer ma c g.few g.attempts in
      record {
        few = few;
        attempts = attempts;
        sourced = λ p m h.
            sourced-contact nodes node peer ma c i u g p m
              (subst (λ t. In (p, m) t) (table-contact peer ma c) h);
      }

  contact_parsed-IsGood :
      (nodes : List Str) (node : Str) (c : Contacts lib)
      → In node nodes
      → IsGood nodes c
      → IsGood nodes (contact_parsed lib (lib.parse node) c)
  contact_parsed-IsGood nodes node c i g = elim (Option-cases (lib.parse node)) [
    | inl e ↦ rw e g
    | inr (ma, e) ↦ elim (Option-cases (lib.last_peer ma)) [
      | inl f ↦ rw (e, contact_parsed, f) g
      | inr (peer, f) ↦ rw (e, contact_parsed, f) (contact-IsGood nodes node peer ma c i (e, f) g)
    ]
  ]

  contact_all-IsGood :
      (nodes todo : List Str) (c : Contacts lib)
      → ((node : Str) → In node todo → In node nodes)
      → IsGood nodes c
      → IsGood nodes (contact_all lib todo c)
  unfolding contact_all
  contact_all-IsGood nodes [] c sub g = g
  contact_all-IsGood nodes (n ∷ todo) c sub g =
      contact_all-IsGood nodes todo (contact_parsed lib (lib.parse n) c) (λ m i. sub m (inr i))
        (contact_parsed-IsGood nodes n c (sub n (inl refl)) g)

  -- Entries of the routing table stay, and every usable node gets one.
  contact_parsed-keeps :
      (node : Str) (c : Contacts lib) (x : PeerId × Multiaddr)
      → In x c.table
      → In x (contact_parsed lib (lib.parse node) c).table
  contact_parsed-keeps node c x h = elim (Option-cases (lib.parse node)) [
    | inl e ↦ rw e h
    | inr (ma, e) ↦ elim (Option-cases (lib.last_peer ma)) [
      | inl f ↦ rw (e, contact_parsed, f) h
      | inr (peer, f) ↦ rw (e, contact_parsed, f) (rw (table-contact peer ma c) (inr h))
    ]
  ]

  contact_all-keeps :
      (todo : List Str) (c : Contacts lib) (x : PeerId × Multiaddr)
      → In x c.table
      → In x (contact_all lib todo c).table
  unfolding contact_all
  contact_all-keeps [] c x h = h
  contact_all-keeps (n ∷ todo) c x h =
      contact_all-keeps todo (contact_parsed lib (lib.parse n) c) x (contact_parsed-keeps n c x h)

  contact_parsed-adds :
      (node : Str) (peer : PeerId) (ma : Multiaddr) (c : Contacts lib)
      → IsUsable node peer ma
      → In (peer, ma) (contact_parsed lib (lib.parse node) c).table
  contact_parsed-adds node peer ma c (e, f) =
      rw (e, contact_parsed, f) (rw (table-contact peer ma c) (inl refl))

  contact_all-adds :
      (todo : List Str) (node : Str) (peer : PeerId) (ma : Multiaddr) (c : Contacts lib)
      → In node todo
      → IsUsable node peer ma
      → In (peer, ma) (contact_all lib todo c).table
  unfolding contact_all
  contact_all-adds [] node peer ma c i u = absurd i.lower
  contact_all-adds (n ∷ todo) node peer ma c (inl e) u =
      contact_all-keeps todo (contact_parsed lib (lib.parse n) c) (peer, ma)
        (contact_parsed-adds n peer ma c (cc (u.0, e), u.1))
  contact_all-adds (n ∷ todo) node peer ma c (inr i) u =
      contact_all-adds todo node peer ma (contact_parsed lib (lib.parse n) c) i u

  contacts-new :
      (network_id : Str) (nodes : List Str) (node : Node lib)
      → new lib network_id nodes ≡ ok node
      → (node.network_id ≡ network_id) × (node.contacts ≡ contact_all lib nodes (no_contacts lib))
  unfolding new
  contacts-new network_id nodes node h = ground arith

  -- A node that is created had exactly the usable bootstrap nodes given to the routing table, and no more
  -- than eight of its dials succeed.
  pub new-contacts :
      (network_id : Str) (nodes : List Str) (node : Node lib)
      → new lib network_id nodes ≡ ok node
      → (node.contacts.dials ≤ 8)
        × ((peer : PeerId) (ma : Multiaddr)
            → In (peer, ma) node.contacts.table ↔ ((n : Str) × In n nodes × IsUsable n peer ma))
  new-contacts network_id nodes node h =
      let (_, e) = contacts-new network_id nodes node h in
      let g =
        contact_all-IsGood nodes nodes (no_contacts lib) (λ n i. i)
          (record {
            few = omega arith;
            attempts = omega arith;
            sourced = λ p m i. absurd i.lower;
          }) in
      rw e (
        g.few,
        λ peer ma.
            (g.sourced peer ma, λ u. contact_all-adds nodes u.0 peer ma (no_contacts lib) u.1 u.2),
      )

  dialed-contact :
      (peer : PeerId) (ma : Multiaddr) (c : Contacts lib)
      → ((n : ℕ) (m : Multiaddr) → lib.dial n m ≡ false)
      → (c.dials ≡ 0) × (length c.dialed ≡ length c.table)
      → ((contact lib peer ma c).dials ≡ 0)
        × (length (contact lib peer ma c).dialed ≡ length (contact lib peer ma c).table)
  unfolding contact
  dialed-contact peer ma c fails h = ground (arith, fails (length c.dialed) ma)

  dialed-contact_all :
      (todo : List Str) (c : Contacts lib)
      → ((n : ℕ) (m : Multiaddr) → lib.dial n m ≡ false)
      → (c.dials ≡ 0) × (length c.dialed ≡ length c.table)
      → length (contact_all lib todo c).dialed ≡ length (contact_all lib todo c).table
  unfolding contact_all
  dialed-contact_all [] c fails h = h.1
  dialed-contact_all (n ∷ todo) c fails h =
      dialed-contact_all todo (contact_parsed lib (lib.parse n) c) fails (step (lib.parse n))
    where
      step :
          (o : Option Multiaddr)
          → ((contact_parsed lib o c).dials ≡ 0)
            × (length (contact_parsed lib o c).dialed ≡ length (contact_parsed lib o c).table)
      step none = h
      step (some ma) = elim (Option-cases (lib.last_peer ma)) [
        | inl f ↦ rw (contact_parsed, f) h
        | inr (peer, f) ↦ rw (contact_parsed, f) (dialed-contact peer ma c fails h)
      ]

  -- Where every dial fails, every entry of the routing table was dialled: only dials that succeed count
  -- towards the limit.
  pub new-dialed :
      (network_id : Str) (nodes : List Str) (node : Node lib)
      → new lib network_id nodes ≡ ok node
      → ((n : ℕ) (m : Multiaddr) → lib.dial n m ≡ false)
      → length node.contacts.dialed ≡ length node.contacts.table
  new-dialed network_id nodes node h fails =
      let (_, e) = contacts-new network_id nodes node h in
      rw e (dialed-contact_all nodes (no_contacts lib) fails (refl, refl))
