-- ===== src/Daemon/Sources.antt =====
-- What the nodes of the daemon were started from.
use kinetic_atlas.Base.{
  ℕ, ◌≡◌, ◌⊎◌, inl, inr, refl, sym, subst, Option, some, List, [], ◌∷◌, ◌++◌, All, All-append_right,
  In, arith, Result, ok, err, Option-cases, Bool-cases, ◌==◌, ℕ_eq,
}
use kinetic_atlas.Base.Map
use kinetic_atlas.Text.{Str, Str_eq}
use kinetic_atlas.Types.{AtlasConfig, NetworkConfig}
use kinetic_atlas.Error.{AtlasError}
use kinetic_atlas.Registry.{Dir, Entry, entries}
use kinetic_atlas.Registry.Loading.{Admitted}
use kinetic_atlas.SwarmManager.{
  Manager, Running, touch, register, spawn, check_and_spawn, collect, with_seeds,
}
use kinetic_atlas.SwarmManager.Seeds.{seeds_of, IsSeed, with_seeds-IsSeed}
use kinetic_atlas.DnsTree.{TxtRecords}
use kinetic_atlas.Main.{initial_state}
use kinetic_atlas.Proxy.Outside.{HttpRequest, Outside}
use kinetic_atlas.Proxy.Locate.{Located}
use kinetic_atlas.Proxy.Handler.{ProxyState}
use kinetic_atlas.Daemon.{
  Phase, arrived, asked, resolving, granted, trying, finished, System, advance, Step, arrive, go_on,
  disconnect, collect_idle, reload, close, interrupt, stop, Reach, start, next,
}
use kinetic_atlas.Daemon.Invariant.{Found, PhaseOk, TaskOk}
use kinetic_atlas.Daemon.Sent.{admitted, recorded_files}
use kinetic_atlas.Daemon.Sound.Steps.{Reach-IsSound}

module _ {Node : Type 0} where
  touch-running : (now : ℕ) (tld : Str) (m : Manager Node) → (touch now tld m).1.running ≡ m.running
  unfolding touch
  touch-running now tld m = elim (Option-cases (Map.get m.swarms tld)) [
    | inl e ↦ rw (e, touch) refl
    | inr (h, e) ↦ rw (e, touch) refl
  ]

  module _ (node_new : Str → List Str → Result AtlasError Node) (now : ℕ) (tld : Str)
      (config : NetworkConfig) (m : Manager Node) where
    -- A node that `m` has not, and that is started for the domain from the configuration.
    pub record IsNew (r : Running Node) : Type 0 where
      pub of_tld : r.tld ≡ tld
      pub of_config : r.config ≡ config
      pub created : node_new r.config.network_id r.config.bootstrap_nodes ≡ ok r.node

    register-running :
        (o : Result AtlasError Node)
        → node_new config.network_id config.bootstrap_nodes ≡ o
        → (tx : ℕ) (r : Running Node)
        → Map.get (register node_new now tld config o m).1.running tx ≡ some r
        → (Map.get m.running tx ≡ some r) ⊎ IsNew r
    unfolding Map.get
    register-running (err x) e tx r q = inl q
    register-running (ok node) e tx r q = elim (Bool-cases (m.next_tx == tx)) [
      | inl here ↦
          let same : record { tld = tld; config = config; node = node } ≡ r = ground arith in
          inr (subst IsNew same (record { of_tld = refl; of_config = refl; created = e }))
      | inr other ↦ inl (ground arith)
    ]

    pub check_and_spawn-running :
        (tx : ℕ) (r : Running Node)
        → Map.get (check_and_spawn node_new now tld config m).1.running tx ≡ some r
        → (Map.get m.running tx ≡ some r) ⊎ IsNew r
    unfolding check_and_spawn
    check_and_spawn-running tx r q = elim (Option-cases (touch now tld m).0) [
      | inl e ↦
          register-running (node_new config.network_id config.bootstrap_nodes) refl tx r
            (unfold spawn in (rw (e, check_and_spawn) at q))
      | inr (c, e) ↦ inl (
          subst (λ (rs : Map.Map ℕ (Running Node)). Map.get rs tx ≡ some r)
            (touch-running now tld m) (rw (e, check_and_spawn) at q))
    ]

module _ {Node : Type 0} (node_new : Str → List Str → Result AtlasError Node)
    (resolve : Str → List Str) (parse : Str → Option NetworkConfig) (data_local_dir : Option Str)
    (global : AtlasConfig) where
  -- The node was created from a configuration that a load of the networks directory admits for its
  -- top-level domain, with the addresses of its seed domain.
  pub record IsFounded (dirs : List Dir) (r : Running Node) : Type 0 where
    pub files : List Entry
    pub recorded : In (entries files) dirs
    pub config : NetworkConfig
    pub is_admitted : Admitted parse data_local_dir global files r.tld config
    pub config_is : r.config ≡ with_seeds resolve config
    pub created : node_new r.config.network_id r.config.bootstrap_nodes ≡ ok r.node

  abbrev AllFounded : List Dir → Manager Node → Type 0
  AllFounded dirs m = (tx : ℕ) (r : Running Node) → Map.get m.running tx ≡ some r → IsFounded dirs r

module _ {Reveal Node : Type 0} (node_new : Str → List Str → Result AtlasError Node)
    (resolve : Str → List Str) (parse : Str → Option NetworkConfig) (data_local_dir : Option Str)
    (global : AtlasConfig) where
  IsFounded-new :
      (dirs : List Dir) (m : Manager Node) (world : Outside Reveal) (req : HttpRequest)
      (loc : Located) (now : ℕ) (r : Running Node)
      → Found node_new parse data_local_dir global dirs m world req loc
      → IsNew node_new now loc.tld (with_seeds resolve loc.config) m r
      → IsFounded node_new resolve parse data_local_dir global dirs r
  IsFounded-new dirs m world req loc now r f n = record {
    files = f.files;
    recorded =
        recorded_files node_new parse data_local_dir global dirs m world req f.files f.recorded loc
          f.located;
    config = loc.config;
    is_admitted =
        subst (λ (tld : Str). Admitted parse data_local_dir global f.files tld loc.config)
          (sym n.of_tld)
          (admitted node_new parse data_local_dir global dirs m world req f.files f.recorded loc
            f.located).admitted;
    config_is = n.of_config;
    created = n.created;
  }

  -- A handler that goes on starts a node from the configuration that its request was located with, if any.
  advance-AllFounded :
      (dirs : List Dir) (world : Outside Reveal) (now : ℕ) (st : ProxyState Node) (p : Phase)
      → PhaseOk node_new parse data_local_dir global dirs st.swarms world p
      → AllFounded node_new resolve parse data_local_dir global dirs st.swarms
      → AllFounded node_new resolve parse data_local_dir global dirs
          (advance node_new resolve world now p st).1.swarms
  unfolding advance
  advance-AllFounded dirs world now st (arrived req) h a = a
  advance-AllFounded dirs world now st (asked req loc) h a = λ tx r q. a tx r (
      subst (λ (rs : Map.Map ℕ (Running Node)). Map.get rs tx ≡ some r)
        (touch-running now loc.tld st.swarms) q)
  advance-AllFounded dirs world now st (resolving req loc) h a = λ tx r q.
      elim (check_and_spawn-running node_new now loc.tld (with_seeds resolve loc.config) st.swarms
        tx r q) [
          | inl old ↦ a tx r old
          | inr n ↦ IsFounded-new dirs st.swarms world req loc now r h n
        ]
  advance-AllFounded dirs world now st (granted req loc channel) h a = a
  advance-AllFounded dirs world now st (trying req loc channel body number [] attempts) h a = a
  advance-AllFounded dirs world now st (trying req loc channel body number (t ∷ left) attempts) h
        a =
      a
  advance-AllFounded dirs world now st (finished req attempts result) h a = a

  Step-AllFounded :
      (dir : Dir) (s s' : System Reveal Node)
      → Reach node_new resolve parse data_local_dir global dir s
      → Step node_new resolve parse data_local_dir s s'
      → AllFounded node_new resolve parse data_local_dir global s.dirs s.state.swarms
      → AllFounded node_new resolve parse data_local_dir global s'.dirs s'.state.swarms
  Step-AllFounded dir s _ r (arrive _ world req) a = a
  Step-AllFounded dir s _ r (go_on _ front t back now e) a =
      let Ok = TaskOk node_new parse data_local_dir global s.dirs s.state.swarms in
      let sound = Reach-IsSound node_new resolve parse data_local_dir global dir s r in
      let all : All Ok (front ++ t ∷ back) = subst (All Ok) e sound.tasks in
      let here = (All-append_right Ok front (t ∷ back) all).0 in
      advance-AllFounded s.dirs t.world now s.state t.phase here a
  Step-AllFounded dir s _ r (collect_idle _ now) a = unfold collect in a
  Step-AllFounded dir s _ r (reload _ d) a = λ tx q f.
      let k = a tx q f in
      record {
        files = k.files;
        recorded = inr k.recorded;
        config = k.config;
        is_admitted = k.is_admitted;
        config_is = k.config_is;
        created = k.created;
      }
  Step-AllFounded dir s _ r (disconnect _ front t back e) a = a
  Step-AllFounded dir s _ r (close _ tx node f u n) a = a
  Step-AllFounded dir s _ r (interrupt _ n) a = a
  Step-AllFounded dir s _ r (stop _ told tx c i n) a = a

  -- However the steps of the daemon interleave, each node was created from a configuration that stood in a
  -- file of a load of the networks directory for the top-level domain of the node, whose name was allowed;
  -- its bootstrap addresses are those of the file with the ones that its seed domain has, where it has one.
  pub Reach-IsFounded :
      (dir : Dir) (s : System Reveal Node)
      → Reach node_new resolve parse data_local_dir global dir s
      → (tx : ℕ) (r : Running Node) → Map.get s.state.swarms.running tx ≡ some r
      → IsFounded node_new resolve parse data_local_dir global s.dirs r
  unfolding initial_state Map.get
  Reach-IsFounded dir _ start tx r q = cc
  Reach-IsFounded dir _ (next {s = s} {t = t} reach step) tx r q =
      Step-AllFounded dir s t reach step (Reach-IsFounded dir s reach) tx r q

module _ {Reveal Node Multiaddr : Type 0} (node_new : Str → List Str → Result AtlasError Node)
    (parse_ma : Str → Option Multiaddr) (to_text : Multiaddr → Str)
    (resolver : Option (Str → Option TxtRecords)) (parse : Str → Option NetworkConfig)
    (data_local_dir : Option Str) (global : AtlasConfig) where
  -- With `resolve_dns_tree` for the resolution of seed domains, each address that a node is started with
  -- stands in the file that it was created from, or in the DNS answers for the seed domain of that file:
  -- as a flat address of the domain, or in a leaf of a branch of its tree.
  pub Reach-IsSeed :
      (dir : Dir) (s : System Reveal Node)
      → Reach node_new (seeds_of parse_ma to_text resolver) parse data_local_dir global dir s
      → (tx : ℕ) (r : Running Node) → Map.get s.state.swarms.running tx ≡ some r
      → (b : Str) → In b r.config.bootstrap_nodes
      → (f : IsFounded node_new
          (seeds_of parse_ma to_text resolver)
          parse
          data_local_dir
          global
          s.dirs
          r)
        × IsSeed parse_ma to_text resolver f.config b
  Reach-IsSeed dir s reach tx r q b i =
      let f =
        Reach-IsFounded node_new (seeds_of parse_ma to_text resolver) parse data_local_dir global
          dir s reach tx r q in
      (
        f,
        with_seeds-IsSeed parse_ma to_text resolver f.config b
            (subst (λ (config : NetworkConfig). In b config.bootstrap_nodes) f.config_is i),
      )
