-- ===== src/Daemon/Sent.antt =====
-- What stands behind every request that is sent for one in flight.
use kinetic_atlas.Base.{
  ℕ, ◌≡◌, refl, ap, sym, subst, ◌∙◌, Option, none, some, List, [], ◌∷◌, ◌++◌, In, In-All, Result,
  ok, err,
}
use kinetic_atlas.Text.{Str, Bytes}
use kinetic_atlas.Types.{AtlasConfig, NetworkConfig, DnsRecord, DnsZone}
use kinetic_atlas.Error.{AtlasError}
use kinetic_atlas.Registry.{Dir, Entry, entries}
use kinetic_atlas.SwarmManager.{Manager}
use kinetic_atlas.SwarmManager.Ownership.{IsOwned}
use kinetic_atlas.Main.Loads.{registry_of, IsAdmitted, IsLocated-IsAdmitted}
use kinetic_atlas.Proxy.Outside.{HttpRequest, HttpResponse, Outside}
use kinetic_atlas.Proxy.Locate.{Located, locate}
use kinetic_atlas.Proxy.Locate.Registered.{locate-IsLocated}
use kinetic_atlas.Proxy.Zone.{Listed, targets_of-Listed}
use kinetic_atlas.Proxy.Targets.{Attempt, proxy_request}
use kinetic_atlas.Proxy.Targets.Requests.{For, For-append, For-target, try_targets-For}
use kinetic_atlas.Proxy.Targets.Resumed.{try_targets-Silent}
use kinetic_atlas.Proxy.Handler.{prepare}
use kinetic_atlas.Proxy.Handler.Verified.{IsSigned, Prepared, prepare-Prepared}
use kinetic_atlas.Daemon.{
  Phase, arrived, asked, resolving, granted, trying, finished, Task, System, attempts_of,
  request_of, Reach,
}
use kinetic_atlas.Daemon.Invariant.{
  Recorded, Recorded-listed, from_targets, answer_of, Trying, Answered, PhaseOk, TaskOk,
}
use kinetic_atlas.Daemon.Sound.Steps.{Reach-IsSound}

module _ {Reveal Node : Type 0} (node_new : Str → List Str → Result AtlasError Node)
    (parse : Str → Option NetworkConfig) (data_local_dir : Option Str) (global : AtlasConfig)
    (dirs : List Dir) (m : Manager Node) (world : Outside Reveal) (req : HttpRequest) where
  pub record Behind (q : Attempt) : Type 0 where
    -- The files of a load, and the domain of the request, which they admit.
    pub files : List Entry
    pub recorded : In (entries files) dirs
    pub loc : Located
    pub located : locate world.to_str (registry_of parse data_local_dir global files) req ≡ ok loc
    pub is_admitted : IsAdmitted parse data_local_dir global files loc
    -- The channel, which belongs to the node of the domain.
    pub channel : ℕ
    pub owned : IsOwned node_new m loc.tld channel
    -- The zone, which is signed for the network, and the target that it lists.
    pub zone : DnsZone
    pub is_signed : IsSigned world channel loc.config loc.base_domain zone
    pub target : DnsRecord
    pub listed : Listed zone loc.subdomain target
    pub body : Bytes
    pub sent :
        For world global loc.config channel (proxy_request world.to_str req body) (target ∷ []) q

  module _ (files : List Entry) (recorded : Recorded dirs files) (loc : Located)
      (located : locate world.to_str (registry_of parse data_local_dir global files) req
        ≡ ok loc) where
    pub admitted : IsAdmitted parse data_local_dir global files loc
    admitted = IsLocated-IsAdmitted parse data_local_dir global files loc (
        locate-IsLocated world.to_str (registry_of parse data_local_dir global files) req loc
          located)

    -- A load that admits a domain was one of files.
    pub recorded_files : In (entries files) dirs
    recorded_files =
        Recorded-listed dirs files admitted.admitted.entry recorded admitted.admitted.listed

    Behind-of_For :
        (channel : ℕ) (targets : List DnsRecord) (body : Bytes) (q : Attempt)
        → IsOwned node_new m loc.tld channel
        → Prepared world channel loc targets body
        → For world global loc.config channel (proxy_request world.to_str req body) targets q
        → Behind q
    Behind-of_For channel targets body q o p f =
        let (t, i, sent) =
          For-target world global loc.config channel (proxy_request world.to_str req body) targets q
            f in
        record {
          files = files;
          recorded = recorded_files;
          loc = loc;
          located = located;
          is_admitted = admitted;
          channel = channel;
          owned = o;
          zone = p.zone;
          is_signed = p.is_signed;
          target = t;
          listed = ((targets_of-Listed p.zone loc.subdomain targets p.chosen t).0 i).0;
          body = body;
          sent = sent;
        }

  Trying-Behind :
      (loc : Located) (channel : ℕ) (body : Bytes) (number : ℕ) (left : List DnsRecord)
      (attempts : List Attempt)
      → Trying node_new parse data_local_dir global dirs m world req loc channel body number left
          attempts
      → (q : Attempt) → In q attempts
      → Behind q
  Trying-Behind loc channel body number left attempts h q i =
      let request = proxy_request world.to_str req body in
      let whole =
        ap (λ (r : List Attempt × Result AtlasError HttpResponse). r.0)
          (try_targets-Silent world global loc.config channel request 0 h.front h.silent) in
      let f =
        try_targets-For world global loc.config channel request 0 h.front q
          (subst (In q) (h.sent ∙ sym whole) i) in
      Behind-of_For h.found.files h.found.recorded loc h.found.located channel (h.front ++ left)
        body q h.owned h.prepared
        (For-append world global loc.config channel request h.front left q f)

  Answered-Behind :
      (attempts : List Attempt) (result : Result AtlasError HttpResponse)
      → Answered node_new parse data_local_dir global dirs m world req attempts result
      → (q : Attempt) → In q attempts
      → Behind q
  Answered-Behind attempts result h q i =
      at_locate (locate world.to_str (registry_of parse data_local_dir global h.files) req) refl
        h.given refl
        (subst (In q) (ap (λ (r : List Attempt × Result AtlasError HttpResponse). r.0) h.answer_is)
          i)
    where
      at_prepare :
          (loc : Located)
          → locate world.to_str (registry_of parse data_local_dir global h.files) req ≡ ok loc
          → (channel : ℕ) → h.given ≡ some channel
          → (p : Result AtlasError (List DnsRecord × Bytes)) → prepare world channel loc ≡ p
          → In q (from_targets world global req loc channel p).0
          → Behind q
      at_prepare loc l channel g (err e) p i = absurd i.lower
      at_prepare loc l channel g (ok (targets, body)) p i =
          Behind-of_For h.files h.recorded loc l channel targets body q (h.owned loc channel l g)
            ((prepare-Prepared world channel loc targets body).0 p)
            (try_targets-For world global loc.config channel (proxy_request world.to_str req body) 0
              targets q i)

      at_locate :
          (l : Result AtlasError Located)
          → locate world.to_str (registry_of parse data_local_dir global h.files) req ≡ l
          → (given : Option ℕ) → h.given ≡ given
          → In q (answer_of world global req l given).0
          → Behind q
      at_locate (err e) l given g i = absurd i.lower
      at_locate (ok loc) l none g i = absurd i.lower
      at_locate (ok loc) l (some channel) g i =
          at_prepare loc l channel g (prepare world channel loc) refl i

  phase-Behind :
      (p : Phase)
      → PhaseOk node_new parse data_local_dir global dirs m world p
      → request_of p ≡ req
      → (q : Attempt) → In q (attempts_of p)
      → Behind q
  phase-Behind (arrived r) h e q i = absurd i.lower
  phase-Behind (asked r loc) h e q i = absurd i.lower
  phase-Behind (resolving r loc) h e q i = absurd i.lower
  phase-Behind (granted r loc channel) h e q i = absurd i.lower
  phase-Behind (trying r loc channel body number left attempts) h e q i =
      Trying-Behind loc channel body number left attempts
        (subst
          (λ (r : HttpRequest).
            Trying node_new parse data_local_dir global dirs m world r loc channel body number left
              attempts)
          e h)
        q i
  phase-Behind (finished r attempts result) h e q i =
      Answered-Behind attempts result
        (subst
          (λ (r : HttpRequest).
            Answered node_new parse data_local_dir global dirs m world r attempts result)
          e h)
        q i

module _ {Reveal Node : Type 0} (node_new : Str → List Str → Result AtlasError Node)
    (resolve : Str → List Str) (parse : Str → Option NetworkConfig) (data_local_dir : Option Str)
    (global : AtlasConfig) where
  -- However the steps of the daemon interleave, every request to a gateway or a peer, also those of
  -- handlers that still go on, is for a target that a zone lists for the subdomain of the incoming
  -- request; the zone is signed for the network that a load of the networks directory admits for its
  -- top-level domain, and the channel that it goes over, or that its zone was asked for over, belongs to
  -- a node that was started for that top-level domain.
  pub Reach-Behind :
      (dir : Dir) (s : System Reveal Node)
      → Reach node_new resolve parse data_local_dir global dir s
      → (t : Task Reveal) → In t s.tasks
      → (q : Attempt) → In q (attempts_of t.phase)
      → Behind node_new parse data_local_dir global s.dirs s.state.swarms t.world
          (request_of t.phase)
          q
  Reach-Behind dir s r t i q sent =
      phase-Behind node_new parse data_local_dir global s.dirs s.state.swarms t.world
        (request_of t.phase) t.phase
        (In-All (TaskOk node_new parse data_local_dir global s.dirs s.state.swarms) s.tasks
          (Reach-IsSound node_new resolve parse data_local_dir global dir s r).tasks i)
        refl q sent
