-- ===== src/Daemon/Invariant.antt =====
-- What holds of every request in flight, between any two steps.
use kinetic_atlas.Base.{
  ℕ, ◌≡◌, ◌⊎◌, inl, inr, refl, subst, sym, Option, none, some, List, [], ◌∷◌, ◌++◌, All, In, length,
  Result, ok, err,
}
use kinetic_atlas.Text.{Str, str, Bytes}
use kinetic_atlas.Types.{AtlasConfig, NetworkConfig, DnsRecord}
use kinetic_atlas.Error.{AtlasError, network_init_failed}
use kinetic_atlas.Registry.{Dir, Entry, absent, unreadable, entries}
use kinetic_atlas.SwarmManager.{Manager}
use kinetic_atlas.SwarmManager.Ownership.{IsOwned, IsGood, Extends, IsOwned-Extends}
use kinetic_atlas.Main.Loads.{registry_of, loaded_files}
use kinetic_atlas.Proxy.Outside.{HttpRequest, HttpResponse, Outside}
use kinetic_atlas.Proxy.Locate.{Located, locate}
use kinetic_atlas.Proxy.Targets.{Attempt, proxy_request, try_targets}
use kinetic_atlas.Proxy.Targets.Order.{Silent, attempted}
use kinetic_atlas.Proxy.Handler.{prepare}
use kinetic_atlas.Proxy.Handler.Verified.{Prepared}
use kinetic_atlas.Daemon.{Phase, arrived, asked, resolving, granted, trying, finished, Task, System}

-- The files that the registry holds after loads of the networks directory, the last one first.
abbrev pub files_of : List Dir → List Entry
files_of [] = []
files_of (dir ∷ dirs) = loaded_files dir (files_of dirs)

-- The files that it held after one of these loads.
abbrev pub Recorded : List Dir → List Entry → Type 0
Recorded [] es = ⊥
Recorded (dir ∷ dirs) es = (es ≡ files_of (dir ∷ dirs)) ⊎ Recorded dirs es

holding-listed :
    (dirs : List Dir) (e : Entry) → In e (files_of dirs) → In (entries (files_of dirs)) dirs
holding-listed [] e i = absurd i.lower
holding-listed (absent ∷ dirs) e i = inr (holding-listed dirs e i)
holding-listed (unreadable ∷ dirs) e i = absurd i.lower
holding-listed (entries fs ∷ dirs) e i = inl refl

-- Where it held a file, it held all files of a directory that was read.
pub Recorded-listed :
    (dirs : List Dir) (es : List Entry) (e : Entry)
    → Recorded dirs es
    → In e es
    → In (entries es) dirs
Recorded-listed [] es e h i = absurd h
Recorded-listed (dir ∷ dirs) es e (inl same) i =
    subst (λ (fs : List Entry). In (entries fs) (dir ∷ dirs)) (sym same)
      (holding-listed (dir ∷ dirs) e (subst (λ (fs : List Entry). In e fs) same i))
Recorded-listed (dir ∷ dirs) es e (inr h) i = inr (Recorded-listed dirs es e h i)

-- What the handler answers once its request is located, or not, and its channel is given, or not.
module _ {Reveal : Type 0} (world : Outside Reveal) (global : AtlasConfig) (req : HttpRequest) where
  abbrev pub from_targets :
      Located
      → ℕ
      → Result AtlasError (List DnsRecord × Bytes)
      → List Attempt × Result AtlasError HttpResponse
  from_targets loc channel (err e) = ([], err e)
  from_targets loc channel (ok (targets, body)) =
      try_targets world global loc.config channel (proxy_request world.to_str req body) 0 targets

  abbrev pub answer_of :
      Result AtlasError Located → Option ℕ → List Attempt × Result AtlasError HttpResponse
  answer_of (err e) given = ([], err e)
  answer_of (ok loc) none =
      ([], err (network_init_failed (str "Failed to connect to network for TLD " ++ loc.tld)))
  answer_of (ok loc) (some channel) = from_targets loc channel (prepare world channel loc)

module _ {Reveal Node : Type 0} (node_new : Str → List Str → Result AtlasError Node)
    (parse : Str → Option NetworkConfig) (data_local_dir : Option Str) (global : AtlasConfig)
    (dirs : List Dir) (m : Manager Node) (world : Outside Reveal) (req : HttpRequest) where
  -- The request was located over a registry that the daemon has had.
  pub record Found (loc : Located) : Type 0 where
    pub files : List Entry
    pub recorded : Recorded dirs files
    pub located : locate world.to_str (registry_of parse data_local_dir global files) req ≡ ok loc

  -- The handler stands before the target `next`, and none in front of it gave an answer.
  pub record Trying (loc : Located) (channel : ℕ) (body : Bytes) (next : ℕ) (left : List DnsRecord)
      (attempts : List Attempt) : Type 0 where
    pub found : Found loc
    pub owned : IsOwned node_new m loc.tld channel
    pub front : List DnsRecord
    pub prepared : Prepared world channel loc (front ++ left) body
    pub at : next ≡ length front
    pub silent :
        Silent world global loc.config channel (proxy_request world.to_str req body) 0 front
    pub sent :
        attempts
        ≡ attempted world global loc.config channel (proxy_request world.to_str req body) 0 front

  -- No node could be created for the network of the request.
  abbrev pub IsRefused : Located → Type 0
  IsRefused loc =
      (nodes : List Str) × (e : AtlasError) × (node_new loc.config.network_id nodes ≡ err e)

  -- The request has the answer that it would have alone, over a registry that the daemon has had and with
  -- a channel of its top-level domain; with none only where a node could not be created.
  pub record Answered (attempts : List Attempt) (result : Result AtlasError HttpResponse)
      : Type 0 where
    pub files : List Entry
    pub recorded : Recorded dirs files
    pub given : Option ℕ
    pub owned :
        (loc : Located) (channel : ℕ)
        → locate world.to_str (registry_of parse data_local_dir global files) req ≡ ok loc
        → given ≡ some channel
        → IsOwned node_new m loc.tld channel
    pub refused :
        (loc : Located)
        → locate world.to_str (registry_of parse data_local_dir global files) req ≡ ok loc
        → given ≡ none
        → IsRefused loc
    pub answer_is :
        (attempts, result)
        ≡ answer_of world global req
            (locate world.to_str (registry_of parse data_local_dir global files) req)
            given

module _ {Reveal Node : Type 0} (node_new : Str → List Str → Result AtlasError Node)
    (parse : Str → Option NetworkConfig) (data_local_dir : Option Str) (global : AtlasConfig) where
  abbrev pub PhaseOk : List Dir → Manager Node → Outside Reveal → Phase → Type 0
  PhaseOk dirs m world (arrived req) = Unit
  PhaseOk dirs m world (asked req loc) =
      Found node_new parse data_local_dir global dirs m world req loc
  PhaseOk dirs m world (resolving req loc) =
      Found node_new parse data_local_dir global dirs m world req loc
  PhaseOk dirs m world (granted req loc channel) =
      Found node_new parse data_local_dir global dirs m world req loc
      × IsOwned node_new m loc.tld channel
  PhaseOk dirs m world (trying req loc channel body next left attempts) =
      Trying node_new parse data_local_dir global dirs m world req loc channel body next left
        attempts
  PhaseOk dirs m world (finished req attempts result) =
      Answered node_new parse data_local_dir global dirs m world req attempts result

  abbrev pub TaskOk : List Dir → Manager Node → Task Reveal → Type 0
  TaskOk dirs m t = PhaseOk dirs m t.world t.phase

  pub record IsSound (s : System Reveal Node) : Type 0 where
    pub good : IsGood node_new s.state.swarms
    pub configured : s.state.global_config ≡ global
    pub recorded : Recorded s.dirs (files_of s.dirs)
    pub current : s.state.registry ≡ registry_of parse data_local_dir global (files_of s.dirs)
    pub tasks : All (TaskOk s.dirs s.state.swarms) s.tasks

  -- A load more, or a node more, leaves what holds of a request.
  module _ (dirs dirs' : List Dir) (m m' : Manager Node)
      (more : (es : List Entry) → Recorded dirs es → Recorded dirs' es)
      (ext : Extends node_new m m') where
    Found-more :
        (world : Outside Reveal) (req : HttpRequest) (loc : Located)
        → Found node_new parse data_local_dir global dirs m world req loc
        → Found node_new parse data_local_dir global dirs' m' world req loc
    Found-more world req loc f = record {
      files = f.files;
      recorded = more f.files f.recorded;
      located = f.located;
    }

    pub PhaseOk-more :
        (world : Outside Reveal) (p : Phase) → PhaseOk dirs m world p → PhaseOk dirs' m' world p
    PhaseOk-more world (arrived req) h = tt
    PhaseOk-more world (asked req loc) h = Found-more world req loc h
    PhaseOk-more world (resolving req loc) h = Found-more world req loc h
    PhaseOk-more world (granted req loc channel) (f, o) =
        (Found-more world req loc f, IsOwned-Extends node_new m m' loc.tld channel ext o)
    PhaseOk-more world (trying req loc channel body next left attempts) h = record {
      found = Found-more world req loc h.found;
      owned = IsOwned-Extends node_new m m' loc.tld channel ext h.owned;
      front = h.front;
      prepared = h.prepared;
      at = h.at;
      silent = h.silent;
      sent = h.sent;
    }
    PhaseOk-more world (finished req attempts result) h = record {
      files = h.files;
      recorded = more h.files h.recorded;
      given = h.given;
      owned = λ loc channel l g.
          IsOwned-Extends node_new m m' loc.tld channel ext (h.owned loc channel l g);
      refused = h.refused;
      answer_is = h.answer_is;
    }

    pub All-more : (ts : List (Task Reveal)) → All (TaskOk dirs m) ts → All (TaskOk dirs' m') ts
    All-more [] h = tt
    All-more (t ∷ ts) (h, hs) = (PhaseOk-more t.world t.phase h, All-more ts hs)
