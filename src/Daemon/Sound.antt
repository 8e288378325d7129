-- ===== src/Daemon/Sound.antt =====
-- What a handler that goes on keeps, up to the loop over its targets.
pub mod Rounds
pub mod Steps
use kinetic_atlas.Base.{
  ℕ, suc, ◌+◌, ◌≡◌, ◌⊎◌, inl, inr, refl, ap, sym, subst, ◌∙◌, Option, none, some, List, [], ◌∷◌,
  ◌++◌, All, All-append, All-append_left, All-append_right, In, length, arith, Result, ok, err,
  Option-cases, append_assoc, append-nil, length-append,
}
use kinetic_atlas.Text.{Str, str, Bytes}
use kinetic_atlas.Types.{AtlasConfig, NetworkConfig, DnsRecord}
use kinetic_atlas.Error.{AtlasError, network_init_failed, proxy_target_failed}
use kinetic_atlas.Registry.{TldRegistry, Dir, Entry, absent, unreadable, entries}
use kinetic_atlas.SwarmManager.{Manager, touch, check_and_spawn, collect, with_seeds}
use kinetic_atlas.SwarmManager.Ownership.{IsOwned, IsGood, Extends}
use kinetic_atlas.SwarmManager.Ownership.Keeping.{
  Serves, touch-Serves, check_and_spawn-Serves, check_and_spawn-refused, with_seeds-network_id,
}
use kinetic_atlas.SwarmManager.Ownership.Shutdown.{collect-IsGood}
use kinetic_atlas.SwarmManager.Ownership.Runs.{empty-IsGood}
use kinetic_atlas.Main.{initial_state, reloaded}
use kinetic_atlas.Main.Loads.{
  registry_of, loaded_files, IsLoaded, reloaded-IsLoaded, initial_state-IsLoaded,
}
use kinetic_atlas.Proxy.Outside.{HttpRequest, HttpResponse, Outside}
use kinetic_atlas.Proxy.Locate.{Located, locate}
use kinetic_atlas.Proxy.Targets.{Attempt, Tried, proxy_request, try_target, try_targets}
use kinetic_atlas.Proxy.Targets.Order.{Silent, attempted, try_targets-append}
use kinetic_atlas.Proxy.Targets.Resumed.{try_targets-Silent, Silent-append, attempted-append}
use kinetic_atlas.Proxy.Handler.{ProxyState, prepare}
use kinetic_atlas.Proxy.Handler.Verified.{Prepared, prepare-Prepared}
use kinetic_atlas.Daemon.{
  Phase, arrived, asked, resolving, granted, trying, finished, Task, System, after_locate,
  after_touch, after_spawn, after_prepare, after_target, advance, go, Step, arrive, go_on,
  collect_idle, reload, close, Reach, start, next,
}
use kinetic_atlas.Daemon.Invariant.{
  Recorded, from_targets, answer_of, Found, Trying, IsRefused, Answered, PhaseOk, TaskOk, IsSound,
  PhaseOk-more, All-more,
}

module _ {Reveal Node : Type 0} (node_new : Str → List Str → Result AtlasError Node)
    (resolve : Str → List Str) (parse : Str → Option NetworkConfig) (data_local_dir : Option Str)
    (global : AtlasConfig) where
  -- What a handler that goes on leaves.
  pub record Goes (dirs : List Dir) (world : Outside Reveal) (st : ProxyState Node)
      (out : Phase × ProxyState Node) : Type 0 where
    pub good : IsGood node_new out.1.swarms
    pub extends : Extends node_new st.swarms out.1.swarms
    pub same_config : out.1.global_config ≡ st.global_config
    pub same_registry : out.1.registry ≡ st.registry
    pub phase : PhaseOk node_new parse data_local_dir global dirs out.1.swarms world out.0

  module _ (dirs : List Dir) (world : Outside Reveal) (st : ProxyState Node) (now : ℕ)
      (req : HttpRequest) (g : IsGood node_new st.swarms) where
    abbrev pub LocatedBy : Located → Type 0
    LocatedBy loc = Found node_new parse data_local_dir global dirs st.swarms world req loc

    abbrev pub Done : List Attempt → Result AtlasError HttpResponse → Type 0
    Done attempts result =
        Answered node_new parse data_local_dir global dirs st.swarms world req attempts result

    -- A handler that leaves what the tasks share.
    pub alone :
        (p : Phase)
        → PhaseOk node_new parse data_local_dir global dirs st.swarms world p
        → Goes dirs world st (p, st)
    alone p h = record {
      good = g;
      extends = λ t r f. f;
      same_config = refl;
      same_registry = refl;
      phase = h;
    }

    pub arrived-Goes :
        (files : List Entry)
        → Recorded dirs files
        → st.registry ≡ registry_of parse data_local_dir global files
        → Goes dirs world st (advance node_new resolve world now (arrived req) st)
    unfolding advance
    arrived-Goes files recorded current =
        alone _ (found_or_not (locate world.to_str st.registry req) refl)
      where
        found_or_not :
            (l : Result AtlasError Located)
            → locate world.to_str st.registry req ≡ l
            → PhaseOk node_new parse data_local_dir global dirs st.swarms world (after_locate req l)
        found_or_not (ok loc) e = record {
          files = files;
          recorded = recorded;
          located = rw (← current) e;
        }
        found_or_not (err x) e = record {
          files = files;
          recorded = recorded;
          given = none;
          owned = λ loc channel l q. cc;
          refused = λ loc l q. cc;
          answer_is = rw (← current, e) refl;
        }

    -- A request that stops behind its location, with the channel that it has got.
    pub stops :
        (loc : Located) (channel : ℕ) (attempts : List Attempt)
        (result : Result AtlasError HttpResponse)
        → LocatedBy loc
        → IsOwned node_new st.swarms loc.tld channel
        → (attempts, result) ≡ answer_of world global req (ok loc) (some channel)
        → Done attempts result
    stops loc channel attempts result f owner e = record {
      files = f.files;
      recorded = f.recorded;
      given = some channel;
      owned = λ other c l q.
          let same : loc ≡ other = ground (arith, f.located) in
          let here : channel ≡ c = ground arith in
          subst (λ (k : ℕ). IsOwned node_new st.swarms other.tld k) here
            (subst (λ (o : Located). IsOwned node_new st.swarms o.tld channel) same owner);
      refused = λ other l q. cc;
      answer_is = e ∙ ap (λ r. answer_of world global req r (some channel)) (sym f.located);
    }

    pub granted-Goes :
        (loc : Located) (channel : ℕ)
        → LocatedBy loc
        → IsOwned node_new st.swarms loc.tld channel
        → Goes dirs world st (advance node_new resolve world now (granted req loc channel) st)
    unfolding advance
    granted-Goes loc channel f o = alone _ (ready (prepare world channel loc) refl)
      where
        ready :
            (p : Result AtlasError (List DnsRecord × Bytes))
            → prepare world channel loc ≡ p
            → PhaseOk node_new parse data_local_dir global dirs st.swarms world
                (after_prepare req loc channel p)
        ready (err x) e =
            stops loc channel [] (err x) f o
              (ap (from_targets world global req loc channel) (sym e))
        ready (ok (targets, body)) e = record {
          found = f;
          owned = o;
          front = [];
          prepared = (prepare-Prepared world channel loc targets body).0 e;
          at = refl;
          silent = tt;
          sent = refl;
        }

    -- The handler stands behind its critical section, over the manager as that leaves it.
    serves_Goes :
        (loc : Located) (out : Option ℕ × Manager Node) (p : Phase)
        → Serves node_new st.swarms loc.tld out
        → PhaseOk node_new parse data_local_dir global dirs out.1 world p
        → Goes dirs world st (p, record st { swarms = out.1 })
    serves_Goes loc out p s h = record {
      good = s.good;
      extends = s.extends;
      same_config = refl;
      same_registry = refl;
      phase = h;
    }

    pub asked-Goes :
        (loc : Located)
        → LocatedBy loc
        → Goes dirs world st (advance node_new resolve world now (asked req loc) st)
    unfolding advance
    asked-Goes loc f =
        let s = touch-Serves node_new st.swarms g now loc.tld in
        serves_Goes loc (touch now loc.tld st.swarms) _ s (handed (touch now loc.tld st.swarms) s)
      where
        handed :
            (out : Option ℕ × Manager Node)
            → Serves node_new st.swarms loc.tld out
            → PhaseOk node_new parse data_local_dir global dirs out.1 world
                (after_touch req loc out.0)
        handed (none, m) s = record { files = f.files; recorded = f.recorded; located = f.located }
        handed (some channel, m) s = (
          record { files = f.files; recorded = f.recorded; located = f.located },
          s.owner channel refl,
        )

    is_refused :
        (loc : Located)
        → (check_and_spawn node_new now loc.tld (with_seeds resolve loc.config) st.swarms).0 ≡ none
        → IsRefused node_new parse data_local_dir global dirs st.swarms world req loc
    is_refused loc q =
        let config = with_seeds resolve loc.config in
        let (x, e) = check_and_spawn-refused node_new now loc.tld config st.swarms q in
        (
          config.bootstrap_nodes,
          x,
          subst (λ (id : Str). node_new id config.bootstrap_nodes ≡ err x)
              (with_seeds-network_id resolve loc.config) e,
        )

    pub resolving-Goes :
        (loc : Located)
        → LocatedBy loc
        → Goes dirs world st (advance node_new resolve world now (resolving req loc) st)
    unfolding advance
    resolving-Goes loc f =
        let config = with_seeds resolve loc.config in
        let s = check_and_spawn-Serves node_new st.swarms g now loc.tld config in
        serves_Goes loc (check_and_spawn node_new now loc.tld config st.swarms) _ s
          (handed (check_and_spawn node_new now loc.tld config st.swarms) s (is_refused loc))
      where
        handed :
            (out : Option ℕ × Manager Node)
            → Serves node_new st.swarms loc.tld out
            → (out.0 ≡ none
                → IsRefused node_new parse data_local_dir global dirs st.swarms world req loc)
            → PhaseOk node_new parse data_local_dir global dirs out.1 world
                (after_spawn req loc out.0)
        handed (none, m) s no_node = record {
          files = f.files;
          recorded = f.recorded;
          given = none;
          owned = λ other channel l q. cc;
          refused = λ other l q.
              let same : loc ≡ other = ground (arith, f.located) in
              subst (IsRefused node_new parse data_local_dir global dirs st.swarms world req) same
                (no_node refl);
          answer_is = ap (λ r. answer_of world global req r none) (sym f.located);
        }
        handed (some channel, m) s no_node = (
          record { files = f.files; recorded = f.recorded; located = f.located },
          s.owner channel refl,
        )
