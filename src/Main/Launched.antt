-- ===== src/Main/Launched.antt =====
-- What `main` serves, for whatever configuration and networks directory it reads.
use Prim.Native.Nat.{◌/◌, ◌%◌}
use kinetic_atlas.Base.{
  ℕ, zero, suc, ◌+◌, ◌*◌, ◌<◌, ◌≡◌, inl, inr, refl, ap, subst, ◌∙◌, Option, some, List, [], ◌∷◌,
  ◌++◌, arith, ltb, Bool-cases, Result, ok, err,
}
use kinetic_atlas.Text.{Str, str}
use kinetic_atlas.Types.{AtlasConfig, NetworkConfig}
use kinetic_atlas.Error.{AtlasError}
use kinetic_atlas.Registry.{Dir, Entry, entries, new, get_config}
use kinetic_atlas.Registry.Spec.{first_provider}
use kinetic_atlas.Registry.Loading.{get_config-loaded}
use kinetic_atlas.SwarmManager.{empty}
use kinetic_atlas.Proxy.Handler.{ProxyState}
use kinetic_atlas.Main.{Files, get_or_create_config, initial_state}
use kinetic_atlas.Main.Serving.{digits, decimal, number_from, Listener, address, Launch, main}

abbrev power_of_ten : ℕ → ℕ
power_of_ten zero = 1
power_of_ten (suc r) = 10 * power_of_ten r

number_from-digits :
    (rounds n : ℕ) (ds : Str)
    → n < power_of_ten rounds
    → number_from 0 (digits rounds n ds) ≡ number_from n ds
unfolding digits
number_from-digits zero n ds h = ap (λ (k : ℕ). number_from k ds) (omega arith)
number_from-digits (suc rounds) n ds h = elim (Bool-cases (ltb n 10)) [
  | inl small ↦ rw (small, digits) (ap (λ (k : ℕ). number_from k ds) (omega arith))
  | inr large ↦
      rw (large, digits)
        (number_from-digits rounds (n / 10) ((b'0' + n % 10) ∷ ds) (omega arith)
          ∙ ap (λ (k : ℕ). number_from k ds) (omega arith))
]

power_of_ten_bounds : (n : ℕ) → n < power_of_ten n
power_of_ten_bounds zero = omega arith
power_of_ten_bounds (suc n) = omega (arith, power_of_ten_bounds n)

number_from-decimal : (n : ℕ) → number_from 0 (decimal n) ≡ n
unfolding decimal
number_from-decimal n = number_from-digits (suc n) n [] (omega (arith, power_of_ten_bounds n))

module _ (Node : Type 0) (files : Files) (listener : Listener) (parse : Str → Option NetworkConfig)
    (read_dir : Str → Dir) (content : Option Str) where
  abbrev pub launch : Launch Node
  launch = main files listener parse read_dir content

  pub record IsServing (st : ProxyState Node) : Type 0 where
    pub config : AtlasConfig
    pub configured : (get_or_create_config files content).config ≡ ok config
    pub same_config : st.global_config ≡ config
    pub networks :
        (es : List Entry) (tld : Str)
        → read_dir config.networks_dir ≡ entries es
        → get_config st.registry tld ≡ first_provider parse config tld es
    pub no_swarm : st.swarms ≡ empty
    pub port : Str
    pub bound_is : launch.bound ≡ some (str "127.0.0.1:" ++ port)
    pub port_reads : number_from 0 port ≡ config.bind_port

  -- Where `main` has a state to serve, it has read or created its configuration, and serves by it: each
  -- top-level domain has the network of the first file of the configuration's networks directory that
  -- provides it, if that directory can be read, no swarm runs, and the server is to listen at the loopback
  -- address and a port whose digits stand for the port of the configuration.
  pub main_serves : (st : ProxyState Node) → launch.state ≡ some st → IsServing st
  unfolding main
  main_serves st h = go (get_or_create_config files content).config refl
    where
      serving :
          (config : AtlasConfig)
          → (get_or_create_config files content).config ≡ ok config
          → IsServing
              (initial_state parse files.data_local_dir config (read_dir config.networks_dir))
      serving config c = record {
        config = config;
        configured = c;
        same_config = unfold initial_state in refl;
        networks = λ es tld e. rw e (
            unfold initial_state in get_config-loaded parse files.data_local_dir config es new tld);
        no_swarm = unfold initial_state in refl;
        port = decimal config.bind_port;
        bound_is = rw (c, main) (unfold address in refl);
        port_reads = number_from-decimal config.bind_port;
      }

      go :
          (c : Result AtlasError AtlasConfig)
          → (get_or_create_config files content).config ≡ c
          → IsServing st
      go (err e) c = absurd (ground (arith, rw (c, main) at h))
      go (ok config) c =
          let same : initial_state parse files.data_local_dir config (read_dir config.networks_dir)
              ≡ st =
            ground (arith, rw (c, main) at h) in
          subst IsServing same (serving config c)
