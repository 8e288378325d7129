-- ===== src/Proxy/Targets/Requests.antt =====
-- The requests of the loop: what each one is for, and the headers that go to a gateway.
use kinetic_atlas.Base.{
  ℕ, suc, ◌==◌, ◌≡◌, ◌≢◌, ◌↔◌, inl, inr, refl, ap, sym, ◌∙◌, subst, Option, some, List, [], ◌∷◌,
  arith, Option-cases, Bool-cases, In, In-append, In-append_left, ◌++◌,
}
use kinetic_atlas.Text.{Str, Str_eq, str, Bytes}
use kinetic_atlas.Types.{
  AtlasConfig, NetworkConfig, DnsRecord, a, aaaa, cname, txt, peer_id, kid, ipfs, other, Headers,
  ProxyRequest,
}
use kinetic_atlas.Proxy.Outside.{HttpRequest, Outside}
use kinetic_atlas.Proxy.Targets.{
  Attempt, gateway_request, peer_request, text_headers, proxy_request, without_host, to_gateway,
  try_target, try_targets,
}

In-text_headers :
    (to_str : Bytes → Option Str) (k v : Str) (hs : List (Str × Bytes))
    → In (k, v) (text_headers to_str hs)
    → (value : Bytes) × In (k, value) hs × (to_str value ≡ some v)
unfolding text_headers
In-text_headers to_str k v [] h = absurd h.lower
In-text_headers to_str k v ((name, value) ∷ hs) h = elim (Option-cases (to_str value)) [
  | inl e ↦
      let (b, i, t) = In-text_headers to_str k v hs (rw (e, text_headers) at h) in (b, inr i, t)
  | inr (s, e) ↦ elim (rw (e, text_headers) at h) [
    | inl same ↦ (value, inl (ground (arith, same)), ground (arith, same, e))
    | inr later ↦ let (b, i, t) = In-text_headers to_str k v hs later in (b, inr i, t)
  ]
]

text_headers-In :
    (to_str : Bytes → Option Str) (k v : Str) (value : Bytes) (hs : List (Str × Bytes))
    → In (k, value) hs
    → to_str value ≡ some v
    → In (k, v) (text_headers to_str hs)
unfolding text_headers
text_headers-In to_str k v value [] i t = absurd i.lower
text_headers-In to_str k v value ((name, w) ∷ hs) (inl same) t =
    let e : to_str w ≡ some v = rw (← ap (λ (p : Str × Bytes). p.1) same) t in
    rw (e, text_headers) (inl (ap (λ (p : Str × Bytes). (p.0, v)) same))
text_headers-In to_str k v value ((name, w) ∷ hs) (inr i) t = elim (Option-cases (to_str w)) [
  | inl e ↦ rw (e, text_headers) (text_headers-In to_str k v value hs i t)
  | inr (s, e) ↦ rw (e, text_headers) (inr (text_headers-In to_str k v value hs i t))
]

In-without_host :
    (k v : Str) (hs : Headers) → In (k, v) (without_host hs) ↔ (In (k, v) hs × (k ≢ str "host"))
unfolding without_host
In-without_host k v [] = (λ h. absurd h.lower, λ (h, _). absurd h.lower)
In-without_host k v ((name, w) ∷ hs) =
    let (sound, complete) = In-without_host k v hs in
    elim (Bool-cases (name == str "host")) [
      | inl e ↦
          let is_host : name ≡ str "host" = (Str_eq.equal_iff name (str "host")).0 e in
          rw (e, without_host)
            (
              λ h. let (i, n) = sound h in (inr i, n),
              λ (i, n). elim i [
                | inl same ↦ absurd (n (ap (λ (p : Str × Str). p.0) same ∙ is_host))
                | inr later ↦ complete (later, n)
              ],
            )
      | inr e ↦
          let ne : name ≢ str "host" =
            λ eq. absurd (ground (arith, (Str_eq.equal_iff name (str "host")).1 eq)) in
          rw (e, without_host)
            (
              λ h. elim h [
                | inl same ↦
                    (inl same, λ is_host. ne (sym (ap (λ (p : Str × Str). p.0) same) ∙ is_host))
                | inr later ↦ let (i, n) = sound later in (inr i, n)
              ],
              λ (i, n). elim i [ inl same ↦ inl same | inr later ↦ inr (complete (later, n)) ],
            )
    ]

module _ {Reveal : Type 0} (out : Outside Reveal) (global : AtlasConfig) (config : NetworkConfig)
    (channel : ℕ) (request : ProxyRequest) where
  -- A request for one of the targets.
  pub data For (ts : List DnsRecord) : Attempt → Type 0 where
    for_ipfs :
        (cid : Str)
        → In (ipfs cid) ts
        → For ts (gateway_request (to_gateway out global config channel request cid))
    for_peer :
        (peer_str : Str) (peer : ℕ)
        → In (peer_id peer_str) ts
        → out.parse_peer peer_str ≡ some peer
        → For ts (peer_request channel peer request)

  For-later : (t : DnsRecord) (ts : List DnsRecord) (q : Attempt) → For ts q → For (t ∷ ts) q
  For-later t ts _ (for_ipfs cid i) = for_ipfs cid (inr i)
  For-later t ts _ (for_peer s p i e) = for_peer s p (inr i) e

  try_target-For :
      (n : ℕ) (t : DnsRecord) (ts : List DnsRecord) (q : Attempt)
      → In q (try_target out global config channel request n t).attempts
      → For (t ∷ ts) q
  unfolding try_target
  try_target-For n (ipfs cid) ts q (inl e) =
      subst (For (ipfs cid ∷ ts)) (sym e) (for_ipfs cid (inl refl))
  try_target-For n (ipfs cid) ts q (inr h) = absurd h.lower
  try_target-For n (peer_id s) ts q h = elim (Option-cases (out.parse_peer s)) [
    | inl e ↦ absurd ((rw (e, try_target) at h).lower)
    | inr (peer, e) ↦ elim (rw (e, try_target) at h) [
      | inl same ↦ subst (For (peer_id s ∷ ts)) (sym same) (for_peer s peer (inl refl) e)
      | inr rest ↦ absurd rest.lower
    ]
  ]
  try_target-For n (a _) ts q h = absurd h.lower
  try_target-For n (aaaa _) ts q h = absurd h.lower
  try_target-For n (cname _) ts q h = absurd h.lower
  try_target-For n (txt _) ts q h = absurd h.lower
  try_target-For n (kid _) ts q h = absurd h.lower
  try_target-For n other ts q h = absurd h.lower

  -- Every request of the loop is for one of the targets: it goes to the gateway with the CID of an IPFS
  -- target, or unchanged over the swarm's channel to the peer that the text of a PeerId target names.
  pub try_targets-For :
      (n : ℕ) (ts : List DnsRecord) (q : Attempt)
      → In q (try_targets out global config channel request n ts).0
      → For ts q
  unfolding try_targets
  try_targets-For n [] q h = absurd h.lower
  try_targets-For n (t ∷ ts) q h =
      elim (Option-cases (try_target out global config channel request n t).answer) [
        | inr (r, e) ↦ try_target-For n t ts q (rw (e, try_targets) at h)
        | inl e ↦ elim (In-append q _ _ (rw (e, try_targets) at h)) [
          | inl now ↦ try_target-For n t ts q now
          | inr later ↦ For-later t ts q (try_targets-For (suc n) ts q later)
        ]
      ]

  pub For-append : (ts us : List DnsRecord) (q : Attempt) → For ts q → For (ts ++ us) q
  For-append ts us _ (for_ipfs cid i) = for_ipfs cid (In-append_left (ipfs cid) ts us i)
  For-append ts us _ (for_peer s p i e) = for_peer s p (In-append_left (peer_id s) ts us i) e

  -- The target that a request is for.
  pub For-target :
      (ts : List DnsRecord) (q : Attempt) → For ts q → (t : DnsRecord) × In t ts × For (t ∷ []) q
  For-target ts _ (for_ipfs cid i) = (ipfs cid, i, for_ipfs cid (inl refl))
  For-target ts _ (for_peer s p i e) = (peer_id s, i, for_peer s p (inl refl) e)

  -- The headers of a request to a gateway are those of the incoming request whose value is text, except
  -- the host.
  pub to_gateway-headers :
      (req : HttpRequest) (body : Bytes) (cid k v : Str)
      → In
          (k, v)
          (to_gateway out global config channel (proxy_request out.to_str req body) cid).headers
        ↔ ((value : Bytes) × In (k, value) req.headers
            × (out.to_str value ≡ some v)
            × (k ≢ str "host"))
  unfolding to_gateway proxy_request
  to_gateway-headers req body cid k v =
      let (sound, complete) = In-without_host k v (text_headers out.to_str req.headers) in
      (
        λ h.
            let (i, n) = sound h in
            let (b, j, t) = In-text_headers out.to_str k v req.headers i in (b, j, t, n),
        λ (b, j, t, n). complete (text_headers-In out.to_str k v b req.headers j t, n),
      )
