-- ===== src/Proxy/Zone.antt =====
-- src/proxy.rs: the choice of the records of a zone, and of the targets among them.
use kinetic_atlas.Base.{
  ◌≡◌, ◌↔◌, inl, inr, refl, Bool, true, false, none, some, List, [], ◌∷◌, if◌then◌else◌, arith,
  ◌==◌, Result, ok, err, In, Option-cases, Bool-cases, subst, sym,
}
use kinetic_atlas.Base.Map
use kinetic_atlas.Text.{Str, Str_eq, str}
use kinetic_atlas.Types.{DnsRecord, DnsZone, peer_id, ipfs}
use kinetic_atlas.Error.{AtlasError, dns_resolution_failed}

-- The records of the subdomain; those of "www" for "@" where it has none.
unfoldable pub records_of : DnsZone → Str → Result AtlasError (List DnsRecord)
records_of zone subdomain = elim (Map.get zone.records subdomain) [
  | some r ↦ ok r
  | none ↦
      if subdomain == str "@"
      then elim (Map.get zone.records (str "www")) [
        | some r ↦ ok r
        | none ↦ err (dns_resolution_failed (str "No usable records in domain zone"))
      ]
      else err (dns_resolution_failed (str "Subdomain not found in zone"))
]

abbrev pub is_target : DnsRecord → Bool
is_target (ipfs _) = true
is_target (peer_id _) = true
is_target _ = false

unfoldable pub target_records : List DnsRecord → List DnsRecord
target_records [] = []
target_records (r ∷ rs) = if is_target r then r ∷ target_records rs else target_records rs

-- The targets of a zone for a subdomain, with the test for none.
abbrev pub non_empty : List DnsRecord → Result AtlasError (List DnsRecord)
non_empty [] = err (dns_resolution_failed (str "No target records found"))
non_empty (r ∷ rs) = ok (r ∷ rs)

abbrev pub targets_or : Result AtlasError (List DnsRecord) → Result AtlasError (List DnsRecord)
targets_or (ok records) = non_empty (target_records records)
targets_or (err e) = err e

unfoldable pub targets_of : DnsZone → Str → Result AtlasError (List DnsRecord)
targets_of zone subdomain = targets_or (records_of zone subdomain)

-- A record that the zone lists for the subdomain, or for "www" where the subdomain is "@" and has no
-- entry of its own.
pub data Listed (zone : DnsZone) (subdomain : Str) (r : DnsRecord) : Type 0 where
  own :
      (rs : List DnsRecord)
      → Map.get zone.records subdomain ≡ some rs
      → In r rs
      → Listed zone subdomain r
  fallback :
      (rs : List DnsRecord)
      → subdomain ≡ str "@"
      → Map.get zone.records subdomain ≡ none
      → Map.get zone.records (str "www") ≡ some rs
      → In r rs
      → Listed zone subdomain r

In-target_records :
    (r : DnsRecord) (rs : List DnsRecord)
    → In r (target_records rs)
    → In r rs × (is_target r ≡ true)
unfolding target_records
In-target_records r [] h = absurd h.lower
In-target_records r (q ∷ rs) h = elim (Bool-cases (is_target q)) [
  | inl e ↦ elim (rw (e, target_records) at h) [
    | inl same ↦ (inl same, rw same e)
    | inr later ↦ let (i, t) = In-target_records r rs later in (inr i, t)
  ]
  | inr e ↦ let (i, t) = In-target_records r rs (rw (e, target_records) at h) in (inr i, t)
]

target_records-In :
    (r : DnsRecord) (rs : List DnsRecord) → In r rs → is_target r ≡ true → In r (target_records rs)
unfolding target_records
target_records-In r [] h t = absurd h.lower
target_records-In r (q ∷ rs) (inl same) t =
    let e : is_target q ≡ true = rw (← same) t in rw (e, target_records) (inl same)
target_records-In r (q ∷ rs) (inr i) t = ground (arith, target_records-In r rs)

module _ (zone : DnsZone) (subdomain : Str) where
  records_of-Listed :
      (rs : List DnsRecord)
      → records_of zone subdomain ≡ ok rs
      → (r : DnsRecord) → In r rs
      → Listed zone subdomain r
  unfolding records_of
  records_of-Listed rs h r i = elim (Option-cases (Map.get zone.records subdomain)) [
    | inr (qs, e) ↦ let same : qs ≡ rs = ground arith in own qs e (rw same i)
    | inl e ↦ elim (Option-cases (Map.get zone.records (str "www"))) [
      | inl n ↦ absurd (ground arith)
      | inr (qs, w) ↦
          let same : qs ≡ rs = ground arith in
          let root : (subdomain == str "@") ≡ true = ground arith in
          fallback qs ((Str_eq.equal_iff subdomain (str "@")).0 root) e w (rw same i)
    ]
  ]

  Listed-records_of :
      (rs : List DnsRecord)
      → records_of zone subdomain ≡ ok rs
      → (r : DnsRecord) → Listed zone subdomain r
      → In r rs
  unfolding records_of
  Listed-records_of rs h r (own qs e i) =
      let same : qs ≡ rs = ground arith in subst (λ x. In r x) same i
  Listed-records_of rs h r (fallback qs root e w i) =
      let test = (Str_eq.equal_iff subdomain (str "@")).1 root in
      let same : qs ≡ rs = ground arith in subst (λ x. In r x) same i

  record Chosen (ts : List DnsRecord) : Type 0 where
    records : List DnsRecord
    found : records_of zone subdomain ≡ ok records
    filtered : ts ≡ target_records records

  targets_of-Chosen : (ts : List DnsRecord) → targets_of zone subdomain ≡ ok ts → Chosen ts
  targets_of-Chosen ts h = go (records_of zone subdomain) refl (unfold targets_of in h)
    where
      go :
          (out : Result AtlasError (List DnsRecord))
          → records_of zone subdomain ≡ out
          → targets_or out ≡ ok ts
          → Chosen ts
      go (ok rs) e k = record {
        records = rs;
        found = e;
        filtered = filter_eq (target_records rs) k;
      }
        where
          filter_eq : (qs : List DnsRecord) → non_empty qs ≡ ok ts → ts ≡ qs
          filter_eq [] k = cc
          filter_eq (q ∷ qs) k = cc
      go (err x) e k = cc

  -- The targets of a subdomain are exactly the IPFS and PeerId records that the zone lists for it.
  pub targets_of-Listed :
      (ts : List DnsRecord)
      → targets_of zone subdomain ≡ ok ts
      → (r : DnsRecord) → In r ts ↔ (Listed zone subdomain r × (is_target r ≡ true))
  targets_of-Listed ts h r =
      let c = targets_of-Chosen ts h in
      (
        λ i.
            let (j, t) = In-target_records r c.records (subst (λ x. In r x) c.filtered i) in
            (records_of-Listed c.records c.found r j, t),
        λ (l, t).
            subst (λ x. In r x) (sym c.filtered)
              (target_records-In r c.records (Listed-records_of c.records c.found r l) t),
      )
