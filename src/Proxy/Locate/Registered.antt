-- ===== src/Proxy/Locate/Registered.antt =====
-- Which network and which name a request is for.
use kinetic_atlas.Base.{
  ◌≡◌, ◌≢◌, ◌⊎◌, inl, inr, refl, ap, subst, false, ◌&&◌, Option, some, List, [], ◌∷◌, ◌++◌, arith,
  All, All-append_right, ok, bind-eq-ok, Option-cases, leb, drop-length_append,
}
use kinetic_atlas.Text.{Str, Bytes, to_lowercase}
use kinetic_atlas.Text.Split.{rfind-append}
use kinetic_atlas.Types.{NetworkConfig}
use kinetic_atlas.Registry.{TldRegistry, get_config}
use kinetic_atlas.Proxy.Domain.{extract_base_domain_and_subdomain, extract_tld}
use kinetic_atlas.Proxy.Domain.RoundTrip.{IsLabel, dotted, named, Starts, extract_round_trip}
use kinetic_atlas.Proxy.Domain.Sound.{Reads, extract-Reads, extract_tld_sound}
use kinetic_atlas.Proxy.Outside.{HttpRequest}
use kinetic_atlas.Proxy.Locate.{Located, host_of, locate, locate_domain}

-- No ASCII capital letter.
abbrev pub IsLower : Str → Type 0
IsLower = All (λ c. (leb b'A' c && leb c b'Z') ≡ false)

to_lowercase-IsLower : (s : Str) → IsLower (to_lowercase s)
unfolding to_lowercase
to_lowercase-IsLower [] = tt
to_lowercase-IsLower (c ∷ s) = (ground arith, to_lowercase-IsLower s)

-- What a located request is, over the registry.
pub record IsLocated (reg : TldRegistry) (loc : Located) : Type 0 where
  pub top : Str
  pub tld_is : loc.tld ≡ b'.' ∷ top
  pub label : IsLabel top
  pub lower : IsLower loc.tld
  pub registered : get_config reg loc.tld ≡ some loc.config
  pub reads : Reads loc.full_domain loc.tld loc.base_domain loc.subdomain

locate_domain-IsLocated :
    (reg : TldRegistry) (domain : Str) (loc : Located)
    → IsLower domain
    → locate_domain reg domain ≡ ok loc
    → IsLocated reg loc
unfolding locate_domain
locate_domain-IsLocated reg domain loc low h = elim (Option-cases (extract_tld domain)) [
  | inl e ↦ absurd (ground arith)
  | inr (tld, e) ↦ elim (Option-cases (get_config reg tld)) [
    | inl g ↦ absurd (ground arith)
    | inr (config, g) ↦ elim (Option-cases (extract_base_domain_and_subdomain domain tld)) [
      | inl x ↦ absurd (ground arith)
      | inr ((base, sub), x) ↦
          let (front, top, whole, tld_is, label) = extract_tld_sound domain tld e in
          let same : record {
            full_domain = domain;
            tld = tld;
            config = config;
            base_domain = base;
            subdomain = sub;
          }
              ≡ loc =
            ground arith in
          let front_low : IsLower (front ++ tld) = subst IsLower whole low in
          subst (IsLocated reg) same (record {
            top = top;
            tld_is = tld_is;
            label = label;
            lower = All-append_right (λ c. (leb b'A' c && leb c b'Z') ≡ false) front tld front_low;
            registered = g;
            reads = extract-Reads domain tld base sub x;
          })
    ]
  ]
]

pub locate-IsLocated :
    (to_str : Bytes → Option Str) (reg : TldRegistry) (req : HttpRequest) (loc : Located)
    → locate to_str reg req ≡ ok loc
    → IsLocated reg loc
unfolding locate
locate-IsLocated to_str reg req loc h =
    let (host, _, located) =
      bind-eq-ok (host_of to_str req) (λ host. locate_domain reg (to_lowercase host)) h in
    locate_domain-IsLocated reg (to_lowercase host) loc (to_lowercase-IsLower host) located

extract_tld-append :
    (front top : Str) → IsLabel top → extract_tld (front ++ b'.' ∷ top) ≡ some (b'.' ∷ top)
unfolding extract_tld
extract_tld-append front top free =
    rw (rfind-append b'.' front top free, extract_tld)
      (ap some (drop-length_append front (b'.' ∷ top)))

-- A domain of labels, a registered name and a registered top-level domain is located: in the network of
-- that top-level domain, under the name with the top-level domain, and with the labels for its
-- subdomain, provided that the first label is not empty and, below a subdomain, the name is not the
-- top-level domain's own label.
pub locate_domain-dotted :
    (reg : TldRegistry) (labels : List Str) (name top : Str) (config : NetworkConfig)
    → All IsLabel (labels ++ name ∷ [])
    → IsLabel top
    → Starts (labels ++ name ∷ [])
    → (labels ≡ []) ⊎ (name ≢ top)
    → get_config reg (b'.' ∷ top) ≡ some config
    → locate_domain reg (dotted (labels ++ name ∷ []) ++ b'.' ∷ top)
      ≡ ok (record {
        full_domain = dotted (labels ++ name ∷ []) ++ b'.' ∷ top;
        tld = b'.' ∷ top;
        config = config;
        base_domain = name ++ b'.' ∷ top;
        subdomain = named labels;
      })
unfolding locate_domain
locate_domain-dotted reg labels name top config free top_free starts apart known =
    rw
      (
        extract_tld-append (dotted (labels ++ name ∷ [])) top top_free,
        known,
        extract_round_trip labels name top free top_free starts apart,
        locate_domain,
      )
      refl
