-- ===== src/Proxy/Domain/Sound.antt =====
-- What a result of the extraction says of the domain, for every domain.
use kinetic_atlas.Base.{
  ℕ, ◌≡◌, ◌≢◌, refl, ap, sym, ◌∙◌, inl, inr, some, List, [], ◌∷◌, ◌++◌, arith, All, Option-cases,
  subst,
}
use kinetic_atlas.Text.{Str, split, rfind, trim_end_matches}
use kinetic_atlas.Text.Split.{
  Free, split-All-Free, join-split, rfind-CutAt, split-append, split-Free,
}
use kinetic_atlas.Text.Trim.{copies, trim_end-copies, trim_end-append}
use kinetic_atlas.Proxy.Domain.{
  last, init, subdomain_of, from_parts, extract_base_domain_and_subdomain, extract_tld, strip_port,
}
use kinetic_atlas.Proxy.Domain.RoundTrip.{IsLabel, dotted, named, Starts, subdomain_of-append}

init-append_last : (p : Str) (ps : List Str) → init (p ∷ ps) ++ last (p ∷ ps) ∷ [] ≡ p ∷ ps
init-append_last p [] = refl
init-append_last p (q ∷ ps) = ap (λ (l : List Str). p ∷ l) (init-append_last q ps)

-- The reading of a domain that a result stands for.
pub record Reads (full tld base sub : Str) : Type 0 where
  pub labels : List Str
  pub name : Str
  pub repeats : ℕ
  pub whole : full ≡ dotted (labels ++ name ∷ []) ++ copies repeats tld
  pub all_labels : All IsLabel (labels ++ name ∷ [])
  pub starts : Starts (labels ++ name ∷ [])
  pub base_is : base ≡ name ++ tld
  pub sub_is : sub ≡ named labels

module _ (full tld base sub : Str) where
  Reads-of_parts :
      (c : ℕ) (p : Str) (ps : List Str)
      → split b'.' (trim_end_matches tld full) ≡ (c ∷ p) ∷ ps
      → last ((c ∷ p) ∷ ps) ++ tld ≡ base
      → subdomain_of ((c ∷ p) ∷ ps) ≡ sub
      → Reads full tld base sub
  Reads-of_parts c p ps e eb es =
      let parts : List Str = (c ∷ p) ∷ ps in
      let back : init parts ++ last parts ∷ [] ≡ parts = init-append_last (c ∷ p) ps in
      let (k, cut) = trim_end-copies tld full in
      record {
        labels = init parts;
        name = last parts;
        repeats = k;
        whole = rw back (
            cut
            ∙ ap (λ (s : Str). s ++ copies k tld)
                (sym (join-split b'.' (trim_end_matches tld full)) ∙ ap dotted e));
        all_labels =
            subst (All IsLabel) (e ∙ sym back) (split-All-Free b'.' (trim_end_matches tld full));
        starts = rw back (ground arith);
        base_is = sym eb;
        sub_is =
            sym es ∙ sym (ap subdomain_of back) ∙ subdomain_of-append (init parts) (last parts);
      }

  record Parts (parts : List Str) : Type 0 where
    head : ℕ
    first : Str
    rest : List Str
    shape : parts ≡ (head ∷ first) ∷ rest
    base_is : last ((head ∷ first) ∷ rest) ++ tld ≡ base
    sub_is : subdomain_of ((head ∷ first) ∷ rest) ≡ sub

  from_parts-Parts : (parts : List Str) → from_parts tld parts ≡ some (base, sub) → Parts parts
  unfolding from_parts
  from_parts-Parts [] h = cc
  from_parts-Parts ([] ∷ ps) h = cc
  from_parts-Parts ((c ∷ p) ∷ ps) h = record {
    head = c;
    first = p;
    rest = ps;
    shape = refl;
    base_is = ground arith;
    sub_is = ground arith;
  }

  pub extract-Reads :
      extract_base_domain_and_subdomain full tld ≡ some (base, sub) → Reads full tld base sub
  unfolding extract_base_domain_and_subdomain
  extract-Reads h =
      let parts = from_parts-Parts (split b'.' (trim_end_matches tld full)) h in
      Reads-of_parts parts.head parts.first parts.rest parts.shape parts.base_is parts.sub_is

-- A domain that ends with its top-level domain twice is taken apart as if it ended with it once: a name
-- that is spelled like the top-level domain is skipped, and what stands in front is taken for the
-- registered name.
pub extract_repeated :
    (s tld : Str)
    → tld ≢ []
    → extract_base_domain_and_subdomain ((s ++ tld) ++ tld) tld
      ≡ extract_base_domain_and_subdomain (s ++ tld) tld
unfolding extract_base_domain_and_subdomain
extract_repeated s tld filled = rw (trim_end-append tld filled (s ++ tld))

-- The last label with its dot, which the caller takes for the top-level domain: the host ends with it,
-- and it holds no further dot.
pub extract_tld_sound :
    (host tld : Str)
    → extract_tld host ≡ some tld
    → (front : Str) × (top : Str) × (host ≡ front ++ tld) × (tld ≡ b'.' ∷ top) × IsLabel top
unfolding extract_tld
extract_tld_sound host tld h = elim (Option-cases (rfind b'.' host)) [
  | inl e ↦ absurd (ground arith)
  | inr (i, e) ↦
      let cut = rfind-CutAt b'.' host i e in
      let same : tld ≡ b'.' ∷ cut.back = ground (arith, cut.dropped) in
      (cut.front, cut.back, cut.whole ∙ ap (λ (s : Str). cut.front ++ s) (sym same), same, cut.free)
]

-- A port behind a colon is not part of the host.
pub strip_port-append : (host port : Str) → Free b':' host → strip_port (host ++ b':' ∷ port) ≡ host
unfolding strip_port
strip_port-append host port h = rw (split-append b':' host port h)

pub strip_port-Free : (host : Str) → Free b':' host → strip_port host ≡ host
unfolding strip_port
strip_port-Free host h = rw (split-Free b':' host h)
