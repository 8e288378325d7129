-- ===== src/Proxy/Domain/RoundTrip.antt =====
-- What the extraction returns for a domain that is put together from its labels.
use kinetic_atlas.Base.{
  ◌≡◌, ◌≢◌, refl, ap, sym, ◌∙◌, ◌⊎◌, inl, inr, true, false, some, List, [], ◌∷◌, ◌++◌, arith, All,
  Bool-cases,
}
use kinetic_atlas.Text.{Str, str, split, join, ends_with, trim_end_matches}
use kinetic_atlas.Text.Split.{Free, split-join_ne, split-append_any, split-Free, split-ne-nil}
use kinetic_atlas.Text.Prefix.{eq_of_ends_with}
use kinetic_atlas.Text.Trim.{trim_end-append, trim_end-none}
use kinetic_atlas.Proxy.Domain.{
  last, init, subdomain_of, from_parts, extract_base_domain_and_subdomain,
}

-- A label holds no dot.
abbrev pub IsLabel : Str → Type 0
IsLabel = Free b'.'

-- The labels in front of the top-level domain, written with dots.
abbrev pub dotted : List Str → Str
dotted = join (str ".")

last-append : (ps : List Str) (p : Str) → last (ps ++ p ∷ []) ≡ p
last-append [] p = refl
last-append (q ∷ []) p = refl
last-append (q ∷ r ∷ ps) p = last-append (r ∷ ps) p

init-append : (ps : List Str) (p : Str) → init (ps ++ p ∷ []) ≡ ps
init-append [] p = refl
init-append (q ∷ []) p = refl
init-append (q ∷ r ∷ ps) p = ap (λ (l : List Str). q ∷ l) (init-append (r ∷ ps) p)

append-ne-nil {ℓ} : {A : Type ℓ} (xs : List A) (y : A) → xs ++ y ∷ [] ≢ []
append-ne-nil [] y = ground arith
append-ne-nil (x ∷ xs) y = ground arith

module _ (labels : List Str) (name top : Str) (free : All IsLabel (labels ++ name ∷ []))
    (top_free : IsLabel top) where
  split-dotted : split b'.' (dotted (labels ++ name ∷ [])) ≡ labels ++ name ∷ []
  split-dotted = split-join_ne b'.' (labels ++ name ∷ []) (append-ne-nil labels name) free

  -- A text of labels that ends with the top-level domain has it for its last label.
  labels_of_ends_with :
      ends_with (b'.' ∷ top) (dotted (labels ++ name ∷ [])) ≡ true
      → (r : Str) × (labels ++ name ∷ [] ≡ split b'.' r ++ top ∷ [])
  labels_of_ends_with h =
      let (r, e) = eq_of_ends_with (b'.' ∷ top) (dotted (labels ++ name ∷ [])) h in
      (
        r,
        sym split-dotted
            ∙ ap (split b'.') e
            ∙ split-append_any b'.' r top
            ∙ ap (λ (l : List Str). split b'.' r ++ l) (split-Free b'.' top top_free),
      )

  not-ends_with :
      (labels ≡ []) ⊎ (name ≢ top) → ends_with (b'.' ∷ top) (dotted (labels ++ name ∷ [])) ≡ false
  not-ends_with apart = elim (Bool-cases (ends_with (b'.' ∷ top) (dotted (labels ++ name ∷ [])))) [
    | inr e ↦ e
    | inl e ↦
        let (r, h) = labels_of_ends_with e in
        let same : name ≡ top =
          sym (last-append labels name) ∙ ap last h ∙ last-append (split b'.' r) top in
        let front : labels ≡ split b'.' r =
          sym (init-append labels name) ∙ ap init h ∙ init-append (split b'.' r) top in
        absurd (elim apart [
          | inl none_left ↦ split-ne-nil b'.' r (sym front ∙ none_left)
          | inr differ ↦ differ same
        ])
  ]

-- The subdomain of a domain: "@" where no label stands in front of the registered name.
abbrev pub named : List Str → Str
named [] = str "@"
named (p ∷ ps) = dotted (p ∷ ps)

pub subdomain_of-append :
    (labels : List Str) (name : Str) → subdomain_of (labels ++ name ∷ []) ≡ named labels
subdomain_of-append [] name = refl
subdomain_of-append (p ∷ []) name = refl
subdomain_of-append (p ∷ q ∷ ps) name =
    let e : init (p ∷ q ∷ (ps ++ name ∷ [])) ≡ p ∷ q ∷ ps = init-append (p ∷ q ∷ ps) name in
    ground (arith, ap dotted e)

-- The first label is there and is not empty.
abbrev pub Starts : List Str → Type 0
Starts [] = ⊥
Starts (p ∷ ps) = p ≢ []

from_parts-append :
    (tld : Str) (labels : List Str) (name : Str)
    → Starts (labels ++ name ∷ [])
    → from_parts tld (labels ++ name ∷ []) ≡ some (name ++ tld, named labels)
unfolding from_parts
from_parts-append tld [] [] h = absurd (h refl)
from_parts-append tld [] (c ∷ name) h = refl
from_parts-append tld ([] ∷ ps) name h = absurd (h refl)
from_parts-append tld ((c ∷ p) ∷ ps) name h =
    let labels : List Str = (c ∷ p) ∷ ps in
    cc (last-append labels name, subdomain_of-append labels name)

-- A domain of labels, a registered name and a top-level domain is taken apart into the name with the
-- top-level domain, and the labels with dots ("@" where there are none), provided that the first
-- label is not empty and, below a subdomain, the name is not the top-level domain's own label.
pub extract_round_trip :
    (labels : List Str) (name top : Str)
    → All IsLabel (labels ++ name ∷ [])
    → IsLabel top
    → Starts (labels ++ name ∷ [])
    → (labels ≡ []) ⊎ (name ≢ top)
    → extract_base_domain_and_subdomain (dotted (labels ++ name ∷ []) ++ b'.' ∷ top) (b'.' ∷ top)
      ≡ some (name ++ b'.' ∷ top, named labels)
unfolding extract_base_domain_and_subdomain
extract_round_trip labels name top free top_free starts apart =
    let tld : Str = b'.' ∷ top in
    let once : trim_end_matches tld (dotted (labels ++ name ∷ []) ++ tld)
        ≡ dotted (labels ++ name ∷ []) =
      trim_end-append tld (ground arith) (dotted (labels ++ name ∷ []))
      ∙ trim_end-none tld (ground arith) (dotted (labels ++ name ∷ []))
          (not-ends_with labels name top free top_free apart) in
    rw (once, split-dotted labels name top free top_free) (from_parts-append tld labels name starts)
