-- ===== src/Proxy/Domain/UnitTests.antt =====
-- src/proxy.rs: the tests that the file has of `extract_base_domain_and_subdomain`.
use kinetic_atlas.Base.{
  ℕ, zero, suc, ◌+◌, ◌≤◌, ◌<◌, ◌≡◌, ◌≢◌, ◌⊎◌, inl, inr, refl, ap, sym, ◌∙◌, subst, Bool, true,
  false, not, ◌&&◌, Option, none, some, List, [], ◌∷◌, ◌++◌, append_assoc, arith, length,
  length-append, All, Bool-cases, Option-cases, ◌==◌, Eq,
}
use kinetic_atlas.Text.{Str, Str_eq, str, split, join, trim_end_matches}
use kinetic_atlas.Text.Split.{join-split}
use kinetic_atlas.Text.Trim.{trim_end-append, trim_end-copies, copies}
use kinetic_atlas.Proxy.Domain.{init, subdomain_of, from_parts, extract_base_domain_and_subdomain}
use kinetic_atlas.Proxy.Domain.RoundTrip.{IsLabel, dotted, extract_round_trip}

-- `assert_eq!(…, Some((base, sub)))`
abbrev pub is_pair : Option (Str × Str) → Str → Str → Bool
is_pair none base sub = false
is_pair (some (b, s)) base sub = (b == base) && (s == sub)

abbrev pub is_none : Option (Str × Str) → Bool
is_none none = true
is_none (some _) = false

unfoldable pub test_extract_domain : Bool
unfolding extract_base_domain_and_subdomain
test_extract_domain =
    is_pair (extract_base_domain_and_subdomain (str "test.kin") (str ".kin")) (str "test.kin")
      (str "@")
    && (is_pair (extract_base_domain_and_subdomain (str "api.test.kin") (str ".kin"))
          (str "test.kin") (str "api")
        && (is_pair (extract_base_domain_and_subdomain (str "v1.api.test.kin") (str ".kin"))
              (str "test.kin") (str "v1.api")
            && is_none (extract_base_domain_and_subdomain (str ".kin") (str ".kin"))))

unfoldable pub test_extract_domain_proptest : Str → Str → Str → Bool
unfolding extract_base_domain_and_subdomain
test_extract_domain_proptest subdomain name tld =
    is_pair (extract_base_domain_and_subdomain (subdomain ++ b'.' ∷ (name ++ tld)) tld)
      (name ++ tld) subdomain

unfoldable pub test_extract_domain_no_subdomain : Str → Str → Bool
unfolding extract_base_domain_and_subdomain
test_extract_domain_no_subdomain name tld =
    is_pair (extract_base_domain_and_subdomain (name ++ tld) tld) (name ++ tld) (str "@")

dotted-append :
    (p : Str) (labels : List Str) (name : Str)
    → dotted ((p ∷ labels) ++ name ∷ []) ≡ dotted (p ∷ labels) ++ b'.' ∷ name
unfolding join
dotted-append p [] name = refl
dotted-append p (q ∷ labels) name =
    ap (λ (s : Str). p ++ (str "." ++ s)) (dotted-append q labels name)
    ∙ sym (append_assoc p (b'.' ∷ dotted (q ∷ labels)) (b'.' ∷ name))

is_pair-same : (o : Option (Str × Str)) (b s : Str) → o ≡ some (b, s) → is_pair o b s ≡ true
is_pair-same o b s e = rw e (ground (arith, Str_eq.equal_iff b b, Str_eq.equal_iff s s))

-- The last part and its dot are cut off.
length-init :
    (p q : Str) (ps : List Str)
    → length (join (str ".") (init (p ∷ q ∷ ps))) < length (join (str ".") (p ∷ q ∷ ps))
unfolding join
length-init p q [] = omega (arith, length-append p (b'.' ∷ q))
length-init p q (r ∷ ps) = omega (
  arith,
  length-append p (b'.' ∷ dotted (q ∷ init (r ∷ ps))),
  length-append p (b'.' ∷ dotted (q ∷ r ∷ ps)),
  length-init q r ps,
)

-- Of a text, the subdomain is the part in front of the last dot, or "@".
subdomain_of-split :
    (s : Str)
    → (subdomain_of (split b'.' s) ≡ str "@") ⊎ (length (subdomain_of (split b'.' s)) < length s)
subdomain_of-split s = go (split b'.' s) (ap length (join-split b'.' s))
  where
    go :
        (parts : List Str)
        → length (dotted parts) ≡ length s
        → (subdomain_of parts ≡ str "@") ⊎ (length (subdomain_of parts) < length s)
    go [] e = inl refl
    go (p ∷ []) e = inl refl
    go (p ∷ q ∷ ps) e = inr (let shorter = length-init p q ps in ground arith)

trim_end-shorter : (p s : Str) → length (trim_end_matches p s) ≤ length s
trim_end-shorter p s =
    let (k, e) = trim_end-copies p s in
    omega (arith, ap length e, length-append (trim_end_matches p s) (copies k p))

from_parts-sub :
    (tld : Str) (parts : List Str) (b s : Str)
    → from_parts tld parts ≡ some (b, s)
    → subdomain_of parts ≡ s
unfolding from_parts
from_parts-sub tld [] b s h = cc
from_parts-sub tld ([] ∷ ps) b s h = cc
from_parts-sub tld ((c ∷ p) ∷ ps) b s h = ground arith

-- A domain that ends with the top-level domain twice loses more than the subdomain.
extract_twice :
    (sub tld b : Str)
    → tld ≢ []
    → sub ≢ str "@"
    → extract_base_domain_and_subdomain ((sub ++ tld) ++ tld) tld ≢ some (b, sub)
unfolding extract_base_domain_and_subdomain
extract_twice sub tld b filled named_so h =
    let once =
      ap (λ (s : Str). from_parts tld (split b'.' s))
        (trim_end-append tld filled (sub ++ tld) ∙ trim_end-append tld filled sub) in
    let same = from_parts-sub tld (split b'.' (trim_end_matches tld sub)) b sub (sym once ∙ h) in
    elim (subdomain_of-split (trim_end_matches tld sub)) [
      | inl at ↦ named_so (sym same ∙ at)
      | inr shorter ↦
          let le = trim_end-shorter tld sub in let e = ap length same in absurd (omega arith)
    ]

is_pair-none :
    (o : Option (Str × Str)) (base sub : Str)
    → ((b : Str) → o ≢ some (b, sub))
    → is_pair o base sub ≡ false
is_pair-none none base sub h = refl
is_pair-none (some (b, s)) base sub h = elim (Bool-cases (s == sub)) [
  | inl e ↦
      let same : s ≡ sub = (Str_eq.equal_iff s sub).0 e in
      absurd (h b (ap (λ (x : Str). some (b, x)) same))
  | inr e ↦ ground arith
]

-- The property-based test, for a subdomain of labels and a name, all without a dot, the first of them not
-- empty, and a top-level domain of one label, where the subdomain is not written "@": it passes exactly
-- where the name is not the label of the top-level domain.
pub test_extract_domain_proptest_passes :
    (p : Str) (labels : List Str) (name top : Str)
    → All IsLabel ((p ∷ labels) ++ name ∷ [])
    → IsLabel top
    → p ≢ []
    → dotted (p ∷ labels) ≢ str "@"
    → test_extract_domain_proptest (dotted (p ∷ labels)) name (b'.' ∷ top) ≡ not (name == top)
unfolding test_extract_domain_proptest
test_extract_domain_proptest_passes p labels name top free top_free starts written =
    let tld : Str = b'.' ∷ top in
    let whole : dotted (p ∷ labels) ++ b'.' ∷ (name ++ tld)
        ≡ dotted ((p ∷ labels) ++ name ∷ []) ++ tld =
      sym (append_assoc (dotted (p ∷ labels)) (b'.' ∷ name) tld)
      ∙ ap (λ (s : Str). s ++ tld) (sym (dotted-append p labels name)) in
    elim (Bool-cases (name == top)) [
      | inr e ↦
          let apart : name ≢ top =
            λ same. absurd (ground (arith, (Str_eq.equal_iff name top).1 same)) in
          rw (e, whole)
            (is_pair-same _ (name ++ tld) (dotted (p ∷ labels))
              (extract_round_trip (p ∷ labels) name top free top_free starts (inr apart)))
      | inl e ↦
          let same : name ≡ top = (Str_eq.equal_iff name top).0 e in
          let twice : dotted (p ∷ labels) ++ b'.' ∷ (name ++ tld)
              ≡ (dotted (p ∷ labels) ++ tld) ++ tld =
            ap (λ (n : Str). dotted (p ∷ labels) ++ b'.' ∷ (n ++ tld)) same
            ∙ sym (append_assoc (dotted (p ∷ labels)) tld tld) in
          rw (e, twice)
            (is_pair-none _ (name ++ tld) (dotted (p ∷ labels))
              (λ b. extract_twice (dotted (p ∷ labels)) tld b (λ h. cc) written))
    ]

test_extract_domain_passes : test_extract_domain ≡ true
unfolding test_extract_domain kinetic_atlas.Base.list_eq join
test_extract_domain_passes = refl

-- The test without a subdomain passes for every name.
test_extract_domain_no_subdomain_passes :
    (name top : Str)
    → IsLabel name
    → IsLabel top
    → name ≢ []
    → test_extract_domain_no_subdomain name (b'.' ∷ top) ≡ true
unfolding test_extract_domain_no_subdomain join
test_extract_domain_no_subdomain_passes name top free top_free starts =
    is_pair-same _ (name ++ b'.' ∷ top) (str "@")
      (extract_round_trip [] name top (free, tt) top_free starts (inl refl))
