-- ===== src/Proxy/Domain.antt =====
-- src/proxy.rs: the domain arithmetic of a request, from the Host header to the name that is looked
-- up in the DHT.
pub mod RoundTrip
pub mod Sound
pub mod UnitTests
use kinetic_atlas.Base.{
  ℕ, ◌<◌, Bool, Option, none, some, List, [], ◌∷◌, ◌++◌, length, drop, ltb, if◌then◌else◌,
}
use kinetic_atlas.Text.{Str, str, split, join, rfind, trim_end_matches}

-- `parts.last().unwrap()`, on a vector that is not empty.
abbrev pub last : List Str → Str
last [] = []
last (p ∷ []) = p
last (p ∷ q ∷ ps) = last (q ∷ ps)

-- `parts[..parts.len() - 1]`
abbrev pub init : List Str → List Str
init [] = []
init (p ∷ []) = []
init (p ∷ q ∷ ps) = p ∷ init (q ∷ ps)

abbrev pub subdomain_of : List Str → Str
subdomain_of parts = if ltb 1 (length parts) then join (str ".") (init parts) else str "@"

-- The part of the function after the split, by the tests `is_empty`.
unfoldable pub from_parts : Str → List Str → Option (Str × Str)
from_parts clean_tld [] = none
from_parts clean_tld ([] ∷ ps) = none
from_parts clean_tld ((c ∷ p) ∷ ps) =
    let parts : List Str = (c ∷ p) ∷ ps in some (last parts ++ clean_tld, subdomain_of parts)

unfoldable pub extract_base_domain_and_subdomain : Str → Str → Option (Str × Str)
unfolding from_parts split trim_end_matches
extract_base_domain_and_subdomain full_domain clean_tld =
    from_parts clean_tld (split b'.' (trim_end_matches clean_tld full_domain))

-- `s.split(':').next().unwrap_or("")`
abbrev first_or_empty : List Str → Str
first_or_empty [] = []
first_or_empty (p ∷ ps) = p

unfoldable pub strip_port : Str → Str
unfolding split
strip_port s = first_or_empty (split b':' s)

-- `&full_domain[idx..]` for the index of the last dot.
unfoldable pub extract_tld : Str → Option Str
unfolding rfind
extract_tld full_domain = elim (rfind b'.' full_domain) [
  | none ↦ none
  | some idx ↦ some (drop idx full_domain)
]
