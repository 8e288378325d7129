-- ===== src/Error/Answer.antt =====
-- What a client learns from the answer to an error.
use kinetic_atlas.Base.{
  ℕ, ◌-◌, ◌≤◌, ◌<◌, ◌≡◌, ◌⊎◌, ◌↔◌, refl, sym, ap, ◌∙◌, Bool, true, Option, none, some, [], ◌∷◌,
  arith, ◌==◌, if◌then◌else◌, drop, list_eq, ℕ_eq,
}
use kinetic_atlas.Text.{Str, str, Str_eq}
use kinetic_atlas.Types.Json.{Json, Members, bool, num, obj, end, member}
use kinetic_atlas.Error.{
  AtlasError, code, to_api_error, error_response, to_json, status_and_title, is_retryable, severity,
  network_init_failed, dns_resolution_failed, config_error, invalid_proxy_request,
  proxy_target_failed, updater_failed, tld_blacklisted, info, warning, error, critical,
  error_type_uri,
}

-- `value[key]` for an object, its first member of that name.
unfoldable pub field : Str → Members → Option Json
field k end = none
field k (member j v ms) = if j == k then some v else field k ms

abbrev pub members : Json → Members
members (obj ms) = ms
members _ = end

-- Which of the seven kinds of error a value is.
abbrev pub kind : AtlasError → ℕ
kind (network_init_failed _) = 1
kind (dns_resolution_failed _) = 2
kind (config_error _) = 3
kind (invalid_proxy_request _) = 4
kind proxy_target_failed = 5
kind (updater_failed _) = 6
kind tld_blacklisted = 7

-- The number at the end of a code, which stands at the end of the type, too.
abbrev last_digit : Str → ℕ
last_digit (x ∷ []) = x - b'0'
last_digit _ = 0

-- The kind by the fifth character of a title.
abbrev kind_of_title : Str → ℕ
kind_of_title [] = 0
kind_of_title (c ∷ _) =
    if c == b'o'
    then 1
    else if c == b'R'
    then 2
    else if c == b'e'
    then 3
    else if c == b'l'
    then 4
    else if c == b'G'
    then 5
    else if c == b'-'
    then 6
    else 7

kind-code : (e : AtlasError) → kind e ≡ last_digit (drop 10 (code e))
unfolding code
kind-code (network_init_failed _) = refl
kind-code (dns_resolution_failed _) = refl
kind-code (config_error _) = refl
kind-code (invalid_proxy_request _) = refl
kind-code proxy_target_failed = refl
kind-code (updater_failed _) = refl
kind-code tld_blacklisted = refl

kind-uri : (e : AtlasError) → kind e ≡ last_digit (drop 46 (error_type_uri e))
unfolding code error_type_uri
kind-uri (network_init_failed _) = refl
kind-uri (dns_resolution_failed _) = refl
kind-uri (config_error _) = refl
kind-uri (invalid_proxy_request _) = refl
kind-uri proxy_target_failed = refl
kind-uri (updater_failed _) = refl
kind-uri tld_blacklisted = refl

kind-title : (e : AtlasError) → kind e ≡ kind_of_title (drop 4 (status_and_title e).1)
unfolding status_and_title
kind-title (network_init_failed _) = refl
kind-title (dns_resolution_failed _) = refl
kind-title (config_error _) = refl
kind-title (invalid_proxy_request _) = refl
kind-title proxy_target_failed = refl
kind-title (updater_failed _) = refl
kind-title tld_blacklisted = refl

-- The status codes that the crate `http` takes: those of three digits.
abbrev pub AcceptsStatus : (ℕ → Option ℕ) → Type 0
AcceptsStatus from_u16 = (n : ℕ) → 100 ≤ n → n < 1000 → from_u16 n ≡ some n

by_table :
    (e : AtlasError)
    → (((status_and_title e).0 < 500) ↔ (severity e ≡ info))
      × (((status_and_title e).0 ≡ 502) ↔ (severity e ≡ warning))
      × (((status_and_title e).0 ≡ 500) ↔ ((severity e ≡ error) ⊎ (severity e ≡ critical)))
      × ((is_retryable e ≡ true) ↔ ((severity e ≡ warning) ⊎ (severity e ≡ error)))
      × (100 ≤ (status_and_title e).0)
      × ((status_and_title e).0 < 1000)
unfolding is_retryable severity status_and_title
by_table (network_init_failed _) = ground arith
by_table _ = ground arith

module _ (from_u16 : ℕ → Option ℕ) where
  -- A member of the body of the answer.
  abbrev pub member_of : Str → AtlasError → Option Json
  member_of k e = field k (members (error_response from_u16 e).body)

  -- The member tells the kinds of the two errors apart.
  abbrev TellsBy : Str → AtlasError → AtlasError → Type 0
  TellsBy k e f = member_of k e ≡ member_of k f → kind e ≡ kind f

  pub record Tells (e f : AtlasError) : Type 0 where
    pub by_type : TellsBy (str "type") e f
    pub by_code : TellsBy (str "code") e f
    pub by_title : TellsBy (str "title") e f

  -- The type, the code and the title in the body of an answer each tell the kind of its error: two errors
  -- whose answers have the same one are of the same kind.
  pub error_response-kind : (e f : AtlasError) → Tells e f
  unfolding error_response to_api_error to_json field list_eq
  error_response-kind e f = record {
    by_type = λ h.
        let same : error_type_uri e ≡ error_type_uri f = cc h in
        kind-uri e ∙ ap (λ (s : Str). last_digit (drop 46 s)) same ∙ sym (kind-uri f);
    by_code = λ h.
        let same : code e ≡ code f = cc h in
        kind-code e ∙ ap (λ (s : Str). last_digit (drop 10 s)) same ∙ sym (kind-code f);
    by_title = λ h.
        let same : (status_and_title e).1 ≡ (status_and_title f).1 = cc h in
        kind-title e ∙ ap (λ (s : Str). kind_of_title (drop 4 s)) same ∙ sym (kind-title f);
  }

  -- What the answer says of the severity of its error.
  pub record Graded (e : AtlasError) : Type 0 where
    pub client : ((error_response from_u16 e).status < 500) ↔ (severity e ≡ info)
    pub upstream : ((error_response from_u16 e).status ≡ 502) ↔ (severity e ≡ warning)
    pub server :
        ((error_response from_u16 e).status ≡ 500)
        ↔ ((severity e ≡ error) ⊎ (severity e ≡ critical))
    pub retry :
        (member_of (str "retryable") e ≡ some (bool true))
        ↔ ((severity e ≡ warning) ⊎ (severity e ≡ error))
    pub same_status : member_of (str "status") e ≡ some (num (error_response from_u16 e).status)

  -- Where every code of three digits is a status, the status of an answer is below 500 exactly for an
  -- error that is informational, 502 exactly for a warning and 500 exactly for an error or a critical
  -- one; its body has the same status, and offers a retry exactly for a warning or an error.
  pub error_response-severity : (e : AtlasError) → AcceptsStatus from_u16 → Graded e
  unfolding error_response to_api_error to_json field list_eq
  error_response-severity e accepts = graded e
    where
      graded : (e : AtlasError) → Graded e
      graded e =
          let t = by_table e in
          let same : (error_response from_u16 e).status ≡ (status_and_title e).0 =
            rw (accepts (status_and_title e).0 (omega (arith, t)) (omega (arith, t))) refl in
          record {
            client = rw same t.0;
            upstream = rw same t.1;
            server = rw same t.2;
            retry = ((λ h. t.3.0 cc), (λ h. ap (λ (b : Bool). some (bool b)) (t.3.1 h)));
            same_status = rw same refl;
          }
