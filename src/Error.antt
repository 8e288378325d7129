-- ===== src/Error.antt =====
-- src/error.rs: the errors, their classification, and the RFC 7807 answer made from one.
pub mod Answer
use kinetic_atlas.Base.{ℕ, Bool, true, false, ◌||◌, Option, none, some, List, [], ◌∷◌, ◌++◌}
use kinetic_atlas.Text.{Str, str}
use kinetic_atlas.Types.Json.{Json, Members, null, bool, num, text, obj, end, member}

pub data Severity : Type 0 where
  info warning error critical : Severity

pub data AtlasError : Type 0 where
  network_init_failed dns_resolution_failed config_error invalid_proxy_request : Str → AtlasError
  proxy_target_failed : AtlasError
  updater_failed : Str → AtlasError
  tld_blacklisted : AtlasError

unfoldable pub code : AtlasError → Str
code (network_init_failed _) = str "KIN-ATL-001"
code (dns_resolution_failed _) = str "KIN-ATL-002"
code (config_error _) = str "KIN-ATL-003"
code (invalid_proxy_request _) = str "KIN-ATL-004"
code proxy_target_failed = str "KIN-ATL-005"
code (updater_failed _) = str "KIN-ATL-006"
code tld_blacklisted = str "KIN-ATL-007"

unfoldable pub error_type_uri : AtlasError → Str
unfolding code
error_type_uri e = str "https://docs.kinetic.network/errors/" ++ code e

unfoldable pub is_retryable : AtlasError → Bool
is_retryable (network_init_failed _) = true
is_retryable (dns_resolution_failed _) = true
is_retryable (updater_failed _) = true
is_retryable proxy_target_failed = true
is_retryable _ = false

unfoldable pub severity : AtlasError → Severity
severity (network_init_failed _) = error
severity (dns_resolution_failed _) = warning
severity (config_error _) = critical
severity (invalid_proxy_request _) = info
severity proxy_target_failed = warning
severity (updater_failed _) = error
severity tld_blacklisted = info

-- The `Display` that the `#[error(…)]` attributes state.
unfoldable pub to_string : AtlasError → Str
to_string (network_init_failed s) = str "Swarm network initialization failed: " ++ s
to_string (dns_resolution_failed s) = str "Failed to resolve DNS tree: " ++ s
to_string (config_error s) = str "Configuration error: " ++ s
to_string (invalid_proxy_request s) = str "Invalid proxy request: " ++ s
to_string proxy_target_failed = str "All proxy targets failed for domain"
to_string (updater_failed s) = str "Auto-updater failed to fetch from GitHub: " ++ s
to_string tld_blacklisted = str "The requested TLD is blacklisted"

unfoldable pub user_message : AtlasError → Str
unfolding to_string
user_message e = to_string e

-- `json!({})`: an object with no member, which is not null.
unfoldable pub details : AtlasError → Json
details e = obj end

pub record ApiError : Type 0 where
  pub error_type : Str
  pub title : Str
  pub status : ℕ
  pub detail : Str
  pub instance_uri : Option Str
  pub code : Str
  pub retryable : Bool
  pub details : Json
  pub request_id : Str

unfoldable pub http_status : ApiError → ℕ
http_status e = e.status

abbrev pub current_request_id : Str
current_request_id = str "atlas-req-id-placeholder"

unfoldable pub status_and_title : AtlasError → ℕ × Str
status_and_title (network_init_failed _) = (500, str "Network Initialization Failed")
status_and_title (dns_resolution_failed _) = (502, str "DNS Resolution Failed")
status_and_title (config_error _) = (500, str "Server Configuration Error")
status_and_title (invalid_proxy_request _) = (400, str "Invalid Proxy Request")
status_and_title proxy_target_failed = (502, str "Bad Gateway")
status_and_title (updater_failed _) = (500, str "Auto-Updater Error")
status_and_title tld_blacklisted = (403, str "Domain Blacklisted")

-- `From<AtlasError> for ApiError`
unfoldable pub to_api_error : AtlasError → ApiError
unfolding status_and_title error_type_uri user_message is_retryable details code
to_api_error e = record {
  error_type = error_type_uri e;
  title = (status_and_title e).1;
  status = (status_and_title e).0;
  detail = user_message e;
  instance_uri = none;
  code = code e;
  retryable = is_retryable e;
  details = details e;
  request_id = current_request_id;
}

-- `skip_serializing_if = "Option::is_none"`
abbrev member_some : Str → Option Str → Members → Members
member_some k none ms = ms
member_some k (some s) ms = member k (text s) ms

-- `skip_serializing_if = "Value::is_null"`
abbrev member_value : Str → Json → Members → Members
member_value k null ms = ms
member_value k v ms = member k v ms

-- The derived `Serialize` of `ApiError`, with its attributes.
unfoldable pub to_json : ApiError → Json
to_json e = obj (
    member (str "type") (text e.error_type) (
      member (str "title") (text e.title) (
        member (str "status") (num e.status) (
          member (str "detail") (text e.detail) (
            member_some (str "instance") e.instance_uri (
              member (str "code") (text e.code) (
                member (str "retryable") (bool e.retryable) (
                  member_value (str "details") e.details
                    (member (str "request_id") (text e.request_id) end)))))))))

pub record HttpAnswer : Type 0 where
  pub status : ℕ
  pub body : Json

-- `IntoResponse for ApiError`; `from_u16` is `StatusCode::from_u16` of the crate `http`.
unfoldable pub into_response : (ℕ → Option ℕ) → ApiError → HttpAnswer
unfolding to_json
into_response from_u16 e = record {
  status = elim (from_u16 e.status) [ none ↦ 500 | some s ↦ s ];
  body = to_json e;
}

-- `IntoResponse for AtlasError`
unfoldable pub error_response : (ℕ → Option ℕ) → AtlasError → HttpAnswer
unfolding into_response to_api_error
error_response from_u16 e = into_response from_u16 (to_api_error e)
