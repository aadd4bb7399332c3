-- ===== src/Config/Sources.antt =====
-- The checks of one source: `GitAuthConfig.Validate` and `validateSourceConfig` with its steps, of
-- internal/config/config.go. Errors are told apart by their texts' fixed parts.
pub mod Laws
use toolhive_registry_server.Prelude.{
  ℕ, ◌+◌, ℤ, pos, String, Bool, true, false, not, ◌&&◌, ◌||◌, Option, none, some, ok, err, Check,
  ◌>>◌, fail_if, wrap_err, blank, beq, ltb, leb_ℤ, ◌==◌, if◌then◌else◌,
}
use toolhive_registry_server.Value.{ClaimMap}
use toolhive_registry_server.Claims.Json.{ClaimValueError, validate_claim_values, entries_of}
use toolhive_registry_server.Config.{
  GitAuthConfig, GitConfig, ApiConfig, FileConfig, SyncPolicyConfig, SourceConfig, present,
  is_non_synced_source,
}

-- `url.URL`, as far as it is looked at.
pub record Url : Type 0 where
  pub is_abs : Bool
  pub host : String
  pub hostname : String
  pub scheme : String

-- What the checks call: `time.ParseDuration`, `url.Parse`, the match of `dnsSubdomainRegex`,
-- `filepath.IsAbs`, and `os.Stat` without an error.
pub record Host : Type 0 where
  pub parse_duration : String → Option ℤ
  pub parse_url : String → Option Url
  pub is_dns_subdomain : String → Bool
  pub is_abs : String → Bool
  pub is_accessible : String → Bool

pub data SourceError : Type 0 where
  name_required name_invalid name_duplicate no_type several_types : SourceError
  interval_required interval_invalid repository_required endpoint_required : SourceError
  auth_incomplete password_file_relative password_file_missing : SourceError
  timeout_invalid timeout_not_positive timeout_too_long : SourceError
  no_path_or_url path_and_url url_invalid url_not_absolute url_scheme : SourceError
  claims_invalid : ClaimValueError → SourceError

-- `maxAPITimeout`: five minutes, in nanoseconds.
abbrev pub max_api_timeout : ℤ
max_api_timeout = pos 300_000_000_000

abbrev pub count_if : Bool → ℕ
count_if true = 1
count_if false = 0

-- The counter of `validateSourceTypeCount`.
unfoldable pub type_count : SourceConfig → ℕ
type_count src =
    count_if (present src.git)
    + count_if (present src.api)
    + count_if (present src.file)
    + count_if (present src.managed)
    + count_if (present src.kubernetes)

unfoldable pub validate_source_type_count : SourceConfig → Check SourceError
validate_source_type_count src = do
  fail_if (beq (type_count src) 0) no_type
  fail_if (ltb 1 (type_count src)) several_types

-- The bounds of `ValidateAPITimeout` on a timeout that parsed.
unfoldable pub check_api_bounds : ℤ → Check SourceError
check_api_bounds d = do
  fail_if (leb_ℤ d (pos 0)) timeout_not_positive
  fail_if (not (leb_ℤ d max_api_timeout)) timeout_too_long

module _ (host : Host) where
  -- `GitAuthConfig.Validate`
  unfoldable pub validate_git_auth : Option GitAuthConfig → Check SourceError
  validate_git_auth none = ok tt
  validate_git_auth (some a) =
      let has_username = not (blank a.username) in
      let has_password_file = not (blank a.password_file) in
      if (has_username && not has_password_file) || (not has_username && has_password_file)
      then err auth_incomplete
      else if has_password_file
      then (do
        fail_if (not (host.is_abs a.password_file)) password_file_relative
        fail_if (not (host.is_accessible a.password_file)) password_file_missing)
      else ok tt

  unfoldable pub validate_git_config : GitConfig → Check SourceError
  validate_git_config git = do
    fail_if (blank git.repository) repository_required
    validate_git_auth git.auth

  unfoldable pub validate_api_timeout : String → Check SourceError
  validate_api_timeout timeout =
      if blank timeout then ok tt else elim (host.parse_duration timeout) [
        | none ↦ err timeout_invalid
        | some d ↦ check_api_bounds d
      ]

  unfoldable pub validate_api_config : ApiConfig → Check SourceError
  validate_api_config api = do
    fail_if (blank api.endpoint) endpoint_required
    validate_api_timeout api.timeout

  unfoldable pub validate_file_url : String → Check SourceError
  validate_file_url raw_url = elim (host.parse_url raw_url) [
    | none ↦ err url_invalid
    | some url ↦ do
      fail_if (not url.is_abs || blank url.host) url_not_absolute
      fail_if (not (url.scheme == "http") && not (url.scheme == "https")) url_scheme
  ]

  -- The optional `file.timeout`.
  unfoldable pub validate_file_timeout : String → Check SourceError
  validate_file_timeout timeout =
      if blank timeout
      then ok tt
      else elim (host.parse_duration timeout) [ none ↦ err timeout_invalid | some d ↦ ok tt ]

  unfoldable pub validate_file_config : FileConfig → Check SourceError
  validate_file_config file = do
    fail_if (blank file.path && blank file.url) no_path_or_url
    fail_if (not (blank file.path) && not (blank file.url)) path_and_url
    (if blank file.url
        then ok tt
        else validate_file_url file.url >> validate_file_timeout file.timeout)

  -- `validateSourceSpecificConfig`: the first type that is set.
  unfoldable pub validate_source_specific_config :
      Option GitConfig → Option ApiConfig → Option FileConfig → Check SourceError
  validate_source_specific_config (some git) api file = validate_git_config git
  validate_source_specific_config none (some api) file = validate_api_config api
  validate_source_specific_config none none (some file) = validate_file_config file
  validate_source_specific_config none none none = ok tt

  unfoldable pub validate_sync_policy : Option SyncPolicyConfig → Check SourceError
  validate_sync_policy none = err interval_required
  validate_sync_policy (some policy) =
      if blank policy.interval
      then err interval_required
      else elim (host.parse_duration policy.interval) [
        | none ↦ err interval_invalid
        | some d ↦ ok tt
      ]

  unfoldable pub validate_source_config : SourceConfig → Check SourceError
  validate_source_config src = do
    validate_source_type_count src
    (if is_non_synced_source src
        then ok tt
        else validate_sync_policy src.sync_policy
          >> validate_source_specific_config src.git src.api src.file)

-- `validateClaims`
abbrev pub validate_claims : Option ClaimMap → Check SourceError
validate_claims claims = wrap_err claims_invalid (validate_claim_values (entries_of claims))
