-- ===== src/Requests.antt =====
-- The requests that create sources and registries, and their validation: internal/service/
-- source_types.go and validation.go. The validator of inline data is a parameter.
pub mod Agreement
pub mod Typed
use toolhive_registry_server.Prelude.{
  ℕ, ◌+◌, String, Bool, true, false, not, ◌&&◌, ◌||◌, Option, none, some, List, [], ◌∷◌, ok, err,
  Check, ◌>>◌, fail_if, wrap_err, blank, beq, ltb, is_empty, contains, if◌then◌else◌,
}
use toolhive_registry_server.Value.{ClaimMap}
use toolhive_registry_server.Config.{
  GitConfig, ApiConfig, FileConfig, ManagedConfig, KubernetesConfig, SyncPolicyConfig, FilterConfig,
  SourceType, git, api, file, managed, kubernetes, unset, first_type, present,
}
use toolhive_registry_server.Config.Sources.{
  Host, SourceError, no_type, several_types, repository_required, endpoint_required, count_if,
  validate_git_auth, validate_api_timeout, validate_sync_policy, validate_file_timeout,
}

pub record SourceCreateRequest : Type 0 where
  pub git : Option GitConfig
  pub api : Option ApiConfig
  pub file : Option FileConfig
  pub managed : Option ManagedConfig
  pub kubernetes : Option KubernetesConfig
  pub sync_policy : Option SyncPolicyConfig
  pub filter : Option FilterConfig
  pub claims : Option ClaimMap

pub record RegistryCreateRequest : Type 0 where
  pub sources : List String
  pub claims : Option ClaimMap

-- The errors of the two validations; `shared` are those that the configuration's checks have too.
pub data RequestError : Type 0 where
  shared : SourceError → RequestError
  config_required refs_exclusive : RequestError
  no_file_data file_data_exclusive timeout_without_url data_invalid : RequestError
  no_sources : RequestError
  duplicate_source : String → RequestError

unfoldable pub get_source_type : SourceCreateRequest → SourceType
get_source_type req =
    first_type (present req.git) (present req.api) (present req.file) (present req.managed)
      (present req.kubernetes)

unfoldable pub count_source_types : SourceCreateRequest → ℕ
count_source_types req =
    count_if (present req.git)
    + count_if (present req.api)
    + count_if (present req.file)
    + count_if (present req.managed)
    + count_if (present req.kubernetes)

has_data : Option FileConfig → Bool
has_data none = false
has_data (some f) = not (blank f.inline_data)

unfoldable pub is_inline_data : SourceCreateRequest → Bool
unfolding has_data
is_inline_data req = has_data req.file

is_unsynced : SourceType → Bool → Bool
is_unsynced managed inline = true
is_unsynced kubernetes inline = true
is_unsynced _ inline = inline

unfoldable pub is_non_synced_type : SourceCreateRequest → Bool
unfolding is_unsynced
is_non_synced_type req = is_unsynced (get_source_type req) (is_inline_data req)

-- The loop over the names, with those seen so far.
check_duplicates : List String → List String → Check RequestError
check_duplicates seen [] = ok tt
check_duplicates seen (s ∷ names) =
    let rest = check_duplicates (s ∷ seen) names in
    if contains s seen then err (duplicate_source s) else rest

unfoldable pub validate_registry_config : RegistryCreateRequest → Check RequestError
unfolding check_duplicates
validate_registry_config req = do
  fail_if (is_empty req.sources) no_sources
  check_duplicates [] req.sources

-- The number of texts that are not blank.
abbrev pub set_count : String → String → String → ℕ
set_count a b c = count_if (not (blank a)) + count_if (not (blank b)) + count_if (not (blank c))

module _ (host : Host) (is_valid_data : String → Bool) where
  unfoldable pub validate_git_request : Option GitConfig → Check RequestError
  validate_git_request none = err config_required
  validate_git_request (some cfg) = do
    fail_if (blank cfg.repository) (shared repository_required)
    fail_if (ltb 1 (set_count cfg.branch cfg.tag cfg.commit)) refs_exclusive
    wrap_err shared (validate_git_auth host cfg.auth)

  unfoldable pub validate_api_request : Option ApiConfig → Check RequestError
  validate_api_request none = err config_required
  validate_api_request (some cfg) = do
    fail_if (blank cfg.endpoint) (shared endpoint_required)
    wrap_err shared (validate_api_timeout host cfg.timeout)

  -- The timeout of a file source, which belongs to a URL.
  check_file_timeout : FileConfig → Check RequestError
  check_file_timeout cfg = if blank cfg.timeout then ok tt else do
    fail_if (blank cfg.url) timeout_without_url
    wrap_err shared (validate_file_timeout host cfg.timeout)

  -- `ValidateInlineDataBasic`, of data that are not blank.
  check_inline_data : FileConfig → Check RequestError
  check_inline_data cfg =
      if blank cfg.inline_data
      then ok tt
      else fail_if (not (is_valid_data cfg.inline_data)) data_invalid

  unfoldable pub validate_file_request : Option FileConfig → Check RequestError
  unfolding check_file_timeout check_inline_data
  validate_file_request none = err config_required
  validate_file_request (some cfg) = do
    fail_if (beq (set_count cfg.path cfg.url cfg.inline_data) 0) no_file_data
    fail_if (ltb 1 (set_count cfg.path cfg.url cfg.inline_data)) file_data_exclusive
    check_file_timeout cfg
    check_inline_data cfg

  validate_by_type : SourceType → SourceCreateRequest → Check RequestError
  validate_by_type git req = validate_git_request req.git
  validate_by_type api req = validate_api_request req.api
  validate_by_type file req = validate_file_request req.file
  validate_by_type managed req = ok tt
  validate_by_type kubernetes req = ok tt
  validate_by_type unset req = err (shared no_type)

  unfoldable pub validate_source_specific : SourceCreateRequest → Check RequestError
  unfolding validate_by_type
  validate_source_specific req = validate_by_type (get_source_type req) req

  -- `ValidateSourceConfig` of a request that is there.
  unfoldable pub validate_source_request : SourceCreateRequest → Check RequestError
  validate_source_request req = do
    fail_if (beq (count_source_types req) 0) (shared no_type)
    fail_if (ltb 1 (count_source_types req)) (shared several_types)
    (if is_non_synced_type req
        then ok tt
        else wrap_err shared (validate_sync_policy host req.sync_policy))
    validate_source_specific req
