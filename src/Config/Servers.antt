-- ===== src/Config/Servers.antt =====
-- The checks of the whole configuration: `validate`, `validateRegistries`, storage, audit and auth,
-- of internal/config/config.go. Pointers to sections are options.
pub mod Laws
pub mod Providers
use toolhive_registry_server.Prelude.{
  ℕ, ◌+◌, ℤ, pos, String, Bool, true, false, not, ◌&&◌, ◌||◌, Option, none, some, List, [], ◌∷◌,
  Outcome, ok, err, Check, ◌>>=◌, ◌>>◌, fail_if, wrap_err, blank, beq, ltb, leb_ℤ, ◌==◌, is_empty,
  contains, all, if◌then◌else◌,
}
use toolhive_registry_server.Value.{ClaimMap}
use toolhive_registry_server.Config.{SourceConfig, present}
use toolhive_registry_server.Config.Sources.{
  Host, Url, SourceError, name_required, name_invalid, name_duplicate, validate_source_config,
  validate_claims,
}

pub record RegistryConfig : Type 0 where
  pub name : String
  pub claims : Option ClaimMap
  pub sources : List String

-- The fields of a provider that are checked.
pub record OauthProviderConfig : Type 0 where
  pub name : String
  pub issuer_url : String
  pub audience : String
  pub sso_check_url : String

-- The modes; `other_mode` is a text that is neither.
pub data AuthMode : Type 0 where
  anonymous oauth : AuthMode
  other_mode : String → AuthMode

-- `AuthConfig`: its mode, and the providers where its `OAuth` section is there.
pub record AuthConfig : Type 0 where
  pub mode : AuthMode
  pub oauth : Option (List OauthProviderConfig)

-- The fields of `DatabaseConfig` that are checked.
pub record DatabaseConfig : Type 0 where
  pub host : String
  pub port : ℤ
  pub user : String
  pub database : String
  pub max_meta_size : Option ℤ
  pub has_dynamic_auth : Bool
  pub password : String
  pub migration_password : String

-- The fields of `AuditConfig` that are checked.
pub record AuditConfig : Type 0 where
  pub max_data_size : ℤ
  pub log_file : String

-- The fields of `Config` that are checked.
pub record Config : Type 0 where
  pub sources : List SourceConfig
  pub registries : List RegistryConfig
  pub database : Option DatabaseConfig
  pub auth : Option AuthConfig
  pub audit : Option AuditConfig
  pub insecure_allow_http : Bool

pub data ConfigError : Type 0 where
  no_sources no_registries several_managed : ConfigError
  source_error : SourceError → ConfigError
  registry_error : SourceError → ConfigError
  registry_without_sources unknown_source : ConfigError
  database_required host_required port_required user_required : ConfigError
  database_name_required max_meta_size_invalid two_passwords : ConfigError
  auth_required oauth_required providers_required mode_invalid : ConfigError
  provider_name_required issuer_required issuer_invalid issuer_not_absolute : ConfigError
  data_size_negative data_size_too_large no_log_directory : ConfigError
  log_directory_inaccessible log_directory_no_directory : ConfigError
  sso_url_invalid https_required audience_required : ConfigError

abbrev pub is_loopback_host : String → Bool
is_loopback_host host = host == "localhost" || host == "127.0.0.1" || host == "::1"

abbrev is_zero : ℤ → Bool
is_zero n = leb_ℤ n (pos 0) && leb_ℤ (pos 0) n

-- `managedCount`: one more if the source is managed.
abbrev add_managed : SourceConfig → ℕ → ℕ
add_managed src n = if present src.managed then n + 1 else n

-- `MaxAuditDataSize`
abbrev pub max_audit_data_size : ℤ
max_audit_data_size = pos 1_048_576

-- What is found of the directory of the log file, its links resolved: `none`, it does not resolve;
-- `some none`, it does not stat; else, whether it is a directory.
abbrev check_log_directory : Option (Option Bool) → Check ConfigError
check_log_directory none = err no_log_directory
check_log_directory (some none) = err log_directory_inaccessible
check_log_directory (some (some is_dir)) = fail_if (not is_dir) log_directory_no_directory

unfoldable pub validate_audit :
    (String → Option (Option Bool)) → Option AuditConfig → Check ConfigError
validate_audit log_directory none = ok tt
validate_audit log_directory (some a) = do
  fail_if (not (leb_ℤ (pos 0) a.max_data_size)) data_size_negative
  fail_if (not (leb_ℤ a.max_data_size max_audit_data_size)) data_size_too_large
  (if blank a.log_file then ok tt else check_log_directory (log_directory a.log_file))

unfoldable pub validate_storage_config : Option DatabaseConfig → Check ConfigError
validate_storage_config none = err database_required
validate_storage_config (some db) = do
  fail_if (blank db.host) host_required
  fail_if (is_zero db.port) port_required
  fail_if (blank db.user) user_required
  fail_if (blank db.database) database_name_required
  fail_if (elim db.max_meta_size [ none ↦ false | some n ↦ leb_ℤ n (pos 0) ]) max_meta_size_invalid
  fail_if (db.has_dynamic_auth && not (blank db.password)) two_passwords
  fail_if (db.has_dynamic_auth && not (blank db.migration_password)) two_passwords

module _ (host : Host) where
  -- One source under the names before it.
  unfoldable pub validate_source : List String → SourceConfig → Check ConfigError
  validate_source names src = wrap_err source_error (do
    fail_if (blank src.name) name_required
    fail_if (not (host.is_dns_subdomain src.name)) name_invalid
    fail_if (contains src.name names) name_duplicate
    validate_source_config host src
    validate_claims src.claims)

  -- The loop over the sources: the names that it collects, and the number of managed ones.
  unfoldable pub validate_sources :
      List String → ℕ → List SourceConfig → Outcome ConfigError (List String × ℕ)
  validate_sources names managed [] = ok (names, managed)
  validate_sources names managed (src ∷ srcs) =
      validate_source names src
      >> validate_sources (src.name ∷ names) (add_managed src managed) srcs

  -- One registry under the names before it.
  unfoldable pub validate_registry : List String → List String → RegistryConfig → Check ConfigError
  validate_registry source_names names reg = do
    fail_if (blank reg.name) (registry_error name_required)
    fail_if (contains reg.name names) (registry_error name_duplicate)
    fail_if (is_empty reg.sources) registry_without_sources
    fail_if (not (all (λ s. contains s source_names) reg.sources)) unknown_source
    wrap_err registry_error (validate_claims reg.claims)

  unfoldable pub validate_registries :
      List String → List String → List RegistryConfig → Check ConfigError
  validate_registries source_names names [] = ok tt
  validate_registries source_names names (reg ∷ regs) =
      validate_registry source_names names reg
      >> validate_registries source_names (reg.name ∷ names) regs

  abbrev pub is_bad_sso_url : Option Url → Bool
  is_bad_sso_url none = true
  is_bad_sso_url (some url) = not url.is_abs || blank url.host

  -- `validateProvider`, once the issuer's URL is parsed.
  unfoldable pub validate_issuer : Bool → OauthProviderConfig → Option Url → Check ConfigError
  validate_issuer insecure p none = err issuer_invalid
  validate_issuer insecure p (some issuer) = do
    fail_if (not issuer.is_abs || blank issuer.host) issuer_not_absolute
    fail_if (not (blank p.sso_check_url) && is_bad_sso_url (host.parse_url p.sso_check_url))
        sso_url_invalid
    fail_if
        (blank p.sso_check_url
          && not (issuer.scheme == "https")
          && not insecure
          && not (is_loopback_host issuer.hostname))
        https_required
    fail_if (blank p.sso_check_url && blank p.audience) audience_required

  unfoldable pub validate_provider : Bool → OauthProviderConfig → Check ConfigError
  validate_provider insecure p = do
    fail_if (blank p.name) provider_name_required
    fail_if (blank p.issuer_url) issuer_required
    validate_issuer insecure p (host.parse_url p.issuer_url)

  unfoldable pub validate_providers : Bool → List OauthProviderConfig → Check ConfigError
  validate_providers insecure [] = ok tt
  validate_providers insecure (p ∷ ps) =
      validate_provider insecure p >> validate_providers insecure ps

  -- `AuthConfig.Validate`
  unfoldable pub validate_auth_config :
      Bool → AuthMode → Option (List OauthProviderConfig) → Check ConfigError
  validate_auth_config insecure anonymous section = ok tt
  validate_auth_config insecure oauth none = err oauth_required
  validate_auth_config insecure oauth (some ps) = do
    fail_if (is_empty ps) providers_required
    validate_providers insecure ps
  validate_auth_config insecure (other_mode m) section = err mode_invalid

  unfoldable pub validate_auth : Bool → Option AuthConfig → Check ConfigError
  validate_auth insecure none = err auth_required
  validate_auth insecure (some a) = validate_auth_config insecure a.mode a.oauth

  -- `validate` after the sources.
  unfoldable pub validate_rest :
      (String → Option (Option Bool)) → Config → List String × ℕ → Check ConfigError
  validate_rest log_directory c (names, managed) = do
    fail_if (ltb 1 managed) several_managed
    fail_if (is_empty c.registries) no_registries
    validate_registries names [] c.registries
    validate_storage_config c.database
    validate_audit log_directory c.audit
    validate_auth c.insecure_allow_http c.auth

  unfoldable pub validate : (String → Option (Option Bool)) → Config → Check ConfigError
  validate log_directory c =
      fail_if (is_empty c.sources) no_sources
      >> (validate_sources [] 0 c.sources >>= validate_rest log_directory c)
