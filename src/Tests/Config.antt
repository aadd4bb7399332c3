-- ===== src/Tests/Config.antt =====
-- A configuration with one API source, one registry and one provider.
use toolhive_registry_server.Prelude.{
  pos, String, Bool, true, false, Option, none, some, List, [], ◌∷◌, ◌≡◌, ◌≢◌, refl, ◌↔◌, Memᴰ, ok,
  ◌==◌, All, contains, if◌then◌else◌,
}
use toolhive_registry_server.Value.{Value, str, number}
use toolhive_registry_server.Claims.Rules.{IsClaimValue}
use toolhive_registry_server.Claims.Json.{validate_claim_values}
use toolhive_registry_server.Claims.Json.Accepted.{validate_claim_values_iff}
use toolhive_registry_server.Config.{SourceConfig, get_type, is_non_synced_source}
use toolhive_registry_server.Config.Sources.{
  Host, validate_api_timeout, validate_source_type_count, type_count, validate_source_config,
  validate_api_config, check_api_bounds, validate_sync_policy, validate_source_specific_config,
}
use toolhive_registry_server.Config.Servers.{
  Config, OauthProviderConfig, oauth, validate, validate_auth_config, validate_source,
  validate_sources, validate_registry, validate_registries, validate_rest, validate_storage_config,
  validate_audit, validate_auth, validate_providers, validate_provider, validate_issuer,
}
use toolhive_registry_server.Config.Servers.Laws.{WellFormed, validate-WellFormed}
use toolhive_registry_server.Config.Servers.Providers.{Secure, validate_auth_config-Secure}

-- Durations are seconds in words; every URL is `https://example.com`.
abbrev pub host : Host
host = record {
  parse_duration = λ s. if s == "30s" then some (pos 30_000_000_000) else none;
  parse_url = λ _.
      some (record {
        is_abs = true;
        host = "example.com";
        hostname = "example.com";
        scheme = "https";
      });
  is_dns_subdomain = λ s. s == "main";
  is_abs = λ _. true;
  is_accessible = λ _. true;
}

abbrev pub api_source : SourceConfig
api_source = record {
  name = "main";
  git = none;
  api = some (record { endpoint = "https://example.com"; timeout = "30s" });
  file = none;
  managed = none;
  kubernetes = none;
  sync_policy = some (record { interval = "30s" });
  filter = none;
  claims = some (("org", str "acme") ∷ []);
}

abbrev provider : OauthProviderConfig
provider = record {
  name = "idp";
  issuer_url = "https://example.com";
  audience = "registry";
  sso_check_url = "";
}

abbrev config : Config
config = record {
  sources = api_source ∷ [];
  registries = record { name = "default"; claims = none; sources = "main" ∷ [] } ∷ [];
  database = some (record {
    host = "db";
    port = pos 5432;
    user = "u";
    database = "d";
    max_meta_size = none;
    has_dynamic_auth = false;
    password = "";
    migration_password = "";
  });
  auth = some (record { mode = oauth; oauth = some (provider ∷ []) });
  audit = none;
  insecure_allow_http = false;
}

abbrev no_directory : String → Option (Option Bool)
no_directory _ = none

config_accepted : validate host no_directory config ≡ ok tt
unfolding validate validate_sources validate_source validate_source_config
    validate_source_type_count type_count is_non_synced_source get_type validate_sync_policy
    validate_source_specific_config validate_api_config validate_api_timeout check_api_bounds
    validate_claim_values contains validate_rest validate_registries validate_registry
    validate_storage_config validate_audit validate_auth validate_auth_config validate_providers
    validate_provider validate_issuer
config_accepted = refl

validate-WellFormed_example : WellFormed host config
validate-WellFormed_example = validate-WellFormed host no_directory config config_accepted

auth_accepted : validate_auth_config host false oauth (some (provider ∷ [])) ≡ ok tt
unfolding validate_auth_config validate_providers validate_provider validate_issuer
auth_accepted = refl

validate_auth_config-Secure_example :
    (ps : List OauthProviderConfig) × ◌≡◌ {A = Option (List OauthProviderConfig)}
      (some (provider ∷ []))
      (some ps)
    × (ps ≢ [])
    × ((p : OauthProviderConfig) → Memᴰ p ps → p.sso_check_url ≡ "" → Secure host false p)
validate_auth_config-Secure_example =
    validate_auth_config-Secure host false (some (provider ∷ [])) auth_accepted

validate_claim_values_iff_example :
    (validate_claim_values (("org", str "acme") ∷ ("n", number 1) ∷ []) ≡ ok tt)
    ↔ All
        (λ (entry : String × Value). IsClaimValue entry.1)
        (("org", str "acme") ∷ ("n", number 1) ∷ [])
validate_claim_values_iff_example =
    validate_claim_values_iff (("org", str "acme") ∷ ("n", number 1) ∷ [])
