-- ===== src/Tests/Catalog.antt =====
-- A configured source with a registry, next to which the API creates a source.
use toolhive_registry_server.Prelude.{
  String, Bool, true, false, none, some, [], ◌∷◌, ◌≡◌, refl, sym, ◌∙◌, inl, inr, Memᴰ, ok, lookup,
  contains, ◌==◌, eq_iff, Bool-cases,
}
use toolhive_registry_server.Value.{to_string_set}
use toolhive_registry_server.Auth.{is_super_admin, has_role}
use toolhive_registry_server.Claims.{claims_contain, claims_match, is_valid_claim_value, subset_of}
use toolhive_registry_server.Claims.Gate.{
  MayPass, validate_claims_subset, validate_claims_with, claims_from_ctx,
}
use toolhive_registry_server.Config.{managed, ApiConfig}
use toolhive_registry_server.Config.Sources.{
  validate_api_timeout, check_api_bounds, validate_sync_policy,
}
use toolhive_registry_server.Requests.{
  SourceCreateRequest, get_source_type, count_source_types, is_inline_data, is_non_synced_type,
  validate_source_specific, validate_source_request, validate_api_request,
}
use toolhive_registry_server.Requests.Agreement.{without_file}
use toolhive_registry_server.Catalog.{
  SourceRow, RegistryRow, Catalog, by_api, by_config, unknown_subtype, caller_claims, create_source,
  row_of, managed_sources,
}
use toolhive_registry_server.Claims.Json.{deserialize_claims}
use toolhive_registry_server.Claims.Rules.{Admits}
use toolhive_registry_server.Catalog.Reading.{
  get_source_by_name, get_registry_by_name, get_source_by_name-hides, get_registry_by_name-hides,
}
use toolhive_registry_server.Catalog.Invariant.{Inv}
use toolhive_registry_server.Catalog.Calls.{
  Call, source_created, Call-Inv, Call-keeps_source, Call-keeps_registry,
}
use toolhive_registry_server.Tests.Claims.{core_row, request, codec}
use toolhive_registry_server.Tests.Config.{host}

abbrev api_section : ApiConfig
api_section = record { endpoint = "https://example.com"; timeout = "30s" }

abbrev req : SourceCreateRequest
req =
    without_file none (some api_section) none none (some (record { interval = "30s" })) none
      (some core_row)

abbrev any_data : String → Bool
any_data _ = true

abbrev internal : SourceRow codec.Bytes
internal = record {
  creation = by_config;
  source_type = managed;
  subtype = unknown_subtype;
  syncable = false;
  claims = none;
}

abbrev default_registry : RegistryRow codec.Bytes
default_registry = record { creation = by_config; claims = none; links = "internal" ∷ [] }

abbrev before : Catalog codec.Bytes
before = record {
  sources = ("internal", internal) ∷ [];
  registries = ("default", default_registry) ∷ [];
}

only_internal :
    (n : String) (r : SourceRow codec.Bytes)
    → lookup n before.sources ≡ some r
    → ("internal" ≡ n) × (internal ≡ r)
unfolding lookup
only_internal n r h = elim (Bool-cases ("internal" == n)) [
  | inl e ↦ let k : some internal ≡ some r = rw e at h in ((eq_iff "internal" n).0 e, cc)
  | inr e ↦ absurd (let k : none ≡ some r = rw e at h in cc)
]

only_default :
    (n : String) (r : RegistryRow codec.Bytes)
    → lookup n before.registries ≡ some r
    → default_registry ≡ r
unfolding lookup
only_default n r h = elim (Bool-cases ("default" == n)) [
  | inl e ↦ let k : some default_registry ≡ some r = rw e at h in cc
  | inr e ↦ absurd (let k : none ≡ some r = rw e at h in cc)
]

internal_there : lookup "internal" before.sources ≡ some internal
unfolding lookup
internal_there = refl

default_there : lookup "default" before.registries ≡ some default_registry
unfolding lookup
default_there = refl

before-Inv : Inv before
before-Inv = record {
  typed = λ n r h. rw (← ((only_internal n r h).1)) refl;
  one_managed = λ n n' r r' h m h' m'. sym ((only_internal n r h).0) ∙ (only_internal n' r' h').0;
  linked = λ n s reg h m. (internal, only_link s (rw (← (only_default n reg h)) at m));
}
  where
    only_link : (s : String) → Memᴰ s ("internal" ∷ []) → lookup s before.sources ≡ some internal
    only_link s (Memᴰ.head e) = rw e internal_there
    only_link s (Memᴰ.tail m) = elim m [ ]

abbrev after : Catalog codec.Bytes
after = record before {
  sources = ("main", row_of codec host any_data false request by_api req) ∷ before.sources;
}

created : create_source codec host any_data false request "main" req before ≡ ok after
unfolding create_source validate_source_request count_source_types is_non_synced_type
    get_source_type is_inline_data validate_source_specific validate_api_request
    validate_api_timeout check_api_bounds validate_sync_policy validate_claims_subset
    validate_claims_with claims_from_ctx is_super_admin has_role claims_contain claims_match
    is_valid_claim_value lookup to_string_set subset_of contains managed_sources row_of
created = refl

source-Call : Call codec host any_data false request before after
source-Call = source_created "main" req created

Call-Inv_example : Inv after
Call-Inv_example = Call-Inv codec host any_data false request before after before-Inv source-Call

Call-keeps_source_example : lookup "internal" after.sources ≡ some internal
Call-keeps_source_example =
    Call-keeps_source codec host any_data false request before after "internal" internal before-Inv
      source-Call internal_there refl

Call-keeps_registry_example : lookup "default" after.registries ≡ some default_registry
Call-keeps_registry_example =
    Call-keeps_registry codec host any_data false request before after "default" default_registry
      before-Inv source-Call default_there refl

abbrev nothing : Catalog codec.Bytes
nothing = record { sources = []; registries = [] }

-- The caller of the request sees nothing that has no claims.
unlabelled_hidden :
    ¬ MayPass Admits request
      (caller_claims codec host any_data false request)
      (deserialize_claims codec none)
unfolding claims_from_ctx is_super_admin has_role deserialize_claims
unlabelled_hidden (inl super) = cc
unlabelled_hidden (inr (filled, _)) = filled refl

no_source : lookup "internal" nothing.sources ≡ none
unfolding lookup
no_source = refl

no_registry : lookup "default" nothing.registries ≡ none
unfolding lookup
no_registry = refl

get_source_by_name-hides_example :
    get_source_by_name codec host any_data false request "internal" before
    ≡ get_source_by_name codec host any_data false request "internal" nothing
get_source_by_name-hides_example =
    get_source_by_name-hides codec host any_data false request "internal" before nothing internal
      internal_there unlabelled_hidden no_source

get_registry_by_name-hides_example :
    get_registry_by_name codec host any_data false request "default" before
    ≡ get_registry_by_name codec host any_data false request "default" nothing
get_registry_by_name-hides_example =
    get_registry_by_name-hides codec host any_data false request "default" before nothing
      default_registry default_there unlabelled_hidden no_registry
