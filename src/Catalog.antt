-- ===== src/Catalog.antt =====
-- The sources and registries that the admin API changes: impl_source.go and impl_registry.go of
-- internal/service/db, on the tables `source`, `registry` and `registry_source`. A link refers to a
-- source by its name, which never changes. A transaction that fails leaves the tables as they were.
pub mod Rows
pub mod Invariant
pub mod Opened
pub mod Changing
pub mod Linking
pub mod Calls
pub mod Reading
use toolhive_registry_server.Prelude.{
  ℕ, String, Bool, true, false, not, ◌&&◌, Option, none, some, List, [], ◌∷◌, Outcome, ok, err,
  Check, ◌>>=◌, ◌>>◌, wrap_err, fail_if, blank, any, keep, is_empty, contains, Dict, lookup, ◌==◌,
  map, if◌then◌else◌,
}
use toolhive_registry_server.Value.{ClaimMap}
use toolhive_registry_server.Auth.{Ctx}
use toolhive_registry_server.Claims.Json.{Json, serialize_claims}
use toolhive_registry_server.Claims.Gate.{GateError, validate_claims_subset, claims_from_ctx}
use toolhive_registry_server.Claims.Stored.{validate_claims_visible_bytes}
use toolhive_registry_server.Config.{
  SourceType, git, api, file, managed, kubernetes, unset, FileConfig, SyncPolicyConfig,
}
use toolhive_registry_server.Config.Sources.{Host}
use toolhive_registry_server.Requests.{
  SourceCreateRequest, RegistryCreateRequest, RequestError, get_source_type, is_non_synced_type,
  is_inline_data, validate_source_request, validate_registry_config,
}

-- `sqlc.CreationType`
pub data CreationType : Type 0 where
  by_api by_config : CreationType

-- The kinds of `getFileSourceSubtype`.
pub data FileSubtype : Type 0 where
  from_path from_url from_data unknown_subtype : FileSubtype

-- A row of `source`. Of its configuration, the kind of a file source is read again.
pub record SourceRow (B : Type 0) : Type 0 where
  pub creation : CreationType
  pub source_type : SourceType
  pub subtype : FileSubtype
  pub syncable : Bool
  pub claims : B

-- A row of `registry` with the names of its linked sources, by position.
pub record RegistryRow (B : Type 0) : Type 0 where
  pub creation : CreationType
  pub claims : B
  pub links : List String

pub record Catalog (B : Type 0) : Type 0 where
  pub sources : Dict (SourceRow B)
  pub registries : Dict (RegistryRow B)

-- The errors of the operations, but for those of the database itself.
pub data CatalogError : Type 0 where
  invalid_source_config invalid_registry_config : RequestError → CatalogError
  invalid_source_name : CatalogError
  insufficient : GateError → CatalogError
  source_already_exists source_not_found config_source source_in_use : CatalogError
  managed_source_limit_reached source_type_change subtype_change : CatalogError
  registry_already_exists registry_not_found config_registry : CatalogError

abbrev pub is_config : CreationType → Bool
is_config by_config = true
is_config by_api = false

abbrev pub is_managed : SourceType → Bool
is_managed managed = true
is_managed _ = false

abbrev pub source_type_eq : SourceType → SourceType → Bool
source_type_eq git git = true
source_type_eq api api = true
source_type_eq file file = true
source_type_eq managed managed = true
source_type_eq kubernetes kubernetes = true
source_type_eq unset unset = true
source_type_eq _ _ = false

abbrev subtype_eq : FileSubtype → FileSubtype → Bool
subtype_eq from_path from_path = true
subtype_eq from_url from_url = true
subtype_eq from_data from_data = true
subtype_eq unknown_subtype unknown_subtype = true
subtype_eq _ _ = false

unfoldable pub get_file_source_subtype : Option FileConfig → FileSubtype
get_file_source_subtype none = unknown_subtype
get_file_source_subtype (some cfg) =
    if not (blank cfg.path)
    then from_path
    else if not (blank cfg.url)
    then from_url
    else if not (blank cfg.inline_data)
    then from_data
    else unknown_subtype

module _ {V : Type 0} where
  -- The rows without those of a name.
  abbrev pub remove : String → Dict V → Dict V
  remove name rows = keep (λ row. not (row.0 == name)) rows

  -- The row of a name becomes the given one.
  abbrev pub replace : String → V → Dict V → Dict V
  replace name v rows = map (λ row. if row.0 == name then (name, v) else row) rows

module _ (json : Json) (host : Host) (is_valid_data : String → Bool) (skip_authz : Bool)
    (ctx : Ctx) where
  -- The claims that the gates see.
  abbrev pub caller_claims : Option ClaimMap
  caller_claims = if skip_authz then none else claims_from_ctx ctx

  -- The row that a request makes.
  unfoldable pub row_of : CreationType → SourceCreateRequest → SourceRow json.Bytes
  row_of creation req = record {
    creation = creation;
    source_type = get_source_type req;
    subtype = get_file_source_subtype req.file;
    syncable = not (is_non_synced_type req);
    claims = serialize_claims json req.claims;
  }

  -- `GetManagedSources`
  unfoldable pub managed_sources : Dict (SourceRow json.Bytes) → Dict (SourceRow json.Bytes)
  managed_sources rows = keep (λ row. is_managed row.1.source_type) rows

  gate_visible : json.Bytes → Check CatalogError
  gate_visible stored =
      wrap_err insufficient (validate_claims_visible_bytes json ctx caller_claims stored)

  gate_subset : Option ClaimMap → Check CatalogError
  gate_subset claims = wrap_err insufficient (validate_claims_subset ctx caller_claims claims)

  pub absent : {V : Type 0} → Option V → CatalogError → Check CatalogError
  absent none e = ok tt
  absent (some _) e = err e

  pub present_or : {V : Type 0} → Option V → CatalogError → Outcome CatalogError V
  present_or none e = err e
  present_or (some v) e = ok v

  unfoldable pub create_source :
      String → SourceCreateRequest → Catalog json.Bytes → Outcome CatalogError (Catalog json.Bytes)
  unfolding gate_subset absent
  create_source name req c = do
    wrap_err invalid_source_config (validate_source_request host is_valid_data req)
    gate_subset req.claims
    absent (lookup name c.sources) source_already_exists
    fail_if (not (host.is_dns_subdomain name)) invalid_source_name
    fail_if (is_managed (get_source_type req) && not (is_empty (managed_sources c.sources)))
        managed_source_limit_reached
    ok (record c { sources = (name, row_of by_api req) ∷ c.sources })

  unfoldable pub validate_source_type_change : SourceType → SourceType → Check CatalogError
  validate_source_type_change existing new =
      fail_if (not (source_type_eq existing unset) && not (source_type_eq existing new))
        source_type_change

  -- `validateFileSourceTypeChange`, of a new file source.
  unfoldable pub validate_file_source_type_change :
      SourceRow json.Bytes → SourceCreateRequest → Check CatalogError
  unfolding subtype_eq
  validate_file_source_type_change existing req =
      if source_type_eq existing.source_type file && source_type_eq (get_source_type req) file
      then fail_if (not (subtype_eq existing.subtype (get_file_source_subtype req.file)))
          subtype_change
      else ok tt

  -- The update of a source that is there; the one of a missing row ends in an error.
  update_found :
      String
      → SourceCreateRequest
      → Catalog json.Bytes
      → Option (SourceRow json.Bytes)
      → Outcome CatalogError (Catalog json.Bytes)
  unfolding gate_visible gate_subset
  update_found name req c none = do
    gate_visible json.nil_bytes
    gate_subset req.claims
    err source_not_found
  update_found name req c (some existing) = do
    fail_if (is_config existing.creation) config_source
    gate_visible existing.claims
    gate_subset req.claims
    validate_source_type_change existing.source_type (get_source_type req)
    validate_file_source_type_change existing req
    ok (record c { sources = replace name (row_of existing.creation req) c.sources })

  unfoldable pub update_source :
      String → SourceCreateRequest → Catalog json.Bytes → Outcome CatalogError (Catalog json.Bytes)
  unfolding update_found
  update_source name req c = do
    wrap_err invalid_source_config (validate_source_request host is_valid_data req)
    update_found name req c (lookup name c.sources)

  -- `CountRegistriesBySourceID` is not zero.
  unfoldable pub is_linked : String → Dict (RegistryRow json.Bytes) → Bool
  is_linked name registries = any (λ row. contains name row.1.links) registries

  unfoldable pub delete_source :
      String → Catalog json.Bytes → Outcome CatalogError (Catalog json.Bytes)
  unfolding present_or gate_visible
  delete_source name c = do
    existing ← present_or (lookup name c.sources) source_not_found
    fail_if (is_config existing.creation) config_source
    gate_visible existing.claims
    fail_if (is_linked name c.registries) source_in_use
    ok (record c { sources = remove name c.sources })

  -- `resolveSourceIDsWithGate`, of which the ids stand for the names.
  unfoldable pub resolve_sources : List String → Dict (SourceRow json.Bytes) → Check CatalogError
  unfolding present_or gate_visible
  resolve_sources [] sources = ok tt
  resolve_sources (name ∷ names) sources = do
    src ← present_or (lookup name sources) source_not_found
    gate_visible src.claims
    resolve_sources names sources

  unfoldable pub create_registry :
      String
      → RegistryCreateRequest
      → Catalog json.Bytes
      → Outcome CatalogError (Catalog json.Bytes)
  unfolding absent gate_subset
  create_registry name req c = do
    wrap_err invalid_registry_config (validate_registry_config req)
    absent (lookup name c.registries) registry_already_exists
    gate_subset req.claims
    resolve_sources req.sources c.sources
    ok (record c {
      registries =
          (
            name,
            record {
              creation = by_api;
              claims = serialize_claims json req.claims;
              links = req.sources;
            },
          )
          ∷ c.registries;
    })

  unfoldable pub get_existing_api_registry :
      String → Dict (RegistryRow json.Bytes) → Outcome CatalogError (RegistryRow json.Bytes)
  unfolding present_or
  get_existing_api_registry name registries = do
    existing ← present_or (lookup name registries) registry_not_found
    fail_if (is_config existing.creation) config_registry
    ok existing

  unfoldable pub update_registry :
      String
      → RegistryCreateRequest
      → Catalog json.Bytes
      → Outcome CatalogError (Catalog json.Bytes)
  unfolding gate_visible gate_subset
  update_registry name req c = do
    wrap_err invalid_registry_config (validate_registry_config req)
    existing ← get_existing_api_registry name c.registries
    gate_visible existing.claims
    gate_subset req.claims
    resolve_sources req.sources c.sources
    ok (record c {
      registries =
          replace name
            (record existing { claims = serialize_claims json req.claims; links = req.sources })
            c.registries;
    })

  unfoldable pub delete_registry :
      String → Catalog json.Bytes → Outcome CatalogError (Catalog json.Bytes)
  unfolding gate_visible
  delete_registry name c = do
    existing ← get_existing_api_registry name c.registries
    gate_visible existing.claims
    ok (record c { registries = remove name c.registries })
