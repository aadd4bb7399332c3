-- ===== src/Entries/Access.antt =====
-- Who may change the entries of the managed source: the publishing and deleting of versions with
-- their gates (internal/service/db/impl_mcp.go, impl_skills.go, impl_plugins.go), and the claims of
-- an entry (impl_entries.go). A transaction that fails leaves the tables as they were.
pub mod Rules
pub mod Calls
pub mod Gates
pub mod Updates
use toolhive_registry_server.Prelude.{
  ℕ, ltb, String, Bool, true, false, not, ◌||◌, Option, none, some, List, [], ◌∷◌, Outcome, ok, err,
  Check, ◌>>=◌, ◌>>◌, wrap_err, fail_if, blank, is_some, is_empty, is_ok, ◌==◌, if◌then◌else◌,
}
use toolhive_registry_server.Value.{ClaimMap}
use toolhive_registry_server.Auth.{Ctx}
use toolhive_registry_server.Claims.Json.{
  Json, ClaimValueError, entries_of, serialize_claims, deserialize_claims, validate_claim_values,
}
use toolhive_registry_server.Claims.Gate.{GateError, validate_claims_subset}
use toolhive_registry_server.Claims.Stored.{validate_claims_visible_bytes}
use toolhive_registry_server.Names.{NameHost, is_valid_server_name}
use toolhive_registry_server.Versions.{Semver}
use toolhive_registry_server.Entries.{
  EntryType, mcp, skill, plugin, Entry, Store, Ordering, EntryError, set_claims, insert_version,
  delete_version,
}

-- The errors of the operations, but for those of the database itself.
pub data AccessError : Type 0 where
  invalid_server_name fields_required : AccessError
  serialize_failed metadata_failed details_failed : AccessError
  no_managed_source several_managed_sources : AccessError
  invalid_entry_type : String → AccessError
  invalid_claims : ClaimValueError → AccessError
  insufficient : GateError → AccessError
  refused : EntryError → AccessError
  entry_not_found : AccessError

-- `dbService`
pub record Service : Type 0 where
  pub skip_authz : Bool
  pub max_meta_size : ℕ

-- The claims that the gates see: none if authorization is off.
unfoldable pub gate_claims : Service → Option ClaimMap → Option ClaimMap
gate_claims svc jwt_claims = if svc.skip_authz then none else jwt_claims

-- `service.EntryTypeServer`, `EntryTypeSkill`, `EntryTypePlugin`
unfoldable pub map_entry_type : String → Outcome AccessError EntryType
map_entry_type entry_type =
    if entry_type == "server"
    then ok mcp
    else if entry_type == "skill"
    then ok skill
    else if entry_type == "plugin"
    then ok plugin
    else err (invalid_entry_type entry_type)

-- The values of claims that are not nil.
validate_values : Option ClaimMap → Check AccessError
validate_values none = ok tt
validate_values (some claims) = wrap_err invalid_claims (validate_claim_values claims)

module _ (json : Json) where
  -- A row of `GetManagedSources`.
  pub record Source : Type 0 where
    pub name : String
    pub claims : json.Bytes

  -- What the operations read and write.
  pub record Db : Type 0 where
    pub managed : List Source
    pub store : Store json.Bytes

  -- What is published. `details` says whether the fields of the type's own tables can be written.
  pub record Publish : Type 0 where
    pub namespace : String
    pub name : String
    pub version : String
    pub claims : Option ClaimMap
    pub jwt_claims : Option ClaimMap
    pub publisher_provided : Option ClaimMap
    pub details : Bool

  unfoldable pub get_managed_source : List Source → Outcome AccessError Source
  get_managed_source [] = err no_managed_source
  get_managed_source (row ∷ []) = ok row
  get_managed_source (row ∷ row' ∷ rows) = err several_managed_sources

  -- `json.Marshal` of claims that are not nil.
  pub marshal_published : Option ClaimMap → Outcome AccessError json.Bytes
  marshal_published none = ok json.nil_bytes
  marshal_published (some claims) = elim (json.marshal claims) [
    | none ↦ err serialize_failed
    | some data' ↦ ok data'
  ]

  -- `SerializeServerMeta`, of which only the errors matter here.
  serialize_server_meta : Option ClaimMap → ℕ → Check AccessError
  serialize_server_meta meta max_size =
      if is_empty (entries_of meta) then ok tt else elim (json.marshal (entries_of meta)) [
        | none ↦ err metadata_failed
        | some data' ↦ fail_if (ltb max_size (json.len data')) metadata_failed
      ]

  -- `skill.Namespace == "" || skill.Name == "" || skill.Version == ""`
  lacks_field : Publish → Bool
  lacks_field p = blank p.namespace || blank p.name || blank p.version

  module _ (semver : Semver) (svc : Service) (ctx : Ctx) where
    -- The insertions of a publish transaction.
    insert_all : EntryType → Publish → json.Bytes → Db → Outcome AccessError Db
    insert_all ty p claims db = do
      store' ← wrap_err refused (insert_version semver json ty p.name p.version claims db.store)
      fail_if (not p.details) details_failed
      ok (record db { store = store' })

    -- A publish into the managed source; `prepare` comes before the insertions.
    publish_into :
        EntryType → Check AccessError → Publish → json.Bytes → Db → Source → Outcome AccessError Db
    unfolding insert_all
    publish_into ty prepare p claims db source = do
      wrap_err insufficient
          (validate_claims_visible_bytes json ctx (gate_claims svc p.jwt_claims) source.claims)
      prepare
      insert_all ty p claims db

    publish_transaction :
        EntryType → Check AccessError → Publish → json.Bytes → Db → Outcome AccessError Db
    unfolding publish_into
    publish_transaction ty prepare p claims db =
        get_managed_source db.managed >>= publish_into ty prepare p claims db

    unfoldable pub execute_publish_transaction : Publish → json.Bytes → Db → Outcome AccessError Db
    unfolding publish_transaction serialize_server_meta
    execute_publish_transaction p =
        publish_transaction mcp (serialize_server_meta p.publisher_provided svc.max_meta_size) p

    unfoldable pub execute_publish_skill_transaction :
        Publish → json.Bytes → Db → Outcome AccessError Db
    unfolding publish_transaction
    execute_publish_skill_transaction = publish_transaction skill (ok tt)

    unfoldable pub execute_publish_plugin_transaction :
        Publish → json.Bytes → Db → Outcome AccessError Db
    unfolding publish_transaction
    execute_publish_plugin_transaction = publish_transaction plugin (ok tt)

    -- The part that the three publishes share: the write-path gate and the claims as JSON.
    publish_checked :
        Publish → (json.Bytes → Db → Outcome AccessError Db) → Db → Outcome AccessError Db
    publish_checked p transaction db = do
      wrap_err insufficient (validate_claims_subset ctx (gate_claims svc p.jwt_claims) p.claims)
      claims ← marshal_published p.claims
      transaction claims db

    unfoldable pub publish_server_version : NameHost → Publish → Db → Outcome AccessError Db
    unfolding publish_checked marshal_published
    publish_server_version host p db = do
      fail_if (not (is_valid_server_name host p.name)) invalid_server_name
      publish_checked p (execute_publish_transaction p) db

    unfoldable pub publish_skill : Publish → Db → Outcome AccessError Db
    unfolding publish_checked marshal_published lacks_field
    publish_skill p db = do
      fail_if (lacks_field p) fields_required
      publish_checked p (execute_publish_skill_transaction p) db

    unfoldable pub publish_plugin : Publish → Db → Outcome AccessError Db
    unfolding publish_checked marshal_published lacks_field
    publish_plugin p db = do
      fail_if (lacks_field p) fields_required
      publish_checked p (execute_publish_plugin_transaction p) db

    -- The entry at the key, or the error for none.
    pub find_entry : EntryType → String → Db → Outcome AccessError (Entry json.Bytes)
    find_entry ty name db = elim (db.store.entries ty name) [
      | none ↦ err entry_not_found
      | some e ↦ ok e
    ]

    -- The gate of a delete: only a caller with claims is checked.
    gate_delete : Option ClaimMap → EntryType → String → Db → Check AccessError
    unfolding find_entry
    gate_delete none ty name db = ok tt
    gate_delete (some jwt_claims) ty name db = do
      existing ← find_entry ty name db
      wrap_err insufficient (
          validate_claims_visible_bytes json ctx (gate_claims svc (some jwt_claims))
            existing.claims)

    -- The deletion of a version, after the gate.
    delete_gated :
        Ordering → EntryType → String → String → Option ClaimMap → Db → Outcome AccessError Db
    unfolding gate_delete
    delete_gated ordering ty name version jwt_claims db = do
      source ← get_managed_source db.managed
      gate_delete jwt_claims ty name db
      store' ← wrap_err refused (delete_version semver ordering ty name version db.store)
      ok (record db { store = store' })

    unfoldable pub execute_delete_transaction :
        Ordering → String → String → Option ClaimMap → Db → Outcome AccessError Db
    unfolding delete_gated
    execute_delete_transaction ordering = delete_gated ordering mcp

    unfoldable pub execute_delete_skill_transaction :
        Ordering → String → String → Option ClaimMap → Db → Outcome AccessError Db
    unfolding delete_gated
    execute_delete_skill_transaction ordering = delete_gated ordering skill

    unfoldable pub execute_delete_plugin_transaction :
        Ordering → String → String → Option ClaimMap → Db → Outcome AccessError Db
    unfolding delete_gated
    execute_delete_plugin_transaction ordering = delete_gated ordering plugin

    -- The entry of the managed source, if the caller may see it.
    pub find_visible :
        EntryType → String → Option ClaimMap → Db → Outcome AccessError (Entry json.Bytes)
    unfolding find_entry
    find_visible ty name jwt_claims db = do
      source ← get_managed_source db.managed
      existing ← find_entry ty name db
      wrap_err insufficient
          (validate_claims_visible_bytes json ctx (gate_claims svc jwt_claims) existing.claims)
      ok existing

    unfoldable pub execute_update_claims_transaction :
        EntryType → String → Option ClaimMap → Option ClaimMap → Db → Outcome AccessError Db
    unfolding find_visible
    execute_update_claims_transaction ty name claims jwt_claims db = do
      existing ← find_visible ty name jwt_claims db
      ok (record db { store = set_claims ty name (serialize_claims json claims) existing db.store })

    unfoldable pub update_entry_claims :
        String → String → Option ClaimMap → Option ClaimMap → Db → Outcome AccessError Db
    unfolding validate_values
    update_entry_claims entry_type name claims jwt_claims db = do
      ty ← map_entry_type entry_type
      validate_values claims
      wrap_err insufficient (validate_claims_subset ctx (gate_claims svc jwt_claims) claims)
      execute_update_claims_transaction ty name claims jwt_claims db

    unfoldable pub get_entry_claims :
        String → String → Option ClaimMap → Db → Outcome AccessError ClaimMap
    unfolding find_visible
    get_entry_claims entry_type name jwt_claims db = do
      ty ← map_entry_type entry_type
      row ← find_visible ty name jwt_claims db
      ok (entries_of (deserialize_claims json row.claims))
