-- ===== src/Entries/Access/Rules.antt =====
-- What a call that publishes was allowed by.
use toolhive_registry_server.Prelude.{
  ◌≡◌, sym, ap, not, Option, none, some, List, [], ◌∷◌, Outcome, ok, Check, ◌>>=◌, ◌>>◌, >>=-eq-ok,
  >>-eq-ok, wrap_err, wrap_err-eq-ok, fail_if,
}
use toolhive_registry_server.Value.{ClaimMap}
use toolhive_registry_server.Auth.{Ctx}
use toolhive_registry_server.Claims.Json.{Json, deserialize_claims}
use toolhive_registry_server.Claims.Rules.{Covers, Admits}
use toolhive_registry_server.Claims.Gate.{
  MayPass, validate_claims_subset, validate_claims_subset_iff, validate_claims_visible_iff,
}
use toolhive_registry_server.Claims.Stored.{validate_claims_visible_bytes}
use toolhive_registry_server.Names.{NameHost}
use toolhive_registry_server.Versions.{Semver}
use toolhive_registry_server.Entries.{EntryType, mcp, skill, plugin, Store, insert_version}
use toolhive_registry_server.Entries.Access.{
  AccessError, insufficient, refused, details_failed, Service, gate_claims, Source, Db, Publish,
  get_managed_source, publish_transaction, publish_into, insert_all, publish_checked,
  marshal_published, publish_server_version, publish_skill, publish_plugin,
  execute_publish_transaction, execute_publish_skill_transaction,
  execute_publish_plugin_transaction,
}

module _ (json : Json) where
  pub get_managed_source-only :
      (rows : List (Source json)) (row : Source json)
      → get_managed_source json rows ≡ ok row
      → rows ≡ row ∷ []
  unfolding get_managed_source
  get_managed_source-only [] row h = absurd (cc)
  get_managed_source-only (r ∷ []) row h = cc
  get_managed_source-only (r ∷ r' ∷ rows) row h = absurd (cc)

  -- A caller that passes the gate on stored claims may pass the read-path rule on them.
  pub visible_bytes-MayPass :
      (ctx : Ctx) (caller : Option ClaimMap) (stored : json.Bytes)
      → validate_claims_visible_bytes json ctx caller stored ≡ ok tt
      → MayPass Admits ctx caller (deserialize_claims json stored)
  unfolding validate_claims_visible_bytes
  visible_bytes-MayPass ctx none stored h = tt
  visible_bytes-MayPass ctx (some caller) stored h =
      (validate_claims_visible_iff ctx (some caller) (deserialize_claims json stored)).0 h

  module _ (semver : Semver) (svc : Service) (ctx : Ctx) where
    -- There is one managed source, whose claims admit the caller's, and the caller's claims cover
    -- those of what is published; the version is inserted with these as bytes, and nothing else
    -- changes.
    pub record Permitted (ty : EntryType) (p : Publish json) (db db' : Db json) : Type 0 where
      pub source : Source json
      pub one_source : db.managed ≡ source ∷ []
      pub admitted :
          MayPass Admits ctx (gate_claims svc p.jwt_claims) (deserialize_claims json source.claims)
      pub covered : MayPass Covers ctx (gate_claims svc p.jwt_claims) p.claims
      pub stored : json.Bytes
      pub as_bytes : marshal_published json p.claims ≡ ok stored
      pub inserted : insert_version semver json ty p.name p.version stored db.store ≡ ok db'.store
      pub same_sources : db'.managed ≡ db.managed

    -- A call of the service that publishes and does not fail.
    pub data Published : EntryType → Publish json → Db json → Db json → Type 0 where
      server :
          (host : NameHost) {p : Publish json} {db db' : Db json}
          → publish_server_version json semver svc ctx host p db ≡ ok db'
          → Published mcp p db db'
      skill_call :
          {p : Publish json} {db db' : Db json}
          → publish_skill json semver svc ctx p db ≡ ok db'
          → Published skill p db db'
      plugin_call :
          {p : Publish json} {db db' : Db json}
          → publish_plugin json semver svc ctx p db ≡ ok db'
          → Published plugin p db db'

    abbrev Transaction : Type 0
    Transaction = Db json → Outcome AccessError (Db json)

    insert_all-ok :
        (ty : EntryType) (p : Publish json) (stored : json.Bytes) (db db' : Db json)
        → insert_all json semver svc ctx ty p stored db ≡ ok db'
        → (store' : Store json.Bytes) × (insert_version semver json ty p.name p.version stored
              db.store
            ≡ ok store')
          × (record db { store = store' } ≡ db')
    unfolding insert_all
    insert_all-ok ty p stored db db' h =
        let inserted = insert_version semver json ty p.name p.version stored db.store in
        let (store', put, k) =
          >>=-eq-ok (wrap_err refused inserted)
            (λ s. (do fail_if (not p.details) details_failed; ok (record db { store = s }))) h in
        let (_, k') =
          >>-eq-ok (fail_if (not p.details) details_failed) (ok (record db { store = store' })) k in
        (store', wrap_err-eq-ok refused inserted put, cc)

    checked-Permitted :
        (ty : EntryType) (prepare : Check AccessError) (p : Publish json) (db db' : Db json)
        → publish_checked json semver svc ctx p
            (publish_transaction json semver svc ctx ty prepare p)
            db
          ≡ ok db'
        → Permitted ty p db db'
    unfolding publish_checked publish_transaction publish_into
    checked-Permitted ty prepare p db db' h =
        let transaction = publish_transaction json semver svc ctx ty prepare p in
        let gate = gate_claims svc p.jwt_claims in
        let (covers, k) =
          >>-eq-ok (wrap_err insufficient (validate_claims_subset ctx gate p.claims))
            (marshal_published json p.claims >>= λ claims. transaction claims db) h in
        let (stored, made, k1) =
          >>=-eq-ok (marshal_published json p.claims) (λ claims. transaction claims db) k in
        let (source, got, k2) =
          >>=-eq-ok (get_managed_source json db.managed)
            (publish_into json semver svc ctx ty prepare p stored db) k1 in
        let (sees, k3) =
          >>-eq-ok
            (wrap_err insufficient (validate_claims_visible_bytes json ctx gate source.claims))
            (prepare >> insert_all json semver svc ctx ty p stored db) k2 in
        let (_, k4) = >>-eq-ok prepare (insert_all json semver svc ctx ty p stored db) k3 in
        let (store', put, same) = insert_all-ok ty p stored db db' k4 in
        record {
          source = source;
          one_source = get_managed_source-only db.managed source got;
          admitted = visible_bytes-MayPass ctx (gate_claims svc p.jwt_claims) source.claims (
              wrap_err-eq-ok insufficient
                (validate_claims_visible_bytes json ctx gate source.claims) sees);
          covered =
              (validate_claims_subset_iff ctx (gate_claims svc p.jwt_claims) p.claims).0
                (wrap_err-eq-ok insufficient (validate_claims_subset ctx gate p.claims) covers);
          stored = stored;
          as_bytes = made;
          inserted = rw (← same) put;
          same_sources = sym (ap (λ d. d.managed) same);
        }

    -- A call that publishes and does not fail was permitted, and inserts what was published.
    pub Published-Permitted :
        (ty : EntryType) (p : Publish json) (db db' : Db json)
        → Published ty p db db'
        → Permitted ty p db db'
    unfolding publish_server_version publish_skill publish_plugin execute_publish_transaction
        execute_publish_skill_transaction execute_publish_plugin_transaction
    Published-Permitted ty p db db' (server host h) =
        let (_, k) = >>-eq-ok _ _ h in checked-Permitted mcp _ p db db' k
    Published-Permitted ty p db db' (skill_call h) =
        let (_, k) = >>-eq-ok _ _ h in checked-Permitted skill (ok tt) p db db' k
    Published-Permitted ty p db db' (plugin_call h) =
        let (_, k) = >>-eq-ok _ _ h in checked-Permitted plugin (ok tt) p db db' k
