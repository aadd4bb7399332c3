-- ===== src/Entries/Access/Gates.antt =====
-- What a call that deletes a version was allowed by, and what it does to the tables.
use toolhive_registry_server.Prelude.{
  ◌≡◌, refl, sym, inl, inr, ◌↔◌, String, true, false, ◌&&◌, Option, none, some, [], ◌∷◌, Memᴰ, ok,
  ◌>>=◌, ◌==◌, eq_iff, Bool-cases, arith,
}
use toolhive_registry_server.Value.{ClaimMap}
use toolhive_registry_server.Auth.{Ctx}
use toolhive_registry_server.Claims.Json.{Json, deserialize_claims}
use toolhive_registry_server.Claims.Rules.{Admits}
use toolhive_registry_server.Claims.Gate.{MayPass}
use toolhive_registry_server.Versions.{Semver, Row}
use toolhive_registry_server.Entries.{
  EntryType, mcp, skill, plugin, type_eq, Entry, Ordering, set_entry,
}
use toolhive_registry_server.Entries.Invariant.{type_eq_eq}
use toolhive_registry_server.Entries.Access.{
  Service, gate_claims, Source, Db, execute_delete_transaction, execute_delete_skill_transaction,
  execute_delete_plugin_transaction,
}

-- The key of another entry.
abbrev pub IsOther : EntryType → String → EntryType → String → Type 0
IsOther ty name ty' name' = ¬ ((ty' ≡ ty) × (name' ≡ name))

module _ {B : Type 0} where
  pub set_entry-kept :
      (ty ty' : EntryType) (name name' : String) (o : Option (Entry B))
      (entries : EntryType → String → Option (Entry B))
      → IsOther ty name ty' name'
      → set_entry ty name o entries ty' name' ≡ entries ty' name'
  unfolding set_entry
  set_entry-kept ty ty' name name' o entries other =
      elim (Bool-cases (type_eq ty ty' && (name == name'))) [
        | inl e ↦ absurd (
            other
              (sym (type_eq_eq ty ty' (ground arith)), sym ((eq_iff name name').0 (ground arith))))
        | inr e ↦ rw e refl
      ]

module _ (json : Json) (semver : Semver) (svc : Service) (ctx : Ctx) where
  -- There is one managed source, and the entry is there, with claims that admit the caller's.
  pub record Seen (ty : EntryType) (name : String) (jwt_claims : Option ClaimMap) (db : Db json)
      (e : Entry json.Bytes) : Type 0 where
    pub source : Source json
    pub one_source : db.managed ≡ source ∷ []
    pub there : db.store.entries ty name ≡ some e
    pub admitted :
        MayPass Admits ctx (gate_claims svc jwt_claims) (deserialize_claims json e.claims)

  -- The caller sees the entry, which has the version. Of its versions those of that number are
  -- gone, and the others are kept with the entry's claims; the entry goes with its last version.
  -- Other entries and the sources stay.
  pub record DeletePermitted (ty : EntryType) (name version : String) (jwt_claims : Option ClaimMap)
      (db db' : Db json) : Type 0 where
    pub entry : Entry json.Bytes
    pub seen : Seen ty name jwt_claims db entry
    pub row : Row
    pub has_row : Memᴰ row entry.versions × (row.version ≡ version)
    pub left :
        (f : Entry json.Bytes)
        → db'.store.entries ty name ≡ some f
        → (f.claims ≡ entry.claims)
          × ((r : Row)
              → Memᴰ r f.versions ↔ (Memᴰ r entry.versions × ((r.version == version) ≡ false)))
    pub gone :
        db'.store.entries ty name ≡ none
        → (r : Row) → Memᴰ r entry.versions
        → (r.version == version) ≡ true
    pub others :
        (ty' : EntryType) (name' : String)
        → IsOther ty name ty' name'
        → db'.store.entries ty' name' ≡ db.store.entries ty' name'
    pub same_sources : db'.managed ≡ db.managed

  -- A call of the service that deletes a version and does not fail.
  pub data Deleted (ordering : Ordering) (name version : String) (jwt_claims : Option ClaimMap)
      (db db' : Db json) : EntryType → Type 0 where
    server :
        execute_delete_transaction json semver svc ctx ordering name version jwt_claims db ≡ ok db'
        → Deleted ordering name version jwt_claims db db' mcp
    skill_call :
        execute_delete_skill_transaction json semver svc ctx ordering name version jwt_claims db
          ≡ ok db'
        → Deleted ordering name version jwt_claims db db' skill
    plugin_call :
        execute_delete_plugin_transaction json semver svc ctx ordering name version jwt_claims db
          ≡ ok db'
        → Deleted ordering name version jwt_claims db db' plugin
