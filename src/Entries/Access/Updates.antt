-- ===== src/Entries/Access/Updates.antt =====
-- What a call that changes the claims of an entry was allowed by, and what it does to the tables.
use toolhive_registry_server.Prelude.{◌≡◌, refl, String, Option, some, ok}
use toolhive_registry_server.Value.{ClaimMap}
use toolhive_registry_server.Auth.{Ctx}
use toolhive_registry_server.Claims.Json.{Json, serialize_claims}
use toolhive_registry_server.Claims.Rules.{Covers}
use toolhive_registry_server.Claims.Gate.{MayPass}
use toolhive_registry_server.Versions.{Semver}
use toolhive_registry_server.Entries.{EntryType, Entry, Store, set_claims}
use toolhive_registry_server.Entries.Invariant.{set_claims-there}
use toolhive_registry_server.Entries.Access.{
  Service, gate_claims, Db, map_entry_type, update_entry_claims,
}
use toolhive_registry_server.Entries.Access.Calls.{find_visible-there, update_entry_claims-there}
use toolhive_registry_server.Entries.Access.Gates.{IsOther, Seen, set_entry-kept}

module _ (json : Json) (semver : Semver) (svc : Service) (ctx : Ctx) where
  -- The caller sees the entry and covers the claims that it gets. The entry has them, written, and
  -- its versions; other entries, the pointers and the sources stay.
  pub record UpdatePermitted (entry_type name : String) (claims jwt_claims : Option ClaimMap)
      (db db' : Db json) : Type 0 where
    pub ty : EntryType
    pub named : map_entry_type entry_type ≡ ok ty
    pub entry : Entry json.Bytes
    pub seen : Seen json semver svc ctx ty name jwt_claims db entry
    pub covered : MayPass Covers ctx (gate_claims svc jwt_claims) claims
    pub relabelled :
        db'.store.entries ty name
        ≡ some (record { claims = serialize_claims json claims; versions = entry.versions })
    pub others :
        (ty' : EntryType) (name' : String)
        → IsOther ty name ty' name'
        → db'.store.entries ty' name' ≡ db.store.entries ty' name'
    pub same_latest : db'.store.latest ≡ db.store.latest
    pub same_sources : db'.managed ≡ db.managed

  set_claims-kept :
      (ty ty' : EntryType) (name name' : String) (claims : json.Bytes) (e : Entry json.Bytes)
      (s : Store json.Bytes)
      → IsOther ty name ty' name'
      → (set_claims ty name claims e s).entries ty' name' ≡ s.entries ty' name'
  unfolding set_claims
  set_claims-kept ty ty' name name' claims e s other =
      set_entry-kept ty ty' name name' _ s.entries other

  set_claims-latest :
      (ty : EntryType) (name : String) (claims : json.Bytes) (e : Entry json.Bytes)
      (s : Store json.Bytes)
      → (set_claims ty name claims e s).latest ≡ s.latest
  unfolding set_claims
  set_claims-latest ty name claims e s = refl

  -- An update of claims that does not fail: there is one managed source, the entry is there, its
  -- claims admit the caller's, and the caller's cover the new ones. The entry then has the new
  -- claims, serialized, and its versions as before. Entries under other keys, the pointers to the
  -- latest versions and the sources stay as they were.
  pub update_entry_claims-Permitted :
      (entry_type name : String) (claims jwt_claims : Option ClaimMap) (db db' : Db json)
      → update_entry_claims json semver svc ctx entry_type name claims jwt_claims db ≡ ok db'
      → UpdatePermitted entry_type name claims jwt_claims db db'
  update_entry_claims-Permitted entry_type name claims jwt_claims db db' h =
      let (ty, mapped, e, found, covers, same) =
        update_entry_claims-there json semver svc ctx entry_type name claims jwt_claims db db' h in
      let (source, one, there, admits) =
        find_visible-there json semver svc ctx ty name jwt_claims db e found in
      let bytes = serialize_claims json claims in
      rw same (record {
        ty = ty;
        named = mapped;
        entry = e;
        seen = record { source = source; one_source = one; there = there; admitted = admits };
        covered = covers;
        relabelled = set_claims-there semver ty name bytes e db.store;
        others = λ ty' name' other. set_claims-kept ty ty' name name' bytes e db.store other;
        same_latest = set_claims-latest ty name bytes e db.store;
        same_sources = refl;
      })
