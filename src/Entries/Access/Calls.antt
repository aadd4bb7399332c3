-- ===== src/Entries/Access/Calls.antt =====
-- What an update of an entry's claims does, and what is read back.
use toolhive_registry_server.Prelude.{
  inl, inr, is_empty, beq, arith, lookup, ◌≡◌, refl, String, false, Option, none, some, [], ◌∷◌,
  Outcome, ok, err, ◌>>=◌, ◌>>◌, >>=-eq-ok, >>-eq-ok, wrap_err, wrap_err-eq-ok, Option-cases,
  Bool-cases, if◌then◌else◌,
}
use toolhive_registry_server.Value.{ClaimMap}
use toolhive_registry_server.Auth.{Ctx}
use toolhive_registry_server.Claims.Json.{
  Json, Decodes, entries_of, serialize_claims, deserialize_claims,
}
use toolhive_registry_server.Claims.Rules.{Covers, Admits}
use toolhive_registry_server.Claims.Gate.{
  MayPass, validate_claims_subset, validate_claims_subset_iff,
}
use toolhive_registry_server.Claims.Stored.{validate_claims_visible_bytes}
use toolhive_registry_server.Versions.{Semver}
use toolhive_registry_server.Entries.{EntryType, Entry, set_claims}
use toolhive_registry_server.Entries.Invariant.{set_claims-there}
use toolhive_registry_server.Entries.Access.{
  AccessError, entry_not_found, insufficient, Service, gate_claims, Source, Db, get_managed_source,
  find_entry, map_entry_type, validate_values, find_visible, execute_update_claims_transaction,
  update_entry_claims, get_entry_claims,
}
use toolhive_registry_server.Entries.Access.Rules.{get_managed_source-only, visible_bytes-MayPass}

module _ (json : Json) where
  -- Claims that marshal, written and read.
  serialized-Decodes :
      (claims : Option ClaimMap) (b : json.Bytes)
      → json.marshal (entries_of claims) ≡ some b
      → Decodes
          (entries_of claims)
          (entries_of (deserialize_claims json (serialize_claims json claims)))
  unfolding serialize_claims deserialize_claims lookup
  serialized-Decodes claims b made = by_entries (entries_of claims) made
    where
      by_entries :
          (m : ClaimMap)
          → json.marshal m ≡ some b
          → Decodes m (
              entries_of (
                deserialize_claims json (
                  if is_empty m
                  then json.nil_bytes
                  else elim (json.marshal m) [ none ↦ json.nil_bytes | some b ↦ b ])))
      by_entries [] made = rw json.len_nil (record {
        at_key = λ k. refl;
        entries = λ k v. (λ m. elim m [ ], λ (_, m, _). elim m [ ]);
      })
      by_entries (x ∷ xs) made =
          let (m', read, d) = json.unmarshal-marshal (x ∷ xs) b made in
          let full : beq (json.len b) 0 ≡ false =
            (let above = json.len_marshal (x ∷ xs) b made in ground arith) in
          rw made (rw full (rw read d))

  module _ (semver : Semver) (svc : Service) (ctx : Ctx) where
    pub find_entry-there :
        (ty : EntryType) (name : String) (db : Db json) (e : Entry json.Bytes)
        → find_entry json semver svc ctx ty name db ≡ ok e
        → db.store.entries ty name ≡ some e
    unfolding find_entry
    find_entry-there ty name db e h = elim (Option-cases (db.store.entries ty name)) [
      | inl missing ↦
          absurd (let k : err entry_not_found ≡ ok e = rw (missing, find_entry) at h in cc)
      | inr (f, there) ↦ let k : ok f ≡ ok e = rw (there, find_entry) at h in cc
    ]

    pub find_visible-there :
        (ty : EntryType) (name : String) (jwt_claims : Option ClaimMap) (db : Db json)
        (e : Entry json.Bytes)
        → find_visible json semver svc ctx ty name jwt_claims db ≡ ok e
        → (source : Source json) × (db.managed ≡ source ∷ [])
          × (db.store.entries ty name ≡ some e)
          × MayPass Admits ctx (gate_claims svc jwt_claims) (deserialize_claims json e.claims)
    unfolding find_visible
    find_visible-there ty name jwt_claims db e h =
        let gate = gate_claims svc jwt_claims in
        let (source, got, k) =
          >>=-eq-ok (get_managed_source json db.managed)
            (λ _. find_entry json semver svc ctx ty name db >>= see) h in
        let (e', there, k1) = >>=-eq-ok (find_entry json semver svc ctx ty name db) see k in
        let (sees, k2) =
          >>-eq-ok (wrap_err insufficient (validate_claims_visible_bytes json ctx gate e'.claims))
            (ok e') k1 in
        let same : e' ≡ e = cc in
        (
          source,
          get_managed_source-only json db.managed source got,
          rw (← same) (find_entry-there ty name db e' there),
          rw (← same) (
              visible_bytes-MayPass json ctx gate e'.claims (
                wrap_err-eq-ok insufficient (validate_claims_visible_bytes json ctx gate e'.claims)
                  sees)),
        )
      where
        see : Entry json.Bytes → Outcome AccessError (Entry json.Bytes)
        see existing =
            wrap_err insufficient
              (validate_claims_visible_bytes json ctx (gate_claims svc jwt_claims) existing.claims)
            >> ok existing

    pub update_entry_claims-there :
        (entry_type name : String) (claims jwt_claims : Option ClaimMap) (db db' : Db json)
        → update_entry_claims json semver svc ctx entry_type name claims jwt_claims db ≡ ok db'
        → (ty : EntryType) × (map_entry_type entry_type ≡ ok ty)
          × (e : Entry json.Bytes) × (find_visible json semver svc ctx ty name jwt_claims db ≡ ok e)
          × (MayPass Covers ctx (gate_claims svc jwt_claims) claims)
          × (db'
              ≡ record db { store = set_claims ty name (serialize_claims json claims) e db.store })
    unfolding update_entry_claims execute_update_claims_transaction
    update_entry_claims-there entry_type name claims jwt_claims db db' h =
        let gate = gate_claims svc jwt_claims in
        let (ty, mapped, k) =
          >>=-eq-ok (map_entry_type entry_type)
            (λ ty.
              validate_values claims
              >> (wrap_err insufficient (validate_claims_subset ctx gate claims)
                  >> execute_update_claims_transaction json semver svc ctx ty name claims jwt_claims
                      db))
            h in
        let (_, k1) =
          >>-eq-ok (validate_values claims)
            (wrap_err insufficient (validate_claims_subset ctx gate claims)
              >> execute_update_claims_transaction json semver svc ctx ty name claims jwt_claims db)
            k in
        let (covers, k2) =
          >>-eq-ok (wrap_err insufficient (validate_claims_subset ctx gate claims))
            (execute_update_claims_transaction json semver svc ctx ty name claims jwt_claims db)
            k1 in
        let (e, found, k3) =
          >>=-eq-ok (find_visible json semver svc ctx ty name jwt_claims db)
            (λ e.
              ok (record db {
                store = set_claims ty name (serialize_claims json claims) e db.store;
              }))
            k2 in
        (
          ty,
          mapped,
          e,
          found,
          (validate_claims_subset_iff ctx gate claims).0
              (wrap_err-eq-ok insufficient (validate_claims_subset ctx gate claims) covers),
          cc,
        )

    pub gate_claims-none : gate_claims svc none ≡ none
    unfolding gate_claims
    gate_claims-none = elim (Bool-cases svc.skip_authz) [ inl e ↦ rw e refl | inr e ↦ rw e refl ]

    -- A caller without claims reads the claims of an entry that is there.
    get_entry_claims-at :
        (entry_type : String) (ty : EntryType) (name : String) (db : Db json) (source : Source json)
        (e : Entry json.Bytes)
        → map_entry_type entry_type ≡ ok ty
        → db.managed ≡ source ∷ []
        → db.store.entries ty name ≡ some e
        → get_entry_claims json semver svc ctx entry_type name none db
          ≡ ok (entries_of (deserialize_claims json e.claims))
    unfolding get_entry_claims find_visible find_entry get_managed_source
        validate_claims_visible_bytes
    get_entry_claims-at entry_type ty name db source e mapped one there =
        rw mapped (rw one (rw there (rw gate_claims-none refl)))

    -- Claims that marshal, and that a caller's update was accepted with, are read back: under the
    -- same kind and name, a caller without claims gets them, decoded.
    pub update_entry_claims-read_back :
        (entry_type name : String) (claims jwt_claims : Option ClaimMap) (db db' : Db json)
        (b : json.Bytes)
        → json.marshal (entries_of claims) ≡ some b
        → update_entry_claims json semver svc ctx entry_type name claims jwt_claims db ≡ ok db'
        → (read : ClaimMap) × (get_entry_claims json semver svc ctx entry_type name none db'
            ≡ ok read)
          × Decodes (entries_of claims) read
    update_entry_claims-read_back entry_type name claims jwt_claims db db' b made h =
        let (ty, mapped, e, found, _, same) =
          update_entry_claims-there entry_type name claims jwt_claims db db' h in
        let (source, one, _, _) = find_visible-there ty name jwt_claims db e found in
        let stored = serialize_claims json claims in
        (
          entries_of (deserialize_claims json stored),
          rw same (
              get_entry_claims-at entry_type ty name
                (record db { store = set_claims ty name stored e db.store }) source
                (record e { claims = stored }) mapped one
                (set_claims-there semver ty name stored e db.store)),
          serialized-Decodes claims b made,
        )
