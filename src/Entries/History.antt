-- ===== src/Entries/History.antt =====
-- The tables after any sequence of publishes and deletes.
use toolhive_registry_server.Prelude.{
  ◌≡◌, refl, inl, inr, String, true, Option, none, some, ok, err, any, ◌==◌, Bool-cases,
}
use toolhive_registry_server.Claims.Json.{Json}
use toolhive_registry_server.Versions.{Semver}
use toolhive_registry_server.Versions.Order.{IsSemver}
use toolhive_registry_server.Entries.{
  EntryType, Entry, Store, Ordering, not_found, insert_version, delete_found, delete_version,
  remove_version, set_claims,
}
use toolhive_registry_server.Entries.Invariant.{Inv}
use toolhive_registry_server.Entries.Inserting.{get_or_create-ok, insert_version-ok}
use toolhive_registry_server.Entries.Adding.{add_version-Inv}
use toolhive_registry_server.Entries.Removing.{remove_version-Inv}
use toolhive_registry_server.Entries.Relabelling.{set_claims-Inv}

-- The tables of a new database.
abbrev pub empty_store : (B : Type 0) → Store B
empty_store B = record { entries = λ _ _. none; latest = λ _. none; next_id = 0 }

empty_store-Inv : (semver : Semver) (B : Type 0) → Inv semver (empty_store B)
empty_store-Inv semver B = record {
  one_type = λ t t' n e e' h. absurd (cc);
  semver_only = λ t n e h. absurd (cc);
  pointed = λ t n e h. absurd (cc);
  no_stray = λ n v h. absurd (cc);
  old_ids = λ t n e v h. absurd (cc);
  distinct_ids = λ t t' n n' e e' v v' h. absurd (cc);
}

module _ (json : Json) (semver : Semver) (ordering : Ordering) where
  -- No entry of another type has the name.
  abbrev pub OwnName : EntryType → String → Store json.Bytes → Type 0
  OwnName ty name s = (t : EntryType) (e : Entry json.Bytes) → s.entries t name ≡ some e → t ≡ ty

  -- A publish of a version that parses, under a name that no entry of another type has, a delete,
  -- neither of which failed, or new claims of an entry.
  pub data Step : Store json.Bytes → Store json.Bytes → Type 0 where
    publish :
        (ty : EntryType) (name version : String) (claims : json.Bytes) {s s' : Store json.Bytes}
        → IsSemver semver version
        → OwnName ty name s
        → insert_version semver json ty name version claims s ≡ ok s'
        → Step s s'
    delete :
        (ty : EntryType) (name version : String) {s s' : Store json.Bytes}
        → delete_version semver ordering ty name version s ≡ ok s'
        → Step s s'
    relabel :
        (ty : EntryType) (name : String) (claims : json.Bytes) (e : Entry json.Bytes)
        {s s' : Store json.Bytes}
        → s.entries ty name ≡ some e
        → s' ≡ set_claims ty name claims e s
        → Step s s'

  pub data Reachable : Store json.Bytes → Type 0 where
    start : Reachable (empty_store json.Bytes)
    next : {s s' : Store json.Bytes} → Reachable s → Step s s' → Reachable s'

  delete_found-ok :
      (ty : EntryType) (name version : String) (o : Option (Entry json.Bytes))
      (s s' : Store json.Bytes)
      → delete_found semver ordering ty name version o s ≡ ok s'
      → (e : Entry json.Bytes) × (o ≡ some e)
        × (any (λ row. row.version == version) e.versions ≡ true)
        × (s' ≡ remove_version semver ordering ty name version e s)
  unfolding delete_found
  delete_found-ok ty name version none s s' h = absurd (let k : err not_found ≡ ok s' = h in cc)
  delete_found-ok ty name version (some e) s s' h =
      elim (Bool-cases (any (λ row. row.version == version) e.versions)) [
        | inl there ↦
            let k : ok (remove_version semver ordering ty name version e s) ≡ ok s' =
              rw there at h in
            (e, refl, there, cc)
        | inr missing ↦ absurd (let k : err not_found ≡ ok s' = rw missing at h in cc)
      ]

  pub delete_version-ok :
      (ty : EntryType) (name version : String) (s s' : Store json.Bytes)
      → delete_version semver ordering ty name version s ≡ ok s'
      → (e : Entry json.Bytes) × (s.entries ty name ≡ some e)
        × (any (λ row. row.version == version) e.versions ≡ true)
        × (s' ≡ remove_version semver ordering ty name version e s)
  unfolding delete_version
  delete_version-ok ty name version s s' h =
      delete_found-ok ty name version (s.entries ty name) s s' h

  Step-Inv : {s s' : Store json.Bytes} → Step s s' → Inv semver s → Inv semver s'
  Step-Inv {s} {s'} (publish ty name version claims parses own h) inv =
      let (e, got, _, same) = insert_version-ok json semver ty name version claims s s' h in
      rw same (
        add_version-Inv semver s ty name version e inv (record {
          found = get_or_create-ok json semver (s.entries ty name) claims e got;
          own_name = own;
          parses = parses;
        }))
  Step-Inv {s} {s'} (delete ty name version h) inv =
      let (e, there, _, same) = delete_version-ok ty name version s s' h in
      rw same (remove_version-Inv semver ordering s ty name version e inv there)
  Step-Inv {s} {s'} (relabel ty name claims e there same) inv =
      rw same (set_claims-Inv semver s ty name claims e inv there)

  -- Whatever versions that parse are published, each under a name that no entry of another type
  -- has, and whatever is deleted or gets other claims, from empty tables on: each entry keeps
  -- versions, and the pointer of its name is one of them that no other one is newer than; a name
  -- without an entry has no pointer, and no two versions share an id. The code checks neither
  -- condition on what is published.
  pub Reachable-Inv : {s : Store json.Bytes} → Reachable s → Inv semver s
  Reachable-Inv start = empty_store-Inv semver json.Bytes
  Reachable-Inv (next r step) = Step-Inv step (Reachable-Inv r)
