-- ===== src/Entries/Inserting.antt =====
-- What an insertion that succeeds does, and the pointer that entries of different types share.
use toolhive_registry_server.Prelude.{
  ◌∷◌, ◌<◌, arith, ◌≡◌, refl, ap, ◌⊎◌, inl, inr, String, false, Option, none, some, [], Memᴰ, ok,
  err, any, ◌==◌, >>=-eq-ok, >>-eq-ok, wrap_err, if◌then◌else◌, Bool-cases,
}
use toolhive_registry_server.Claims.Json.{Json}
use toolhive_registry_server.Claims.Stored.{check_claim_consistency}
use toolhive_registry_server.Versions.{Semver, Row, is_newer_version}
use toolhive_registry_server.Entries.{
  EntryType, Entry, Store, inconsistent, version_already_exists, get_or_create, insert_version,
  should_update_latest, add_version,
}
use toolhive_registry_server.Entries.Invariant.{set_entry-there}
use mathlib.Core.List.Memᴰ.{cases_cons}

module _ (json : Json) (semver : Semver) where
  -- An entry that a new version goes to is there, or is new and has no versions.
  pub get_or_create-ok :
      (o : Option (Entry json.Bytes)) (claims : json.Bytes) (e : Entry json.Bytes)
      → get_or_create semver json o claims ≡ ok e
      → (o ≡ some e) ⊎ ((o ≡ none) × (e.versions ≡ []))
  unfolding get_or_create
  get_or_create-ok none claims e h =
      let same : e ≡ record { claims = claims; versions = [] } = cc in
      inr (refl, ap (λ g. g.versions) same)
  get_or_create-ok (some f) claims e h =
      let (_, k) =
        >>-eq-ok (wrap_err inconsistent (check_claim_consistency json claims f.claims)) (ok f) h in
      inl (cc)

  pub insert_version-ok :
      (ty : EntryType) (name version : String) (claims : json.Bytes) (s s' : Store json.Bytes)
      → insert_version semver json ty name version claims s ≡ ok s'
      → (e : Entry json.Bytes) × (get_or_create semver json (s.entries ty name) claims ≡ ok e)
        × (any (λ row. row.version == version) e.versions ≡ false)
        × (s' ≡ add_version semver ty name version e s)
  unfolding insert_version
  insert_version-ok ty name version claims s s' h =
      let (e, got, k) =
        >>=-eq-ok (get_or_create semver json (s.entries ty name) claims)
          (λ e.
            if any (λ row. row.version == version) e.versions
            then err version_already_exists
            else ok (add_version semver ty name version e s))
          h in
      elim (Bool-cases (any (λ row. row.version == version) e.versions)) [
        | inl there ↦ absurd (let k' : err version_already_exists ≡ ok s' = rw there at k in cc)
        | inr new ↦
            let k' : ok (add_version semver ty name version e s) ≡ ok s' = rw new at k in
            (e, got, new, cc)
      ]

  moved_on-not :
      (ty : EntryType) (name version : String) (e : Entry json.Bytes) (s : Store json.Bytes)
      (v : Row)
      → s.latest name ≡ some v
      → is_newer_version semver version v.version ≡ false
      → (add_version semver ty name version e s).latest name ≡ some v
  unfolding add_version should_update_latest
  moved_on-not ty name version e s v at older = rw at (rw older at)

  -- The first version of an entry, inserted under a name whose pointer is at a version that it is
  -- not newer than, as one of another type can be, is stored, and the pointer stays where it was,
  -- which is at none of the entry's versions.
  pub shared_pointer :
      (ty : EntryType) (name version : String) (claims : json.Bytes) (s s' : Store json.Bytes)
      (v : Row)
      → s.entries ty name ≡ none
      → s.latest name ≡ some v
      → v.id < s.next_id
      → is_newer_version semver version v.version ≡ false
      → insert_version semver json ty name version claims s ≡ ok s'
      → (e : Entry json.Bytes) × (s'.entries ty name ≡ some e)
        × (s'.latest name ≡ some v)
        × (¬ Memᴰ v e.versions)
  unfolding add_version
  shared_pointer ty name version claims s s' v missing at old older h =
      let (e, got, _, same) = insert_version-ok ty name version claims s s' h in
      let row : Row = record { id = s.next_id; version = version } in
      elim (get_or_create-ok (s.entries ty name) claims e got) [
        | inl there ↦ absurd (cc)
        | inr (_, no_versions) ↦ (
          record e { versions = row ∷ e.versions },
          rw same (
              set_entry-there semver ty name (some (record e { versions = row ∷ e.versions }))
                s.entries),
          rw same (moved_on-not ty name version e s v at older),
          λ m. elim (cases_cons m) [
            | inl first ↦ let id : v.id ≡ s.next_id = ap (λ r. r.id) first in omega (arith, id, old)
            | inr k ↦ elim (rw no_versions at k) [ ]
          ],
        )
      ]
