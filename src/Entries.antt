-- ===== src/Entries.antt =====
-- The entries of the managed source: the tables `registry_entry`, `entry_version` and
-- `latest_entry_version` (database/migrations) as the queries of database/queries use them, and the
-- publishing and deleting of versions in internal/service/db/impl_mcp.go, impl_skills.go,
-- impl_plugins.go and impl_common.go. The rows of other sources are left out: no operation here
-- reads or writes them.
pub mod Access
pub mod Invariant
pub mod Inserting
pub mod Adding
pub mod Removing
pub mod Relabelling
pub mod History
use toolhive_registry_server.Prelude.{
  ℕ, ◌+◌, String, Bool, true, false, not, ◌&&◌, Option, none, some, List, [], ◌∷◌, Memᴰ, ◌↔◌,
  Outcome, ok, err, ◌>>=◌, ◌>>◌, wrap_err, any, keep, is_empty, beq, ◌==◌, if◌then◌else◌,
}
use toolhive_registry_server.Claims.Json.{Json}
use toolhive_registry_server.Claims.Stored.{ConsistencyError, check_claim_consistency}
use toolhive_registry_server.Versions.{Semver, Row, is_newer_version, find_highest_version}

-- `sqlc.EntryType`
pub data EntryType : Type 0 where
  mcp skill plugin : EntryType

abbrev pub type_eq : EntryType → EntryType → Bool
type_eq mcp mcp = true
type_eq skill skill = true
type_eq plugin plugin = true
type_eq _ _ = false

-- A row of `registry_entry` with the rows of `entry_version` that refer to it. Its key, the type
-- and the name, is the place where it is stored.
pub record Entry (B : Type 0) : Type 0 where
  pub claims : B
  pub versions : List Row

-- The tables. `latest` has the version and the `latest_version_id` for a name; `next_id` stands for
-- the next random id of a version.
pub record Store (B : Type 0) : Type 0 where
  pub entries : EntryType → String → Option (Entry B)
  pub latest : String → Option Row
  pub next_id : ℕ

-- The errors of the operations on the tables, but for those of the database itself.
pub data EntryError : Type 0 where
  inconsistent : ConsistencyError → EntryError
  version_already_exists not_found : EntryError

-- `ORDER BY version`: some order of the rows.
pub record Ordering : Type 0 where
  pub order : List Row → List Row
  pub mem-order : (r : Row) (rows : List Row) → Memᴰ r (order rows) ↔ Memᴰ r rows

module _ {B : Type 0} where
  -- The entry at a key becomes the given one, or is deleted.
  unfoldable pub set_entry :
      EntryType
      → String
      → Option (Entry B)
      → (EntryType → String → Option (Entry B))
      → EntryType
      → String
      → Option (Entry B)
  set_entry ty name e entries ty' name' =
      if type_eq ty ty' && (name == name') then e else entries ty' name'

  -- `UpdateRegistryEntryClaims` on the entry that is there.
  unfoldable pub set_claims : EntryType → String → B → Entry B → Store B → Store B
  set_claims ty name claims e s = record s {
    entries = set_entry ty name (some (record e { claims = claims })) s.entries;
  }

-- `UpsertLatestServerVersion`, `UpsertLatestSkillVersion` and `UpsertLatestPluginVersion`: on a
-- conflict of source and name the row is overwritten, whatever type of entry it belongs to.
unfoldable pub upsert_latest : String → Row → (String → Option Row) → String → Option Row
upsert_latest name row latest name' = if name == name' then some row else latest name'

-- The rows of `latest_entry_version` that are left when version rows are deleted.
cascade_row : List Row → Option Row → Option Row
cascade_row deleted none = none
cascade_row deleted (some row) = if any (λ d. beq d.id row.id) deleted then none else some row

unfoldable pub cascade_latest : List Row → (String → Option Row) → String → Option Row
unfolding cascade_row
cascade_latest deleted latest name = cascade_row deleted (latest name)

module _ (semver : Semver) where
  -- Whether the new version becomes the latest one.
  should_update_latest : String → Option Row → Bool
  should_update_latest version none = true
  should_update_latest version (some current) = is_newer_version semver version current.version

  -- The rows of a new version of an entry, and the pointer to the latest one.
  unfoldable pub add_version :
      {B : Type 0} → EntryType → String → String → Entry B → Store B → Store B
  unfolding should_update_latest
  add_version ty name version e s =
      let row : Row = record { id = s.next_id; version = version } in
      record {
        entries = set_entry ty name (some (record e { versions = row ∷ e.versions })) s.entries;
        latest =
            (if should_update_latest version (s.latest name)
              then upsert_latest name row s.latest
              else s.latest);
        next_id = s.next_id + 1;
      }

  -- The next pointer for the name, if the old one is gone: `rePointLatestVersionIfNeeded`.
  repoint : Ordering → String → List Row → Option Row → (String → Option Row) → String → Option Row
  repoint ordering name remaining (some row) latest = latest
  repoint ordering name remaining none latest =
      elim (find_highest_version semver (ordering.order remaining)) [
        | none ↦ latest
        | some best ↦ upsert_latest name best latest
      ]

  -- `cleanupOrphanedEntry` on the entry with the versions that remain.
  cleanup : {B : Type 0} → Entry B → List Row → Option (Entry B)
  cleanup e [] = none
  cleanup e (row ∷ rows) = some (record e { versions = row ∷ rows })

  -- `lookupAndDeleteEntryVersion` with the two steps after it, on an entry that has the version.
  unfoldable pub remove_version :
      {B : Type 0} → Ordering → EntryType → String → String → Entry B → Store B → Store B
  unfolding repoint cleanup
  remove_version ordering ty name version e s =
      let deleted = keep (λ row. row.version == version) e.versions in
      let remaining = keep (λ row. not (row.version == version)) e.versions in
      let latest = cascade_latest deleted s.latest in
      record s {
        entries = set_entry ty name (cleanup e remaining) s.entries;
        latest = repoint ordering name remaining (latest name) latest;
      }

  -- The deletion in a transaction, after the gate.
  delete_found :
      {B : Type 0}
      → Ordering
      → EntryType
      → String
      → String
      → Option (Entry B)
      → Store B
      → Outcome EntryError (Store B)
  delete_found ordering ty name version none s = err not_found
  delete_found ordering ty name version (some e) s =
      if any (λ row. row.version == version) e.versions
      then ok (remove_version ordering ty name version e s)
      else err not_found

  unfoldable pub delete_version :
      {B : Type 0} → Ordering → EntryType → String → String → Store B → Outcome EntryError (Store B)
  unfolding delete_found
  delete_version ordering ty name version s =
      delete_found ordering ty name version (s.entries ty name) s

  module _ (json : Json) where
    -- The entry that a new version goes to: an existing one must have the same claims.
    pub get_or_create :
        Option (Entry json.Bytes) → json.Bytes → Outcome EntryError (Entry json.Bytes)
    get_or_create none claims = ok (record { claims = claims; versions = [] })
    get_or_create (some e) claims =
        wrap_err inconsistent (check_claim_consistency json claims e.claims) >> ok e

    -- The insertions of a publish transaction, after the gates.
    unfoldable pub insert_version :
        EntryType
        → String
        → String
        → json.Bytes
        → Store json.Bytes
        → Outcome EntryError (Store json.Bytes)
    unfolding get_or_create
    insert_version ty name version claims s = do
      e ← get_or_create (s.entries ty name) claims
      (if any (λ row. row.version == version) e.versions
          then err version_already_exists
          else ok (add_version ty name version e s))
