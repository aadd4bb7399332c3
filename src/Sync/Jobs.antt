-- ===== src/Sync/Jobs.antt =====
-- The queue of sync jobs: `GetNextSyncJob` and `UpdateSyncStatus` of internal/sync/state/db.go, with
-- the query `ListSourceSyncsByLastUpdate` of database/queries/sync.sql.
pub mod Laws
pub mod Due
pub mod Answers
use toolhive_registry_server.Prelude.{
  ◌+ℤ◌, leb_ℤ, true, false, not, ◌&&◌, ◌||◌, ℤ, String, Bool, Option, none, some, List, [], ◌∷◌,
  map, Outcome, ok, err, ◌==◌, Dict, lookup, if◌then◌else◌,
}
use toolhive_registry_server.Config.{SourceConfig, is_non_synced_source}
use toolhive_registry_server.Sync.Status.{
  in_progress, SyncRow, SyncStatus, row_to_status, write_status,
}

-- Which of the database's operations fail, with the error's text.
pub record DbFaults : Type 0 where
  pub begin : Option String
  pub list : Option String
  pub update : Option String
  pub commit : Option String

-- What the service is given: the configurations of the last `Initialize`, those that load from
-- the database (`none`: an error), the reading of the clock, and `time.Duration.String`; and of the
-- database, which sources have rows that another transaction has locked, and the order of names.
pub record JobEnv : Type 0 where
  pub source_configs_map : Dict SourceConfig
  pub load_source_config : String → Option SourceConfig
  pub now : ℤ
  pub duration_string : ℤ → String
  pub locked : String → Bool
  pub name_before : String → String → Bool

-- `rs.ended_at IS NULL OR rs.ended_at + s.sync_schedule <= now()`; a sum with NULL is no later than
-- no time.
unfoldable pub has_elapsed : ℤ → Option ℤ → Option ℤ → Bool
has_elapsed now none schedule = true
has_elapsed now (some ended) none = false
has_elapsed now (some ended) (some schedule) = leb_ℤ (ended +ℤ schedule) now

-- The rows that the query does not pass over: `WHERE` and `SKIP LOCKED`.
unfoldable pub is_due : JobEnv → SyncRow → Bool
is_due env row =
    row.syncable && has_elapsed env.now row.ended_at row.sync_schedule && not (env.locked row.name)

-- `ended_at ASC NULLS FIRST`, without ties.
unfoldable pub ended_before : Option ℤ → Option ℤ → Bool
ended_before none none = false
ended_before none (some b) = true
ended_before (some a) none = false
ended_before (some a) (some b) = not (leb_ℤ b a)

-- `ORDER BY rs.ended_at ASC NULLS FIRST, s.name ASC`
unfoldable pub is_before : JobEnv → SyncRow → SyncRow → Bool
is_before env a b =
    ended_before a.ended_at b.ended_at
    || (not (ended_before b.ended_at a.ended_at) && env.name_before a.name b.name)

-- The first row of the query, with `r` before the rows that `found` is of.
abbrev pub first_of : JobEnv → SyncRow → Option SyncRow → Option SyncRow
first_of env r none = some r
first_of env r (some s) = if is_before env s r then some s else some r

unfoldable pub first_due : JobEnv → List SyncRow → Option SyncRow
first_due env [] = none
first_due env (r ∷ rows) =
    let found = first_due env rows in if is_due env r then first_of env r found else found

-- The query, whose last line is `LIMIT 1`.
unfoldable pub list_source_syncs_by_last_update : JobEnv → List SyncRow → List SyncRow
list_source_syncs_by_last_update env rows = elim (first_due env rows) [
  | none ↦ []
  | some r ↦ r ∷ []
]

-- `UpdateSourceSyncStatusByName` to in-progress.
abbrev pub mark_in_progress : ℤ → String → List SyncRow → List SyncRow
mark_in_progress now name = map λ row.
    if row.name == name
    then record row { sync_status = in_progress; started_at = some now }
    else row

-- `UpsertSourceSyncByName`, on a source that has a row.
unfoldable pub update_sync_status : String → SyncStatus → List SyncRow → List SyncRow
update_sync_status name s = map λ row. if row.name == name then write_status s row else row

-- The configuration of a row's source: from the map, or else from the database.
abbrev pub config_of : JobEnv → SyncRow → Option SourceConfig
config_of env row = elim (lookup row.name env.source_configs_map) [
  | some cfg ↦ some cfg
  | none ↦ env.load_source_config row.name
]

-- The predicate reads and writes a variable of its caller, of type `S`.
module _ {S : Type 0} (env : JobEnv) (predicate : SourceConfig → SyncStatus → S → Bool × S) where
  -- One row with its configuration: `none` if the loop goes on.
  ask : SyncRow → Option SourceConfig → S → Option SourceConfig × S
  ask row none s = (none, s)
  ask row (some cfg) s =
      if is_non_synced_source cfg
      then (none, s)
      else let (wanted, s') = predicate cfg (row_to_status env.duration_string row) s in
        ((if wanted then some cfg else none), s')

  -- The loop: the first row that the predicate takes, with its configuration.
  unfoldable pub find_job : List SyncRow → S → Option (SyncRow × SourceConfig) × S
  unfolding ask
  find_job [] s = (none, s)
  find_job (row ∷ rows) s =
      let rest = λ (s' : S). find_job rows s' in
      let (found, s') = ask row (config_of env row) s in
      elim found [ none ↦ rest s' | some cfg ↦ (some (row, cfg), s') ]

  unfoldable pub finish :
      DbFaults
      → List SyncRow
      → Option (SyncRow × SourceConfig)
      → Outcome String (Option SourceConfig) × List SyncRow
  finish faults rows none = elim faults.commit [ some e ↦ (err e, rows) | none ↦ (ok none, rows) ]
  finish faults rows (some (row, cfg)) = elim faults.update [
    | some e ↦ (err e, rows)
    | none ↦ elim faults.commit [
      | some e ↦ (err e, rows)
      | none ↦ (ok (some cfg), mark_in_progress env.now row.name rows)
    ]
  ]

  -- `GetNextSyncJob`: its answer, the rows that the transaction leaves, and the variable.
  unfoldable pub get_next_sync_job :
      DbFaults → List SyncRow → S → Outcome String (Option SourceConfig) × List SyncRow × S
  unfolding find_job finish list_source_syncs_by_last_update
  get_next_sync_job faults rows s = elim faults.begin [
    | some e ↦ (err e, rows, s)
    | none ↦ elim faults.list [
      | some e ↦ (err e, rows, s)
      | none ↦
          let (job, s') = find_job (list_source_syncs_by_last_update env rows) s in
          let (answer, rows') = finish faults rows job in (answer, rows', s')
    ]
  ]
