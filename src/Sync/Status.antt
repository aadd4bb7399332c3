-- ===== src/Sync/Status.antt =====
-- The status of a source and its row in the database: internal/status/types.go and the
-- conversions of internal/sync/state/db.go. Times and durations are nanoseconds.
use toolhive_registry_server.Prelude.{
  Bool, ℕ, ℤ, String, Option, none, some, ◌≡◌, refl, arith, blank, eq_iff, if◌then◌else◌,
}

-- `SyncPhase` is a text; `other_phase` is one that is none of the constants.
pub data Phase : Type 0 where
  syncing complete failed : Phase
  other_phase : String → Phase

pub record SyncStatus : Type 0 where
  pub phase : Phase
  pub message : String
  pub last_attempt : Option ℤ
  pub attempt_count : ℕ
  pub last_sync_time : Option ℤ
  pub last_sync_hash : String
  pub last_applied_filter_hash : String
  pub server_count : ℕ
  pub skill_count : ℕ
  pub plugin_count : ℕ
  pub creation_type : String
  pub sync_schedule : String

-- The database's `sync_status` enum.
pub data DbStatus : Type 0 where
  in_progress completed db_failed : DbStatus
  other_status : String → DbStatus

-- A row of `registry_sync` with the name and the schedule of its source, and whether it syncs.
pub record SyncRow : Type 0 where
  pub name : String
  pub sync_status : DbStatus
  pub error_msg : Option String
  pub started_at : Option ℤ
  pub ended_at : Option ℤ
  pub attempt_count : ℕ
  pub last_sync_hash : Option String
  pub last_applied_filter_hash : Option String
  pub server_count : ℕ
  pub skill_count : ℕ
  pub plugin_count : ℕ
  pub sync_schedule : Option ℤ
  pub syncable : Bool

unfoldable pub db_sync_status_to_phase : DbStatus → Phase
db_sync_status_to_phase in_progress = syncing
db_sync_status_to_phase completed = complete
db_sync_status_to_phase db_failed = failed
db_sync_status_to_phase _ = failed

unfoldable pub sync_phase_to_db_status : Phase → DbStatus
sync_phase_to_db_status syncing = in_progress
sync_phase_to_db_status complete = completed
sync_phase_to_db_status failed = db_failed
sync_phase_to_db_status _ = db_failed

-- `if s != nil { … = *s }`
abbrev pub text_or_blank : Option String → String
text_or_blank none = ""
text_or_blank (some s) = s

-- `if s != "" { … = &s }`
abbrev pub nil_if_blank : String → Option String
nil_if_blank s = if blank s then none else some s

-- `intervalToString`, over `time.Duration.String`.
abbrev pub interval_to_string : (ℤ → String) → Option ℤ → String
interval_to_string duration_string none = ""
interval_to_string duration_string (some d) = duration_string d

-- `dbSyncRowByLastUpdateToStatus`, which is `dbSyncRowToStatus` on another row type.
unfoldable pub row_to_status : (ℤ → String) → SyncRow → SyncStatus
unfolding db_sync_status_to_phase
row_to_status duration_string row = record {
  phase = db_sync_status_to_phase row.sync_status;
  message = text_or_blank row.error_msg;
  last_attempt = row.started_at;
  attempt_count = row.attempt_count;
  last_sync_time = row.ended_at;
  last_sync_hash = text_or_blank row.last_sync_hash;
  last_applied_filter_hash = text_or_blank row.last_applied_filter_hash;
  server_count = row.server_count;
  skill_count = row.skill_count;
  plugin_count = row.plugin_count;
  creation_type = "";
  sync_schedule = interval_to_string duration_string row.sync_schedule;
}

-- The columns that `UpdateSyncStatus` writes into the row of a source.
unfoldable pub write_status : SyncStatus → SyncRow → SyncRow
unfolding sync_phase_to_db_status
write_status s row = record row {
  sync_status = sync_phase_to_db_status s.phase;
  error_msg = nil_if_blank s.message;
  started_at = s.last_attempt;
  ended_at = s.last_sync_time;
  attempt_count = s.attempt_count;
  last_sync_hash = nil_if_blank s.last_sync_hash;
  last_applied_filter_hash = nil_if_blank s.last_applied_filter_hash;
  server_count = s.server_count;
  skill_count = s.skill_count;
  plugin_count = s.plugin_count;
}

text-round : (s : String) → text_or_blank (nil_if_blank s) ≡ s
text-round s = ground (arith, eq_iff s "")

-- A phase as it is read back: what is no constant is taken for a failure.
abbrev pub stored_phase : Phase → Phase
stored_phase (other_phase _) = failed
stored_phase p = p

phase-round : (p : Phase) → db_sync_status_to_phase (sync_phase_to_db_status p) ≡ stored_phase p
unfolding db_sync_status_to_phase sync_phase_to_db_status
phase-round syncing = refl
phase-round complete = refl
phase-round failed = refl
phase-round (other_phase _) = refl

-- What is read back after a status was written: the status itself, with a phase that is no
-- constant read as failed, the row's own schedule, and no creation type.
pub row_to_status-write_status :
    (duration_string : ℤ → String) (s : SyncStatus) (row : SyncRow)
    → row_to_status duration_string (write_status s row) ≡ record s {
      phase = stored_phase s.phase;
      creation_type = "";
      sync_schedule = interval_to_string duration_string row.sync_schedule;
    }
unfolding row_to_status write_status
row_to_status-write_status duration_string s row = simp (text-round, phase-round)
