-- ===== src/Tests/Sync.antt =====
-- One source, its handler and its row.
use toolhive_registry_server.Prelude.{
  inl, ◌+◌, ℕ, inr, err, ◌⊎◌, ℤ, pos, ◌+ℤ◌, String, true, false, not, ◌&&◌, Option, none, some, [],
  ◌∷◌, arith, ◌≡◌, refl, ◌↔◌, Memᴰ, ok, is_some, if◌then◌else◌, ◌==◌, lookup,
}
use toolhive_registry_server.Config.{SourceConfig, is_non_synced_source}
use toolhive_registry_server.Sync.Status.{
  syncing, stored_phase, completed, SyncStatus, SyncRow, row_to_status, write_status,
  row_to_status-write_status, interval_to_string,
}
use toolhive_registry_server.Sync.Manager.{
  Env, FetchResult, reason_should_sync, should_sync, is_sync_needed_for_state,
  is_interval_sync_needed, is_filter_changed, is_data_changed,
}
use toolhive_registry_server.Sync.Manager.Decision.{
  IsFree, CallsForSync, is_check_error, should_sync_iff, should_sync-prefetched,
}
use toolhive_registry_server.Sync.Perform.{
  perform_sync, creating_handler, source_available, handler_creation_failed, fetching,
  sync_successful, fetch_failed, SyncError, SyncResult,
}
use mathlib.Core.List.Memᴰ.{cases_cons}
use toolhive_registry_server.Sync.Jobs.{
  JobEnv, find_job, ended_before, config_of, get_next_sync_job,
}
use toolhive_registry_server.Sync.Jobs.Due.{IsNext}
use toolhive_registry_server.Sync.Jobs.Laws.{Takes, find_job-Takes}
use toolhive_registry_server.Sync.Coordinator.{wants_sync, zero_status, final_status}
use toolhive_registry_server.Sync.Coordinator.Effects.{Worked, process_next_sync_job-rows}
use toolhive_registry_server.Sync.Coordinator.{process_next_sync_job}
use toolhive_registry_server.Sync.Jobs.{DbFaults}
use toolhive_registry_server.Sync.Perform.Laws.{perform_sync-unstored}
use toolhive_registry_server.Sync.Coordinator.Tick.{failed_is_retried, reread, filter_change_unseen}
use toolhive_registry_server.Tests.Filtering.{upstream, exact, registry}

abbrev source : SourceConfig
source = record {
  name = "main";
  git = none;
  api = some (record { endpoint = "https://example.com"; timeout = "" });
  file = none;
  managed = none;
  kubernetes = none;
  sync_policy = none;
  filter = none;
  claims = none;
}

abbrev fetched : FetchResult upstream
fetched = record {
  registry = registry;
  hash = "h1";
  server_count = 2;
  skill_count = 1;
  plugin_count = 0;
}

-- The store keeps no data; the clock stands at 100.
abbrev env : Env upstream (Unit {0})
env = record {
  create_handler = λ _. ok (record { validate = λ _. ok tt; fetch_registry = λ _. ok fetched });
  store = λ _ _ w. (ok tt, w);
  now = pos 100;
  parse_duration = λ s. if s == "1h" then some (pos 60) else none;
  filter_hash = λ _. some "f1";
  glob = exact;
}

abbrev show_duration : ℤ → String
show_duration _ = "1h"

abbrev row : SyncRow
row = record {
  name = "main";
  sync_status = completed;
  error_msg = none;
  started_at = some (pos 10);
  ended_at = none;
  attempt_count = 0;
  last_sync_hash = some "h0";
  last_applied_filter_hash = none;
  server_count = 0;
  skill_count = 0;
  plugin_count = 0;
  sync_schedule = some (pos 60);
  syncable = true;
}

abbrev orphan : SyncStatus
orphan = record zero_status { phase = syncing; last_sync_hash = "h1" }

abbrev jobs : JobEnv
jobs = record {
  source_configs_map = ("main", source) ∷ [];
  load_source_config = λ _. none;
  now = pos 100;
  duration_string = show_duration;
  locked = λ _. false;
  name_before = λ _ _. false;
}

abbrev result : SyncResult
result = record { hash = "h1"; server_count = 2; skill_count = 1; plugin_count = 0 }

abbrev no_text : SyncError → String
no_text _ = ""

should_sync_iff_example :
    (reason_should_sync (should_sync env source orphan true).0 ≡ true)
    ↔ (IsFree env orphan × CallsForSync env source orphan true)
should_sync_iff_example = should_sync_iff env source orphan true

should_sync-prefetched_example : is_some (should_sync env source orphan false).1 ≡ (
    reason_should_sync (should_sync env source orphan false).0
    && not (is_check_error (should_sync env source orphan false).0))
should_sync-prefetched_example = should_sync-prefetched env source orphan false

row_to_status-write_status_example :
    row_to_status show_duration (write_status orphan row) ≡ record orphan {
      phase = stored_phase orphan.phase;
      creation_type = "";
      sync_schedule = interval_to_string show_duration row.sync_schedule;
    }
row_to_status-write_status_example = row_to_status-write_status show_duration orphan row

filter_change_unseen_example :
    is_filter_changed env source (reread env no_text show_duration (pos 100) (ok result) row)
    ≡ false
filter_change_unseen_example =
    filter_change_unseen env no_text show_duration (pos 100) (ok result) row source

row_is_found : (find_job jobs (wants_sync env no_text) (row ∷ []) none).0 ≡ some (row, source)
unfolding find_job wants_sync lookup is_non_synced_source reason_should_sync should_sync
    row_to_status is_interval_sync_needed ◌+ℤ◌ is_sync_needed_for_state is_filter_changed
    is_data_changed
row_is_found = refl

find_job-Takes_example :
    Memᴰ row (row ∷ [])
    × ((t : Option (FetchResult upstream)) × Takes jobs (wants_sync env no_text) row source t)
find_job-Takes_example =
    find_job-Takes jobs (wants_sync env no_text) (row ∷ []) none row source row_is_found

abbrev no_faults : DbFaults
no_faults = record { begin = none; list = none; update = none; commit = none }

process_next_sync_job-rows_example :
    ((process_next_sync_job env no_text jobs no_faults (pos 120) true (row ∷ []) tt).0 ≡ row ∷ [])
    ⊎ Worked env no_text
        (pos 120)
        jobs
        true
        (row ∷ [])
        (process_next_sync_job env no_text jobs no_faults (pos 120) true (row ∷ []) tt).0
process_next_sync_job-rows_example =
    process_next_sync_job-rows env no_text (pos 120) jobs no_faults true (row ∷ []) tt

abbrev no_answer : SyncError
no_answer = record {
  cause = "timeout";
  message = fetching;
  condition_type = sync_successful;
  condition_reason = fetch_failed;
}

-- The row after a sync that failed at 30, of which the schedule of 60 has run out at 100.
abbrev failed_row : SyncRow
failed_row = write_status (final_status env no_text (pos 30) (err no_answer)) row

-- A row that ended later, and is due as well.
abbrev later_row : SyncRow
later_row = record row { name = "other"; ended_at = some (pos 35) }

failed_row-IsNext : IsNext jobs (later_row ∷ failed_row ∷ []) failed_row
unfolding write_status final_status ended_before ◌+ℤ◌
failed_row-IsNext = record {
  member = Memᴰ.tail (Memᴰ.head refl);
  due = (refl, omega arith, refl);
  next = λ r m d. elim (cases_cons m) [
    | inl e ↦ inr (rw e refl)
    | inr k ↦ elim (cases_cons k) [ inl e ↦ inl e | inr l ↦ elim l [ ] ]
  ];
}

failed_row-configured : config_of jobs failed_row ≡ some source
unfolding write_status final_status lookup
failed_row-configured = refl

source_syncs : is_non_synced_source source ≡ false
unfolding is_non_synced_source
source_syncs = refl

failed_is_retried_example :
    (get_next_sync_job jobs (wants_sync env no_text) no_faults (later_row ∷ failed_row ∷ []) none).0
    ≡ ok (some source)
failed_is_retried_example =
    failed_is_retried env no_text jobs no_faults (pos 30) no_answer (later_row ∷ failed_row ∷ [])
      row source (refl, refl, refl, refl) failed_row-IsNext failed_row-configured source_syncs
      (inr (refl, (pos 60, refl)))

-- The writer counts how often it was called; there is no handler.
abbrev counting_env : Env upstream ℕ
counting_env = record {
  create_handler = λ _. err "no handler";
  store = λ _ _ w. (ok tt, w + 1);
  now = pos 100;
  parse_duration = λ _. none;
  filter_hash = λ _. none;
  glob = exact;
}

abbrev no_handler : SyncError
no_handler = record {
  cause = "no handler";
  message = creating_handler;
  condition_type = source_available;
  condition_reason = handler_creation_failed;
}

sync_fails : (perform_sync counting_env source none 7).0 ≡ err no_handler
unfolding perform_sync
sync_fails = refl

perform_sync-unstored_example : (perform_sync counting_env source none 7).1 ≡ 7
perform_sync-unstored_example =
    perform_sync-unstored counting_env source none 7 no_handler sync_fails (λ e. cc)
