-- ===== src/Sync/Coordinator.antt =====
-- One tick of the coordinator: `processNextSyncJob` and `performRegistrySync` of
-- internal/sync/coordinator/coordinator.go. Logs, metrics and traces are left out, and so is a panic
-- of the sync, after which the deferred update would write the status of an unexpected failure.
pub mod Tick
pub mod Effects
use toolhive_registry_server.Prelude.{
  ℤ, String, Bool, true, false, Option, none, some, List, Outcome, ok, err, ◌≡◌, refl,
  if◌then◌else◌,
}
use toolhive_registry_server.Config.{SourceConfig}
use toolhive_registry_server.Filtering.Service.{Upstream}
use toolhive_registry_server.Sync.Status.{Phase, complete, failed, SyncRow, SyncStatus}
use toolhive_registry_server.Sync.Manager.{Env, FetchResult, reason_should_sync, should_sync}
use toolhive_registry_server.Sync.Perform.{SyncError, MessageHead, SyncResult, perform_sync}
use toolhive_registry_server.Sync.Jobs.{DbFaults, JobEnv, get_next_sync_job, update_sync_status}

-- The status that a sync starts from: all that it does not set is zero.
abbrev pub zero_status : SyncStatus
zero_status = record {
  phase = failed;
  message = "";
  last_attempt = none;
  attempt_count = 0;
  last_sync_time = none;
  last_sync_hash = "";
  last_applied_filter_hash = "";
  server_count = 0;
  skill_count = 0;
  plugin_count = 0;
  creation_type = "";
  sync_schedule = "";
}

module _ {u : Upstream} {W : Type 0} (env : Env u W) (message_text : SyncError → String) where
  -- The status that `performRegistrySync` writes when the sync has ended, at the time `ended`.
  unfoldable pub final_status : ℤ → Outcome SyncError SyncResult → SyncStatus
  final_status ended (err e) = record zero_status {
    phase = failed;
    message = message_text e;
    last_sync_time = some ended;
  }
  final_status ended (ok result) = record zero_status {
    phase = complete;
    message = "Sync completed successfully";
    last_sync_time = some ended;
    last_sync_hash = result.hash;
    server_count = result.server_count;
    skill_count = result.skill_count;
    plugin_count = result.plugin_count;
  }

  -- `performRegistrySync`. Where writing the status fails, the rows stay as they are.
  unfoldable pub perform_registry_sync :
      ℤ → Bool → SourceConfig → Option (FetchResult u) → List SyncRow → W → List SyncRow × W
  unfolding final_status
  perform_registry_sync ended status_is_written cfg prefetched rows w =
      let (outcome, w') = perform_sync env cfg prefetched w in
      (
        (if status_is_written
            then update_sync_status cfg.name (final_status ended outcome) rows
            else rows),
        w',
      )

  -- The closure that is given to the queue; the variable is `prefetched`.
  unfoldable pub wants_sync :
      SourceConfig → SyncStatus → Option (FetchResult u) → Bool × Option (FetchResult u)
  wants_sync cfg s prefetched =
      let (reason, result) = should_sync env cfg s false in
      if reason_should_sync reason then (true, result) else (false, prefetched)

  -- What follows the queue's answer.
  run_job :
      ℤ
      → Bool
      → Outcome String (Option SourceConfig)
      → Option (FetchResult u)
      → List SyncRow
      → W
      → List SyncRow × W
  unfolding perform_registry_sync
  run_job ended status_is_written (err e) prefetched rows w = (rows, w)
  run_job ended status_is_written (ok none) prefetched rows w = (rows, w)
  run_job ended status_is_written (ok (some cfg)) prefetched rows w =
      perform_registry_sync ended status_is_written cfg prefetched rows w

  -- `processNextSyncJob`: the rows and the stored data after the tick.
  unfoldable pub process_next_sync_job :
      JobEnv → DbFaults → ℤ → Bool → List SyncRow → W → List SyncRow × W
  unfolding run_job
  process_next_sync_job jobs faults ended status_is_written rows w =
      let (answer, rows', prefetched) = get_next_sync_job jobs wants_sync faults rows none in
      run_job ended status_is_written answer prefetched rows' w
