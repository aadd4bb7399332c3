-- ===== src/Sync/Coordinator/Tick.antt =====
-- What a tick of the coordinator leaves behind, and what the next one makes of it.
use toolhive_registry_server.Sync.Manager.Decision.{Worthwhile, should_sync_iff}
use toolhive_registry_server.Sync.Manager.{
  should_sync, reason_should_sync, FetchResult, SourceHandler, is_sync_needed_for_state,
  is_data_changed,
}
use toolhive_registry_server.Prelude.{
  List, ◌↔◌, Bool, Option, not, ◌==◌, ◌>>=◌, none, if◌then◌else◌, ◌⊎◌, inl, inr, ℤ, ◌+ℤ◌, String,
  true, false, some, ◌≡◌, refl, inl, inr, Outcome, ok, err, blank, Option-cases,
}
use toolhive_registry_server.Config.{SourceConfig, is_non_synced_source}
use toolhive_registry_server.Sync.Jobs.{JobEnv, DbFaults, is_due, config_of, get_next_sync_job}
use toolhive_registry_server.Sync.Jobs.Due.{Elapsed, is_due_iff, IsNext}
use toolhive_registry_server.Sync.Jobs.Answers.{get_next_sync_job-next}
use toolhive_registry_server.Filtering.Service.{Upstream}
use toolhive_registry_server.Sync.Status.{
  SyncRow, SyncStatus, row_to_status, write_status, interval_to_string,
}
use toolhive_registry_server.Sync.Manager.{Env, is_filter_changed, is_interval_sync_needed}
use toolhive_registry_server.Sync.Perform.{SyncError, SyncResult}
use toolhive_registry_server.Sync.Coordinator.{final_status, wants_sync}

module _ {u : Upstream} {W : Type 0} (env : Env u W) (message_text : SyncError → String) where
  -- The status of a row after `performRegistrySync` has written it, as the next tick reads it.
  abbrev pub reread : (ℤ → String) → ℤ → Outcome SyncError SyncResult → SyncRow → SyncStatus
  reread duration_string ended outcome row =
      row_to_status duration_string (write_status (final_status env message_text ended outcome) row)

  -- Of a row that the queue hands over after a sync, the manager takes a schedule that is not blank
  -- and parses to have run out: waiting for it is left to the query.
  reread_interval :
      (duration_string : ℤ → String) (ended : ℤ) (outcome : Outcome SyncError SyncResult)
      (row : SyncRow) (interval : ℤ)
      → blank (interval_to_string duration_string row.sync_schedule) ≡ false
      → env.parse_duration (interval_to_string duration_string row.sync_schedule) ≡ some interval
      → is_interval_sync_needed env (some (reread duration_string ended outcome row))
        ≡ ok (true, some (env.now +ℤ interval))
  unfolding is_interval_sync_needed final_status row_to_status write_status
  reread_interval duration_string ended (ok result) row interval scheduled parsed =
      rw scheduled (rw parsed refl)
  reread_interval duration_string ended (err e) row interval scheduled parsed =
      rw scheduled (rw parsed refl)

  -- However a sync ended and whatever the source's filter is then, no change of the filter is
  -- seen.
  pub filter_change_unseen :
      (duration_string : ℤ → String) (ended : ℤ) (outcome : Outcome SyncError SyncResult)
      (row : SyncRow) (cfg : SourceConfig)
      → is_filter_changed env cfg (reread duration_string ended outcome row) ≡ false
  unfolding is_filter_changed final_status row_to_status write_status
  filter_change_unseen duration_string ended (ok result) row cfg =
      elim (Option-cases (env.filter_hash cfg.filter)) [
        | inl e ↦ rw (e, is_filter_changed) refl
        | inr (h, e) ↦ rw (e, is_filter_changed) refl
      ]
  filter_change_unseen duration_string ended (err e) row cfg =
      elim (Option-cases (env.filter_hash cfg.filter)) [
        | inl e ↦ rw (e, is_filter_changed) refl
        | inr (h, e) ↦ rw (e, is_filter_changed) refl
      ]

  -- The schedule of the row is blank, or it parses.
  abbrev pub ScheduleReads : (ℤ → String) → SyncRow → Type 0
  ScheduleReads duration_string row =
      (blank (interval_to_string duration_string row.sync_schedule) ≡ true)
      ⊎ ((blank (interval_to_string duration_string row.sync_schedule) ≡ false)
          × ((interval : ℤ) × (env.parse_duration
                  (interval_to_string duration_string row.sync_schedule)
                ≡ some interval)))

  interval_reads :
      (duration_string : ℤ → String) (ended : ℤ) (outcome : Outcome SyncError SyncResult)
      (row : SyncRow)
      → ScheduleReads duration_string row
      → (elapsed : Bool) × (next : Option ℤ) × (is_interval_sync_needed env
            (some (reread duration_string ended outcome row))
          ≡ ok (elapsed, next))
  unfolding is_interval_sync_needed row_to_status write_status
  interval_reads duration_string ended outcome row (inl unscheduled) =
      (false, none, rw unscheduled refl)
  interval_reads duration_string ended outcome row (inr (scheduled, (interval, parsed))) = (
    true,
    some (env.now +ℤ interval),
    reread_interval duration_string ended outcome row interval scheduled parsed,
  )

  fetched_without_hash :
      (s : SyncStatus) (changed_filter : Bool) (fetched : Outcome String (FetchResult u))
      → s.last_sync_hash ≡ ""
      → Worthwhile env changed_filter (
          fetched >>= λ result. ok (
            (if blank s.last_sync_hash then true else not (result.hash == s.last_sync_hash)),
            result,
          ))
  fetched_without_hash s changed_filter (err e) none_known = tt
  fetched_without_hash s changed_filter (ok result) none_known = inl (rw none_known refl)

  checked_without_hash :
      (cfg : SourceConfig) (s : SyncStatus) (changed_filter : Bool)
      (handler : Outcome String (SourceHandler u))
      → s.last_sync_hash ≡ ""
      → Worthwhile env changed_filter (
          handler >>= λ h. h.fetch_registry cfg >>= λ result. ok (
            (if blank s.last_sync_hash then true else not (result.hash == s.last_sync_hash)),
            result,
          ))
  checked_without_hash cfg s changed_filter (err e) none_known = tt
  checked_without_hash cfg s changed_filter (ok h) none_known =
      fetched_without_hash s changed_filter (h.fetch_registry cfg) none_known

  -- Without a known hash, data that are fetched have changed.
  changed_without_hash :
      (cfg : SourceConfig) (s : SyncStatus) (changed_filter : Bool)
      → s.last_sync_hash ≡ ""
      → Worthwhile env changed_filter (is_data_changed env cfg (some s))
  unfolding is_data_changed
  changed_without_hash cfg s changed_filter none_known =
      checked_without_hash cfg s changed_filter (env.create_handler cfg) none_known

  -- The sync time is written with either outcome: the row is next due when its source syncs, the
  -- schedule has run out since the sync ended, and no other transaction holds the row.
  pub ended-is_due :
      (jobs : JobEnv) (ended : ℤ) (outcome : Outcome SyncError SyncResult) (row : SyncRow)
      → (is_due jobs (write_status (final_status env message_text ended outcome) row) ≡ true) ↔ (
          (row.syncable ≡ true)
          × Elapsed jobs (some ended) row.sync_schedule
          × (jobs.locked row.name ≡ false))
  unfolding final_status write_status
  ended-is_due jobs ended (ok result) row =
      is_due_iff jobs (write_status (final_status env message_text ended (ok result)) row)
  ended-is_due jobs ended (err e) row =
      is_due_iff jobs (write_status (final_status env message_text ended (err e)) row)

  wants_failed :
      (duration_string : ℤ → String) (ended : ℤ) (e : SyncError) (row : SyncRow)
      (cfg : SourceConfig)
      → ScheduleReads duration_string row
      → reason_should_sync (should_sync env cfg (reread duration_string ended (err e) row) false).0
        ≡ true
  unfolding final_status row_to_status write_status is_sync_needed_for_state
  wants_failed duration_string ended e row cfg reads =
      let (elapsed, next, known) = interval_reads duration_string ended (err e) row reads in
      (should_sync_iff env cfg (reread duration_string ended (err e) row) false).1
        (inl refl, (elapsed, next, known, refl, changed_without_hash cfg _ _ refl))

  -- Of a row that a failed sync has written, the queue hands out the source to be synced again as
  -- soon as the row is due and has ended before all others that are due, whatever the source
  -- answers then: if the schedule is blank or parses, the source has a configuration and is one
  -- that syncs, and the database has no faults.
  pub failed_is_retried :
      (jobs : JobEnv) (faults : DbFaults) (ended : ℤ) (e : SyncError) (rows : List SyncRow)
      (row : SyncRow) (cfg : SourceConfig)
      → (faults.begin ≡ none)
        × (faults.list ≡ none)
        × (faults.update ≡ none)
        × (faults.commit ≡ none)
      → IsNext jobs rows (write_status (final_status env message_text ended (err e)) row)
      → config_of jobs (write_status (final_status env message_text ended (err e)) row) ≡ some cfg
      → is_non_synced_source cfg ≡ false
      → ScheduleReads jobs.duration_string row
      → (get_next_sync_job jobs (wants_sync env message_text) faults rows none).0 ≡ ok (some cfg)
  unfolding wants_sync
  failed_is_retried jobs faults ended e rows row cfg fine is_next configured synced reads =
      get_next_sync_job-next jobs (wants_sync env message_text) faults rows
        (write_status (final_status env message_text ended (err e)) row) none cfg fine is_next
        configured synced
        (rw (wants_failed jobs.duration_string ended e row cfg reads, wants_sync) refl)
