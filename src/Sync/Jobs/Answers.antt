-- ===== src/Sync/Jobs/Answers.antt =====
-- Which source the queue hands out.
use toolhive_registry_server.Prelude.{
  Bool, true, false, ok, Option, none, some, List, [], ◌∷◌, ◌≡◌, refl, Memᴰ,
}
use toolhive_registry_server.Config.{SourceConfig, is_non_synced_source}
use toolhive_registry_server.Sync.Status.{SyncRow, SyncStatus, row_to_status}
use toolhive_registry_server.Sync.Jobs.{
  JobEnv, DbFaults, ended_before, list_source_syncs_by_last_update, config_of, ask, find_job,
  finish, get_next_sync_job,
}
use toolhive_registry_server.Sync.Jobs.Laws.{Takes}
use toolhive_registry_server.Sync.Jobs.Due.{IsDue, IsNext, listed-next}

module _ (env : JobEnv) where
  module _ {S : Type 0} (predicate : SourceConfig → SyncStatus → S → Bool × S) where
    -- The queue, asked on these rows, hands out the source of `row`.
    pub record FromDue (rows : List SyncRow) (cfg : SourceConfig) : Type 0 where
      pub row : SyncRow
      pub member : Memᴰ row rows
      pub due : IsDue env row
      pub first :
          (r : SyncRow) → Memᴰ r rows → IsDue env r → ended_before r.ended_at row.ended_at ≡ false
      pub state : S
      pub taken : Takes env predicate row cfg state

    ask-wanted :
        (row : SyncRow) (known : Option SourceConfig) (s : S) (cfg : SourceConfig)
        → known ≡ some cfg
        → is_non_synced_source cfg ≡ false
        → (predicate cfg (row_to_status env.duration_string row) s).0 ≡ true
        → (ask env predicate row known s).0 ≡ some cfg
    unfolding ask
    ask-wanted row none s cfg configured synced wanted = absurd (cc)
    ask-wanted row (some c) s cfg configured synced wanted =
        let same : c ≡ cfg = cc in rw same (rw synced (rw wanted refl))

    find_job-one :
        (row : SyncRow) (s : S) (cfg : SourceConfig)
        → (ask env predicate row (config_of env row) s).0 ≡ some cfg
        → (find_job env predicate (row ∷ []) s).0 ≡ some (row, cfg)
    unfolding find_job
    find_job-one row s cfg asked = rw (asked, find_job) refl

    handed_out :
        (faults : DbFaults) (rows : List SyncRow) (row : SyncRow) (s : S) (cfg : SourceConfig)
        → (faults.begin ≡ none)
          × (faults.list ≡ none)
          × (faults.update ≡ none)
          × (faults.commit ≡ none)
        → (find_job env predicate (list_source_syncs_by_last_update env rows) s).0 ≡ some (row, cfg)
        → (get_next_sync_job env predicate faults rows s).0 ≡ ok (some cfg)
    unfolding get_next_sync_job finish
    handed_out faults rows row s cfg (begins, lists, updates, commits) found =
        rw (begins, get_next_sync_job)
          (rw (lists, get_next_sync_job)
            (rw (found, get_next_sync_job) (rw (updates, finish) (rw (commits, finish) refl))))

    -- If the database has no faults, the row that is next is handed out with its configuration,
    -- provided that its source is one that syncs and the predicate takes it.
    pub get_next_sync_job-next :
        (faults : DbFaults) (rows : List SyncRow) (row : SyncRow) (s : S) (cfg : SourceConfig)
        → (faults.begin ≡ none)
          × (faults.list ≡ none)
          × (faults.update ≡ none)
          × (faults.commit ≡ none)
        → IsNext env rows row
        → config_of env row ≡ some cfg
        → is_non_synced_source cfg ≡ false
        → (predicate cfg (row_to_status env.duration_string row) s).0 ≡ true
        → (get_next_sync_job env predicate faults rows s).0 ≡ ok (some cfg)
    get_next_sync_job-next faults rows row s cfg fine n configured synced wanted =
        handed_out faults rows row s cfg fine (
          rw (listed-next env rows row n) (
            find_job-one row s cfg
              (ask-wanted row (config_of env row) s cfg configured synced wanted)))
