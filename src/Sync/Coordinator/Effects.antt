-- ===== src/Sync/Coordinator/Effects.antt =====
-- What a tick of the coordinator does to the rows.
use mathlib.Core.List.Memᴰ.{cases_cons}
use toolhive_registry_server.Prelude.{
  ℤ, String, Bool, true, false, Option, none, some, List, [], ◌∷◌, map, ◌≡◌, refl, ◌∙◌, ◌⊎◌, inl,
  inr, Memᴰ, Outcome, ok, err, ◌==◌, Bool-cases, if◌then◌else◌,
}
use toolhive_registry_server.Config.{SourceConfig, is_non_synced_source}
use toolhive_registry_server.Filtering.Service.{Upstream}
use toolhive_registry_server.Sync.Status.{completed, db_failed, SyncRow, write_status}
use toolhive_registry_server.Sync.Manager.{Env, FetchResult}
use toolhive_registry_server.Sync.Perform.{SyncError, SyncResult}
use toolhive_registry_server.Sync.Jobs.{
  DbFaults, JobEnv, list_source_syncs_by_last_update, mark_in_progress, config_of, find_job,
  update_sync_status,
}
use toolhive_registry_server.Sync.Jobs.Laws.{
  find_job-Takes, NoJob, Settled, get_next_sync_job-cases,
}
use toolhive_registry_server.Sync.Jobs.Due.{IsDue, is_due_iff, listed-IsFirst}
use toolhive_registry_server.Sync.Coordinator.{
  final_status, perform_registry_sync, wants_sync, run_job, process_next_sync_job,
}

mem-map_if :
    (p : SyncRow → Bool) (f : SyncRow → SyncRow) (rows : List SyncRow) (r : SyncRow)
    → Memᴰ r (map (λ x. if p x then f x else x) rows)
    → (x : SyncRow) × Memᴰ x rows × (r ≡ (if p x then f x else x))
mem-map_if p f [] r m = elim m [ ]
mem-map_if p f (x ∷ rows) r m = elim (cases_cons m) [
  | inl e ↦ (x, Memᴰ.head refl, e)
  | inr k ↦ let (y, l, e) = mem-map_if p f rows r k in (y, Memᴰ.tail l, e)
]

-- A row for which the test fails stays.
mem-map_if_kept :
    (p : SyncRow → Bool) (f : SyncRow → SyncRow) (rows : List SyncRow) (r : SyncRow)
    → p r ≡ false
    → Memᴰ r rows
    → Memᴰ r (map (λ x. if p x then f x else x) rows)
mem-map_if_kept p f [] r e m = elim m [ ]
mem-map_if_kept p f (x ∷ rows) r e m = elim (cases_cons m) [
  | inl same ↦ let kept : p x ≡ false = rw (← same) e in Memᴰ.head (rw kept same)
  | inr k ↦ Memᴰ.tail (mem-map_if_kept p f rows r e k)
]

-- The row is of a sync that ended at the time, with success or failure.
abbrev pub IsTerminal : ℤ → SyncRow → Type 0
IsTerminal ended row =
    (row.ended_at ≡ some ended) × ((row.sync_status ≡ completed) ⊎ (row.sync_status ≡ db_failed))

module _ {u : Upstream} {W : Type 0} (env : Env u W) (message_text : SyncError → String)
    (ended : ℤ) where
  written-IsTerminal :
      (outcome : Outcome SyncError SyncResult) (row : SyncRow)
      → IsTerminal ended (write_status (final_status env message_text ended outcome) row)
  unfolding write_status final_status
  written-IsTerminal (ok result) row = (refl, inl refl)
  written-IsTerminal (err e) row = (refl, inr refl)

  updated-IsTerminal :
      (name : String) (outcome : Outcome SyncError SyncResult) (rows : List SyncRow) (r : SyncRow)
      → Memᴰ r (update_sync_status name (final_status env message_text ended outcome) rows)
      → (r.name == name) ≡ true
      → IsTerminal ended r
  unfolding update_sync_status
  updated-IsTerminal name outcome rows r m is_named =
      let (x, inside, e) =
        mem-map_if (λ row. row.name == name)
          (write_status (final_status env message_text ended outcome)) rows r m in
      elim (Bool-cases (x.name == name)) [
        | inl named ↦
            let same : r ≡ write_status (final_status env message_text ended outcome) x =
              rw named at e in
            rw same (written-IsTerminal outcome x)
        | inr other ↦ let same : r ≡ x = rw other at e in absurd (clash x r same other is_named)
      ]
    where
      clash : (x r' : SyncRow) → r' ≡ x → (x.name == name) ≡ false → (r'.name == name) ≡ true → ⊥
      clash x r' same other named = let n : (x.name == name) ≡ true = rw (← same) named in cc

  -- The tick worked on the source `cfg` of one of the rows that are due, which syncs. Rows of other names are
  -- there as before, and those of the source have ended, if the status could be written.
  pub record Worked (jobs : JobEnv) (status_is_written : Bool) (rows rows' : List SyncRow)
      : Type 0 where
    pub row : SyncRow
    pub cfg : SourceConfig
    pub member : Memᴰ row rows
    pub due : IsDue jobs row
    pub configured : config_of jobs row ≡ some cfg
    pub synced : is_non_synced_source cfg ≡ false
    pub untouched :
        (r : SyncRow)
        → (r.name == row.name) ≡ false
        → (r.name == cfg.name) ≡ false
        → Memᴰ r rows
        → Memᴰ r rows'
    pub terminal :
        status_is_written ≡ true
        → (r : SyncRow) → Memᴰ r rows'
        → (r.name == cfg.name) ≡ true
        → IsTerminal ended r

  -- The rows after `performRegistrySync`, with the outcome of the sync.
  abbrev rows_after : Bool → String → Outcome SyncError SyncResult → List SyncRow → List SyncRow
  rows_after status_is_written name outcome rows =
      if status_is_written
      then update_sync_status name (final_status env message_text ended outcome) rows
      else rows

  after-untouched :
      (status_is_written : Bool) (name : String) (outcome : Outcome SyncError SyncResult)
      (rows : List SyncRow) (r : SyncRow)
      → (r.name == name) ≡ false
      → Memᴰ r rows
      → Memᴰ r (rows_after status_is_written name outcome rows)
  unfolding update_sync_status
  after-untouched true name outcome rows r other m =
      mem-map_if_kept (λ row. row.name == name)
        (write_status (final_status env message_text ended outcome)) rows r other m
  after-untouched false name outcome rows r other m = m

  after-IsTerminal :
      (status_is_written : Bool) (name : String) (outcome : Outcome SyncError SyncResult)
      (rows : List SyncRow)
      → status_is_written ≡ true
      → (r : SyncRow) → Memᴰ r (rows_after status_is_written name outcome rows)
      → (r.name == name) ≡ true
      → IsTerminal ended r
  after-IsTerminal true name outcome rows e r m named =
      updated-IsTerminal name outcome rows r m named
  after-IsTerminal false name outcome rows e r m named = absurd (cc)

  run_job-rows :
      (status_is_written : Bool) (answer : Outcome String (Option SourceConfig))
      (prefetched : Option (FetchResult u)) (rows : List SyncRow) (w : W)
      → NoJob answer
      → (run_job env message_text ended status_is_written answer prefetched rows w).0 ≡ rows
  unfolding run_job
  run_job-rows status_is_written (err e) prefetched rows w no_job = refl
  run_job-rows status_is_written (ok none) prefetched rows w no_job = refl
  run_job-rows status_is_written (ok (some cfg)) prefetched rows w no_job = absurd (no_job cfg refl)

  run_job-Worked :
      (jobs : JobEnv) (status_is_written : Bool) (prefetched : Option (FetchResult u))
      (rows : List SyncRow) (w : W) (row : SyncRow) (cfg : SourceConfig)
      → (find_job jobs
          (wants_sync env message_text)
          (list_source_syncs_by_last_update jobs rows)
          none).0
        ≡ some (row, cfg)
      → Worked jobs status_is_written rows
          (run_job env message_text ended status_is_written
            (ok (some cfg))
            prefetched
            (mark_in_progress jobs.now row.name rows)
            w).0
  unfolding run_job perform_registry_sync
  run_job-Worked jobs status_is_written prefetched rows w row cfg found =
      let (m, (t, taken)) =
        find_job-Takes jobs (wants_sync env message_text)
          (list_source_syncs_by_last_update jobs rows) none row cfg found in
      let is_first = listed-IsFirst jobs rows row m in
      record {
        row = row;
        cfg = cfg;
        member = is_first.member;
        due = (is_due_iff jobs row).0 is_first.due;
        configured = taken.configured;
        synced = taken.synced;
        untouched = λ r other other' m.
            after-untouched status_is_written cfg.name _ _ r other'
              (mem-map_if_kept (λ x. x.name == row.name) _ rows r other m);
        terminal = λ e r m named. after-IsTerminal status_is_written cfg.name _ _ e r m named;
      }

  Settled-Worked :
      (jobs : JobEnv) (status_is_written : Bool) (rows : List SyncRow) (w : W)
      (answer : Outcome String (Option SourceConfig)) (rows' : List SyncRow)
      (prefetched : Option (FetchResult u))
      → Settled jobs
          (wants_sync env message_text)
          (find_job jobs
            (wants_sync env message_text)
            (list_source_syncs_by_last_update jobs rows)
            none).0
          rows
          (answer, rows')
      → ((run_job env message_text ended status_is_written answer prefetched rows' w).0 ≡ rows)
        ⊎ Worked jobs status_is_written rows
            (run_job env message_text ended status_is_written answer prefetched rows' w).0
  Settled-Worked jobs status_is_written rows w answer rows' prefetched (inl (no_job, same)) =
      inl (run_job-rows status_is_written answer prefetched rows' w no_job ∙ same)
  Settled-Worked jobs status_is_written rows w answer rows' prefetched (inr out) = inr (
      rw (out.answered, out.marked)
        (run_job-Worked jobs status_is_written prefetched rows w out.row out.cfg out.found))

  -- A tick leaves all rows as they are, or it works on one source that syncs, of a row that is due:
  -- rows of other names stay, and those of the source have ended in success or failure if the status can be written.
  pub process_next_sync_job-rows :
      (jobs : JobEnv) (faults : DbFaults) (status_is_written : Bool) (rows : List SyncRow) (w : W)
      → ((process_next_sync_job env message_text jobs faults ended status_is_written rows w).0
          ≡ rows)
        ⊎ Worked jobs status_is_written rows
            (process_next_sync_job env message_text jobs faults ended status_is_written rows w).0
  unfolding process_next_sync_job
  process_next_sync_job-rows jobs faults status_is_written rows w =
      Settled-Worked jobs status_is_written rows w _ _ _
        (get_next_sync_job-cases jobs (wants_sync env message_text) faults rows none)
