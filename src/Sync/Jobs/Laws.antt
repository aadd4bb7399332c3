-- ===== src/Sync/Jobs/Laws.antt =====
-- Which job the queue hands out, and what it does to the rows.
use toolhive_registry_server.Prelude.{
  Bool, true, false, String, Outcome, ok, err, Option, none, some, List, [], ◌∷◌, ◌≡◌, ◌≢◌, refl,
  ◌⊎◌, inl, inr, Memᴰ, Option-cases, if◌then◌else◌,
}
use toolhive_registry_server.Config.{SourceConfig, is_non_synced_source}
use toolhive_registry_server.Sync.Status.{SyncRow, SyncStatus, row_to_status}
use toolhive_registry_server.Sync.Jobs.{
  JobEnv, DbFaults, mark_in_progress, config_of, ask, find_job, finish, get_next_sync_job,
  list_source_syncs_by_last_update,
}

-- The queue hands out no source.
abbrev pub NoJob : Outcome String (Option SourceConfig) → Type 0
NoJob answer = (cfg : SourceConfig) → answer ≢ ok (some cfg)

NoJob-of_err : (e : String) → NoJob (err e)
NoJob-of_err e cfg h = cc

NoJob-of_none : NoJob (ok none)
NoJob-of_none cfg h = cc

module _ {S : Type 0} (env : JobEnv) (predicate : SourceConfig → SyncStatus → S → Bool × S) where
  -- The source of the row is `cfg`, it syncs, and the predicate takes it in the state `s`.
  pub record Takes (row : SyncRow) (cfg : SourceConfig) (s : S) : Type 0 where
    pub configured : config_of env row ≡ some cfg
    pub synced : is_non_synced_source cfg ≡ false
    pub wanted : (predicate cfg (row_to_status env.duration_string row) s).0 ≡ true

  asked-some :
      (non_synced wanted : Bool) (c cfg : SourceConfig) (s s' : S)
      → (if◌then◌else◌ {A = Option SourceConfig × S} non_synced
          (none, s)
          ((if wanted then some c else none), s')).0
        ≡ some cfg
      → (non_synced ≡ false) × (wanted ≡ true) × (c ≡ cfg)
  asked-some true wanted c cfg s s' h = absurd (cc)
  asked-some false false c cfg s s' h = absurd (cc)
  asked-some false true c cfg s s' h = (refl, refl, cc)

  ask-Takes :
      (row : SyncRow) (known : Option SourceConfig) (s : S) (cfg : SourceConfig)
      → config_of env row ≡ known
      → (ask env predicate row known s).0 ≡ some cfg
      → Takes row cfg s
  unfolding ask
  ask-Takes row none s cfg e h = absurd (cc)
  ask-Takes row (some c) s cfg e h =
      let (synced, wanted, same) = asked-some _ _ _ _ _ _ h in
      rw (← same) (record { configured = e; synced = synced; wanted = wanted })

  with_tail :
      (row r : SyncRow) (rows : List SyncRow) (cfg : SourceConfig)
      → Memᴰ row rows × ((t : S) × Takes row cfg t)
      → Memᴰ row (r ∷ rows) × ((t : S) × Takes row cfg t)
  with_tail row r rows cfg (m, taken) = (Memᴰ.tail m, taken)

  pair_eq :
      (r row : SyncRow) (c cfg : SourceConfig)
      → ◌≡◌ {A = Option (SyncRow × SourceConfig)} (some (r, c)) (some (row, cfg))
      → (row ≡ r) × (c ≡ cfg)
  pair_eq r row c cfg h = (cc, cc)

  -- The row that the loop stops at is one of the rows, its source has a configuration, which is
  -- handed out, the source is one that syncs, and the predicate takes it in some state.
  pub find_job-Takes :
      (rows : List SyncRow) (s : S) (row : SyncRow) (cfg : SourceConfig)
      → (find_job env predicate rows s).0 ≡ some (row, cfg)
      → Memᴰ row rows × ((t : S) × Takes row cfg t)
  unfolding find_job
  find_job-Takes [] s row cfg h = absurd (cc)
  find_job-Takes (r ∷ rows) s row cfg h =
      elim (Option-cases (ask env predicate r (config_of env r) s).0) [
        | inl e ↦
            let later : (find_job env predicate rows (ask env predicate r (config_of env r) s).1).0
                ≡ some (row, cfg) =
              rw (e, find_job) at h in
            with_tail row r rows cfg (find_job-Takes rows _ row cfg later)
        | inr (c, e) ↦
            let found : some (r, c) ≡ some (row, cfg) = rw (e, find_job) at h in
            let (same, same_cfg) = pair_eq r row c cfg found in
            let taken = ask-Takes r (config_of env r) s c refl e in
            (Memᴰ.head same, (s, rw (same, ← same_cfg) taken))
      ]

  -- The source is handed out, and its rows are marked as in progress.
  pub record HandedOut (job : Option (SyncRow × SourceConfig)) (rows : List SyncRow)
      (result : Outcome String (Option SourceConfig) × List SyncRow) : Type 0 where
    pub row : SyncRow
    pub cfg : SourceConfig
    pub found : job ≡ some (row, cfg)
    pub answered : result.0 ≡ ok (some cfg)
    pub marked : result.1 ≡ mark_in_progress env.now row.name rows

  -- Nothing is handed out and the rows stay, or a source is handed out.
  abbrev pub Settled :
      Option (SyncRow × SourceConfig)
      → List SyncRow
      → Outcome String (Option SourceConfig) × List SyncRow
      → Type 0
  Settled job rows result = (NoJob result.0 × (result.1 ≡ rows)) ⊎ HandedOut job rows result

  finish-cases :
      (faults : DbFaults) (rows : List SyncRow) (job : Option (SyncRow × SourceConfig))
      → Settled job rows (finish env predicate faults rows job)
  unfolding finish
  finish-cases faults rows none = elim (Option-cases faults.commit) [
    | inl e ↦ rw (e, finish) (inl (NoJob-of_none, refl))
    | inr (f, e) ↦ rw (e, finish) (inl (NoJob-of_err f, refl))
  ]
  finish-cases faults rows (some (row, cfg)) = elim (Option-cases faults.update) [
    | inl e ↦ elim (Option-cases faults.commit) [
      | inl e' ↦
          rw (e, finish)
            (rw (e', finish)
              (inr (record { row = row; cfg = cfg; found = refl; answered = refl; marked = refl })))
      | inr (f, e') ↦ rw (e, finish) (rw (e', finish) (inl (NoJob-of_err f, refl)))
    ]
    | inr (f, e) ↦ rw (e, finish) (inl (NoJob-of_err f, refl))
  ]

  -- The answer and the rows of the queue.
  abbrev pub settled :
      DbFaults → List SyncRow → S → Outcome String (Option SourceConfig) × List SyncRow
  settled faults rows s =
      let (answer, rows', s') = get_next_sync_job env predicate faults rows s in (answer, rows')

  pub get_next_sync_job-cases :
      (faults : DbFaults) (rows : List SyncRow) (s : S)
      → Settled
          (find_job env predicate (list_source_syncs_by_last_update env rows) s).0
          rows
          (settled faults rows s)
  unfolding get_next_sync_job
  get_next_sync_job-cases faults rows s = elim (Option-cases faults.begin) [
    | inl e ↦ elim (Option-cases faults.list) [
      | inl e' ↦
          rw (e, get_next_sync_job)
            (rw (e', get_next_sync_job)
              (finish-cases faults rows
                (find_job env predicate (list_source_syncs_by_last_update env rows) s).0))
      | inr (f, e') ↦
          rw (e, get_next_sync_job) (rw (e', get_next_sync_job) (inl (NoJob-of_err f, refl)))
    ]
    | inr (f, e) ↦ rw (e, get_next_sync_job) (inl (NoJob-of_err f, refl))
  ]
