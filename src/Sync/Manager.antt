-- ===== src/Sync/Manager.antt =====
-- The sync manager: internal/sync/manager.go and internal/sync/detectors.go, with the interfaces
-- of internal/sources/types.go that it calls. Log lines are left out.
pub mod Decision
use toolhive_registry_server.Prelude.{
  ℕ, ℤ, pos, String, Bool, true, false, not, ◌&&◌, ◌||◌, Option, none, some, Outcome, ok, err,
  ◌>>=◌, leb, leb_ℤ, ◌+ℤ◌, ◌-ℤ◌, ◌==◌, blank, length, if◌then◌else◌,
}
use toolhive_registry_server.Config.{SourceConfig, FilterConfig}
use toolhive_registry_server.Filtering.Names.{Glob}
use toolhive_registry_server.Filtering.Service.{Upstream, Registry, apply_filters}
use toolhive_registry_server.Sync.Status.{Phase, syncing, complete, failed, other_phase, SyncStatus}

-- `Reason`, in the order of its constants.
pub data Reason : Type 0 where
  registry_not_ready filter_changed source_data_changed error_checking_changes : Reason
  manual_with_changes already_in_progress manual_no_changes error_parsing_interval : Reason
  error_checking_sync_need up_to_date_with_policy up_to_date_no_policy : Reason

-- The value that `iota` gives the constant.
abbrev pub ordinal : Reason → ℕ
ordinal registry_not_ready = 0
ordinal filter_changed = 1
ordinal source_data_changed = 2
ordinal error_checking_changes = 3
ordinal manual_with_changes = 4
ordinal already_in_progress = 5
ordinal manual_no_changes = 6
ordinal error_parsing_interval = 7
ordinal error_checking_sync_need = 8
ordinal up_to_date_with_policy = 9
ordinal up_to_date_no_policy = 10

unfoldable pub reason_should_sync : Reason → Bool
reason_should_sync r = leb (ordinal r) (ordinal manual_with_changes)

pub record FetchResult (u : Upstream) : Type 0 where
  pub registry : Registry u
  pub hash : String
  pub server_count : ℕ
  pub skill_count : ℕ
  pub plugin_count : ℕ

-- `RegistryHandler`; an error is its text.
pub record SourceHandler (u : Upstream) : Type 0 where
  pub validate : SourceConfig → Outcome String (Unit {0})
  pub fetch_registry : SourceConfig → Outcome String (FetchResult u)

-- What the manager is given: the handler factory, the writer on the stored data `W`, the clock's
-- reading, `time.ParseDuration`, and the hash of a filter (`none`: it does not marshal).
pub record Env (u : Upstream) (W : Type 0) : Type 0 where
  pub create_handler : SourceConfig → Outcome String (SourceHandler u)
  pub store : String → Registry u → W → Outcome String (Unit {0}) × W
  pub now : ℤ
  pub parse_duration : String → Option ℤ
  pub filter_hash : Option FilterConfig → Option String
  pub glob : Glob

-- `orphanedSyncGracePeriod`: an hour.
abbrev pub orphaned_sync_grace_period : ℤ
orphaned_sync_grace_period = pos 3_600_000_000_000

unfoldable pub is_orphaned_in_progress_sync : ℤ → SyncStatus → Bool
is_orphaned_in_progress_sync now s = elim s.last_attempt [
  | none ↦ true
  | some started ↦ not (leb_ℤ (now -ℤ started) orphaned_sync_grace_period)
]

-- The tests on a phase that is known.
abbrev phase_needs_sync : Phase → Bool
phase_needs_sync failed = true
phase_needs_sync complete = false
phase_needs_sync _ = true

unfoldable pub is_sync_needed_for_state : Option SyncStatus → Bool
is_sync_needed_for_state none = true
is_sync_needed_for_state (some s) = phase_needs_sync s.phase

abbrev is_syncing : Phase → Bool
is_syncing syncing = true
is_syncing _ = false

-- The hash of the status, if there is one.
abbrev pub known_hash : Option SyncStatus → String
known_hash none = ""
known_hash (some s) = s.last_sync_hash

module _ {u : Upstream} {W : Type 0} (env : Env u W) where
  unfoldable pub is_filter_changed : SourceConfig → SyncStatus → Bool
  is_filter_changed cfg s = elim (env.filter_hash cfg.filter) [
    | none ↦ false
    | some current ↦
        if blank s.last_applied_filter_hash
        then false
        else not (current == s.last_applied_filter_hash)
  ]

  -- `IsIntervalSyncNeeded` of the default checker, with the time of the next sync (`none`: the
  -- zero time). An error is the schedule that does not parse.
  unfoldable pub is_interval_sync_needed : Option SyncStatus → Outcome String (Bool × Option ℤ)
  is_interval_sync_needed none = ok (false, none)
  is_interval_sync_needed (some s) =
      if blank s.sync_schedule
      then ok (false, none)
      else elim (env.parse_duration s.sync_schedule) [
        | none ↦ err s.sync_schedule
        | some interval ↦ elim s.last_attempt [
          | none ↦ ok (true, some (env.now +ℤ interval))
          | some last ↦
              if leb_ℤ (last +ℤ interval) env.now
              then ok (true, some (env.now +ℤ interval))
              else ok (false, some (last +ℤ interval))
        ]
      ]

  -- `IsDataChanged` of the default detector.
  unfoldable pub is_data_changed :
      SourceConfig → Option SyncStatus → Outcome String (Bool × FetchResult u)
  is_data_changed cfg s = do
    handler ← env.create_handler cfg
    result ← handler.fetch_registry cfg
    ok ((if blank (known_hash s) then true else not (result.hash == known_hash s)), result)

  -- The assignments of `ShouldSync` after the data were compared.
  after_check :
      Bool → Bool → Bool → Outcome String (Bool × FetchResult u) → Reason × Option (FetchResult u)
  after_check needed manual changed_filter (err e) = (error_checking_changes, none)
  after_check needed manual changed_filter (ok (true, result)) = (
    (if needed
        then registry_not_ready
        else if manual
        then manual_with_changes
        else if changed_filter
        then filter_changed
        else source_data_changed),
    some result,
  )
  after_check needed manual changed_filter (ok (false, result)) =
      let reason = if manual then manual_no_changes else up_to_date_no_policy in
      if changed_filter then (filter_changed, some result) else (reason, none)

  -- `ShouldSync`, from the error of the interval check on.
  decide_sync :
      SourceConfig
      → SyncStatus
      → Bool
      → Outcome String (Bool × Option ℤ)
      → Reason × Option (FetchResult u)
  unfolding after_check
  decide_sync cfg s manual (err e) = (error_checking_sync_need, none)
  decide_sync cfg s manual (ok (elapsed, next)) =
      let needed = is_sync_needed_for_state (some s) in
      let changed_filter = is_filter_changed cfg s in
      if needed || manual || changed_filter || elapsed
      then after_check needed manual changed_filter (is_data_changed cfg (some s))
      else (up_to_date_no_policy, none)

  unfoldable pub should_sync : SourceConfig → SyncStatus → Bool → Reason × Option (FetchResult u)
  unfolding decide_sync
  should_sync cfg s manual =
      if is_syncing s.phase && not (is_orphaned_in_progress_sync env.now s)
      then (already_in_progress, none)
      else decide_sync cfg s manual (is_interval_sync_needed (some s))
