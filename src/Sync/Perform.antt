-- ===== src/Sync/Perform.antt =====
-- The execution of one sync: `PerformSync` and its steps in internal/sync/manager.go.
pub mod Laws
use toolhive_registry_server.Prelude.{
  ℕ, String, Option, none, some, Outcome, ok, err, ◌>>=◌, ◌>>◌, wrap_err, length,
}
use toolhive_registry_server.Config.{SourceConfig}
use toolhive_registry_server.Filtering.Service.{Upstream, apply_filters}
use toolhive_registry_server.Sync.Manager.{FetchResult, Env}

-- The `conditionReason` constants.
pub data ConditionReason : Type 0 where
  handler_creation_failed validation_failed fetch_failed storage_failed : ConditionReason

pub data ConditionType : Type 0 where
  source_available data_valid sync_successful api_ready : ConditionType

-- The fixed part of an error's message; the text of the cause follows it.
pub data MessageHead : Type 0 where
  creating_handler validating fetching filtering storing : MessageHead

-- `Error`; its message is the fixed part with the cause.
pub record SyncError : Type 0 where
  pub cause : String
  pub message : MessageHead
  pub condition_type : ConditionType
  pub condition_reason : ConditionReason

abbrev sync_error : MessageHead → ConditionType → ConditionReason → String → SyncError
sync_error message condition_type condition_reason cause = record {
  cause = cause;
  message = message;
  condition_type = condition_type;
  condition_reason = condition_reason;
}

-- `Result`
pub record SyncResult : Type 0 where
  pub hash : String
  pub server_count : ℕ
  pub skill_count : ℕ
  pub plugin_count : ℕ

module _ {u : Upstream} {W : Type 0} (env : Env u W) where
  -- `applyFilteringIfConfigured` returns the fetch result as it leaves it.
  apply_filtering_if_configured : SourceConfig → FetchResult u → Outcome SyncError (FetchResult u)
  apply_filtering_if_configured cfg fetched = elim cfg.filter [
    | none ↦ ok fetched
    | some filter ↦ do
      filtered ←
          wrap_err (sync_error filtering sync_successful fetch_failed)
            (apply_filters u env.glob fetched.registry (some filter))
      ok (record fetched {
        registry = filtered;
        server_count = length filtered.servers;
        skill_count = length filtered.skills;
        plugin_count = length filtered.plugins;
      })
  ]

  fetch_unless_prefetched :
      SourceConfig → Option (FetchResult u) → Outcome SyncError (FetchResult u)
  fetch_unless_prefetched cfg (some prefetched) = ok prefetched
  fetch_unless_prefetched cfg none = do
    handler ←
        wrap_err (sync_error creating_handler source_available handler_creation_failed)
          (env.create_handler cfg)
    wrap_err (sync_error validating source_available validation_failed) (handler.validate cfg)
    wrap_err (sync_error fetching sync_successful fetch_failed) (handler.fetch_registry cfg)

  fetch_and_process_registry_data :
      SourceConfig → Option (FetchResult u) → Outcome SyncError (FetchResult u)
  unfolding apply_filtering_if_configured fetch_unless_prefetched
  fetch_and_process_registry_data cfg prefetched = do
    fetched ← fetch_unless_prefetched cfg prefetched
    apply_filtering_if_configured cfg fetched

  abbrev result_of : FetchResult u → SyncResult
  result_of fetched = record {
    hash = fetched.hash;
    server_count = fetched.server_count;
    skill_count = fetched.skill_count;
    plugin_count = fetched.plugin_count;
  }

  -- What `PerformSync` returns once the writer has answered.
  stored_result : FetchResult u → Outcome String (Unit {0}) → Outcome SyncError SyncResult
  stored_result fetched (err e) = err (sync_error storing sync_successful storage_failed e)
  stored_result fetched (ok _) = ok (result_of fetched)

  -- `PerformSync` on the stored data.
  unfoldable pub perform_sync :
      SourceConfig → Option (FetchResult u) → W → Outcome SyncError SyncResult × W
  unfolding fetch_and_process_registry_data stored_result
  perform_sync cfg prefetched w = elim (fetch_and_process_registry_data cfg prefetched) [
    | err e ↦ (err e, w)
    | ok fetched ↦
        let (answer, w') = env.store cfg.name fetched.registry w in
        (stored_result fetched answer, w')
  ]
