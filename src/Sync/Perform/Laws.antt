-- ===== src/Sync/Perform/Laws.antt =====
-- What a sync does to the stored data.
use toolhive_registry_server.Prelude.{Option, ◌≡◌, ◌≢◌, refl, Outcome, ok, err, String}
use toolhive_registry_server.Config.{SourceConfig}
use toolhive_registry_server.Filtering.Service.{Upstream}
use toolhive_registry_server.Sync.Manager.{Env, FetchResult}
use toolhive_registry_server.Sync.Perform.{
  storage_failed, SyncError, SyncResult, fetch_and_process_registry_data, stored_result,
  perform_sync,
}

err_eq : (a b : SyncError) → ◌≡◌ {A = Outcome SyncError SyncResult} (err a) (err b) → a ≡ b
err_eq a b h = cc

module _ {u : Upstream} {W : Type 0} (env : Env u W) where
  -- What `PerformSync` does with the data, or with the error that came instead.
  abbrev ended_with :
      SourceConfig → W → Outcome SyncError (FetchResult u) → Outcome SyncError SyncResult × W
  ended_with cfg w fetched = elim fetched [
    | err e ↦ (err e, w)
    | ok result ↦
        let (answer, w') = env.store cfg.name result.registry w in
        (stored_result env result answer, w')
  ]

  stored_result-failed :
      (result : FetchResult u) (answer : Outcome String (Unit {0})) (e : SyncError)
      → stored_result env result answer ≡ err e
      → e.condition_reason ≡ storage_failed
  unfolding stored_result
  stored_result-failed result (err x) e h = let same = err_eq _ e h in rw (← same) refl
  stored_result-failed result (ok _) e h = absurd (cc)

  unstored :
      (cfg : SourceConfig) (w : W) (fetched : Outcome SyncError (FetchResult u)) (e : SyncError)
      → (ended_with cfg w fetched).0 ≡ err e
      → e.condition_reason ≢ storage_failed
      → (ended_with cfg w fetched).1 ≡ w
  unstored cfg w (err x) e h other = refl
  unstored cfg w (ok result) e h other = absurd (other (stored_result-failed result _ e h))

  -- A sync that fails for any reason but storing leaves the stored data as they were.
  pub perform_sync-unstored :
      (cfg : SourceConfig) (prefetched : Option (FetchResult u)) (w : W) (e : SyncError)
      → (perform_sync env cfg prefetched w).0 ≡ err e
      → e.condition_reason ≢ storage_failed
      → (perform_sync env cfg prefetched w).1 ≡ w
  unfolding perform_sync
  perform_sync-unstored cfg prefetched w e h other =
      unstored cfg w (fetch_and_process_registry_data env cfg prefetched) e h other
