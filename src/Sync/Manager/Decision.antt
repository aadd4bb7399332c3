-- ===== src/Sync/Manager/Decision.antt =====
-- When a sync is decided on, and what comes with the decision.
use toolhive_registry_server.Prelude.{
  ℤ, String, Bool, true, false, not, ◌&&◌, ◌||◌, Option, some, ◌≡◌, refl, ◌↔◌, ◌⊎◌, inl, inr, arith,
  Outcome, ok, err, is_some, sym, ◌∙◌, Bool-cases,
}
use toolhive_registry_server.Config.{SourceConfig}
use toolhive_registry_server.Filtering.Service.{Upstream}
use toolhive_registry_server.Sync.Status.{SyncStatus}
use toolhive_registry_server.Sync.Manager.{
  Reason, error_checking_changes, reason_should_sync, FetchResult, Env,
  is_orphaned_in_progress_sync, is_sync_needed_for_state, is_filter_changed,
  is_interval_sync_needed, is_data_changed, is_syncing, after_check, decide_sync, should_sync,
}

abbrev pub is_check_error : Reason → Bool
is_check_error error_checking_changes = true
is_check_error _ = false

ok-fst :
    (a b : Bool) (x y : Option ℤ)
    → ◌≡◌ {A = Outcome String (Bool × Option ℤ)} (ok (a, x)) (ok (b, y))
    → a ≡ b
ok-fst a b x y h = cc

module _ {u : Upstream} {W : Type 0} (env : Env u W) where
  after_check-prefetched :
      (needed manual changed_filter : Bool) (checked : Outcome String (Bool × FetchResult u))
      → is_some (after_check env needed manual changed_filter checked).1 ≡ (
          reason_should_sync (after_check env needed manual changed_filter checked).0
          && not (is_check_error (after_check env needed manual changed_filter checked).0))
  unfolding after_check reason_should_sync
  after_check-prefetched needed manual changed_filter (err e) = refl
  after_check-prefetched needed manual changed_filter (ok (changed, result)) = ground arith

  -- Something calls for a check of the source's data: its state, a request, its filter or its
  -- schedule.
  abbrev due : SourceConfig → SyncStatus → Bool → Bool → Bool
  due cfg s manual elapsed =
      is_sync_needed_for_state (some s) || manual || is_filter_changed env cfg s || elapsed

  decide_sync-prefetched :
      (cfg : SourceConfig) (s : SyncStatus) (manual : Bool)
      (interval : Outcome String (Bool × Option ℤ))
      → is_some (decide_sync env cfg s manual interval).1 ≡ (
          reason_should_sync (decide_sync env cfg s manual interval).0
          && not (is_check_error (decide_sync env cfg s manual interval).0))
  unfolding decide_sync reason_should_sync
  decide_sync-prefetched cfg s manual (err e) = refl
  decide_sync-prefetched cfg s manual (ok (elapsed, next)) =
      elim (Bool-cases (due cfg s manual elapsed)) [
        | inl e ↦ rw e (after_check-prefetched _ _ _ _)
        | inr e ↦ rw e refl
      ]

  -- Data come with the reason exactly when the reason asks for a sync, except where the check for
  -- changes failed: that one asks for a sync that has to fetch by itself.
  pub should_sync-prefetched :
      (cfg : SourceConfig) (s : SyncStatus) (manual : Bool)
      → is_some (should_sync env cfg s manual).1 ≡ (
          reason_should_sync (should_sync env cfg s manual).0
          && not (is_check_error (should_sync env cfg s manual).0))
  unfolding should_sync reason_should_sync
  should_sync-prefetched cfg s manual =
      elim (Bool-cases (is_syncing s.phase && not (is_orphaned_in_progress_sync env.now s))) [
        | inl e ↦ rw e refl
        | inr e ↦ rw e (decide_sync-prefetched cfg s manual (is_interval_sync_needed env (some s)))
      ]

  -- The check of the data failed, found a change, or found none under a changed filter.
  abbrev pub Worthwhile : Bool → Outcome String (Bool × FetchResult u) → Type 0
  Worthwhile changed_filter (err e) = Unit
  Worthwhile changed_filter (ok (changed, result)) = (changed ≡ true) ⊎ (changed_filter ≡ true)

  -- The row is not in progress, or has been for longer than the grace period.
  abbrev pub IsFree : SyncStatus → Type 0
  IsFree s = (is_syncing s.phase ≡ false) ⊎ (is_orphaned_in_progress_sync env.now s ≡ true)

  after_check_iff :
      (needed manual changed_filter : Bool) (checked : Outcome String (Bool × FetchResult u))
      → (reason_should_sync (after_check env needed manual changed_filter checked).0 ≡ true)
        ↔ Worthwhile changed_filter checked
  unfolding after_check reason_should_sync
  after_check_iff needed manual changed_filter (err e) = (λ _. tt, λ _. refl)
  after_check_iff needed manual changed_filter (ok (true, result)) =
      (λ _. inl refl, λ _. ground arith)
  after_check_iff needed manual true (ok (false, result)) = (λ _. inr refl, λ _. refl)
  after_check_iff needed manual false (ok (false, result)) =
      (λ h. absurd (ground arith), elim [ inl e ↦ absurd (cc) | inr e ↦ absurd (cc) ])

  -- The schedule reads, something is due by it, and the check of the data makes a sync worthwhile.
  abbrev pub CallsForSync : SourceConfig → SyncStatus → Bool → Type 0
  CallsForSync cfg s manual =
      (elapsed : Bool) × (next : Option ℤ) × (is_interval_sync_needed env (some s)
        ≡ ok (elapsed, next))
      × ((is_sync_needed_for_state (some s) || manual || is_filter_changed env cfg s || elapsed)
          ≡ true)
      × Worthwhile (is_filter_changed env cfg s) (is_data_changed env cfg (some s))

  decide_sync_iff :
      (cfg : SourceConfig) (s : SyncStatus) (manual : Bool)
      (interval : Outcome String (Bool × Option ℤ))
      → is_interval_sync_needed env (some s) ≡ interval
      → (reason_should_sync (decide_sync env cfg s manual interval).0 ≡ true)
        ↔ CallsForSync cfg s manual
  unfolding decide_sync
  decide_sync_iff cfg s manual (err e) known = (
    unfold reason_should_sync in λ h. absurd (cc),
    λ (elapsed, next, p, _, _). absurd (cc (known, p)),
  )
  decide_sync_iff cfg s manual (ok (elapsed, next)) known =
      elim (Bool-cases (due cfg s manual elapsed)) [
        | inl e ↦
            let (to, from) =
              after_check_iff (is_sync_needed_for_state (some s)) manual
                (is_filter_changed env cfg s) (is_data_changed env cfg (some s)) in
            rw e (λ h. (elapsed, next, known, e, to h), λ (_, _, _, _, w). from w)
        | inr e ↦ rw e (
          unfold reason_should_sync in λ h. absurd (cc),
          λ (elapsed', next', p, d, _).
              let same : elapsed ≡ elapsed' = ok-fst _ _ _ _ (sym known ∙ p) in
              let clash : due cfg s manual elapsed ≡ true = rw same d in absurd (cc),
        )
      ]

  -- A sync is asked for exactly when the row is free, its schedule reads, its state, the request,
  -- its filter or its schedule calls for a check, and the check fails, finds changed data, or finds
  -- the same data under a changed filter.
  pub should_sync_iff :
      (cfg : SourceConfig) (s : SyncStatus) (manual : Bool)
      → (reason_should_sync (should_sync env cfg s manual).0 ≡ true)
        ↔ (IsFree s × CallsForSync cfg s manual)
  unfolding should_sync
  should_sync_iff cfg s manual =
      let (to, from) = decide_sync_iff cfg s manual (is_interval_sync_needed env (some s)) refl in
      elim (Bool-cases (is_syncing s.phase && not (is_orphaned_in_progress_sync env.now s))) [
        | inl e ↦ rw e (
          unfold reason_should_sync in λ h. absurd (cc),
          λ (free, _). absurd (elim free [ inl p ↦ ground arith | inr p ↦ ground arith ]),
        )
        | inr e ↦ rw e (λ h. (ground arith, to h), λ (_, calls). from calls)
      ]
