-- ===== src/Sync/Jobs/Due.antt =====
-- Which row the query `ListSourceSyncsByLastUpdate` of database/queries/sync.sql answers.
use mathlib.Core.List.Memᴰ.{cases_cons}
use toolhive_registry_server.Prelude.{
  ◌+ℤ◌, ◌≤ℤ◌, leb_ℤ_iff, arith, ℤ, true, false, Option, none, some, List, [], ◌∷◌, ◌≡◌, refl, ◌⊎◌,
  ◌↔◌, inl, inr, Memᴰ, Bool-cases, Option-cases,
}
use toolhive_registry_server.Sync.Status.{SyncRow}
use toolhive_registry_server.Sync.Jobs.{
  JobEnv, has_elapsed, is_due, ended_before, is_before, first_of, first_due,
  list_source_syncs_by_last_update,
}

-- Of two times, the one is not before the other, and this is passed on.
not_before_trans :
    (a b c : Option ℤ)
    → ended_before a b ≡ false
    → ended_before b c ≡ false
    → ended_before a c ≡ false
unfolding ended_before
not_before_trans none none c h k = k
not_before_trans none (some b) c h k = absurd (cc)
not_before_trans (some a) b none h k = refl
not_before_trans (some a) none (some c) h k = absurd (cc)
not_before_trans (some a) (some b) (some c) h k = ground arith

not_before_refl : (a : Option ℤ) → ended_before a a ≡ false
unfolding ended_before
not_before_refl none = refl
not_before_refl (some a) = ground arith

before-not_after : (a b : Option ℤ) → ended_before a b ≡ true → ended_before b a ≡ false
unfolding ended_before
before-not_after none none h = refl
before-not_after none (some b) h = refl
before-not_after (some a) none h = absurd (cc)
before-not_after (some a) (some b) h = ground arith

module _ (env : JobEnv) where
  -- One of the rows that is due, such that none that is due has ended before it.
  pub record IsFirst (rows : List SyncRow) (row : SyncRow) : Type 0 where
    pub member : Memᴰ row rows
    pub due : is_due env row ≡ true
    pub first :
        (r : SyncRow)
        → Memᴰ r rows
        → is_due env r ≡ true
        → ended_before r.ended_at row.ended_at ≡ false

  is_before-not_after :
      (a b : SyncRow) → is_before env a b ≡ true → ended_before b.ended_at a.ended_at ≡ false
  unfolding is_before
  is_before-not_after a b h = elim (Bool-cases (ended_before a.ended_at b.ended_at)) [
    | inl e ↦ before-not_after a.ended_at b.ended_at e
    | inr e ↦ ground arith
  ]

  not_is_before :
      (a b : SyncRow) → is_before env a b ≡ false → ended_before a.ended_at b.ended_at ≡ false
  unfolding is_before
  not_is_before a b h = ground arith

  in_tail :
      (r row : SyncRow) (rows : List SyncRow)
      → IsFirst rows row
      → (is_due env r ≡ true → ended_before r.ended_at row.ended_at ≡ false)
      → IsFirst (r ∷ rows) row
  in_tail r row rows f h = record {
    member = Memᴰ.tail f.member;
    due = f.due;
    first = λ s m d. elim (cases_cons m) [
      | inl e ↦ let k : is_due env r ≡ true = rw (← e) d in rw e (h k)
      | inr k ↦ f.first s k d
    ];
  }

  at_head :
      (r : SyncRow) (rows : List SyncRow)
      → is_due env r ≡ true
      → ((s : SyncRow)
          → Memᴰ s rows
          → is_due env s ≡ true
          → ended_before s.ended_at r.ended_at ≡ false)
      → IsFirst (r ∷ rows) r
  at_head r rows d h = record {
    member = Memᴰ.head refl;
    due = d;
    first = λ s m ds. elim (cases_cons m) [
      | inl e ↦ rw e (not_before_refl r.ended_at)
      | inr k ↦ h s k ds
    ];
  }

  abbrev NoneDue : List SyncRow → Type 0
  NoneDue rows = (r : SyncRow) → Memᴰ r rows → is_due env r ≡ false

  -- What the query finds: the first row that is due, or none if no row is due.
  abbrev Finds : List SyncRow → Option SyncRow → Type 0
  Finds rows none = NoneDue rows
  Finds rows (some row) = IsFirst rows row

  first_of-Finds :
      (r : SyncRow) (rows : List SyncRow) (found : Option SyncRow)
      → is_due env r ≡ true
      → Finds rows found
      → Finds (r ∷ rows) (first_of env r found)
  first_of-Finds r rows none d h = at_head r rows d (λ s m ds. absurd (let k = h s m in cc))
  first_of-Finds r rows (some s) d f = elim (Bool-cases (is_before env s r)) [
    | inl e ↦ rw e (in_tail r s rows f (λ _. is_before-not_after s r e))
    | inr e ↦ rw e (
        at_head r rows d (λ t m dt.
          not_before_trans t.ended_at s.ended_at r.ended_at (f.first t m dt) (not_is_before s r e)))
  ]

  passed_over :
      (r : SyncRow) (rows : List SyncRow) (found : Option SyncRow)
      → is_due env r ≡ false
      → Finds rows found
      → Finds (r ∷ rows) found
  passed_over r rows none d h = λ s m. elim (cases_cons m) [ inl e ↦ rw e d | inr k ↦ h s k ]
  passed_over r rows (some s) d f = in_tail r s rows f (λ k. absurd (cc))

  first_due-Finds : (rows : List SyncRow) → Finds rows (first_due env rows)
  unfolding first_due
  first_due-Finds [] = λ r m. elim m [ ]
  first_due-Finds (r ∷ rows) = elim (Bool-cases (is_due env r)) [
    | inl e ↦ rw e (first_of-Finds r rows (first_due env rows) e (first_due-Finds rows))
    | inr e ↦ rw e (passed_over r rows (first_due env rows) e (first_due-Finds rows))
  ]

  -- A row that the query answers is the first that is due.
  pub listed-IsFirst :
      (rows : List SyncRow) (row : SyncRow)
      → Memᴰ row (list_source_syncs_by_last_update env rows)
      → IsFirst rows row
  unfolding list_source_syncs_by_last_update
  listed-IsFirst rows row m = elim (Option-cases (first_due env rows)) [
    | inl e ↦ (let k : Memᴰ row [] = rw (e, list_source_syncs_by_last_update) at m in elim k [ ])
    | inr (r, e) ↦
        let found : IsFirst rows r = rw e at (first_due-Finds rows) in
        let k : Memᴰ row (r ∷ []) = rw (e, list_source_syncs_by_last_update) at m in
        elim (cases_cons k) [ inl same ↦ rw same found | inr l ↦ elim l [ ] ]
  ]

  -- There was no end, or its time and the schedule add up to no later than the clock.
  abbrev pub Elapsed : Option ℤ → Option ℤ → Type 0
  Elapsed none schedule = Unit
  Elapsed (some ended) none = ⊥
  Elapsed (some ended) (some schedule) = ended +ℤ schedule ≤ℤ env.now

  -- The source of the row syncs, its schedule has run out, and no other transaction holds the row.
  abbrev pub IsDue : SyncRow → Type 0
  IsDue row =
      (row.syncable ≡ true) × Elapsed row.ended_at row.sync_schedule × (env.locked row.name ≡ false)

  has_elapsed_iff :
      (ended schedule : Option ℤ)
      → (has_elapsed env.now ended schedule ≡ true) ↔ Elapsed ended schedule
  unfolding has_elapsed
  has_elapsed_iff none schedule = (λ _. tt, λ _. refl)
  has_elapsed_iff (some ended) none = (λ h. absurd (cc), λ h. absurd h)
  has_elapsed_iff (some ended) (some schedule) = leb_ℤ_iff (ended +ℤ schedule) env.now

  pub is_due_iff : (row : SyncRow) → (is_due env row ≡ true) ↔ IsDue row
  unfolding is_due
  is_due_iff row =
      let (to, from) = has_elapsed_iff row.ended_at row.sync_schedule in
      (
        λ h. (ground arith, to (ground arith), ground arith),
        λ (s, e, l). rw s (rw (from e) (rw l refl)),
      )

  -- The row is due, and has ended before all others that are due.
  pub record IsNext (rows : List SyncRow) (row : SyncRow) : Type 0 where
    pub member : Memᴰ row rows
    pub due : IsDue row
    pub next :
        (r : SyncRow)
        → Memᴰ r rows
        → IsDue r
        → (r ≡ row) ⊎ (ended_before row.ended_at r.ended_at ≡ true)

  pub listed-next :
      (rows : List SyncRow) (row : SyncRow)
      → IsNext rows row
      → list_source_syncs_by_last_update env rows ≡ row ∷ []
  unfolding list_source_syncs_by_last_update
  listed-next rows row n = elim (Option-cases (first_due env rows)) [
    | inl e ↦
        let none_due : NoneDue rows = rw e at (first_due-Finds rows) in
        absurd (let k = none_due row n.member in let d = (is_due_iff row).1 n.due in cc)
    | inr (r, e) ↦
        let f : IsFirst rows r = rw e at (first_due-Finds rows) in
        elim (n.next r f.member ((is_due_iff r).0 f.due)) [
          | inl same ↦ rw (e, list_source_syncs_by_last_update) (rw same refl)
          | inr before ↦ absurd (let k = f.first row n.member ((is_due_iff row).1 n.due) in cc)
        ]
  ]
