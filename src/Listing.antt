-- ===== src/Listing.antt =====
-- The list endpoints of internal/service/db/impl_mcp.go, impl_skills.go and impl_plugins.go: rows
-- are fetched in batches, filtered by claims and by source priority, and cut to a page.
pub mod Dedup
pub mod Batches
pub mod Pages
pub mod Endpoint
use toolhive_registry_server.Prelude.{
  ℕ, zero, suc, ◌+◌, ◌-◌, ltb, leb, beq, String, Bool, true, false, ◌||◌, Option, none, some, List,
  [], ◌∷◌, ◌++◌, length, Outcome, ok, err, ◌>>=◌, wrap_err, Dict, lookup, if◌then◌else◌,
}
use toolhive_registry_server.Claims.Stored.{FilterError, unexpected_record_type, RecordFilter}

-- The position of the winning source for each name seen so far.
abbrev pub Seen : Type 0
Seen = Dict ℕ

-- The filter of `newDeduplicatingFilterWith`, with the map that it closes over.
unfoldable pub dedup_filter :
    {R : Type 0} → (R → Option (String × ℕ)) → Seen → R → Outcome FilterError (Bool × Seen)
dedup_filter extract seen row = elim (extract row) [
  | none ↦ err unexpected_record_type
  | some (name, pos) ↦ elim (lookup name seen) [
    | none ↦ ok (true, (name, pos) ∷ seen)
    | some win_pos ↦ ok (beq pos win_pos, seen)
  ]
]

-- The errors of a page: of the query, and of a filter; the third is the panic of `accumulated[-1]`.
pub data ListError (Q : Type 0) : Type 0 where
  query_failed : Q → ListError Q
  filter_failed : FilterError → ListError Q
  index_out_of_range : ListError Q

-- The name and the version of a row, behind which the query goes on.
abbrev pub Cursor : Type 0
Cursor = String × String

-- What a page is: the rows, and the cursor of the next page if there are more.
pub record Page (R : Type 0) : Type 0 where
  pub rows : List R
  pub last_cursor : Option Cursor

module _ {R : Type 0} where
  -- `xs[len(xs)-1]`, or the first argument if there is none.
  abbrev pub last_or : Option R → List R → Option R
  last_or row [] = row
  last_or row (r ∷ rows) = last_or (some r) rows

  -- `xs[:n]`
  abbrev pub take : ℕ → List R → List R
  take zero rows = []
  take (suc n) [] = []
  take (suc n) (r ∷ rows) = r ∷ take n rows

module _ {R Q : Type 0} (cursor_of : R → Cursor) where
  -- The cut to the limit.
  unfoldable pub trim : ℕ → List R → Outcome (ListError Q) (Page R)
  trim limit accumulated =
      if ltb limit (length accumulated)
      then elim (last_or none (take limit accumulated)) [
        | none ↦ err index_out_of_range
        | some last ↦
            ok (record { rows = take limit accumulated; last_cursor = some (cursor_of last) })
      ]
      else ok (record { rows = accumulated; last_cursor = none })

-- The cursor behind a batch; it stays if the batch is empty.
abbrev pub advance : {R : Type 0} → (R → Cursor) → Option Cursor → List R → Option Cursor
advance cursor_of cursor batch = elim (last_or none batch) [
  | none ↦ cursor
  | some r ↦ some (cursor_of r)
]

module _ {R : Type 0} (extract : R → Option (String × ℕ)) (filter : Option (RecordFilter R)) where
  unfoldable pub apply_filter : R → Outcome FilterError Bool
  apply_filter row = elim filter [ none ↦ ok true | some f ↦ f row ]

  -- One row of a batch: the claims filter, then the dedup filter if it kept the row.
  unfoldable pub take_row : Seen → R → Outcome FilterError (Bool × Seen)
  unfolding apply_filter
  take_row seen row = do
    keep ← apply_filter row
    (if keep then dedup_filter extract seen row else ok (false, seen))

  -- The loop over a batch: what it keeps, in order, and the map after it.
  unfoldable pub take_batch : Seen → List R → Outcome FilterError (List R × Seen)
  take_batch seen [] = ok ([], seen)
  take_batch seen (row ∷ rows) = do
    (keep, seen') ← take_row seen row
    (kept, seen'') ← take_batch seen' rows
    ok (if keep then row ∷ kept else kept, seen'')

  module _ {Q : Type 0} (cursor_of : R → Cursor) (query : Option Cursor → Outcome Q (List R))
      (limit : ℕ) where
    -- The loop of `streamHelpers`, `streamSkillRows` and `streamPluginRows`, on fuel: `none` is that
    -- it ran out. The query is asked for `limit + 1` rows behind the cursor.
    unfoldable pub fetch :
        ℕ → Option Cursor → Seen → List R → Option (Outcome (ListError Q) (List R))
    fetch zero cursor seen accumulated = none
    fetch (suc fuel) cursor seen accumulated = elim (query cursor) [
      | err e ↦ some (err (query_failed e))
      | ok batch ↦ elim (take_batch seen batch) [
        | err e ↦ some (err (filter_failed e))
        | ok (kept, seen') ↦
            let all_kept = accumulated ++ kept in
            let rest = fetch fuel (advance cursor_of cursor batch) seen' all_kept in
            if leb (limit + 1) (length all_kept) || ltb (length batch) (limit + 1)
            then some (ok all_kept)
            else rest
      ]
    ]

    -- `streamHelpers` from the cursor of the request.
    unfoldable pub stream : ℕ → Option Cursor → Option (Outcome (ListError Q) (Page R))
    stream fuel cursor = elim (fetch fuel cursor [] []) [
      | none ↦ none
      | some fetched ↦ some (fetched >>= trim cursor_of limit)
    ]
