-- ===== src/Listing/Batches.antt =====
-- Batches of rows, the filters over several of them, and the cut to a page.
use mathlib.Core.List.Memᴰ.{cases_cons}
use toolhive_registry_server.Prelude.{
  Memᴰ, ℕ, zero, suc, ◌<◌, ◌≤◌, ◌≡◌, refl, ap, inl, inr, String, Bool, Option, none, some, List, [],
  ◌∷◌, ◌++◌, Outcome, ok, ◌>>=◌, >>=-eq-ok, length, ltb, flat_map, arith, Bool-cases, if◌then◌else◌,
}
use toolhive_registry_server.Claims.Stored.{FilterError, RecordFilter}
use toolhive_registry_server.Listing.{
  Seen, Page, Cursor, last_or, take, take_row, take_batch, trim, advance,
}

module _ {R : Type 0} where
  -- The rows of all batches, in their order.
  abbrev pub concat : List (List R) → List R
  concat batches = flat_map (λ b. b) batches

  pub append_assoc : (xs ys zs : List R) → (xs ++ ys) ++ zs ≡ xs ++ (ys ++ zs)
  append_assoc [] ys zs = refl
  append_assoc (x ∷ xs) ys zs = ap (λ l. x ∷ l) (append_assoc xs ys zs)

  pub append_nil : (xs : List R) → xs ++ [] ≡ xs
  append_nil [] = refl
  append_nil (x ∷ xs) = ap (λ l. x ∷ l) (append_nil xs)

  pub length-take : (n : ℕ) (xs : List R) → length (take n xs) ≤ n
  length-take zero xs = omega arith
  length-take (suc n) [] = omega arith
  length-take (suc n) (x ∷ xs) = omega (arith, length-take n xs)

  take-all : (n : ℕ) (xs : List R) → length xs ≤ n → take n xs ≡ xs
  take-all zero [] h = refl
  take-all zero (x ∷ xs) h = absurd (omega (arith, h))
  take-all (suc n) [] h = refl
  take-all (suc n) (x ∷ xs) h = ap (λ l. x ∷ l) (take-all n xs (omega (arith, h)))

  pub mem-take : {x : R} (n : ℕ) (xs : List R) → Memᴰ x (take n xs) → Memᴰ x xs
  mem-take zero xs m = elim m [ ]
  mem-take (suc n) [] m = elim m [ ]
  mem-take (suc n) (y ∷ ys) m = elim (cases_cons m) [
    | inl e ↦ Memᴰ.head e
    | inr k ↦ Memᴰ.tail (mem-take n ys k)
  ]

  last_or-some : (o : R) (xs : List R) → (r : R) × (last_or (some o) xs ≡ some r)
  last_or-some o [] = (o, refl)
  last_or-some o (x ∷ xs) = last_or-some x xs

  last_or-take :
      (n : ℕ) (xs : List R) → 0 < n → 0 < length xs → (r : R) × (last_or none (take n xs) ≡ some r)
  last_or-take zero xs h k = absurd (omega (arith, h))
  last_or-take (suc n) [] h k = absurd (omega (arith, k))
  last_or-take (suc n) (x ∷ xs) h k = last_or-some x (take n xs)

module _ {R : Type 0} (extract : R → Option (String × ℕ)) (filter : Option (RecordFilter R)) where
  abbrev pub answer : List R → Seen → Outcome FilterError (List R × Seen)
  answer rows seen = ok (rows, seen)

  pub ok-pair : (a b : List R) (s s' : Seen) → answer a s ≡ answer b s' → (a ≡ b) × (s ≡ s')
  ok-pair a b s s' h =
      let same : ◌≡◌ {A = List R × Seen} (a, s) (b, s') = cc in
      (ap (λ p. p.0) same, ap (λ p. p.1) same)

  -- Two batches, one after the other, are filtered like one.
  pub take_batch-append :
      (seen seen' seen'' : Seen) (b c kept kept' : List R)
      → take_batch extract filter seen b ≡ ok (kept, seen')
      → take_batch extract filter seen' c ≡ ok (kept', seen'')
      → take_batch extract filter seen (b ++ c) ≡ ok (kept ++ kept', seen'')
  unfolding take_batch
  take_batch-append seen seen' seen'' [] c kept kept' h k =
      let pair : answer [] seen ≡ answer kept seen' = h in
      let (same_kept, same_seen) = ok-pair [] kept seen seen' pair in
      rw (← same_kept) (rw (← same_seen) at k)
  take_batch-append seen seen' seen'' (r ∷ b) c kept kept' h k =
      let finish =
        λ (x : Bool × Seen) (y : List R × Seen). answer (if x.0 then r ∷ y.0 else y.0) y.1 in
      let ((kept_it, seen1), row, h1) =
        >>=-eq-ok (take_row extract filter seen r)
          (λ x. take_batch extract filter x.1 b >>= finish x) h in
      let ((kept_b, seen2), rest, h2) =
        >>=-eq-ok (take_batch extract filter seen1 b) (finish (kept_it, seen1)) h1 in
      let (same_kept, same_seen) =
        ok-pair (if kept_it then r ∷ kept_b else kept_b) kept seen2 seen' h2 in
      let k' = rw (← same_seen) at k in
      let both = take_batch-append seen1 seen2 seen'' b c kept_b kept' rest k' in
      elim (Bool-cases kept_it) [
        | inl e ↦ rw row (rw both (rw (← same_kept) (rw e refl)))
        | inr e ↦ rw row (rw both (rw (← same_kept) (rw e refl)))
      ]

module _ {R : Type 0} (cursor_of : R → Cursor) where
  -- A page that is cut from rows.
  abbrev pub cut : ℕ → List R → Page R
  cut limit all = record {
    rows = take limit all;
    last_cursor =
        if ltb limit (length all)
        then elim (last_or none (take limit all)) [ none ↦ none | some r ↦ some (cursor_of r) ]
        else none;
  }

  pub trim-cut :
      (Q : Type 0) (limit : ℕ) (all : List R)
      → 0 < limit
      → trim {Q = Q} cursor_of limit all ≡ ok (cut limit all)
  unfolding trim
  trim-cut Q limit all positive = elim (Bool-cases (ltb limit (length all))) [
    | inl long ↦
        let (r, last) = last_or-take limit all positive (ground arith) in rw long (rw last refl)
    | inr short ↦ rw short (rw (take-all limit all (ground arith)) refl)
  ]

module _ {R Q : Type 0} (cursor_of : R → Cursor) (query : Option Cursor → Outcome Q (List R))
    (limit : ℕ) where
  -- The batches that the query answers from a cursor on: after one that is full, the query is asked
  -- for the rows behind it.
  pub data Batches : Option Cursor → List (List R) → Type 0 where
    one :
        {cursor : Option Cursor} (batch : List R)
        → query cursor ≡ ok batch
        → Batches cursor (batch ∷ [])
    more :
        {cursor : Option Cursor} (batch : List R) {batches : List (List R)}
        → query cursor ≡ ok batch
        → limit < length batch
        → Batches (advance cursor_of cursor batch) batches
        → Batches cursor (batch ∷ batches)

  -- The last batch is not full.
  pub data Exhausted : List (List R) → Type 0 where
    short : {batch : List R} → length batch ≤ limit → Exhausted (batch ∷ [])
    later :
        {batch : List R} {batches : List (List R)} → Exhausted batches → Exhausted (batch ∷ batches)
