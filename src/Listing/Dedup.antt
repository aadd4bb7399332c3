-- ===== src/Listing/Dedup.antt =====
-- The two filters over the batches, against a description that looks at all rows at once.
use toolhive_registry_server.Prelude.{
  ℕ, ◌≡◌, refl, ap, ◌⊎◌, inl, inr, String, Bool, true, false, ◌&&◌, Option, none, some, List, [],
  ◌∷◌, ◌++◌, ok, lookup, keep, beq, ◌==◌, arith, eq_iff, eq_refl, Bool-cases, Option-cases,
  if◌then◌else◌,
}
use toolhive_registry_server.Claims.Stored.{RecordFilter}
use toolhive_registry_server.Listing.{Seen, dedup_filter, apply_filter, take_row, take_batch}

beq_refl : (a : ℕ) → beq a a ≡ true
beq_refl a = ground arith

append_nil : {R : Type 0} (xs : List R) → xs ++ [] ≡ xs
append_nil [] = refl
append_nil (x ∷ xs) = ap (λ l. x ∷ l) (append_nil xs)

-- What the rows of a list endpoint are: a name and a source position, and a claims filter that
-- answers on each of them.
pub record Rows {R : Type 0} (extract : R → Option (String × ℕ)) (filter : Option (RecordFilter R))
    : Type 0 where
  pub name : R → String
  pub pos : R → ℕ
  pub shown : R → Bool
  pub extracts : (r : R) → extract r ≡ some (name r, pos r)
  pub answers : (r : R) → apply_filter extract filter r ≡ ok (shown r)

module _ {R : Type 0} {extract : R → Option (String × ℕ)} {filter : Option (RecordFilter R)}
    (rows : Rows extract filter) where
  -- The position of the first shown row of a name.
  abbrev pub first_pos : String → List R → Option ℕ
  first_pos n [] = none
  first_pos n (r ∷ rs) =
      if rows.shown r && (rows.name r == n) then some (rows.pos r) else first_pos n rs

  abbrev pub holds_at : ℕ → Option ℕ → Bool
  holds_at pos none = false
  holds_at pos (some q) = beq pos q

  -- The row is shown, and stands at the position that its name has by the winners given.
  abbrev pub wins : (String → Option ℕ) → R → Bool
  wins winner r = rows.shown r && holds_at (rows.pos r) (winner (rows.name r))

  row_hidden :
      (seen : Seen) (r : R)
      → rows.shown r ≡ false
      → take_row extract filter seen r ≡ ok (false, seen)
  unfolding take_row
  row_hidden seen r h = rw (rows.answers r) (rw h refl)

  row_new :
      (seen : Seen) (r : R)
      → rows.shown r ≡ true
      → lookup (rows.name r) seen ≡ none
      → take_row extract filter seen r ≡ ok (true, (rows.name r, rows.pos r) ∷ seen)
  unfolding take_row dedup_filter
  row_new seen r h new =
      rw (rows.answers r) (rw h (rw (rows.extracts r, dedup_filter) (rw new refl)))

  row_seen :
      (seen : Seen) (r : R) (q : ℕ)
      → rows.shown r ≡ true
      → lookup (rows.name r) seen ≡ some q
      → take_row extract filter seen r ≡ ok (beq (rows.pos r) q, seen)
  unfolding take_row dedup_filter
  row_seen seen r q h old =
      rw (rows.answers r) (rw h (rw (rows.extracts r, dedup_filter) (rw old refl)))

  -- A winner is one that was seen, or the first shown row of the rows to come.
  abbrev pub Agrees : Seen → (String → Option ℕ) → List R → Type 0
  Agrees seen winner rest =
      (n : String)
      → ((q : ℕ) × (lookup n seen ≡ some q) × (winner n ≡ some q))
        ⊎ ((lookup n seen ≡ none) × (winner n ≡ first_pos n rest))

  Agrees-hidden :
      (seen : Seen) (winner : String → Option ℕ) (r : R) (rest : List R)
      → rows.shown r ≡ false
      → Agrees seen winner (r ∷ rest)
      → Agrees seen winner rest
  Agrees-hidden seen winner r rest h agrees n = elim (agrees n) [
    | inl seen_before ↦ inl seen_before
    | inr (new, first) ↦ inr (new, rw h at first)
  ]

  Agrees-seen :
      (seen : Seen) (winner : String → Option ℕ) (r : R) (rest : List R) (q : ℕ)
      → lookup (rows.name r) seen ≡ some q
      → Agrees seen winner (r ∷ rest)
      → Agrees seen winner rest
  Agrees-seen seen winner r rest q old agrees n = elim (agrees n) [
    | inl seen_before ↦ inl seen_before
    | inr (new, first) ↦ elim (Bool-cases (rows.name r == n)) [
      | inl same ↦ absurd (
          let e = (eq_iff (rows.name r) n).0 same in
          let old' : lookup n seen ≡ some q = rw (← e) old in cc)
      | inr other ↦ inr (
        new,
        let off : (rows.shown r && (rows.name r == n)) ≡ false = ground arith in rw off at first,
      )
    ]
  ]

  Agrees-new :
      (seen : Seen) (winner : String → Option ℕ) (r : R) (rest : List R)
      → rows.shown r ≡ true
      → lookup (rows.name r) seen ≡ none
      → Agrees seen winner (r ∷ rest)
      → Agrees ((rows.name r, rows.pos r) ∷ seen) winner rest
  unfolding lookup
  Agrees-new seen winner r rest h new agrees n = elim (Bool-cases (rows.name r == n)) [
    | inl same ↦ elim (agrees n) [
      | inl (q, old, _) ↦ absurd (
          let e = (eq_iff (rows.name r) n).0 same in
          let old' : lookup (rows.name r) seen ≡ some q = rw e old in cc)
      | inr (_, first) ↦ rw same (inl (rows.pos r, refl, rw h at (rw same at first)))
    ]
    | inr other ↦ rw other (elim (agrees n) [
      | inl seen_before ↦ inl seen_before
      | inr (new', first) ↦ inr (
        new',
        let off : (rows.shown r && (rows.name r == n)) ≡ false = ground arith in rw off at first,
      )
    ])
  ]

  winner-seen :
      (seen : Seen) (winner : String → Option ℕ) (n : String) (rest : List R) (q : ℕ)
      → Agrees seen winner rest
      → lookup n seen ≡ some q
      → winner n ≡ some q
  winner-seen seen winner n rest q agrees old = elim (agrees n) [
    | inl (q', old', at) ↦ cc
    | inr (new, _) ↦ absurd (cc)
  ]

  winner-new :
      (seen : Seen) (winner : String → Option ℕ) (r : R) (rest : List R)
      → rows.shown r ≡ true
      → Agrees seen winner (r ∷ rest)
      → lookup (rows.name r) seen ≡ none
      → winner (rows.name r) ≡ some (rows.pos r)
  winner-new seen winner r rest h agrees new = elim (agrees (rows.name r)) [
    | inl (q', old', at) ↦ absurd (cc)
    | inr (_, first) ↦
        let on : (rows.shown r && (rows.name r == rows.name r)) ≡ true =
          rw (h, eq_refl (rows.name r)) refl in
        rw on at first
  ]

  -- What a batch leaves: the rows that win, and a map that still agrees.
  abbrev pub Left : Seen → (String → Option ℕ) → List R → List R → Type 0
  Left seen winner batch later =
      (seen' : Seen) × (take_batch extract filter seen batch ≡ ok (keep (wins winner) batch, seen'))
      × Agrees seen' winner later

  pub take_batch-Left :
      (seen : Seen) (winner : String → Option ℕ) (batch later : List R)
      → Agrees seen winner (batch ++ later)
      → Left seen winner batch later
  unfolding take_batch
  take_batch-Left seen winner [] later agrees = (seen, refl, agrees)
  take_batch-Left seen winner (r ∷ batch) later agrees = elim (Bool-cases (rows.shown r)) [
    | inl shown ↦ elim (Option-cases (lookup (rows.name r) seen)) [
      | inl new ↦
          let at = winner-new seen winner r (batch ++ later) shown agrees new in
          let (seen', left, agrees') =
            take_batch-Left ((rows.name r, rows.pos r) ∷ seen) winner batch later
              (Agrees-new seen winner r (batch ++ later) shown new agrees) in
          (
            seen',
            rw (row_new seen r shown new)
                (rw left (rw shown (rw at (rw (beq_refl (rows.pos r)) refl)))),
            agrees',
          )
      | inr (q, old) ↦
          let at = winner-seen seen winner (rows.name r) (r ∷ batch ++ later) q agrees old in
          let (seen', left, agrees') =
            take_batch-Left seen winner batch later
              (Agrees-seen seen winner r (batch ++ later) q old agrees) in
          (seen', rw (row_seen seen r q shown old) (rw left (rw shown (rw at refl))), agrees')
    ]
    | inr hidden ↦
        let (seen', left, agrees') =
          take_batch-Left seen winner batch later
            (Agrees-hidden seen winner r (batch ++ later) hidden agrees) in
        (seen', rw (row_hidden seen r hidden) (rw left (rw hidden refl)), agrees')
  ]

  -- The winners among rows, of which none was seen before.
  abbrev pub winners : List R → String → Option ℕ
  winners all n = first_pos n all

  -- The filters on all rows at once: what wins among them.
  pub take_batch-all :
      (all : List R)
      → (seen' : Seen) × (take_batch extract filter [] all
          ≡ ok (keep (wins (winners all)) all, seen'))
  unfolding lookup
  take_batch-all all =
      let (seen', left, _) =
        take_batch-Left [] (winners all) all [] (λ n. inr (refl, rw (append_nil all))) in
      (seen', left)

  abbrev winner_of : Seen → List R → String → Option ℕ
  winner_of seen batch n = elim (lookup n seen) [ none ↦ first_pos n batch | some q ↦ some q ]

  winner_of-Agrees :
      (seen : Seen) (batch : List R) → Agrees seen (winner_of seen batch) (batch ++ [])
  winner_of-Agrees seen batch n = elim (Option-cases (lookup n seen)) [
    | inl new ↦ inr (new, rw (append_nil batch) (rw (new, winner_of) refl))
    | inr (q, old) ↦ inl (q, old, rw (old, winner_of) refl)
  ]

  -- The filters answer on each batch.
  pub take_batch-answers :
      (seen : Seen) (batch : List R)
      → (kept : List R) × (seen' : Seen) × (take_batch extract filter seen batch ≡ ok (kept, seen'))
  take_batch-answers seen batch =
      let (seen', left, _) =
        take_batch-Left seen (winner_of seen batch) batch [] (winner_of-Agrees seen batch) in
      (_, seen', left)
