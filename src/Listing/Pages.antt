-- ===== src/Listing/Pages.antt =====
-- The loop over the batches ends, and what the page has.
use toolhive_registry_server.Prelude.{
  Memᴰ, mem-keep, ℕ, zero, suc, ◌+◌, ◌<◌, ◌≤◌, ◌≡◌, refl, sym, ◌∙◌, ap, ◌⊎◌, inl, inr, String, true,
  false, ◌||◌, Option, none, some, List, [], ◌∷◌, ◌++◌, Outcome, ok, length, ltb, leb, keep, arith,
  Bool-cases,
}
use toolhive_registry_server.Claims.Stored.{RecordFilter}
use toolhive_registry_server.Listing.{Seen, Page, Cursor, take, take_batch, advance, fetch, stream}
use toolhive_registry_server.Listing.Dedup.{
  Rows, holds_at, wins, winners, take_batch-all, take_batch-answers,
}
use toolhive_registry_server.Listing.Batches.{
  concat, append_assoc, append_nil, take_batch-append, ok-pair, cut, trim-cut, mem-take,
  length-take, Batches, one, more, Exhausted, short, later,
}

module _ {R Q : Type 0} (extract : R → Option (String × ℕ)) (filter : Option (RecordFilter R))
    (cursor_of : R → Cursor) (query : Option Cursor → Outcome Q (List R)) (limit : ℕ) where
  -- What the loop has gathered: what the filters keep of the batches that it fetched, which go on
  -- until there are more rows than the limit or none are left.
  record Gathered (cursor : Option Cursor) (seen : Seen) (accumulated out : List R) : Type 0 where
    pub batches : List (List R)
    pub fetched : Batches cursor_of query limit cursor batches
    pub kept : List R
    pub seen' : Seen
    pub filtered : take_batch extract filter seen (concat batches) ≡ ok (kept, seen')
    pub gathered : out ≡ accumulated ++ kept
    pub ended : (limit < length out) ⊎ Exhausted cursor_of query limit batches

  fetch-stop :
      (fuel : ℕ) (cursor : Option Cursor) (seen seen' : Seen) (accumulated batch kept : List R)
      → query cursor ≡ ok batch
      → take_batch extract filter seen batch ≡ ok (kept, seen')
      → (leb (limit + 1) (length (accumulated ++ kept)) || ltb (length batch) (limit + 1)) ≡ true
      → fetch extract filter cursor_of query limit (suc fuel) cursor seen accumulated
        ≡ some (ok (accumulated ++ kept))
  unfolding fetch
  fetch-stop fuel cursor seen seen' accumulated batch kept q t stop =
      rw (q, fetch) (rw t (rw stop refl))

  fetch-go :
      (fuel : ℕ) (cursor : Option Cursor) (seen seen' : Seen) (accumulated batch kept : List R)
      → query cursor ≡ ok batch
      → take_batch extract filter seen batch ≡ ok (kept, seen')
      → (leb (limit + 1) (length (accumulated ++ kept)) || ltb (length batch) (limit + 1)) ≡ false
      → fetch extract filter cursor_of query limit (suc fuel) cursor seen accumulated
        ≡ fetch extract filter cursor_of query limit fuel
            (advance cursor_of cursor batch)
            seen'
            (accumulated ++ kept)
  unfolding fetch
  fetch-go fuel cursor seen seen' accumulated batch kept q t stop =
      rw (q, fetch) (rw t (rw stop refl))

  module _ (rows : Rows extract filter) where
    -- What a page shows: the rows that are shown and whose position is that of the first shown row of
    -- their name, among those fetched, up to the limit.
    pub record Shown (cursor : Option Cursor) (page : Page R) : Type 0 where
      pub batches : List (List R)
      pub fetched : Batches cursor_of query limit cursor batches
      pub is_cut :
          page
          ≡ cut cursor_of limit (keep (wins rows (winners rows (concat batches))) (concat batches))
      pub ended :
          (limit < length (keep (wins rows (winners rows (concat batches))) (concat batches)))
          ⊎ Exhausted cursor_of query limit batches

    holds_at-some : (p : ℕ) (o : Option ℕ) → holds_at rows p o ≡ true → o ≡ some p
    holds_at-some p none h = absurd (cc)
    holds_at-some p (some q) h = let same : q ≡ p = ground arith in ap some same

    -- Of two rows of a page with one name, both stand at one position, and the filter shows the
    -- first; the page has at most as many rows as the limit.
    pub Shown-one_source :
        (cursor : Option Cursor) (page : Page R) (r r' : R)
        → Shown cursor page
        → Memᴰ r page.rows
        → Memᴰ r' page.rows
        → rows.name r ≡ rows.name r'
        → (rows.pos r ≡ rows.pos r') × (rows.shown r ≡ true) × (length page.rows ≤ limit)
    Shown-one_source cursor page r r' s m m' same =
        let (won, at) = winner_at r (rw s.is_cut at m) in
        let (_, at') = winner_at r' (rw s.is_cut at m') in
        (
          some-injective (sym at ∙ ap winner same ∙ at'),
          won,
          rw s.is_cut (length-take limit (keep (wins rows winner) all)),
        )
      where
        all : List R
        all = concat s.batches

        winner : String → Option ℕ
        winner = winners rows all

        winner_at :
            (r : R)
            → Memᴰ r (take limit (keep (wins rows winner) all))
            → (rows.shown r ≡ true) × (winner (rows.name r) ≡ some (rows.pos r))
        winner_at r m =
            let (_, won) =
              (mem-keep (wins rows winner) all).0
                (mem-take limit (keep (wins rows winner) all) m) in
            (ground arith, holds_at-some (rows.pos r) (winner (rows.name r)) (ground arith))

        some-injective : {a b : ℕ} → some a ≡ some b → a ≡ b
        some-injective h = cc

    module _ (left : Option Cursor → ℕ)
        (answers : (cursor : Option Cursor) → (batch : List R) × (query cursor ≡ ok batch))
        (shrinks : (cursor : Option Cursor) (batch : List R)
          → query cursor ≡ ok batch
          → limit < length batch
          → left (advance cursor_of cursor batch) < left cursor) where
      fetch-Gathered :
          (fuel : ℕ) (cursor : Option Cursor) (seen : Seen) (accumulated : List R)
          → left cursor < fuel
          → (out : List R) × (fetch extract filter cursor_of query limit fuel cursor seen
                accumulated
              ≡ some (ok out))
            × Gathered cursor seen accumulated out
      fetch-Gathered zero cursor seen accumulated h = absurd (omega (arith, h))
      fetch-Gathered (suc fuel) cursor seen accumulated h =
          let (batch, q) = answers cursor in
          let (kept, seen', t) = take_batch-answers rows seen batch in
          let all_kept = accumulated ++ kept in
          elim (Bool-cases (leb (limit + 1) (length all_kept) || ltb (length batch) (limit + 1))) [
            | inl stop ↦ (
              all_kept,
              fetch-stop fuel cursor seen seen' accumulated batch kept q t stop,
              record {
                batches = batch ∷ [];
                fetched = one batch q;
                kept = kept;
                seen' = seen';
                filtered = rw (append_nil batch) t;
                gathered = refl;
                ended = ended_here all_kept batch stop;
              },
            )
            | inr go ↦
                let full : limit < length batch = ground arith in
                let less = shrinks cursor batch q full in
                let (out, rest, g) =
                  fetch-Gathered fuel (advance cursor_of cursor batch) seen' all_kept
                    (omega (arith, h, less)) in
                (
                  out,
                  fetch-go fuel cursor seen seen' accumulated batch kept q t go ∙ rest,
                  record {
                    batches = batch ∷ g.batches;
                    fetched = more batch q full g.fetched;
                    kept = kept ++ g.kept;
                    seen' = g.seen';
                    filtered =
                        take_batch-append extract filter seen seen' g.seen' batch (concat g.batches)
                          kept g.kept t g.filtered;
                    gathered = g.gathered ∙ append_assoc accumulated kept g.kept;
                    ended = elim g.ended [ inl long ↦ inl long | inr e ↦ inr (later e) ];
                  },
                )
          ]
        where
          ended_here :
              (out batch : List R)
              → (leb (limit + 1) (length out) || ltb (length batch) (limit + 1)) ≡ true
              → (limit < length out) ⊎ Exhausted cursor_of query limit (batch ∷ [])
          ended_here out batch stop = elim (Bool-cases (ltb (length batch) (limit + 1))) [
            | inl few ↦ inr (short (ground arith))
            | inr full ↦ inl (ground arith)
          ]

      -- A query that answers, and has fewer rows left behind each full batch, is asked until the page is
      -- full or no rows are left, with fuel for the rows that are left at first: the page is the rows
      -- that are shown and stand at the position of the first shown row of their name, cut to the
      -- limit, which is not zero.
      pub stream-Shown :
          (fuel : ℕ) (cursor : Option Cursor)
          → 0 < limit
          → left cursor < fuel
          → (page : Page R) × (stream extract filter cursor_of query limit fuel cursor
              ≡ some (ok page))
            × Shown cursor page
      unfolding stream
      stream-Shown fuel cursor positive enough =
          let (out, fetches, g) = fetch-Gathered fuel cursor [] [] enough in
          let (seen', all_at_once) = take_batch-all rows (concat g.batches) in
          let (same, _) =
            ok-pair extract filter g.kept _ g.seen' seen' (sym g.filtered ∙ all_at_once) in
          let out_is = g.gathered ∙ same in
          (
            cut cursor_of limit out,
            rw (fetches, stream) (ap some (trim-cut cursor_of Q limit out positive)),
            record {
              batches = g.batches;
              fetched = g.fetched;
              is_cut = ap (cut cursor_of limit) out_is;
              ended = rw out_is at g.ended;
            },
          )

      -- If the query answers and has fewer rows left behind each full batch, the limit is not zero,
      -- and there is fuel for the rows that are left at first, a page is answered: it has at most as
      -- many rows as the limit, all of them rows that the filter shows, and of two rows of one name
      -- both stand at one position.
      pub stream-one_source :
          (fuel : ℕ) (cursor : Option Cursor)
          → 0 < limit
          → left cursor < fuel
          → (page : Page R) × (stream extract filter cursor_of query limit fuel cursor
              ≡ some (ok page))
            × (length page.rows ≤ limit)
            × ((r : R) → Memᴰ r page.rows → rows.shown r ≡ true)
            × ((r r' : R)
                → Memᴰ r page.rows
                → Memᴰ r' page.rows
                → rows.name r ≡ rows.name r'
                → rows.pos r ≡ rows.pos r')
      stream-one_source fuel cursor positive enough =
          let (page, answered, s) = stream-Shown fuel cursor positive enough in
          (
            page,
            answered,
            rw s.is_cut (
                length-take limit
                  (keep (wins rows (winners rows (concat s.batches))) (concat s.batches))),
            λ r m. (Shown-one_source cursor page r r s m m refl).1,
            λ r r' m m' same. (Shown-one_source cursor page r r' s m m' same).0,
          )
