-- ===== src/Listing/Endpoint/Visible.antt =====
-- A list endpoint answers, and every row of the answer is one that the caller may use.
use toolhive_registry_server.Prelude.{
  ℕ, ◌+◌, ◌<◌, ◌≡◌, ◌≢◌, refl, sym, ◌∙◌, ap, inl, inr, String, Bool, true, false, Option, some,
  List, [], Memᴰ, All, All-tabulate, length, Outcome, ok, err, Option-cases, Bool-cases,
}
use toolhive_registry_server.Value.{ClaimMap}
use toolhive_registry_server.Auth.{Ctx, is_super_admin}
use toolhive_registry_server.Claims.Json.{Json, serialize_claims}
use toolhive_registry_server.Claims.Stored.{
  FilterError, validate_claims_visible_bytes, marshal_claims, check_claims, new_claims_filter_with,
}
use toolhive_registry_server.Claims.Stored.Agreement.{listed, listed_iff_gate}
use toolhive_registry_server.Listing.{Cursor, Page, apply_filter, advance, stream}
use toolhive_registry_server.Listing.Dedup.{Rows}
use toolhive_registry_server.Listing.Pages.{Shown, stream-Shown, Shown-one_source}
use toolhive_registry_server.Listing.Endpoint.{
  CursorHost, ListOptions, Database, page_size, claims_filter, start_list, finish_list, run_list,
  list_servers,
}

abbrev yes : Outcome FilterError Bool → Bool
yes (ok b) = b
yes (err e) = false

module _ (json : Json) (ctx : Ctx) (R : Type 0) (Q : Type 0) (extract : R → Option (String × ℕ))
    (claims_of : R → json.Bytes) where
  -- The filter of a page is the one of a single row.
  filter-listed :
      (claims : Option ClaimMap) (r : R)
      → (b : Bool) × (apply_filter extract (claims_filter json false ctx R Q claims_of claims) r
          ≡ ok b)
        × (listed json ctx claims (claims_of r) ≡ ok b)
  unfolding claims_filter apply_filter listed new_claims_filter_with
  filter-listed claims r = elim (Option-cases (marshal_claims json claims)) [
    | inl e ↦ (
      true,
      rw (e, claims_filter, new_claims_filter_with) refl,
      rw (e, listed, new_claims_filter_with) refl,
    )
    | inr (cb, e) ↦ elim (Bool-cases (is_super_admin ctx)) [
      | inl super ↦ (
        true,
        rw (e, claims_filter, new_claims_filter_with) (rw super refl),
        rw (e, listed, new_claims_filter_with) (rw super refl),
      )
      | inr plain ↦ (
        check_claims json cb (claims_of r),
        rw (e, claims_filter, new_claims_filter_with) (rw plain refl),
        rw (e, listed, new_claims_filter_with) (rw plain refl),
      )
    ]
  ]

  abbrev seen_by : Option ClaimMap → R → Bool
  seen_by claims r = yes (listed json ctx claims (claims_of r))

  seen_by-filter :
      (claims : Option ClaimMap) (r : R)
      → apply_filter extract (claims_filter json false ctx R Q claims_of claims) r
        ≡ ok (seen_by claims r)
  seen_by-filter claims r =
      let (b, filters, lists) = filter-listed claims r in filters ∙ ap ok (sym (ap yes lists))

  seen_by-listed :
      (claims : Option ClaimMap) (r : R)
      → seen_by claims r ≡ true
      → listed json ctx claims (claims_of r) ≡ ok true
  seen_by-listed claims r h =
      let (b, _, lists) = filter-listed claims r in lists ∙ ap ok (sym (ap yes lists) ∙ h)

  module _ (host : CursorHost) (cursor_of : R → Cursor) (db : Database json false ctx R Q)
      (opts : ListOptions) (row_name : R → String) (position : R → ℕ)
      (extracts : (r : R) → extract r ≡ some (row_name r, position r)) (caller : ClaimMap)
      (caller_bytes : json.Bytes) where
    abbrev rows : Rows extract (claims_filter json false ctx R Q claims_of (some caller))
    rows = record {
      name = row_name;
      pos = position;
      shown = seen_by (some caller);
      extracts = extracts;
      answers = seen_by-filter (some caller);
    }

    abbrev page_query : Option Cursor → Outcome Q (List R)
    page_query = db.query opts.registry_name (page_size opts + 1)

    -- A row of a page passes the gate for its stored claims.
    row_passes :
        (cursor : Option Cursor) (page : Page R) (r : R) (stored : Option ClaimMap)
        → caller ≢ []
        → json.marshal caller ≡ some caller_bytes
        → claims_of r ≡ serialize_claims json stored
        → Shown extract
            (claims_filter json false ctx R Q claims_of (some caller))
            cursor_of
            page_query
            (page_size opts)
            rows
            cursor
            page
        → Memᴰ r page.rows
        → validate_claims_visible_bytes json ctx (some caller) (claims_of r) ≡ ok tt
    row_passes cursor page r stored ne made written shows m =
        let (_, seen, _) =
          Shown-one_source extract (claims_filter json false ctx R Q claims_of (some caller))
            cursor_of page_query (page_size opts) rows cursor page r r shows m m refl in
        let lists = seen_by-listed (some caller) r seen in
        rw written
          ((listed_iff_gate json ctx caller caller_bytes stored ne made).0 (rw written at lists))

    runs :
        (fuel : ℕ) (cursor : Option Cursor)
        → start_list json false ctx R Q host extract cursor_of claims_of db opts ≡ ok cursor
        → list_servers json false ctx R Q host extract cursor_of claims_of db fuel opts
          ≡ run_list json false ctx R Q host extract cursor_of claims_of db fuel opts cursor
    unfolding list_servers
    runs fuel cursor starts = rw (starts, list_servers) refl

    run_page :
        (fuel : ℕ) (cursor : Option Cursor) (page : Page R)
        → opts.claims ≡ some caller
        → stream extract
            (claims_filter json false ctx R Q claims_of (some caller))
            cursor_of
            page_query
            (page_size opts)
            fuel
            cursor
          ≡ some (ok page)
        → run_list json false ctx R Q host extract cursor_of claims_of db fuel opts cursor
          ≡ some (ok (finish_list json false ctx R Q host extract cursor_of claims_of db page))
    unfolding run_list
    run_page fuel cursor page who streams = rw (who, run_list) (rw streams refl)

    -- A list endpoint with authorization, asked for at least one row by a caller whose claims are
    -- not empty and marshal, and whose request passes the endpoint's checks, answers, if its query
    -- answers and has fewer rows left behind each full batch, with fuel for the rows left; and each
    -- row of the answer passes the gate of that caller, if `SerializeClaims` wrote the claims of
    -- every row.
    pub list_servers-visible :
        (fuel : ℕ) (cursor : Option Cursor) (left : Option Cursor → ℕ)
        → opts.claims ≡ some caller
        → caller ≢ []
        → json.marshal caller ≡ some caller_bytes
        → ((r : R) → (stored : Option ClaimMap) × (claims_of r ≡ serialize_claims json stored))
        → start_list json false ctx R Q host extract cursor_of claims_of db opts ≡ ok cursor
        → 0 < page_size opts
        → ((c : Option Cursor) → (batch : List R) × (page_query c ≡ ok batch))
        → ((c : Option Cursor) (batch : List R)
            → page_query c ≡ ok batch
            → page_size opts < length batch
            → left (advance cursor_of c batch) < left c)
        → left cursor < fuel
        → (found : List R) × (next : String) × (list_servers json false ctx R Q host extract
              cursor_of claims_of db fuel opts
            ≡ some (ok (found, next)))
          × All
              (λ r. validate_claims_visible_bytes json ctx (some caller) (claims_of r) ≡ ok tt)
              found
    unfolding finish_list
    list_servers-visible fuel cursor left who ne made written starts positive answers shrinks
          enough =
        let (page, streams, shows) =
          stream-Shown extract (claims_filter json false ctx R Q claims_of (some caller)) cursor_of
            page_query (page_size opts) rows left answers shrinks fuel cursor positive enough in
        (
          page.rows,
          (finish_list json false ctx R Q host extract cursor_of claims_of db page).1,
          runs fuel cursor starts ∙ run_page fuel cursor page who streams,
          All-tabulate
              (λ r. validate_claims_visible_bytes json ctx (some caller) (claims_of r) ≡ ok tt)
              page.rows
              (λ r m.
                let (stored, wrote) = written r in
                row_passes cursor page r stored ne made wrote shows m),
        )
