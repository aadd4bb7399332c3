-- ===== src/Listing/Endpoint/Skills.antt =====
-- The list endpoints for skills, plugins and the versions of a server: `ListSkills` with its status
-- filter (internal/service/db/impl_skills.go), `ListPlugins` (impl_plugins.go) and
-- `ListServerVersions` (impl_mcp.go).
use toolhive_registry_server.Prelude.{
  ℕ, ◌↔◌, String, Bool, Option, none, some, List, [], ◌∷◌, ◌++◌, Memᴰ, mem-keep, contains,
  contains_iff, keep, Outcome, ok, err, ◌>>◌, fail_if, blank, is_empty, ltb, ◌==◌, if◌then◌else◌,
}
use toolhive_registry_server.Auth.{Ctx}
use toolhive_registry_server.Claims.Json.{Json}
use toolhive_registry_server.Listing.{Cursor, stream}
use toolhive_registry_server.Listing.Endpoint.{
  CursorHost, ListOptions, EndpointError, Database, max_page_size, registry_name_required,
  invalid_cursor, listing_failed, decode_cursor, claims_filter, lookup_registry, run_list,
}

-- The functions of `strings` that a status filter goes through: the parts between commas, in lower
-- case and without spaces around them, and whether the whole is blank but for spaces.
pub record StatusHost : Type 0 where
  pub tokens : String → List String
  pub only_spaces : String → Bool

-- One case of the switch.
status_of : String → List String
status_of tok =
    if tok == "active"
    then "ACTIVE" ∷ []
    else if tok == "deprecated"
    then "DEPRECATED" ∷ []
    else if tok == "archived"
    then "ARCHIVED" ∷ []
    else []

-- The loop over the tokens; the set is the list of its keys.
collect_statuses : List String → List String
collect_statuses [] = []
collect_statuses (tok ∷ toks) = status_of tok ++ collect_statuses toks

unfoldable pub parse_status_filter : StatusHost → String → List String
unfolding collect_statuses status_of
parse_status_filter host filter =
    let allowed = collect_statuses (host.tokens filter) in
    if host.only_spaces filter
    then "ACTIVE" ∷ []
    else if is_empty allowed
    then "ACTIVE" ∷ []
    else allowed

unfoldable pub filter_skills_by_status :
    {R : Type 0} → StatusHost → (R → String) → List R → String → List R
filter_skills_by_status host status_of_row rows filter =
    keep (λ r. contains (status_of_row r) (parse_status_filter host filter)) rows

-- A skill is listed exactly when it is on the page and its status is one that the filter allows.
pub mem-filter_skills_by_status :
    {R : Type 0} (host : StatusHost) (status_of_row : R → String) (rows : List R) (filter : String)
    (r : R)
    → Memᴰ r (filter_skills_by_status host status_of_row rows filter)
      ↔ (Memᴰ r rows × Memᴰ (status_of_row r) (parse_status_filter host filter))
unfolding filter_skills_by_status
mem-filter_skills_by_status host status_of_row rows filter r =
    let allowed = parse_status_filter host filter in
    let (to, from) = mem-keep (λ r. contains (status_of_row r) allowed) rows in
    let (inside, listed) = contains_iff (status_of_row r) allowed in
    (λ m. let (k, c) = to m in (k, inside c), λ (k, c). from (k, listed c))

module _ (json : Json) (skip_authz : Bool) (ctx : Ctx) (R Q : Type 0) (host : CursorHost)
    (extract : R → Option (String × ℕ)) (cursor_of : R → Cursor) (claims_of : R → json.Bytes)
    (db : Database json skip_authz ctx R Q) where
  -- The cursor of a request, which is a pointer.
  optional_cursor : Option String → Outcome (EndpointError Q) (Option Cursor)
  optional_cursor none = ok none
  optional_cursor (some cursor) = elim (decode_cursor host cursor) [
    | none ↦ err invalid_cursor
    | some c ↦ ok (some c)
  ]

  -- What comes before the loop, for a pointer to a cursor.
  start_optional : ListOptions → Option String → Outcome (EndpointError Q) (Option Cursor)
  unfolding optional_cursor
  start_optional opts cursor = do
    fail_if (blank opts.registry_name) registry_name_required
    lookup_registry json skip_authz ctx R Q db opts.registry_name
        (if skip_authz then none else opts.claims)
    optional_cursor cursor

  unfoldable pub list_plugins :
      ℕ → ListOptions → Option String → Option (Outcome (EndpointError Q) (List R × String))
  unfolding start_optional
  list_plugins fuel opts cursor = elim (start_optional opts cursor) [
    | err e ↦ some (err e)
    | ok c ↦ run_list json skip_authz ctx R Q host extract cursor_of claims_of db fuel opts c
  ]

  -- The page of skills with the status filter, which comes after the cut.
  filter_page : StatusHost → (R → String) → String → List R × String → List R × String
  filter_page statuses status_of_row filter (rows, next) =
      (filter_skills_by_status statuses status_of_row rows filter, next)

  unfoldable pub list_skills :
      StatusHost
      → (R → String)
      → String
      → ℕ
      → ListOptions
      → Option String
      → Option (Outcome (EndpointError Q) (List R × String))
  unfolding start_optional filter_page
  list_skills statuses status_of_row filter fuel opts cursor = elim (start_optional opts cursor) [
    | err e ↦ some (err e)
    | ok c ↦
        elim (run_list json skip_authz ctx R Q host extract cursor_of claims_of db fuel opts c) [
          | none ↦ none
          | some (err e) ↦ some (err e)
          | some (ok page) ↦ some (ok (filter_page statuses status_of_row filter page))
        ]
  ]

  -- `ListServerVersions`: the query ignores the cursor and asks for as many rows as the limit, and
  -- the loop has the limit of a largest page.
  unfoldable pub list_server_versions :
      ℕ → ListOptions → Option (Outcome (EndpointError Q) (List R))
  unfolding start_optional
  list_server_versions fuel opts =
      let size = if ltb max_page_size opts.limit then max_page_size else opts.limit in
      elim (start_optional opts none) [
        | err e ↦ some (err e)
        | ok c ↦
            elim (stream extract (claims_filter json skip_authz ctx R Q claims_of opts.claims)
              cursor_of (λ _. db.query opts.registry_name size none) max_page_size fuel none) [
                | none ↦ none
                | some (err e) ↦ some (err (listing_failed e))
                | some (ok page) ↦ some (ok page.rows)
              ]
      ]
