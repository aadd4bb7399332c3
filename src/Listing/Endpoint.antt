-- ===== src/Listing/Endpoint.antt =====
-- A list endpoint from the request to the page: `ListServers` of internal/service/db/impl_mcp.go,
-- with `lookupRegistryIDWithGate` of impl_common.go and the cursors of internal/service/cursor.go.
pub mod Visible
pub mod Skills
use toolhive_registry_server.Prelude.{
  ℕ, ltb, ◌+◌, String, Bool, true, false, Option, none, some, List, [], ◌∷◌, ◌≡◌, Outcome, ok, err,
  Check, ◌>>=◌, ◌>>◌, fail_if, wrap_err, blank, if◌then◌else◌,
}
use toolhive_registry_server.Value.{ClaimMap}
use toolhive_registry_server.Auth.{Ctx}
use toolhive_registry_server.Claims.Json.{Json}
use toolhive_registry_server.Claims.Gate.{GateError}
use toolhive_registry_server.Claims.Stored.{
  RecordFilter, validate_claims_visible_bytes, new_claims_filter_with,
}
use toolhive_registry_server.Listing.{Cursor, Page, ListError, stream}

-- `base64.StdEncoding`, `strings.Split` at commas, and a name and a version joined by a comma.
pub record CursorHost : Type 0 where
  pub encode : String → String
  pub decode : String → Option String
  pub comma_parts : String → List String
  pub join_comma : String → String → String

-- `service.MaxPageSize`
abbrev pub max_page_size : ℕ
max_page_size = 1000

-- `service.ListServersOptions`, of which search, version and time only go into the query.
pub record ListOptions : Type 0 where
  pub registry_name : String
  pub cursor : String
  pub limit : ℕ
  pub claims : Option ClaimMap

pub data EndpointError (Q : Type 0) : Type 0 where
  registry_name_required registry_not_found invalid_cursor : EndpointError Q
  insufficient : GateError → EndpointError Q
  listing_failed : ListError Q → EndpointError Q

-- The parts of a decoded cursor.
two_parts : List String → Option Cursor
two_parts (name ∷ version ∷ []) = some (name, version)
two_parts _ = none

decode_parts : CursorHost → Option String → Option Cursor
unfolding two_parts
decode_parts host none = none
decode_parts host (some decoded) = two_parts (host.comma_parts decoded)

-- `none` is an error.
unfoldable pub decode_cursor : CursorHost → String → Option Cursor
unfolding decode_parts
decode_cursor host cursor =
    if blank cursor then some ("", "") else decode_parts host (host.decode cursor)

unfoldable pub encode_cursor : CursorHost → String → String → String
encode_cursor host name version = host.encode (host.join_comma name version)

-- The limit, which is capped.
abbrev pub page_size : ListOptions → ℕ
page_size opts = if ltb max_page_size opts.limit then max_page_size else opts.limit

module _ (json : Json) (skip_authz : Bool) (ctx : Ctx) (R Q : Type 0) where
  -- The database: the claims of a registry, and the query of its rows, of which the second argument
  -- is the number of rows asked for.
  pub record Database : Type 0 where
    pub find_registry : String → Option json.Bytes
    pub query : String → ℕ → Option Cursor → Outcome Q (List R)

  -- `lookupRegistryIDWithGate`; the name stands for the id.
  unfoldable pub lookup_registry : Database → String → Option ClaimMap → Check (EndpointError Q)
  lookup_registry db name caller = elim (db.find_registry name) [
    | none ↦ err registry_not_found
    | some claims ↦ wrap_err insufficient (validate_claims_visible_bytes json ctx caller claims)
  ]

  -- The cursor of the request, if it has one.
  cursor_of_request : CursorHost → String → Outcome (EndpointError Q) (Option Cursor)
  cursor_of_request host cursor =
      if blank cursor
      then ok none
      else elim (decode_cursor host cursor) [ none ↦ err invalid_cursor | some c ↦ ok (some c) ]

  -- The filter of the caller's claims.
  unfoldable pub claims_filter : (R → json.Bytes) → Option ClaimMap → Option (RecordFilter R)
  claims_filter claims_of claims =
      if skip_authz then none else new_claims_filter_with json ctx claims (λ r. some (claims_of r))

  module _ (host : CursorHost) (extract : R → Option (String × ℕ)) (cursor_of : R → Cursor)
      (claims_of : R → json.Bytes) (db : Database) where
    -- What comes before the loop: the checks, and the cursor.
    unfoldable pub start_list : ListOptions → Outcome (EndpointError Q) (Option Cursor)
    unfolding cursor_of_request
    start_list opts = do
      fail_if (blank opts.registry_name) registry_name_required
      lookup_registry db opts.registry_name (if skip_authz then none else opts.claims)
      cursor_of_request host opts.cursor

    -- The rows of a page and the next cursor, blank if there is none.
    finish_list : Page R → List R × String
    finish_list page = (
      page.rows,
      elim page.last_cursor [ none ↦ "" | some (name, version) ↦ encode_cursor host name version ],
    )

    -- The loop from a cursor on.
    unfoldable pub run_list :
        ℕ → ListOptions → Option Cursor → Option (Outcome (EndpointError Q) (List R × String))
    unfolding finish_list
    run_list fuel opts cursor =
        let limit = page_size opts in
        elim (stream extract (claims_filter claims_of opts.claims) cursor_of
          (db.query opts.registry_name (limit + 1)) limit fuel cursor) [
            | none ↦ none
            | some (err e) ↦ some (err (listing_failed e))
            | some (ok page) ↦ some (ok (finish_list page))
          ]

    -- `ListServers`, on the fuel of the loop.
    unfoldable pub list_servers :
        ℕ → ListOptions → Option (Outcome (EndpointError Q) (List R × String))
    list_servers fuel opts = elim (start_list opts) [
      | err e ↦ some (err e)
      | ok cursor ↦ run_list fuel opts cursor
    ]
