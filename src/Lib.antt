-- ===== src/Lib.antt =====
-- The ToolHive registry server, a Go program that collects MCP servers, skills and plugins from
-- configured sources and serves them by registries to callers with claims. This library models
-- its decisions: who may do what, which entries are kept, and when a source is synced.
--
-- The parts, with the files (paths from the repository's root) and the Go functions:
-- - Prelude: tests, lists, maps as association lists, the `(T, error)` result `Outcome`, and ℤ.
-- - Value: the dynamic values of claims, with `toStringSlice` (internal/auth/roles.go) and
--   `toStringSet` (internal/service/db/claims_filter.go).
-- - Auth: roles, role rules and the two middlewares (internal/auth/roles.go, authz_middleware.go,
--   claims.go). `Ctx` is what a request's context keeps; a handler is a function of it.
-- - Claims: the write-path and the read-path rule, the gate of a single resource, the filter of the
--   list endpoints and the consistency check (internal/service/db/claims_filter.go), and the
--   stored form of claims (internal/db/claims.go).
-- - Filtering: the name, tag and registry filters (internal/filtering, internal/registry/tags.go).
-- - Config: the configuration's types and its validation (internal/config/config.go).
-- - Sync: statuses and rows (internal/status/types.go, internal/sync/state/db.go), the manager's
--   decision and its sync (internal/sync/manager.go, detectors.go), the queue of jobs
--   (`GetNextSyncJob` with its query `ListSourceSyncsByLastUpdate` of database/queries/sync.sql) and
--   a tick of the coordinator (internal/sync/coordinator/coordinator.go).
-- - Versions: the comparison of versions, `IsPublishable` and `findHighestVersion`
--   (internal/versions, internal/service/db/impl_common.go). Names: `ValidateServerName`
--   (internal/validators/server_name.go).
-- - Entries: the entries of the managed source with their versions and the pointer to the latest
--   one, as the publishing and deleting of impl_mcp.go, impl_skills.go and impl_plugins.go changes
--   them, and the claims of an entry (impl_entries.go), all in internal/service/db.
--   `Entries.Access` has the calls with their gates, `Entries.History` the steps of the tables; a step
--   that publishes has a version that parses and a name of its own, which the code does not ask for.
-- - Listing: the loop that fills a page of a list endpoint, with the filter by source priority
--   (`streamHelpers` of impl_mcp.go, and its copies for skills and plugins), and the
--   list endpoints around it, with their gate and cursors (internal/service/cursor.go).
-- - Requests: the requests that create sources and registries and their validation
--   (internal/service/validation.go, source_types.go). Catalog: the sources and registries as the
--   admin API creates, reads, updates and deletes them (impl_source.go, impl_registry.go of
--   internal/service/db).
-- - Tests: small concrete data on which the theorems are applied.
--
-- How they meet: a tick asks the queue for the row that is due, if the manager wants to sync it,
-- lets the manager fetch, filter and store, and writes the status that the next tick reads. The
-- list and gate decisions use the claims that the middlewares leave in the context. The calls
-- that change entries go through the gates of Claims, and a page is filtered by the filter of
-- Claims first.
--
-- State is passed on: the rows of `registry_sync` are a list, the stored data are a type
-- parameter that the writer acts on, and a claim map is an association list, of which a lookup
-- finds the first entry. The tables of entries are a function of type and name, ids are counted
-- up, and a transaction that fails leaves the tables as they were. A Go map is looped over in the
-- order of its list here, which is one of the orders that Go may take; which of several errors is
-- reported first depends on it. Texts of errors and reasons are data types with what the texts
-- name. Loops over lists are structural recursion. The loops that ask the database for one page
-- after another (`streamHelpers` in Listing.antt, `streamSourceRows` and `streamRegistryRows` in
-- Catalog/Reading.antt) run on fuel, and fuel above the number of rows left is enough.
--
-- Parameters, some of them code of other projects, others parts of this one that are not modelled
-- (the source handlers, the sync writer, the queries): `encoding/json` (`Claims.Json.Json`, with
-- what is relied on: the bytes of a map are not empty, and they read back as the same entries
-- with lists of strings as lists of values), the glob libraries (`Filtering.Names.Glob`), the
-- upstream types (`Filtering.Service.Upstream`), `time.ParseDuration`, `url.Parse`, regular
-- expressions and the file system (`Config.Sources.Host`), source handlers, the sync writer and
-- the clock (`Sync.Manager.Env`), the validator of inline data (an argument in Requests), the
-- semver library (`Versions.Semver`), the order in which the database lists the versions of an
-- entry (`Entries.Ordering`), the query of a page, base64 and `strings.Split`
-- (`Listing.Endpoint.CursorHost`, `StatusHost`), the locks of other transactions and the
-- database's order of names (`Sync.Jobs.JobEnv`), and the database's failures
-- (`Sync.Jobs.DbFaults`).
--
-- Numbers: `Duration` arithmetic is on unbounded integers here; Go's would wrap at 2^63
-- nanoseconds. The clock is read once in a tick where the code reads it at each use. A panic of a
-- sync is left out.
--
-- Of the tables, the rows of other sources are left out, since publishing and deleting neither
-- read nor write them; so are packages, remotes and icons, of which only whether they can be
-- written counts. A link of a registry refers to a source by its name, and of a source's stored
-- configuration the model keeps the kind of a file source. Errors of the database itself roll a
-- transaction back.
--
-- Not modelled: HTTP routing, the other SQL and generated queries, token validation, the git and
-- HTTP clients, Kubernetes, telemetry, audit logs, and loading the configuration from its file.
mod Prelude
pub mod Value
pub mod Auth
pub mod Claims
pub mod Filtering
pub mod Config
pub mod Sync
pub mod Versions
pub mod Names
pub mod Listing
pub mod Entries
pub mod Requests
pub mod Catalog
pub mod Tests
