-- ===== src/Catalog/Reading.antt =====
-- Reading sources and registries: `GetSourceByName` and `streamSourceRows` of impl_source.go,
-- `GetRegistryByName` and `streamRegistryRows` of impl_registry.go (internal/service/db).
use toolhive_registry_server.Prelude.{
  ◌∙◌, ◌≤◌, ◌<◌, arith, Bool-cases, ℕ, zero, suc, true, ltb, ◌≡◌, refl, inl, inr, String, Bool,
  false, Option, none, some, List, ◌++◌, keep, length, is_ok, Outcome, ok, err, lookup,
  Outcome-cases, if◌then◌else◌,
}
use toolhive_registry_server.Auth.{Ctx}
use toolhive_registry_server.Claims.Json.{Json, deserialize_claims}
use toolhive_registry_server.Claims.Rules.{Admits}
use toolhive_registry_server.Claims.Gate.{
  MayPass, validate_claims_visible, validate_claims_visible_iff,
}
use toolhive_registry_server.Claims.Stored.{validate_claims_visible_bytes}
use toolhive_registry_server.Config.Sources.{Host}
use toolhive_registry_server.Listing.{last_or}
use toolhive_registry_server.Catalog.{
  SourceRow, RegistryRow, Catalog, CatalogError, source_not_found, registry_not_found,
  caller_claims,
}

-- The cursor behind a batch.
pub next_cursor : {V C : Type 0} → (V → C) → List V → Option C
next_cursor cursor_of batch = elim (last_or none batch) [
  | none ↦ none
  | some v ↦ some (cursor_of v)
]

module _ (json : Json) (host : Host) (is_valid_data : String → Bool) (skip_authz : Bool)
    (ctx : Ctx) where
  -- A row with the claims of its resource, if the caller may see it; else the error of a row that is
  -- not there.
  reveal : {V : Type 0} → (V → json.Bytes) → CatalogError → Option V → Outcome CatalogError V
  reveal claims_of missing none = err missing
  reveal claims_of missing (some v) =
      if is_ok (
        validate_claims_visible ctx (caller_claims json host is_valid_data skip_authz ctx)
          (deserialize_claims json (claims_of v)))
      then ok v
      else err missing

  unfoldable pub get_source_by_name :
      String → Catalog json.Bytes → Outcome CatalogError (SourceRow json.Bytes)
  unfolding reveal
  get_source_by_name name c = reveal (λ r. r.claims) source_not_found (lookup name c.sources)

  unfoldable pub get_registry_by_name :
      String → Catalog json.Bytes → Outcome CatalogError (RegistryRow json.Bytes)
  unfolding reveal
  get_registry_by_name name c = reveal (λ r. r.claims) registry_not_found (lookup name c.registries)

  -- The loops of `streamSourceRows` and `streamRegistryRows`, on fuel, of which `none` is that it ran
  -- out: rows that the caller may not see are passed over.
  unfoldable pub stream_rows :
      {V Q C : Type 0}
      → (V → json.Bytes)
      → (V → C)
      → (Option C → Outcome Q (List V))
      → ℕ
      → ℕ
      → Option C
      → List V
      → Option (Outcome Q (List V))
  unfolding next_cursor
  stream_rows claims_of cursor_of query size zero cursor accumulated = none
  stream_rows claims_of cursor_of query size (suc fuel) cursor accumulated = elim (query cursor) [
    | err e ↦ some (err e)
    | ok batch ↦
        let shown =
          accumulated
          ++ keep
              (λ v. is_ok (
                validate_claims_visible_bytes json ctx
                  (caller_claims json host is_valid_data skip_authz ctx) (claims_of v)))
              batch in
        let rest =
          stream_rows claims_of cursor_of query size fuel (next_cursor cursor_of batch) shown in
        if ltb (length batch) size then some (ok shown) else rest
  ]

  abbrev MayRead : json.Bytes → Type 0
  MayRead stored =
      MayPass Admits ctx (caller_claims json host is_valid_data skip_authz ctx)
        (deserialize_claims json stored)

  is_ok-false :
      (stored : json.Bytes)
      → ¬ MayRead stored
      → is_ok (
          validate_claims_visible ctx
            (caller_claims json host is_valid_data skip_authz ctx)
            (deserialize_claims json stored))
        ≡ false
  is_ok-false stored may_not =
      let gate =
        validate_claims_visible ctx (caller_claims json host is_valid_data skip_authz ctx)
          (deserialize_claims json stored) in
      elim (Outcome-cases gate) [
        | inl (_, e) ↦ absurd (
            may_not (
              (validate_claims_visible_iff ctx
                  (caller_claims json host is_valid_data skip_authz ctx)
                  (deserialize_claims json stored)).0
                e))
        | inr (x, e) ↦ rw e refl
      ]

  -- A caller that may not read a source, present in the one catalogue and missing in the other,
  -- gets the same answer from both.
  pub get_source_by_name-hides :
      (name : String) (c without : Catalog json.Bytes) (r : SourceRow json.Bytes)
      → lookup name c.sources ≡ some r
      → ¬ MayRead r.claims
      → lookup name without.sources ≡ none
      → get_source_by_name name c ≡ get_source_by_name name without
  unfolding get_source_by_name reveal
  get_source_by_name-hides name c without r there hidden gone =
      rw there (rw gone (rw (is_ok-false r.claims hidden) refl))

  -- A caller that may not read a registry, present in the one catalogue and missing in the other,
  -- gets the same answer from both.
  pub get_registry_by_name-hides :
      (name : String) (c without : Catalog json.Bytes) (r : RegistryRow json.Bytes)
      → lookup name c.registries ≡ some r
      → ¬ MayRead r.claims
      → lookup name without.registries ≡ none
      → get_registry_by_name name c ≡ get_registry_by_name name without
  unfolding get_registry_by_name reveal
  get_registry_by_name-hides name c without r there hidden gone =
      rw there (rw gone (rw (is_ok-false r.claims hidden) refl))

  module _ {V Q C : Type 0} (claims_of : V → json.Bytes) (cursor_of : V → C)
      (query : Option C → Outcome Q (List V)) (size : ℕ) (left : Option C → ℕ)
      (answers : (cursor : Option C) → (batch : List V) × (query cursor ≡ ok batch))
      (shrinks : (cursor : Option C) (batch : List V)
        → query cursor ≡ ok batch
        → size ≤ length batch
        → left (next_cursor cursor_of batch) < left cursor) where
    abbrev visible_rows : List V → List V
    visible_rows batch =
        keep
          (λ v. is_ok (
            validate_claims_visible_bytes json ctx
              (caller_claims json host is_valid_data skip_authz ctx) (claims_of v)))
          batch

    rows_stop :
        (fuel : ℕ) (cursor : Option C) (accumulated batch : List V)
        → query cursor ≡ ok batch
        → ltb (length batch) size ≡ true
        → stream_rows claims_of cursor_of query size (suc fuel) cursor accumulated
          ≡ some (ok (accumulated ++ visible_rows batch))
    unfolding stream_rows
    rows_stop fuel cursor accumulated batch q stop = rw (q, stream_rows) (rw stop refl)

    rows_go :
        (fuel : ℕ) (cursor : Option C) (accumulated batch : List V)
        → query cursor ≡ ok batch
        → ltb (length batch) size ≡ false
        → stream_rows claims_of cursor_of query size (suc fuel) cursor accumulated
          ≡ stream_rows claims_of cursor_of query size fuel
              (next_cursor cursor_of batch)
              (accumulated ++ visible_rows batch)
    unfolding stream_rows
    rows_go fuel cursor accumulated batch q go = rw (q, stream_rows) (rw go refl)

    -- With fuel for the rows that are left, the loop ends, if the query answers and has fewer rows
    -- left behind each full batch.
    pub stream_rows-answers :
        (fuel : ℕ) (cursor : Option C) (accumulated : List V)
        → left cursor < fuel
        → (out : List V) × (stream_rows claims_of cursor_of query size fuel cursor accumulated
            ≡ some (ok out))
    stream_rows-answers zero cursor accumulated h = absurd (omega (arith, h))
    stream_rows-answers (suc fuel) cursor accumulated h =
        let (batch, q) = answers cursor in
        elim (Bool-cases (ltb (length batch) size)) [
          | inl stop ↦
              (accumulated ++ visible_rows batch, rows_stop fuel cursor accumulated batch q stop)
          | inr go ↦
              let less = shrinks cursor batch q (ground arith) in
              let (out, rest) =
                stream_rows-answers fuel (next_cursor cursor_of batch)
                  (accumulated ++ visible_rows batch) (omega (arith, h, less)) in
              (out, rows_go fuel cursor accumulated batch q go ∙ rest)
        ]
