-- ===== src/Catalog/Changing.antt =====
-- Updating and deleting a source.
use toolhive_registry_server.Prelude.{
  ◌≡◌, ◌≢◌, refl, sym, ◌∙◌, inl, inr, String, Bool, true, false, not, ◌&&◌, none, some, Memᴰ, arith,
  Outcome, ok, err, >>=-eq-ok, >>-eq-ok, wrap_err, wrap_err-eq-ok, fail_if, fail_if-eq-ok,
  any-intro, contains, contains_iff, lookup, lookup-mem, Option-cases,
}
use toolhive_registry_server.Auth.{Ctx}
use toolhive_registry_server.Claims.Json.{Json}
use toolhive_registry_server.Config.{SourceType, unset}
use toolhive_registry_server.Config.Sources.{Host}
use toolhive_registry_server.Requests.{
  SourceCreateRequest, get_source_type, validate_source_request,
}
use toolhive_registry_server.Catalog.{
  SourceRow, RegistryRow, Catalog, CatalogError, CreationType, is_config, is_managed,
  source_type_eq, remove, replace, row_of, gate_visible, gate_subset, present_or, update_source,
  update_found, validate_source_type_change, validate_file_source_type_change, is_linked,
  delete_source, invalid_source_config, source_not_found, config_source, source_type_change,
  source_in_use,
}
use toolhive_registry_server.Catalog.Rows.{
  lookup-remove, lookup-remove_other, lookup-replace, lookup-replace_other,
}
use toolhive_registry_server.Catalog.Invariant.{SourceChange}
use toolhive_registry_server.Catalog.Opened.{
  type_same, present_or-some, ok-injective, validated-typed,
}
use toolhive_registry_server.Catalog.Invariant.{Inv}

module _ (json : Json) (host : Host) (is_valid_data : String → Bool) (skip_authz : Bool)
    (ctx : Ctx) where
  abbrev replaced :
      String → CreationType → SourceCreateRequest → Catalog json.Bytes → Catalog json.Bytes
  replaced name creation req c = record c {
    sources = replace name (row_of json host is_valid_data skip_authz ctx creation req) c.sources;
  }

  update_missing-ok :
      (name : String) (req : SourceCreateRequest) (c c' : Catalog json.Bytes)
      → update_found json host is_valid_data skip_authz ctx name req c none ≢ ok c'
  unfolding update_found
  update_missing-ok name req c c' h =
      let (_, k) =
        >>-eq-ok (gate_visible json host is_valid_data skip_authz ctx json.nil_bytes) _ h in
      let (_, k1) = >>-eq-ok (gate_subset json host is_valid_data skip_authz ctx req.claims) _ k in
      let k2 : ◌≡◌ {A = Outcome CatalogError (Catalog json.Bytes)} (err source_not_found) (ok c') =
        k1 in
      cc

  update_found-opened :
      (name : String) (req : SourceCreateRequest) (c c' : Catalog json.Bytes)
      (existing : SourceRow json.Bytes)
      → update_found json host is_valid_data skip_authz ctx name req c (some existing) ≡ ok c'
      → (is_config existing.creation ≡ false)
        × (validate_source_type_change json host is_valid_data skip_authz ctx existing.source_type
              (get_source_type req)
            ≡ ok tt)
        × (c' ≡ replaced name existing.creation req c)
  unfolding update_found
  update_found-opened name req c c' existing h =
      let (from_api, k) = >>-eq-ok (fail_if (is_config existing.creation) config_source) _ h in
      let (_, k1) =
        >>-eq-ok (gate_visible json host is_valid_data skip_authz ctx existing.claims) _ k in
      let (_, k2) = >>-eq-ok (gate_subset json host is_valid_data skip_authz ctx req.claims) _ k1 in
      let (ty, k3) =
        >>-eq-ok
          (validate_source_type_change json host is_valid_data skip_authz ctx existing.source_type
            (get_source_type req))
          _ k2 in
      let (_, k4) =
        >>-eq-ok
          (validate_file_source_type_change json host is_valid_data skip_authz ctx existing req) _
          k3 in
      (
        fail_if-eq-ok (is_config existing.creation) config_source from_api,
        ty,
        sym (
            ok-injective json host is_valid_data skip_authz ctx
              (replaced name existing.creation req c) c' k4),
      )

  -- An existing source that has a type keeps it.
  same_type :
      (a b : SourceType)
      → source_type_eq a unset ≡ false
      → validate_source_type_change json host is_valid_data skip_authz ctx a b ≡ ok tt
      → a ≡ b
  unfolding validate_source_type_change
  same_type a b set h =
      let passed =
        fail_if-eq-ok (not (source_type_eq a unset) && not (source_type_eq a b)) source_type_change
          h in
      type_same a b (ground arith)

  update_source-opened :
      (name : String) (req : SourceCreateRequest) (c c' : Catalog json.Bytes)
      → update_source json host is_valid_data skip_authz ctx name req c ≡ ok c'
      → (existing : SourceRow json.Bytes) × (lookup name c.sources ≡ some existing)
        × (validate_source_request host is_valid_data req ≡ ok tt)
        × (update_found json host is_valid_data skip_authz ctx name req c (some existing) ≡ ok c')
  unfolding update_source
  update_source-opened name req c c' h =
      let (valid, k) =
        >>-eq-ok (wrap_err invalid_source_config (validate_source_request host is_valid_data req)) _
          h in
      let valid' =
        wrap_err-eq-ok invalid_source_config (validate_source_request host is_valid_data req)
          valid in
      elim (Option-cases (lookup name c.sources)) [
        | inl missing ↦ absurd (update_missing-ok name req c c' (rw missing at k))
        | inr (existing, there) ↦ (existing, there, valid', rw there at k)
      ]

  pub update_source-SourceChange :
      (name : String) (req : SourceCreateRequest) (c c' : Catalog json.Bytes)
      → Inv c
      → update_source json host is_valid_data skip_authz ctx name req c ≡ ok c'
      → (row : SourceRow json.Bytes) × SourceChange c c' name (some row)
  update_source-SourceChange name req c c' inv h =
      let (existing, there, valid, k) = update_source-opened name req c c' h in
      let (from_api, kept, same) = update_found-opened name req c c' existing k in
      let row = row_of json host is_valid_data skip_authz ctx existing.creation req in
      let ty =
        same_type existing.source_type (get_source_type req) (inv.typed name existing there) kept in
      (
        row,
        record {
          here = rw same (lookup-replace name row existing c.sources there);
          others = λ n ne. rw same (lookup-replace_other name n row c.sources ne);
          same_registries = rw same refl;
          not_config = λ r at. let e : r ≡ existing = cc in rw e from_api;
          new_typed = λ r made.
              (validated-typed json host is_valid_data skip_authz ctx existing.creation req r valid
                made).0;
          only_managed = λ r r' n made m at m'.
              let (_, made_ty) =
                validated-typed json host is_valid_data skip_authz ctx existing.creation req r valid
                  made in
              let e_managed : is_managed existing.source_type ≡ true = rw (made_ty ∙ sym ty) at m in
              inv.one_managed n name r' existing at m' there e_managed;
          not_missed = inl (row, refl);
        },
      )

  delete_source-opened :
      (name : String) (c c' : Catalog json.Bytes)
      → delete_source json host is_valid_data skip_authz ctx name c ≡ ok c'
      → (existing : SourceRow json.Bytes) × (lookup name c.sources ≡ some existing)
        × (is_config existing.creation ≡ false)
        × (is_linked json host is_valid_data skip_authz ctx name c.registries ≡ false)
        × (c' ≡ record c { sources = remove name c.sources })
  unfolding delete_source
  delete_source-opened name c c' h =
      let (existing, found, k) =
        >>=-eq-ok
          (present_or json host is_valid_data skip_authz ctx (lookup name c.sources)
            source_not_found)
          _ h in
      let (from_api, k1) = >>-eq-ok (fail_if (is_config existing.creation) config_source) _ k in
      let (_, k2) =
        >>-eq-ok (gate_visible json host is_valid_data skip_authz ctx existing.claims) _ k1 in
      let (free, k3) =
        >>-eq-ok
          (fail_if (is_linked json host is_valid_data skip_authz ctx name c.registries)
            source_in_use)
          _ k2 in
      (
        existing,
        present_or-some json host is_valid_data skip_authz ctx (lookup name c.sources)
            source_not_found existing found,
        fail_if-eq-ok (is_config existing.creation) config_source from_api,
        fail_if-eq-ok (is_linked json host is_valid_data skip_authz ctx name c.registries)
            source_in_use free,
        sym (
            ok-injective json host is_valid_data skip_authz ctx
              (record c { sources = remove name c.sources }) c' k3),
      )

  unlinked :
      (name n : String) (c : Catalog json.Bytes) (reg : RegistryRow json.Bytes)
      → is_linked json host is_valid_data skip_authz ctx name c.registries ≡ false
      → lookup n c.registries ≡ some reg
      → ¬ Memᴰ name reg.links
  unfolding is_linked
  unlinked name n c reg free there m =
      let hit = (contains_iff name reg.links).1 m in
      let some_hit =
        any-intro (λ row. contains name row.1.links) c.registries (lookup-mem n c.registries there)
          hit in
      cc

  pub delete_source-SourceChange :
      (name : String) (c c' : Catalog json.Bytes)
      → delete_source json host is_valid_data skip_authz ctx name c ≡ ok c'
      → SourceChange c c' name none
  delete_source-SourceChange name c c' h =
      let (existing, there, from_api, free, same) = delete_source-opened name c c' h in
      record {
        here = rw same (lookup-remove name c.sources);
        others = λ n ne. rw same (lookup-remove_other name n c.sources ne);
        same_registries = rw same refl;
        not_config = λ r at. let e : r ≡ existing = cc in rw e from_api;
        new_typed = λ r made. absurd (cc);
        only_managed = λ r r' n made. absurd (cc);
        not_missed = inr (λ n reg at. unlinked name n c reg free at);
      }
