-- ===== src/Catalog/Linking.antt =====
-- Creating, updating and deleting a registry.
use mathlib.Core.List.Memᴰ.{cases_cons}
use toolhive_registry_server.Prelude.{
  ◌≡◌, refl, sym, ◌∙◌, ap, inl, inr, String, Bool, false, none, some, List, [], ◌∷◌, Memᴰ, ok,
  >>=-eq-ok, >>-eq-ok, wrap_err, fail_if, fail_if-eq-ok, Dict, lookup,
}
use toolhive_registry_server.Auth.{Ctx}
use toolhive_registry_server.Claims.Json.{Json, serialize_claims}
use toolhive_registry_server.Config.Sources.{Host}
use toolhive_registry_server.Requests.{RegistryCreateRequest, validate_registry_config}
use toolhive_registry_server.Catalog.{
  SourceRow, RegistryRow, Catalog, CreationType, is_config, by_api, remove, replace, gate_visible,
  gate_subset, absent, present_or, resolve_sources, create_registry, get_existing_api_registry,
  update_registry, delete_registry, invalid_registry_config, registry_already_exists,
  registry_not_found, config_registry, source_not_found,
}
use toolhive_registry_server.Catalog.Rows.{
  lookup-added, lookup-added_other, lookup-remove, lookup-remove_other, lookup-replace,
  lookup-replace_other,
}
use toolhive_registry_server.Catalog.Invariant.{RegistryChange}
use toolhive_registry_server.Catalog.Opened.{absent-none, present_or-some, ok-injective}

module _ (json : Json) (host : Host) (is_valid_data : String → Bool) (skip_authz : Bool)
    (ctx : Ctx) where
  -- Every source that was resolved is there.
  resolve_sources-there :
      (names : List String) (sources : Dict (SourceRow json.Bytes)) (s : String)
      → resolve_sources json host is_valid_data skip_authz ctx names sources ≡ ok tt
      → Memᴰ s names
      → (r : SourceRow json.Bytes) × (lookup s sources ≡ some r)
  unfolding resolve_sources
  resolve_sources-there [] sources s h m = elim m [ ]
  resolve_sources-there (name ∷ names) sources s h m =
      let (src, found, k) =
        >>=-eq-ok
          (present_or json host is_valid_data skip_authz ctx (lookup name sources) source_not_found)
          _ h in
      let (_, k1) = >>-eq-ok (gate_visible json host is_valid_data skip_authz ctx src.claims) _ k in
      elim (cases_cons m) [
        | inl same ↦ (
          src,
          rw same (
              present_or-some json host is_valid_data skip_authz ctx (lookup name sources)
                source_not_found src found),
        )
        | inr later ↦ resolve_sources-there names sources s k1 later
      ]

  abbrev linked_row : RegistryCreateRequest → CreationType → RegistryRow json.Bytes
  linked_row req creation = record {
    creation = creation;
    claims = serialize_claims json req.claims;
    links = req.sources;
  }

  linked_row-resolved :
      (req : RegistryCreateRequest) (creation : CreationType) (c : Catalog json.Bytes)
      (reg : RegistryRow json.Bytes) (s : String)
      → resolve_sources json host is_valid_data skip_authz ctx req.sources c.sources ≡ ok tt
      → some (linked_row req creation) ≡ some reg
      → Memᴰ s reg.links
      → (r : SourceRow json.Bytes) × (lookup s c.sources ≡ some r)
  linked_row-resolved req creation c reg s all_there made m =
      let same : linked_row req creation ≡ reg = cc in
      resolve_sources-there req.sources c.sources s all_there (rw (← same) at m)

  pub create_registry-RegistryChange :
      (name : String) (req : RegistryCreateRequest) (c c' : Catalog json.Bytes)
      → create_registry json host is_valid_data skip_authz ctx name req c ≡ ok c'
      → RegistryChange c c' name (some (linked_row req by_api))
  unfolding create_registry
  create_registry-RegistryChange name req c c' h =
      let (_, k) = >>-eq-ok (wrap_err invalid_registry_config (validate_registry_config req)) _ h in
      let (free, k1) =
        >>-eq-ok
          (absent json host is_valid_data skip_authz ctx (lookup name c.registries)
            registry_already_exists)
          _ k in
      let (_, k2) = >>-eq-ok (gate_subset json host is_valid_data skip_authz ctx req.claims) _ k1 in
      let (all_there, k3) =
        >>-eq-ok (resolve_sources json host is_valid_data skip_authz ctx req.sources c.sources) _
          k2 in
      let same = sym (
        ok-injective json host is_valid_data skip_authz ctx
          (record c { registries = (name, linked_row req by_api) ∷ c.registries }) c' k3) in
      let new =
        absent-none json host is_valid_data skip_authz ctx (lookup name c.registries)
          registry_already_exists free in
      record {
        here = rw same (lookup-added name (linked_row req by_api) c.registries);
        others =
            λ n ne. rw same (lookup-added_other name n (linked_row req by_api) c.registries ne);
        same_sources = rw same refl;
        not_config = λ reg at. absurd (cc);
        resolved = λ reg s made m. linked_row-resolved req by_api c reg s all_there made m;
      }

  api_registry :
      (name : String) (c : Catalog json.Bytes) (existing : RegistryRow json.Bytes)
      → get_existing_api_registry json host is_valid_data skip_authz ctx name c.registries
        ≡ ok existing
      → (lookup name c.registries ≡ some existing) × (is_config existing.creation ≡ false)
  unfolding get_existing_api_registry
  api_registry name c existing h =
      let (e, found, k) =
        >>=-eq-ok
          (present_or json host is_valid_data skip_authz ctx (lookup name c.registries)
            registry_not_found)
          _ h in
      let (from_api, k1) = >>-eq-ok (fail_if (is_config e.creation) config_registry) _ k in
      let same = ok-injective json host is_valid_data skip_authz ctx e existing k1 in
      (
        present_or-some json host is_valid_data skip_authz ctx (lookup name c.registries)
              registry_not_found e found
            ∙ ap some same,
        rw (← same) (fail_if-eq-ok (is_config e.creation) config_registry from_api),
      )

  pub update_registry-RegistryChange :
      (name : String) (req : RegistryCreateRequest) (c c' : Catalog json.Bytes)
      → update_registry json host is_valid_data skip_authz ctx name req c ≡ ok c'
      → (reg : RegistryRow json.Bytes) × RegistryChange c c' name (some reg)
  unfolding update_registry
  update_registry-RegistryChange name req c c' h =
      let (_, k) = >>-eq-ok (wrap_err invalid_registry_config (validate_registry_config req)) _ h in
      let (existing, found, k1) =
        >>=-eq-ok
          (get_existing_api_registry json host is_valid_data skip_authz ctx name c.registries) _
          k in
      let (_, k2) =
        >>-eq-ok (gate_visible json host is_valid_data skip_authz ctx existing.claims) _ k1 in
      let (_, k3) = >>-eq-ok (gate_subset json host is_valid_data skip_authz ctx req.claims) _ k2 in
      let (all_there, k4) =
        >>-eq-ok (resolve_sources json host is_valid_data skip_authz ctx req.sources c.sources) _
          k3 in
      let row = linked_row req existing.creation in
      let same = sym (
        ok-injective json host is_valid_data skip_authz ctx
          (record c { registries = replace name row c.registries }) c' k4) in
      let (there, from_api) = api_registry name c existing found in
      (
        row,
        record {
          here = rw same (lookup-replace name row existing c.registries there);
          others = λ n ne. rw same (lookup-replace_other name n row c.registries ne);
          same_sources = rw same refl;
          not_config = λ reg at. let e : reg ≡ existing = cc in rw e from_api;
          resolved =
              λ reg s made m. linked_row-resolved req existing.creation c reg s all_there made m;
        },
      )

  pub delete_registry-RegistryChange :
      (name : String) (c c' : Catalog json.Bytes)
      → delete_registry json host is_valid_data skip_authz ctx name c ≡ ok c'
      → RegistryChange c c' name none
  unfolding delete_registry
  delete_registry-RegistryChange name c c' h =
      let (existing, found, k) =
        >>=-eq-ok
          (get_existing_api_registry json host is_valid_data skip_authz ctx name c.registries) _
          h in
      let (_, k1) =
        >>-eq-ok (gate_visible json host is_valid_data skip_authz ctx existing.claims) _ k in
      let same = sym (
        ok-injective json host is_valid_data skip_authz ctx
          (record c { registries = remove name c.registries }) c' k1) in
      let (there, from_api) = api_registry name c existing found in
      record {
        here = rw same (lookup-remove name c.registries);
        others = λ n ne. rw same (lookup-remove_other name n c.registries ne);
        same_sources = rw same refl;
        not_config = λ reg at. let e : reg ≡ existing = cc in rw e from_api;
        resolved = λ reg s made. absurd (cc);
      }
