-- ===== src/Catalog/Calls.antt =====
-- Any call of the admin API that does not fail.
use toolhive_registry_server.Prelude.{
  ◌≡◌, ◌∙◌, ◌⊎◌, inl, inr, String, Bool, true, Option, none, some, ok, lookup,
}
use toolhive_registry_server.Auth.{Ctx}
use toolhive_registry_server.Claims.Json.{Json}
use toolhive_registry_server.Config.Sources.{Host}
use toolhive_registry_server.Requests.{SourceCreateRequest, RegistryCreateRequest}
use toolhive_registry_server.Catalog.{
  SourceRow, RegistryRow, Catalog, is_config, create_source, update_source, delete_source,
  create_registry, update_registry, delete_registry,
}
use toolhive_registry_server.Catalog.Rows.{name_split}
use toolhive_registry_server.Catalog.Invariant.{
  Inv, SourceChange, SourceChange-Inv, RegistryChange, RegistryChange-Inv,
}
use toolhive_registry_server.Catalog.Opened.{create_source-SourceChange}
use toolhive_registry_server.Catalog.Changing.{
  update_source-SourceChange, delete_source-SourceChange,
}
use toolhive_registry_server.Catalog.Linking.{
  create_registry-RegistryChange, update_registry-RegistryChange, delete_registry-RegistryChange,
}

module _ (json : Json) (host : Host) (is_valid_data : String → Bool) (skip_authz : Bool)
    (ctx : Ctx) where
  -- A call that changes the sources or the registries, and does not fail.
  pub data Call : Catalog json.Bytes → Catalog json.Bytes → Type 0 where
    source_created :
        (name : String) (req : SourceCreateRequest) {c c' : Catalog json.Bytes}
        → create_source json host is_valid_data skip_authz ctx name req c ≡ ok c'
        → Call c c'
    source_updated :
        (name : String) (req : SourceCreateRequest) {c c' : Catalog json.Bytes}
        → update_source json host is_valid_data skip_authz ctx name req c ≡ ok c'
        → Call c c'
    source_deleted :
        (name : String) {c c' : Catalog json.Bytes}
        → delete_source json host is_valid_data skip_authz ctx name c ≡ ok c'
        → Call c c'
    registry_created :
        (name : String) (req : RegistryCreateRequest) {c c' : Catalog json.Bytes}
        → create_registry json host is_valid_data skip_authz ctx name req c ≡ ok c'
        → Call c c'
    registry_updated :
        (name : String) (req : RegistryCreateRequest) {c c' : Catalog json.Bytes}
        → update_registry json host is_valid_data skip_authz ctx name req c ≡ ok c'
        → Call c c'
    registry_deleted :
        (name : String) {c c' : Catalog json.Bytes}
        → delete_registry json host is_valid_data skip_authz ctx name c ≡ ok c'
        → Call c c'

  -- One row was changed.
  abbrev Changed : Catalog json.Bytes → Catalog json.Bytes → Type 0
  Changed c c' =
      ((name : String) × (o : Option (SourceRow json.Bytes)) × SourceChange c c' name o)
      ⊎ ((name : String) × (o : Option (RegistryRow json.Bytes)) × RegistryChange c c' name o)

  -- A call changes one row.
  Call-Changed : {c c' : Catalog json.Bytes} → Inv c → Call c c' → Changed c c'
  Call-Changed inv (source_created name req {c} {c'} h) =
      inl
        (name, _, create_source-SourceChange json host is_valid_data skip_authz ctx name req c c' h)
  Call-Changed inv (source_updated name req {c} {c'} h) =
      let (row, change) =
        update_source-SourceChange json host is_valid_data skip_authz ctx name req c c' inv h in
      inl (name, some row, change)
  Call-Changed inv (source_deleted name {c} {c'} h) =
      inl
        (name, none, delete_source-SourceChange json host is_valid_data skip_authz ctx name c c' h)
  Call-Changed inv (registry_created name req {c} {c'} h) = inr (
    name,
    _,
    create_registry-RegistryChange json host is_valid_data skip_authz ctx name req c c' h,
  )
  Call-Changed inv (registry_updated name req {c} {c'} h) =
      let (row, change) =
        update_registry-RegistryChange json host is_valid_data skip_authz ctx name req c c' h in
      inr (name, some row, change)
  Call-Changed inv (registry_deleted name {c} {c'} h) = inr (
    name,
    none,
    delete_registry-RegistryChange json host is_valid_data skip_authz ctx name c c' h,
  )

  -- A call of the admin API that does not fail keeps the invariant: sources have a type, at most one
  -- of them is managed, and registries are linked to sources that are there.
  pub Call-Inv : (c c' : Catalog json.Bytes) → Inv c → Call c c' → Inv c'
  Call-Inv c c' inv call = elim (Call-Changed inv call) [
    | inl (name, o, change) ↦ SourceChange-Inv c c' name o change inv
    | inr (name, o, change) ↦ RegistryChange-Inv c c' name o change inv
  ]

  -- Where the invariant holds, a call of the admin API that does not fail leaves a source that the
  -- configuration created as it was.
  pub Call-keeps_source :
      (c c' : Catalog json.Bytes) (n : String) (r : SourceRow json.Bytes)
      → Inv c
      → Call c c'
      → lookup n c.sources ≡ some r
      → is_config r.creation ≡ true
      → lookup n c'.sources ≡ some r
  Call-keeps_source c c' n r inv call there config = elim (Call-Changed inv call) [
    | inl (name, o, change) ↦ elim (name_split n name) [
      | inl same ↦ absurd (let from_api = change.not_config r (rw same at there) in cc)
      | inr ne ↦ change.others n ne ∙ there
    ]
    | inr (name, o, change) ↦ rw change.same_sources there
  ]

  -- Where the invariant holds, a call of the admin API that does not fail leaves a registry that the
  -- configuration created as it was.
  pub Call-keeps_registry :
      (c c' : Catalog json.Bytes) (n : String) (reg : RegistryRow json.Bytes)
      → Inv c
      → Call c c'
      → lookup n c.registries ≡ some reg
      → is_config reg.creation ≡ true
      → lookup n c'.registries ≡ some reg
  Call-keeps_registry c c' n reg inv call there config = elim (Call-Changed inv call) [
    | inl (name, o, change) ↦ rw change.same_registries there
    | inr (name, o, change) ↦ elim (name_split n name) [
      | inl same ↦ absurd (let from_api = change.not_config reg (rw same at there) in cc)
      | inr ne ↦ change.others n ne ∙ there
    ]
  ]
