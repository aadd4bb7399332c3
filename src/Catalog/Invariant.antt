-- ===== src/Catalog/Invariant.antt =====
-- What holds of the sources and registries, and when a change of one row keeps it.
use toolhive_registry_server.Prelude.{
  ◌≡◌, ◌≢◌, sym, ◌∙◌, ◌⊎◌, inl, inr, String, true, false, Option, some, Memᴰ, lookup,
}
use toolhive_registry_server.Config.{unset}
use toolhive_registry_server.Catalog.{
  SourceRow, RegistryRow, Catalog, is_config, is_managed, source_type_eq,
}
use toolhive_registry_server.Catalog.Rows.{name_split}

module _ {B : Type 0} where
  -- Sources have a type, at most one of them is managed, and registries are linked to sources that
  -- are there.
  pub record Inv (c : Catalog B) : Type 0 where
    pub typed :
        (n : String) (r : SourceRow B)
        → lookup n c.sources ≡ some r
        → source_type_eq r.source_type unset ≡ false
    pub one_managed :
        (n n' : String) (r r' : SourceRow B)
        → lookup n c.sources ≡ some r
        → is_managed r.source_type ≡ true
        → lookup n' c.sources ≡ some r'
        → is_managed r'.source_type ≡ true
        → n ≡ n'
    pub linked :
        (n s : String) (reg : RegistryRow B)
        → lookup n c.registries ≡ some reg
        → Memᴰ s reg.links
        → (r : SourceRow B) × (lookup s c.sources ≡ some r)

  -- One source was added, changed or deleted.
  pub record SourceChange (c c' : Catalog B) (name : String) (o : Option (SourceRow B))
      : Type 0 where
    pub here : lookup name c'.sources ≡ o
    pub others : (n : String) → n ≢ name → lookup n c'.sources ≡ lookup n c.sources
    pub same_registries : c'.registries ≡ c.registries
    pub not_config :
        (r : SourceRow B) → lookup name c.sources ≡ some r → is_config r.creation ≡ false
    pub new_typed : (r : SourceRow B) → o ≡ some r → source_type_eq r.source_type unset ≡ false
    pub only_managed :
        (r r' : SourceRow B) (n : String)
        → o ≡ some r
        → is_managed r.source_type ≡ true
        → lookup n c.sources ≡ some r'
        → is_managed r'.source_type ≡ true
        → n ≡ name
    pub not_missed :
        ((r : SourceRow B) × (o ≡ some r))
        ⊎ ((n : String) (reg : RegistryRow B)
            → lookup n c.registries ≡ some reg
            → ¬ Memᴰ name reg.links)

  pub SourceChange-Inv :
      (c c' : Catalog B) (name : String) (o : Option (SourceRow B))
      → SourceChange c c' name o
      → Inv c
      → Inv c'
  SourceChange-Inv c c' name o change inv = record {
    typed = λ n r h. elim (name_split n name) [
      | inl same ↦ change.new_typed r (sym change.here ∙ rw (← same) h)
      | inr ne ↦ inv.typed n r (sym (change.others n ne) ∙ h)
    ];
    one_managed = λ n n' r r' h m h' m'. elim (name_split n name) [
      | inl same ↦ elim (name_split n' name) [
        | inl same' ↦ same ∙ sym same'
        | inr ne' ↦
            let o_r = sym change.here ∙ rw (← same) h in
            same ∙ sym (change.only_managed r r' n' o_r m (sym (change.others n' ne') ∙ h') m')
      ]
      | inr ne ↦ elim (name_split n' name) [
        | inl same' ↦
            let o_r = sym change.here ∙ rw (← same') h' in
            change.only_managed r' r n o_r m' (sym (change.others n ne) ∙ h) m ∙ sym same'
        | inr ne' ↦
            inv.one_managed n n' r r' (sym (change.others n ne) ∙ h) m
              (sym (change.others n' ne') ∙ h') m'
      ]
    ];
    linked = λ n s reg h m.
        let h' : lookup n c.registries ≡ some reg = rw (← change.same_registries) h in
        elim (name_split s name) [
          | inl same ↦ elim change.not_missed [
            | inl (r, there) ↦ (r, rw same (change.here ∙ there))
            | inr unlinked ↦ absurd (unlinked n reg h' (rw (← same) m))
          ]
          | inr ne ↦ let (r, at) = inv.linked n s reg h' m in (r, change.others s ne ∙ at)
        ];
  }

  -- One registry was added, changed or deleted.
  pub record RegistryChange (c c' : Catalog B) (name : String) (o : Option (RegistryRow B))
      : Type 0 where
    pub here : lookup name c'.registries ≡ o
    pub others : (n : String) → n ≢ name → lookup n c'.registries ≡ lookup n c.registries
    pub same_sources : c'.sources ≡ c.sources
    pub not_config :
        (reg : RegistryRow B) → lookup name c.registries ≡ some reg → is_config reg.creation ≡ false
    pub resolved :
        (reg : RegistryRow B) (s : String)
        → o ≡ some reg
        → Memᴰ s reg.links
        → (r : SourceRow B) × (lookup s c.sources ≡ some r)

  pub RegistryChange-Inv :
      (c c' : Catalog B) (name : String) (o : Option (RegistryRow B))
      → RegistryChange c c' name o
      → Inv c
      → Inv c'
  RegistryChange-Inv c c' name o change inv = record {
    typed = rw change.same_sources inv.typed;
    one_managed = rw change.same_sources inv.one_managed;
    linked = λ n s reg h m. elim (name_split n name) [
      | inl same ↦
          let (r, at) = change.resolved reg s (sym change.here ∙ rw (← same) h) m in
          (r, rw change.same_sources at)
      | inr ne ↦
          let (r, at) = inv.linked n s reg (sym (change.others n ne) ∙ h) m in
          (r, rw change.same_sources at)
    ];
  }
