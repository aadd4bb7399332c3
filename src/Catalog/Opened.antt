-- ===== src/Catalog/Opened.antt =====
-- What a call that does not fail has checked, and which row it changes.
use toolhive_registry_server.Prelude.{
  ◌≡◌, refl, sym, ◌∙◌, ap, inl, inr, String, Bool, true, false, not, ◌&&◌, Option, none, some, List,
  [], ◌∷◌, Memᴰ, mem-keep, arith, Outcome, ok, err, >>-eq-ok, wrap_err, wrap_err-eq-ok, fail_if,
  fail_if-eq-ok, is_empty, keep, lookup, lookup-mem, Bool-cases,
}
use toolhive_registry_server.Auth.{Ctx}
use toolhive_registry_server.Claims.Json.{Json}
use toolhive_registry_server.Config.{SourceType, git, api, file, managed, kubernetes, unset}
use toolhive_registry_server.Config.Sources.{Host}
use toolhive_registry_server.Requests.{
  SourceCreateRequest, get_source_type, validate_source_request,
}
use toolhive_registry_server.Requests.Typed.{is_set, validated_typed}
use toolhive_registry_server.Catalog.{
  SourceRow, Catalog, CatalogError, CreationType, by_api, is_managed, source_type_eq, row_of,
  managed_sources, gate_subset, absent, present_or, create_source, invalid_source_config,
  source_already_exists, invalid_source_name, managed_source_limit_reached,
}
use toolhive_registry_server.Catalog.Rows.{lookup-added, lookup-added_other}
use toolhive_registry_server.Catalog.Invariant.{SourceChange}

type_set : (ty : SourceType) → is_set ty ≡ true → source_type_eq ty unset ≡ false
type_set unset h = absurd (cc)
type_set git h = refl
type_set api h = refl
type_set file h = refl
type_set managed h = refl
type_set kubernetes h = refl

pub type_same : (a b : SourceType) → source_type_eq a b ≡ true → a ≡ b
type_same git git h = refl
type_same api api h = refl
type_same file file h = refl
type_same managed managed h = refl
type_same kubernetes kubernetes h = refl
type_same unset unset h = refl
type_same a b h = absurd (cc)

none_kept :
    {A : Type 0} (p : A → Bool) (xs : List A) (x : A)
    → is_empty (keep p xs) ≡ true
    → Memᴰ x xs
    → p x ≡ false
none_kept p xs x empty m = elim (Bool-cases (p x)) [
  | inl e ↦ absurd (filled (keep p xs) ((mem-keep p xs).1 (m, e)) empty)
  | inr e ↦ e
]
  where
    filled : (ys : List _) → Memᴰ x ys → ¬ (is_empty ys ≡ true)
    filled [] m h = elim m [ ]
    filled (y ∷ ys) m h = cc

module _ (json : Json) (host : Host) (is_valid_data : String → Bool) (skip_authz : Bool)
    (ctx : Ctx) where
  abbrev Called : Type 0
  Called = Outcome CatalogError (Catalog json.Bytes)

  pub ok-injective : {V : Type 0} (v w : V) → ◌≡◌ {A = Outcome CatalogError V} (ok v) (ok w) → v ≡ w
  ok-injective v w h = cc

  abbrev added_source : String → SourceCreateRequest → Catalog json.Bytes → Catalog json.Bytes
  added_source name req c = record c {
    sources = (name, row_of json host is_valid_data skip_authz ctx by_api req) ∷ c.sources;
  }

  abbrev at_limit : SourceCreateRequest → Catalog json.Bytes → Bool
  at_limit req c =
      is_managed (get_source_type req)
      && not (is_empty (managed_sources json host is_valid_data skip_authz ctx c.sources))

  pub absent-none :
      {V : Type 0} (o : Option V) (e : CatalogError)
      → absent json host is_valid_data skip_authz ctx o e ≡ ok tt
      → o ≡ none
  unfolding absent
  absent-none none e h = refl
  absent-none (some v) e h = absurd (let k : err e ≡ ok tt = h in cc)

  pub present_or-some :
      {V : Type 0} (o : Option V) (e : CatalogError) (v : V)
      → present_or json host is_valid_data skip_authz ctx o e ≡ ok v
      → o ≡ some v
  unfolding present_or
  present_or-some none e v h = absurd (let k : err e ≡ ok v = h in cc)
  present_or-some (some w) e v h = ap some (ok-injective w v h)

  create_source-opened :
      (name : String) (req : SourceCreateRequest) (c c' : Catalog json.Bytes)
      → create_source json host is_valid_data skip_authz ctx name req c ≡ ok c'
      → (lookup name c.sources ≡ none)
        × (validate_source_request host is_valid_data req ≡ ok tt)
        × (at_limit req c ≡ false)
        × (c' ≡ added_source name req c)
  unfolding create_source
  create_source-opened name req c c' h =
      let (valid, k) =
        >>-eq-ok (wrap_err invalid_source_config (validate_source_request host is_valid_data req)) _
          h in
      let (_, k1) = >>-eq-ok (gate_subset json host is_valid_data skip_authz ctx req.claims) _ k in
      let (new, k2) =
        >>-eq-ok
          (absent json host is_valid_data skip_authz ctx (lookup name c.sources)
            source_already_exists)
          _ k1 in
      let (_, k3) =
        >>-eq-ok (fail_if (not (host.is_dns_subdomain name)) invalid_source_name) _ k2 in
      let (limit, k4) = >>-eq-ok (fail_if (at_limit req c) managed_source_limit_reached) _ k3 in
      (
        absent-none (lookup name c.sources) source_already_exists new,
        wrap_err-eq-ok invalid_source_config (validate_source_request host is_valid_data req) valid,
        fail_if-eq-ok (at_limit req c) managed_source_limit_reached limit,
        sym (ok-injective (added_source name req c) c' k4),
      )

  pub row_of-typed :
      (creation : CreationType) (req : SourceCreateRequest)
      → (row_of json host is_valid_data skip_authz ctx creation req).source_type
        ≡ get_source_type req
  unfolding row_of
  row_of-typed creation req = refl

  pub validated-typed :
      (creation : CreationType) (req : SourceCreateRequest) (r : SourceRow json.Bytes)
      → validate_source_request host is_valid_data req ≡ ok tt
      → some (row_of json host is_valid_data skip_authz ctx creation req) ≡ some r
      → (source_type_eq r.source_type unset ≡ false) × (r.source_type ≡ get_source_type req)
  validated-typed creation req r valid same =
      let same_r : row_of json host is_valid_data skip_authz ctx creation req ≡ r = cc in
      let ty = sym (ap (λ x. x.source_type) same_r) ∙ row_of-typed creation req in
      (rw ty (type_set (get_source_type req) (validated_typed host is_valid_data req valid)), ty)

  none_managed :
      (req : SourceCreateRequest) (c : Catalog json.Bytes) (n : String) (r : SourceRow json.Bytes)
      → at_limit req c ≡ false
      → is_managed (get_source_type req) ≡ true
      → lookup n c.sources ≡ some r
      → is_managed r.source_type ≡ false
  unfolding managed_sources
  none_managed req c n r below new there =
      none_kept (λ row. is_managed row.1.source_type) c.sources (n, r) (ground arith)
        (lookup-mem n c.sources there)

  pub create_source-SourceChange :
      (name : String) (req : SourceCreateRequest) (c c' : Catalog json.Bytes)
      → create_source json host is_valid_data skip_authz ctx name req c ≡ ok c'
      → SourceChange c c' name (some (row_of json host is_valid_data skip_authz ctx by_api req))
  create_source-SourceChange name req c c' h =
      let (new, valid, below, same) = create_source-opened name req c c' h in
      let row = row_of json host is_valid_data skip_authz ctx by_api req in
      record {
        here = rw same (lookup-added name row c.sources);
        others = λ n ne. rw same (lookup-added_other name n row c.sources ne);
        same_registries = rw same refl;
        not_config = λ r there. absurd (cc);
        new_typed = λ r made. (validated-typed by_api req r valid made).0;
        only_managed = λ r r' n made m there m'.
            let (_, ty) = validated-typed by_api req r valid made in
            absurd (let off = none_managed req c n r' below (rw ty at m) there in cc);
        not_missed = inl (row, refl);
      }
