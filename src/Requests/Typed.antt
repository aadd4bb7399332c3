-- ===== src/Requests/Typed.antt =====
-- A request that is accepted has a type.
use toolhive_registry_server.Prelude.{
  ◌≡◌, refl, String, Bool, true, false, ok, >>-eq-ok, fail_if, wrap_err, beq, ltb, if◌then◌else◌,
}
use toolhive_registry_server.Config.{SourceType, git, api, file, managed, kubernetes, unset}
use toolhive_registry_server.Config.Sources.{Host, no_type, several_types, validate_sync_policy}
use toolhive_registry_server.Requests.{
  SourceCreateRequest, shared, count_source_types, is_non_synced_type, get_source_type,
  validate_by_type, validate_source_specific, validate_source_request,
}

-- A source type that stands for a section.
abbrev pub is_set : SourceType → Bool
is_set unset = false
is_set _ = true

module _ (host : Host) (is_valid_data : String → Bool) where
  by_type-set :
      (ty : SourceType) (req : SourceCreateRequest)
      → validate_by_type host is_valid_data ty req ≡ ok tt
      → is_set ty ≡ true
  unfolding validate_by_type
  by_type-set git req h = refl
  by_type-set api req h = refl
  by_type-set file req h = refl
  by_type-set managed req h = refl
  by_type-set kubernetes req h = refl
  by_type-set unset req h = absurd (cc)

  pub validated_typed :
      (req : SourceCreateRequest)
      → validate_source_request host is_valid_data req ≡ ok tt
      → is_set (get_source_type req) ≡ true
  unfolding validate_source_request validate_source_specific
  validated_typed req h =
      let (_, k) = >>-eq-ok (fail_if (beq (count_source_types req) 0) (shared no_type)) _ h in
      let (_, k1) =
        >>-eq-ok (fail_if (ltb 1 (count_source_types req)) (shared several_types)) _ k in
      let (_, k2) =
        >>-eq-ok
          (if is_non_synced_type req
            then ok tt
            else wrap_err shared (validate_sync_policy host req.sync_policy))
          _ k1 in
      by_type-set (get_source_type req) req k2
