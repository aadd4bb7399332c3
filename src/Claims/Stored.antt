-- ===== src/Claims/Stored.antt =====
-- The claim rules on stored rows, whose claims are JSON: the consistency check of a publish, the
-- gate on stored bytes and the filter of the list endpoints (internal/service/db/claims_filter.go).
pub mod Decoding
pub mod Agreement
use toolhive_registry_server.Prelude.{
  Bool, true, false, not, ◌&&◌, ◌||◌, Option, none, some, Outcome, ok, err, Check, fail_if, ◌>>◌,
  beq, is_empty, if◌then◌else◌,
}
use toolhive_registry_server.Value.{ClaimMap}
use toolhive_registry_server.Auth.{Ctx, is_super_admin}
use toolhive_registry_server.Claims.{claims_visible, claims_equal}
use toolhive_registry_server.Claims.Json.{Json, entries_of, deserialize_claims}
use toolhive_registry_server.Claims.Gate.{GateError, validate_claims_visible}

pub data ConsistencyError : Type 0 where
  claims_mismatch unmarshal_incoming unmarshal_existing : ConsistencyError

-- The error of a `RecordFilter`.
pub data FilterError : Type 0 where
  unexpected_record_type : FilterError

-- `service.RecordFilter`, on the records `R` that a query yields.
abbrev pub RecordFilter : Type 0 → Type 0
RecordFilter R = R → Outcome FilterError Bool

module _ (json : Json) where
  open json use {Bytes, len, marshal, unmarshal}

  compare_decoded : Option (Option ClaimMap) → Option (Option ClaimMap) → Check ConsistencyError
  compare_decoded none existing = err unmarshal_incoming
  compare_decoded (some incoming) none = err unmarshal_existing
  compare_decoded (some incoming) (some existing) =
      fail_if (not (claims_equal (entries_of incoming) (entries_of existing))) claims_mismatch

  unfoldable pub check_claim_consistency : Bytes → Bytes → Check ConsistencyError
  unfolding compare_decoded
  check_claim_consistency incoming existing =
      let incoming_empty = beq (len incoming) 0 in
      let existing_empty = beq (len existing) 0 in
      if incoming_empty && existing_empty
      then ok tt
      else if (incoming_empty && not existing_empty) || (not incoming_empty && existing_empty)
      then err claims_mismatch
      else compare_decoded (unmarshal incoming) (unmarshal existing)

  unfoldable pub validate_claims_visible_bytes : Ctx → Option ClaimMap → Bytes → Check GateError
  validate_claims_visible_bytes ctx none resource = ok tt
  validate_claims_visible_bytes ctx (some caller) resource =
      validate_claims_visible ctx (some caller) (deserialize_claims json resource)

  -- `marshalClaims`: `none` is a nil slice.
  unfoldable pub marshal_claims : Option ClaimMap → Option Bytes
  marshal_claims claims = if is_empty (entries_of claims) then none else marshal (entries_of claims)

  see_decoded : Option (Option ClaimMap) → Option (Option ClaimMap) → Bool
  see_decoded (some caller) (some record') = claims_visible (entries_of caller) (entries_of record')
  see_decoded _ _ = false

  unfoldable pub check_claims : Bytes → Bytes → Bool
  unfolding see_decoded
  check_claims caller record' =
      if beq (len caller) 0 || beq (len record') 0
      then false
      else see_decoded (unmarshal caller) (unmarshal record')

  -- The closure that `newClaimsFilterWith` returns.
  keep_record : {R : Type 0} → Bytes → (R → Option Bytes) → RecordFilter R
  keep_record caller extract record' = elim (extract record') [
    | none ↦ err unexpected_record_type
    | some claims ↦ ok (check_claims caller claims)
  ]

  -- `none`: no filter, every record is visible.
  unfoldable pub new_claims_filter_with :
      {R : Type 0} → Ctx → Option ClaimMap → (R → Option Bytes) → Option (RecordFilter R)
  unfolding keep_record
  new_claims_filter_with ctx caller extract = elim (marshal_claims caller) [
    | none ↦ none
    | some caller_json ↦ if is_super_admin ctx then none else some (keep_record caller_json extract)
  ]
