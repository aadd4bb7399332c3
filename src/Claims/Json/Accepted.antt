-- ===== src/Claims/Json/Accepted.antt =====
-- Which claims are accepted for storing.
use toolhive_registry_server.Prelude.{
  ℕ, ◌+◌, String, List, [], ◌∷◌, ◌≡◌, refl, ◌↔◌, ok, >>-eq-ok, All,
}
use toolhive_registry_server.Value.{Value, str, strs, arr, values, ClaimMap}
use toolhive_registry_server.Claims.Rules.{IsClaimValue}
use toolhive_registry_server.Claims.Json.{check_elements, check_value, validate_claim_values}

check_elements_iff :
    (key : String) (i : ℕ) (vs : List Value)
    → (check_elements key i vs ≡ ok tt) ↔ All (λ v. (s : String) × (v ≡ str s)) vs
unfolding check_elements
check_elements_iff key i [] = (λ _. tt, λ _. refl)
check_elements_iff key i (str s ∷ vs) =
    let (to, from) = check_elements_iff key (i + 1) vs in (λ h. ((s, refl), to h), λ h. from h.1)
check_elements_iff key i (v ∷ vs) = (λ h. absurd (cc), λ ((s, e), _). absurd (cc))

check_value_iff : (key : String) (v : Value) → (check_value key v ≡ ok tt) ↔ IsClaimValue v
unfolding check_value
check_value_iff key (str s) = (λ _. tt, λ _. refl)
check_value_iff key (strs l) = (λ _. tt, λ _. refl)
check_value_iff key (arr vs) = check_elements_iff key 0 (values vs)
check_value_iff key v = (λ h. absurd (cc), absurd)

-- Claims are accepted exactly when each value is a string or a list of strings only, which is what
-- the claim rules take for a claim value.
pub validate_claim_values_iff :
    (claims : ClaimMap)
    → (validate_claim_values claims ≡ ok tt) ↔ All (λ entry. IsClaimValue entry.1) claims
unfolding validate_claim_values
validate_claim_values_iff [] = (λ _. tt, λ _. refl)
validate_claim_values_iff ((key, v) ∷ claims) =
    let (to, from) = validate_claim_values_iff claims in
    let (to_value, from_value) = check_value_iff key v in
    (
      λ h. let (first, later) = >>-eq-ok _ _ h in (to_value first, to later),
      λ h. let first = from_value h.0 in rw first (from h.1),
    )
