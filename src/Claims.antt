-- ===== src/Claims.antt =====
-- The claim rules: internal/service/db/claims_filter.go. The pure rules stand here; what goes
-- through stored JSON stands in the child `Stored`, the gate in `Gate`.
pub mod Json
pub mod Gate
pub mod Stored
pub mod Rules
pub mod Order
use toolhive_registry_server.Prelude.{
  String, Bool, true, false, not, ◌&&◌, Option, none, some, List, [], ◌∷◌, lookup, contains, any,
  all, is_empty, is_some, length, ltb, if◌then◌else◌,
}
use toolhive_registry_server.Value.{Value, str, strs, arr, values, as_str, ClaimMap, to_string_set}

unfoldable pub is_valid_claim_value : Value → Bool
is_valid_claim_value (str _) = true
is_valid_claim_value (strs _) = true
is_valid_claim_value (arr vs) = all (λ elem. is_some (as_str elem)) (values vs)
is_valid_claim_value _ = false

unfoldable pub subset_of : List String → List String → Bool
subset_of required have = all (λ v. contains v have) required

-- The smaller set is walked.
unfoldable pub overlaps : List String → List String → Bool
overlaps a b =
    if ltb (length b) (length a) then any (λ v. contains v a) b else any (λ v. contains v b) a

-- One round of the loop of `claimsMatch`, from the lookup on: `rest` is what the later rounds say.
match_entry : (List String → List String → Bool) → Option Value → Value → Bool → Bool
match_entry match_values none rv rest = false
match_entry match_values (some cv) rv rest =
    let required = to_string_set rv in
    if is_empty required
    then rest
    else if not (match_values required (to_string_set cv))
    then false
    else rest

unfoldable pub claims_match : (List String → List String → Bool) → ClaimMap → ClaimMap → Bool
unfolding match_entry
claims_match match_values caller [] = true
claims_match match_values caller ((k, rv) ∷ record') =
    let rest = claims_match match_values caller record' in
    if not (is_valid_claim_value rv)
    then false
    else match_entry match_values (lookup k caller) rv rest

unfoldable pub claims_contain : ClaimMap → ClaimMap → Bool
claims_contain caller record' = claims_match subset_of caller record'

unfoldable pub claims_visible : ClaimMap → ClaimMap → Bool
claims_visible caller record' = claims_match overlaps caller record'

unfoldable pub claims_equal : ClaimMap → ClaimMap → Bool
claims_equal a b = claims_contain a b && claims_contain b a
