-- ===== src/Claims/Gate.antt =====
-- The claim gate of internal/service/db/claims_filter.go: who may use a resource.
use toolhive_registry_server.Prelude.{
  Bool, true, not, Option, none, some, [], ◌∷◌, ◌≡◌, ◌≢◌, refl, ◌↔◌, ◌⊎◌, inl, inr, ok, Check, ◌>>◌,
  fail_if, is_empty, Bool-cases, if◌then◌else◌,
}
use toolhive_registry_server.Value.{Value, ClaimMap}
use toolhive_registry_server.Auth.{Ctx, is_super_admin}
use toolhive_registry_server.Claims.{claims_contain, claims_visible}
use toolhive_registry_server.Claims.Json.{entries_of}
use toolhive_registry_server.Claims.Rules.{
  Covers, Admits, Satisfies, claims_contain_iff, claims_visible_iff,
}

-- The two texts behind `ErrClaimsInsufficient`.
pub data GateError : Type 0 where
  resource_has_no_claims claims_do_not_cover : GateError

unfoldable pub validate_claims_with :
    Ctx → Option ClaimMap → Option ClaimMap → (ClaimMap → ClaimMap → Bool) → Check GateError
validate_claims_with ctx none resource match_claims = ok tt
validate_claims_with ctx (some caller) resource match_claims =
    if is_super_admin ctx then ok tt else do
      fail_if (is_empty (entries_of resource)) resource_has_no_claims
      fail_if (not (match_claims caller (entries_of resource))) claims_do_not_cover

unfoldable pub validate_claims_subset : Ctx → Option ClaimMap → Option ClaimMap → Check GateError
validate_claims_subset ctx caller resource = validate_claims_with ctx caller resource claims_contain

unfoldable pub validate_claims_visible : Ctx → Option ClaimMap → Option ClaimMap → Check GateError
validate_claims_visible ctx caller resource =
    validate_claims_with ctx caller resource claims_visible

-- `claimsFromCtx`
unfoldable pub claims_from_ctx : Ctx → Option ClaimMap
claims_from_ctx ctx = ctx.claims

-- The gate is off for the caller, or the resource has claims that the caller matches.
abbrev pub MayPass : (Value → Value → Type 0) → Ctx → Option ClaimMap → Option ClaimMap → Type 0
MayPass Rel ctx none resource = Unit
MayPass Rel ctx (some caller) resource =
    (is_super_admin ctx ≡ true)
    ⊎ ((entries_of resource ≢ []) × Satisfies Rel caller (entries_of resource))

module _ (ctx : Ctx) (match_claims : ClaimMap → ClaimMap → Bool) (Rel : Value → Value → Type 0)
    (match_iff : (c r : ClaimMap) → (match_claims c r ≡ true) ↔ Satisfies Rel c r) where
  checked_iff :
      (caller resource : ClaimMap)
      → ((do
        fail_if (is_empty resource) resource_has_no_claims
        fail_if (not (match_claims caller resource)) claims_do_not_cover)
          ≡ ok tt)
        ↔ ((resource ≢ []) × Satisfies Rel caller resource)
  checked_iff caller [] = (λ h. absurd (cc), λ h. absurd (h.0 refl))
  checked_iff caller (e ∷ es) = elim (Bool-cases (match_claims caller (e ∷ es))) [
    | inl yes_match ↦
        rw yes_match (λ _. ((λ p. cc), (match_iff caller (e ∷ es)).0 yes_match), λ _. refl)
    | inr no_match ↦
        rw no_match (λ h. absurd (cc), λ (_, s). absurd (cc ((match_iff caller (e ∷ es)).1 s)))
  ]

  validate_claims_with_iff :
      (caller resource : Option ClaimMap)
      → (validate_claims_with ctx caller resource match_claims ≡ ok tt)
        ↔ MayPass Rel ctx caller resource
  unfolding validate_claims_with
  validate_claims_with_iff none resource = (λ _. tt, λ _. refl)
  validate_claims_with_iff (some caller) resource = elim (Bool-cases (is_super_admin ctx)) [
    | inl e ↦ rw e (λ _. inl refl, λ _. refl)
    | inr e ↦
        let (to, from) = checked_iff caller (entries_of resource) in
        rw e (λ h. inr (to h), elim [ inl p ↦ absurd (cc) | inr p ↦ from p ])
  ]

-- The write-path gate passes exactly callers without claims, super-admins, and callers whose
-- claims cover the resource's, which must not be empty.
pub validate_claims_subset_iff :
    (ctx : Ctx) (caller resource : Option ClaimMap)
    → (validate_claims_subset ctx caller resource ≡ ok tt) ↔ MayPass Covers ctx caller resource
unfolding validate_claims_subset
validate_claims_subset_iff ctx =
    validate_claims_with_iff ctx claims_contain Covers claims_contain_iff

-- The read-path gate passes exactly callers without claims, super-admins, and callers whose
-- claims are admitted by every entry of the resource's, which must not be empty.
pub validate_claims_visible_iff :
    (ctx : Ctx) (caller resource : Option ClaimMap)
    → (validate_claims_visible ctx caller resource ≡ ok tt) ↔ MayPass Admits ctx caller resource
unfolding validate_claims_visible
validate_claims_visible_iff ctx =
    validate_claims_with_iff ctx claims_visible Admits claims_visible_iff
