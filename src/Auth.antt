-- ===== src/Auth.antt =====
-- Roles and their middleware: internal/auth/roles.go, internal/auth/authz_middleware.go, and the
-- values that internal/auth/claims.go keeps in a request's context.
pub mod Rules
pub mod Middleware
use toolhive_registry_server.Prelude.{
  ℕ, String, Bool, true, false, ◌||◌, Option, none, some, List, [], ◌∷◌, ◌++◌, lookup, any, all,
  is_empty, ◌==◌, if◌then◌else◌,
}
use toolhive_registry_server.Value.{Value, ClaimMap, to_string_slice}

pub data Role : Type 0 where
  super_admin manage_sources manage_registries manage_entries : Role

-- A Go `Role` is its text.
abbrev pub role_name : Role → String
role_name super_admin = "superAdmin"
role_name manage_sources = "manageSources"
role_name manage_registries = "manageRegistries"
role_name manage_entries = "manageEntries"

abbrev pub role_eq : Role → Role → Bool
role_eq r s = role_name r == role_name s

-- `config.RolesConfig`: a list of rule maps for each role.
pub record RolesConfig : Type 0 where
  pub super_admin_rules : List ClaimMap
  pub manage_sources_rules : List ClaimMap
  pub manage_registries_rules : List ClaimMap
  pub manage_entries_rules : List ClaimMap

-- What a request's context holds: `ClaimsFromContext` and `RolesFromContext`. No claims are
-- `none`; no roles are `[]`, since the code never tells a nil slice from an empty one.
pub record Ctx : Type 0 where
  pub claims : Option ClaimMap
  pub roles : List Role

unfoldable pub matches_claim_value : Value → Value → Bool
matches_claim_value jwt_value required_value =
    let required_values = to_string_slice required_value in
    if is_empty required_values
    then false
    else let jwt_values = to_string_slice jwt_value in
      if is_empty jwt_values
      then false
      else any (λ jv. any (λ rv. jv == rv) required_values) jwt_values

-- One round of the loop of `matchesClaimMap`.
unfoldable pub matches_entry : ClaimMap → String × Value → Bool
matches_entry claims entry = elim (lookup entry.0 claims) [
  | none ↦ false
  | some jwt_value ↦ matches_claim_value jwt_value entry.1
]

unfoldable pub matches_claim_map : ClaimMap → ClaimMap → Bool
matches_claim_map claims claim_map =
    if is_empty claim_map then false else all (matches_entry claims) claim_map

unfoldable pub matches_role_rules : ClaimMap → List ClaimMap → Bool
matches_role_rules claims rules = any (matches_claim_map claims) rules

-- `if matched { roles = append(roles, role) }`
unfoldable pub append_if : Bool → Role → List Role → List Role
append_if matched role roles = if matched then roles ++ role ∷ [] else roles

unfoldable pub matched_roles : ClaimMap → RolesConfig → List Role
matched_roles claims cfg =
    let roles = append_if (matches_role_rules claims cfg.super_admin_rules) super_admin [] in
    let roles' =
      append_if (matches_role_rules claims cfg.manage_sources_rules) manage_sources roles in
    let roles'' =
      append_if (matches_role_rules claims cfg.manage_registries_rules) manage_registries roles' in
    append_if (matches_role_rules claims cfg.manage_entries_rules) manage_entries roles''

unfoldable pub resolve_roles : Option ClaimMap → Option RolesConfig → List Role
unfolding matched_roles
resolve_roles (some claims) (some cfg) = matched_roles claims cfg
resolve_roles _ _ = []

pub all_roles : List Role
all_roles = super_admin ∷ manage_sources ∷ manage_registries ∷ manage_entries ∷ []

unfoldable pub has_role : List Role → Role → Bool
has_role [] required = false
has_role (r ∷ rs) required =
    let rest = has_role rs required in
    if role_eq r super_admin || role_eq r required then true else rest

unfoldable pub is_super_admin : Ctx → Bool
is_super_admin ctx = has_role ctx.roles super_admin

-- What a handler does: it answers, or it writes an error with its status.
pub data Response {ℓ} (A : Type ℓ) : Type ℓ where
  answer : A → Response A
  error_response : String → ℕ → Response A

abbrev pub Handler {ℓ} : Type ℓ → Type ℓ
Handler A = Ctx → Response A

unfoldable pub resolve_roles_middleware {ℓ} :
    {A : Type ℓ} → Option RolesConfig → Handler A → Handler A
unfolding all_roles resolve_roles
resolve_roles_middleware none next ctx = elim ctx.claims [
  | none ↦ next ctx
  | some claims ↦ next (record ctx { roles = all_roles })
]
resolve_roles_middleware (some cfg) next ctx = elim ctx.claims [
  | none ↦ next ctx
  | some claims ↦ next (record ctx { roles = resolve_roles (some claims) (some cfg) })
]

unfoldable pub require_role {ℓ} : {A : Type ℓ} → Role → Option RolesConfig → Handler A → Handler A
unfolding has_role
require_role role none next ctx = next ctx
require_role role (some cfg) next ctx = elim ctx.claims [
  | none ↦ next ctx
  | some claims ↦
      if has_role ctx.roles role
      then next ctx
      else error_response "forbidden: insufficient permissions" 403
]
