-- ===== src/Auth/Middleware.antt =====
-- The two middlewares of internal/auth/authz_middleware.go, one behind the other, as the routes
-- of the admin API chain them: who gets through, and with what.
use toolhive_registry_server.Prelude.{
  ℕ, String, true, false, Option, none, some, ◌≡◌, refl, sym, ◌∙◌, ◌↔◌, ◌⊎◌, inl, inr, Memᴰ, arith,
  Bool-cases, Option-cases,
}
use toolhive_registry_server.Value.{ClaimMap}
use toolhive_registry_server.Auth.{
  Role, super_admin, RolesConfig, Ctx, resolve_roles, all_roles, has_role, Response, answer,
  error_response, resolve_roles_middleware, require_role,
}
use toolhive_registry_server.Auth.Rules.{MeetsOne, rules_for, has_role_iff, mem-resolve_roles}

-- A request through both middlewares, with a handler that answers with the context it receives.
abbrev pub guarded : Role → Option RolesConfig → Ctx → Response Ctx
guarded role authz ctx = resolve_roles_middleware authz (require_role role authz answer) ctx

-- Who may pass: everybody without an authz configuration, callers without claims, and callers
-- whose claims meet a rule of the role or of the super-admin.
pub data Allowed (role : Role) (authz : Option RolesConfig) (ctx : Ctx) : Type 0 where
  no_authz : authz ≡ none → Allowed role authz ctx
  anonymous : ctx.claims ≡ none → Allowed role authz ctx
  by_rule :
      (cfg : RolesConfig) (claims : ClaimMap)
      → authz ≡ some cfg
      → ctx.claims ≡ some claims
      → MeetsOne claims (rules_for cfg super_admin) ⊎ MeetsOne claims (rules_for cfg role)
      → Allowed role authz ctx

has_resolved_iff :
    (cfg : RolesConfig) (claims : ClaimMap) (role : Role)
    → (has_role (resolve_roles (some claims) (some cfg)) role ≡ true)
      ↔ (MeetsOne claims (rules_for cfg super_admin) ⊎ MeetsOne claims (rules_for cfg role))
has_resolved_iff cfg claims role =
    let (to, from) = has_role_iff (resolve_roles (some claims) (some cfg)) role in
    let (sound, complete) = mem-resolve_roles claims cfg super_admin in
    let (sound', complete') = mem-resolve_roles claims cfg role in
    (
      λ h. elim (to h) [ inl m ↦ inl (sound m) | inr m ↦ inr (sound' m) ],
      λ h. from (elim h [ inl m ↦ inl (complete m) | inr m ↦ inr (complete' m) ]),
    )

-- A configured request with claims passes exactly by the test on its resolved roles.
guarded_configured :
    (role : Role) (cfg : RolesConfig) (claims : ClaimMap) (ctx : Ctx)
    → ctx.claims ≡ some claims
    → guarded role (some cfg) ctx ≡ (elim (has_role (resolve_roles (some claims) (some cfg)) role) [
      | true ↦ answer (record ctx { roles = resolve_roles (some claims) (some cfg) })
      | false ↦ error_response "forbidden: insufficient permissions" 403
    ])
unfolding resolve_roles_middleware require_role
guarded_configured role cfg claims ctx e = ground arith

guarded_anonymous :
    (role : Role) (authz : Option RolesConfig) (ctx : Ctx)
    → ctx.claims ≡ none
    → guarded role authz ctx ≡ answer ctx
unfolding resolve_roles_middleware require_role
guarded_anonymous role none ctx e = ground arith
guarded_anonymous role (some cfg) ctx e = ground arith

guarded_unconfigured : (role : Role) (ctx : Ctx) → (c : Ctx) × (guarded role none ctx ≡ answer c)
unfolding resolve_roles_middleware require_role
guarded_unconfigured role ctx = elim (Option-cases ctx.claims) [
  | inl e ↦ (ctx, ground arith)
  | inr (claims, e) ↦ (record ctx { roles = all_roles }, ground arith)
]

-- A request is answered and allowed, or refused and not allowed.
abbrev Decided : Role → Option RolesConfig → Ctx → Type 0
Decided role authz ctx =
    (((c : Ctx) × (guarded role authz ctx ≡ answer c)) × Allowed role authz ctx)
    ⊎ ((guarded role authz ctx ≡ error_response "forbidden: insufficient permissions" 403)
        × (¬ Allowed role authz ctx))

refused :
    (role : Role) (cfg : RolesConfig) (claims : ClaimMap) (ctx : Ctx)
    → ctx.claims ≡ some claims
    → has_role (resolve_roles (some claims) (some cfg)) role ≡ false
    → ¬ Allowed role (some cfg) ctx
refused role cfg claims ctx e no_role (no_authz p) = cc
refused role cfg claims ctx e no_role (anonymous p) = cc
refused role cfg claims ctx e no_role (by_rule cfg' claims' p q met) =
    let same_cfg : cfg' ≡ cfg = ground arith in
    let same_claims : claims' ≡ claims = ground arith in
    let met' : MeetsOne claims (rules_for cfg super_admin) ⊎ MeetsOne claims (rules_for cfg role) =
      rw (← same_cfg, ← same_claims) met in
    cc ((has_resolved_iff cfg claims role).1 met')

decided : (role : Role) (authz : Option RolesConfig) (ctx : Ctx) → Decided role authz ctx
decided role none ctx = inl (guarded_unconfigured role ctx, no_authz refl)
decided role (some cfg) ctx = elim (Option-cases ctx.claims) [
  | inl e ↦ inl ((ctx, guarded_anonymous role (some cfg) ctx e), anonymous e)
  | inr (claims, e) ↦
      let step = guarded_configured role cfg claims ctx e in
      elim (Bool-cases (has_role (resolve_roles (some claims) (some cfg)) role)) [
        | inl h ↦ inl (
          (record ctx { roles = resolve_roles (some claims) (some cfg) }, rw h at step),
          by_rule cfg claims refl e ((has_resolved_iff cfg claims role).0 h),
        )
        | inr h ↦ inr (rw h at step, refused role cfg claims ctx e h)
      ]
]

-- The two middlewares, one behind the other, answer exactly the allowed requests, and refuse every
-- other one with status 403.
pub guarded-answers_iff :
    (role : Role) (authz : Option RolesConfig) (ctx : Ctx)
    → (((c : Ctx) × (guarded role authz ctx ≡ answer c)) ↔ Allowed role authz ctx)
      × (¬ Allowed role authz ctx
          → guarded role authz ctx ≡ error_response "forbidden: insufficient permissions" 403)
guarded-answers_iff role authz ctx = elim (decided role authz ctx) [
  | inl (passed, allowed) ↦ ((λ _. allowed, λ _. passed), λ n. absurd (n allowed))
  | inr (stopped, denied) ↦ ((λ (c, e). absurd (cc), λ a. absurd (denied a)), λ _. stopped)
]

answer-injective : (c d : Ctx) → answer c ≡ answer d → c ≡ d
answer-injective c d h = cc

refused_not_answer : (c : Ctx) {s : String} {n : ℕ} → error_response s n ≡ answer c → ⊥
refused_not_answer c h = cc

-- With a configuration, a caller with claims that gets through carries into the handler exactly
-- the roles of which a rule is met, and its claims as they were.
pub guarded-roles :
    (role : Role) (cfg : RolesConfig) (claims : ClaimMap) (ctx c : Ctx)
    → ctx.claims ≡ some claims
    → guarded role (some cfg) ctx ≡ answer c
    → (c.claims ≡ some claims) × ((r : Role) → Memᴰ r c.roles ↔ MeetsOne claims (rules_for cfg r))
guarded-roles role cfg claims ctx c e h =
    let step = guarded_configured role cfg claims ctx e in
    elim (Bool-cases (has_role (resolve_roles (some claims) (some cfg)) role)) [
      | inl passed ↦
          let same = answer-injective _ c (sym (rw passed at step) ∙ h) in
          rw (← same) (e, mem-resolve_roles claims cfg)
      | inr failed ↦ absurd (refused_not_answer c (sym (rw failed at step) ∙ h))
    ]
