-- ===== src/Auth/Rules.antt =====
-- Which claims satisfy which rules, and which roles they resolve to.
use mathlib.Core.List.Memᴰ.{cases_cons, append_cases, append_left, append_right}
use toolhive_registry_server.Prelude.{
  String, Bool, true, false, some, List, [], ◌∷◌, ◌≡◌, ◌≢◌, refl, sym, ◌↔◌, ◌⊎◌, inl, inr, Memᴰ,
  arith, lookup, any, any-intro, any-elim, all_iff, All, All-tabulate, All-mem, is_empty, ◌==◌,
  eq_iff, eq_refl, Bool-cases, Option-cases,
}
use toolhive_registry_server.Value.{Value, ClaimMap, to_string_slice}
use toolhive_registry_server.Value.Strings.{Mentions, mem-to_string_slice}
use toolhive_registry_server.Auth.{
  Role, super_admin, manage_sources, manage_registries, manage_entries, role_eq, append_if,
  RolesConfig, matches_claim_value, matches_entry, matches_claim_map, matches_role_rules,
  matched_roles, resolve_roles, has_role,
}

-- The two values have a string in common.
abbrev pub Shares : Value → Value → Type 0
Shares v w = (s : String) × Mentions s v × Mentions s w

-- The claims hold the key of the entry, at a value that shares a string with the required one.
abbrev pub Holds : ClaimMap → String × Value → Type 0
Holds claims entry = (v : Value) × (lookup entry.0 claims ≡ some v) × Shares v entry.1

-- A rule is met when it has entries and the claims hold them all.
abbrev pub Meets : ClaimMap → ClaimMap → Type 0
Meets claims rule = (rule ≢ []) × All (Holds claims) rule

-- Some rule of the list is met.
abbrev pub MeetsOne : ClaimMap → List ClaimMap → Type 0
MeetsOne claims rules = (rule : ClaimMap) × Memᴰ rule rules × Meets claims rule

abbrev pub rules_for : RolesConfig → Role → List ClaimMap
rules_for cfg super_admin = cfg.super_admin_rules
rules_for cfg manage_sources = cfg.manage_sources_rules
rules_for cfg manage_registries = cfg.manage_registries_rules
rules_for cfg manage_entries = cfg.manage_entries_rules

not-is_empty_of_mem {ℓ} : {A : Type ℓ} {x : A} (xs : List A) → Memᴰ x xs → is_empty xs ≡ false
not-is_empty_of_mem [] m = elim m [ ]
not-is_empty_of_mem (_ ∷ _) m = refl

matches_claim_value_iff : (v w : Value) → (matches_claim_value v w ≡ true) ↔ Shares v w
unfolding matches_claim_value
matches_claim_value_iff v w = (sound, complete)
  where
    sound : matches_claim_value v w ≡ true → Shares v w
    sound h =
        let found : any (λ jv. any (λ rv. jv == rv) (to_string_slice w)) (to_string_slice v)
            ≡ true =
          ground arith in
        let (s, m, k) = any-elim _ (to_string_slice v) found in
        let (t, n, e) = any-elim _ (to_string_slice w) k in
        let same : s ≡ t = (eq_iff s t).0 e in
        (s, (mem-to_string_slice s v).0 m, rw same ((mem-to_string_slice t w).0 n))

    complete : Shares v w → matches_claim_value v w ≡ true
    complete (s, m, n) =
        let in_v = (mem-to_string_slice s v).1 m in
        let in_w = (mem-to_string_slice s w).1 n in
        rw (not-is_empty_of_mem (to_string_slice w) in_w) (
          rw (not-is_empty_of_mem (to_string_slice v) in_v) (
            any-intro _ (to_string_slice v) in_v
              (any-intro _ (to_string_slice w) in_w (eq_refl s))))

matches_entry_iff :
    (claims : ClaimMap) (entry : String × Value)
    → (matches_entry claims entry ≡ true) ↔ Holds claims entry
unfolding matches_entry
matches_entry_iff claims entry = (
  λ h. elim (Option-cases (lookup entry.0 claims)) [
    | inl e ↦ absurd (let bad : false ≡ true = rw (e, matches_entry) at h in cc)
    | inr (v, e) ↦ (v, e, (matches_claim_value_iff v entry.1).0 (rw (e, matches_entry) at h))
  ],
  λ (v, e, shares). rw (e, matches_entry) ((matches_claim_value_iff v entry.1).1 shares),
)

-- A rule map matches exactly when it is met; in particular an empty one never does.
pub matches_claim_map_iff :
    (claims rule : ClaimMap) → (matches_claim_map claims rule ≡ true) ↔ Meets claims rule
unfolding matches_claim_map
matches_claim_map_iff claims [] = (λ h. absurd (cc), λ h. absurd (h.0 refl))
matches_claim_map_iff claims (entry ∷ rule) =
    let (to, from) = all_iff (matches_entry claims) (entry ∷ rule) in
    (
      λ h. (
        λ e. cc,
        All-tabulate (Holds claims) (entry ∷ rule)
            λ x m. (matches_entry_iff claims x).0 (All-mem _ (entry ∷ rule) (to h) m),
      ),
      λ h. from (
          All-tabulate _ (entry ∷ rule)
            λ x m. (matches_entry_iff claims x).1 (All-mem _ (entry ∷ rule) h.1 m)),
    )

pub matches_role_rules_iff :
    (claims : ClaimMap) (rules : List ClaimMap)
    → (matches_role_rules claims rules ≡ true) ↔ MeetsOne claims rules
unfolding matches_role_rules
matches_role_rules_iff claims rules = (
  λ h.
      let (rule, m, e) = any-elim (matches_claim_map claims) rules h in
      (rule, m, (matches_claim_map_iff claims rule).0 e),
  λ (rule, m, meets).
      any-intro (matches_claim_map claims) rules m ((matches_claim_map_iff claims rule).1 meets),
)

pub role_eq_iff : (r s : Role) → (role_eq r s ≡ true) ↔ (r ≡ s)
role_eq_iff super_admin super_admin = (λ _. refl, λ _. refl)
role_eq_iff manage_sources manage_sources = (λ _. refl, λ _. refl)
role_eq_iff manage_registries manage_registries = (λ _. refl, λ _. refl)
role_eq_iff manage_entries manage_entries = (λ _. refl, λ _. refl)
role_eq_iff r s = (λ h. absurd (cc), λ h. absurd (cc))

-- A list of roles has a role exactly when it lists that role or the super-admin's.
pub has_role_iff :
    (roles : List Role) (required : Role)
    → (has_role roles required ≡ true) ↔ (Memᴰ super_admin roles ⊎ Memᴰ required roles)
unfolding has_role
has_role_iff [] required = (λ h. absurd (cc), elim [ inl m ↦ elim m [ ] | inr m ↦ elim m [ ] ])
has_role_iff (r ∷ rs) required =
    let (to, from) = has_role_iff rs required in
    (
      λ h. elim (Bool-cases (role_eq r super_admin)) [
        | inl e ↦ inl (Memᴰ.head (sym ((role_eq_iff r super_admin).0 e)))
        | inr e ↦ elim (Bool-cases (role_eq r required)) [
          | inl e' ↦ inr (Memᴰ.head (sym ((role_eq_iff r required).0 e')))
          | inr e' ↦ elim (to (ground arith)) [
            | inl m ↦ inl (Memᴰ.tail m)
            | inr m ↦ inr (Memᴰ.tail m)
          ]
        ]
      ],
      elim [
        | inl m ↦ elim (cases_cons m) [
          | inl e ↦ ground (arith, (role_eq_iff r super_admin).1 (sym e))
          | inr k ↦ ground (arith, from (inl k))
        ]
        | inr m ↦ elim (cases_cons m) [
          | inl e ↦ ground (arith, (role_eq_iff r required).1 (sym e))
          | inr k ↦ ground (arith, from (inr k))
        ]
      ],
    )

-- Appending a role under a test adds just that role, just when the test holds.
mem-append_if :
    (r s : Role) (b : Bool) (roles : List Role)
    → Memᴰ r (append_if b s roles) ↔ (Memᴰ r roles ⊎ ((r ≡ s) × (b ≡ true)))
unfolding append_if
mem-append_if r s true roles = (
  λ m. elim (append_cases roles m) [
    | inl k ↦ inl k
    | inr k ↦ elim (cases_cons k) [ inl e ↦ inr (e, refl) | inr n ↦ elim n [ ] ]
  ],
  elim [ inl k ↦ append_left (s ∷ []) k | inr k ↦ append_right roles (Memᴰ.head k.0) ],
)
mem-append_if r s false roles = (inl, elim [ inl k ↦ k | inr k ↦ absurd (cc (k.1)) ])

module _ (claims : ClaimMap) (cfg : RolesConfig) where
  resolved :
      (r s : Role)
      → (r ≡ s) × (matches_role_rules claims (rules_for cfg s) ≡ true)
      → MeetsOne claims (rules_for cfg r)
  resolved r s (e, h) = rw e ((matches_role_rules_iff claims (rules_for cfg s)).0 h)

  mem-matched_roles_sound :
      (r : Role) → Memᴰ r (matched_roles claims cfg) → MeetsOne claims (rules_for cfg r)
  unfolding matched_roles
  mem-matched_roles_sound r m₄ = elim ((mem-append_if r manage_entries _ _).0 m₄) [
    | inr g ↦ resolved r manage_entries g
    | inl m₃ ↦ elim ((mem-append_if r manage_registries _ _).0 m₃) [
      | inr g ↦ resolved r manage_registries g
      | inl m₂ ↦ elim ((mem-append_if r manage_sources _ _).0 m₂) [
        | inr g ↦ resolved r manage_sources g
        | inl m₁ ↦ elim ((mem-append_if r super_admin _ _).0 m₁) [
          | inr g ↦ resolved r super_admin g
          | inl n ↦ elim n [ ]
        ]
      ]
    ]
  ]

  -- A role that an earlier append added is kept by the later ones.
  kept : (r s : Role) (b : Bool) (roles : List Role) → Memᴰ r roles → Memᴰ r (append_if b s roles)
  kept r s b roles m = (mem-append_if r s b roles).1 (inl m)

  added :
      (r : Role) (roles : List Role)
      → MeetsOne claims (rules_for cfg r)
      → Memᴰ r (append_if (matches_role_rules claims (rules_for cfg r)) r roles)
  added r roles h =
      (mem-append_if r r _ roles).1
        (inr (refl, (matches_role_rules_iff claims (rules_for cfg r)).1 h))

  mem-matched_roles_complete :
      (r : Role) → MeetsOne claims (rules_for cfg r) → Memᴰ r (matched_roles claims cfg)
  unfolding matched_roles
  mem-matched_roles_complete super_admin h =
      kept _ _ _ _ (kept _ _ _ _ (kept _ _ _ _ (added super_admin [] h)))
  mem-matched_roles_complete manage_sources h =
      kept _ _ _ _ (kept _ _ _ _ (added manage_sources _ h))
  mem-matched_roles_complete manage_registries h = kept _ _ _ _ (added manage_registries _ h)
  mem-matched_roles_complete manage_entries h = added manage_entries _ h

  -- From claims and a configuration, a role is resolved exactly when one of the role's own rules
  -- is met by the claims.
  pub mem-resolve_roles :
      (r : Role)
      → Memᴰ r (resolve_roles (some claims) (some cfg)) ↔ MeetsOne claims (rules_for cfg r)
  unfolding resolve_roles
  mem-resolve_roles r = (mem-matched_roles_sound r, mem-matched_roles_complete r)
