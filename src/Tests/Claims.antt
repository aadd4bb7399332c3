-- ===== src/Tests/Claims.antt =====
-- Callers, resources and rules: internal/auth and the claim rules on small maps, and a codec that
-- stands for `encoding/json`.
use mathlib.Core.Option
use mathlib.Core.List.Memᴰ.{cases_cons}
use toolhive_registry_server.Prelude.{
  ℕ, ◌<◌, String, true, false, Option, none, some, [], ◌∷◌, ◌≡◌, ◌≢◌, refl, sym, ap, ◌↔◌, inl, inr,
  Memᴰ, ok, arith, lookup, map, ◌==◌, Bool-cases,
}
use toolhive_registry_server.Value.{
  Value, str, strs, arr, nil, cons, ClaimMap, to_string_set, to_string_slice, push_strings,
}
use toolhive_registry_server.Auth.{
  Role, manage_sources, manage_entries, RolesConfig, Ctx, answer, error_response, has_role,
  resolve_roles, is_super_admin, append_if, resolve_roles_middleware, require_role, matched_roles,
  matches_role_rules, matches_claim_map, matches_entry, matches_claim_value,
}
use toolhive_registry_server.Auth.Rules.{MeetsOne, rules_for, mem-resolve_roles}
use toolhive_registry_server.Auth.Middleware.{guarded, Allowed, guarded-answers_iff, guarded-roles}
use toolhive_registry_server.Claims.{
  claims_contain, claims_visible, claims_match, subset_of, overlaps, is_valid_claim_value,
}
use toolhive_registry_server.Claims.Rules.{
  Covers, Admits, Satisfies, claims_contain_iff, claims_visible_iff,
}
use toolhive_registry_server.Claims.Json.{Json, Decodes, decoded, serialize_claims}
use toolhive_registry_server.Claims.Gate.{
  MayPass, validate_claims_subset, validate_claims_visible, validate_claims_subset_iff,
  validate_claims_visible_iff,
}
use toolhive_registry_server.Claims.Stored.{validate_claims_visible_bytes}
use toolhive_registry_server.Claims.Stored.Agreement.{
  listed, listed_iff_gate, empty_caller_disagrees, empty_object_disagrees,
}

abbrev pub acme_admin : ClaimMap
acme_admin = ("org", str "acme") ∷ ("team", strs ("core" ∷ "infra" ∷ [])) ∷ []

abbrev pub acme_core : ClaimMap
acme_core = ("team", arr (cons (str "core") nil)) ∷ []

abbrev pub core_row : ClaimMap
core_row = ("team", str "core") ∷ []

abbrev shared_row : ClaimMap
shared_row = ("team", strs ("core" ∷ "web" ∷ [])) ∷ []

abbrev roles_config : RolesConfig
roles_config = record {
  super_admin_rules = (("team", str "root") ∷ []) ∷ [];
  manage_sources_rules = core_row ∷ [];
  manage_registries_rules = [];
  manage_entries_rules = [] ∷ [];
}

abbrev pub request : Ctx
request = record { claims = some acme_admin; roles = [] }

claims_contain_iff_example :
    (claims_contain acme_admin acme_core ≡ true) ↔ Satisfies Covers acme_admin acme_core
claims_contain_iff_example = claims_contain_iff acme_admin acme_core

claims_visible_iff_example :
    (claims_visible acme_admin shared_row ≡ true) ↔ Satisfies Admits acme_admin shared_row
claims_visible_iff_example = claims_visible_iff acme_admin shared_row

admin_contains : claims_contain acme_admin acme_core ≡ true
unfolding claims_contain claims_match is_valid_claim_value to_string_set subset_of lookup
admin_contains = refl

core_contains : claims_contain acme_core core_row ≡ true
unfolding claims_contain claims_match is_valid_claim_value to_string_set subset_of lookup
core_contains = refl

core_sees : claims_visible acme_core shared_row ≡ true
unfolding claims_visible claims_match is_valid_claim_value to_string_set overlaps lookup
core_sees = refl

-- The write-path rule is the stricter one: the row names a team that the caller is not in.
core_does_not_contain : claims_contain acme_core shared_row ≡ false
unfolding claims_contain claims_match is_valid_claim_value to_string_set subset_of lookup
core_does_not_contain = refl

validate_claims_subset_iff_example :
    (validate_claims_subset request (some acme_admin) (some acme_core) ≡ ok tt)
    ↔ MayPass Covers request (some acme_admin) (some acme_core)
validate_claims_subset_iff_example =
    validate_claims_subset_iff request (some acme_admin) (some acme_core)

validate_claims_visible_iff_example :
    (validate_claims_visible request (some acme_admin) (some shared_row) ≡ ok tt)
    ↔ MayPass Admits request (some acme_admin) (some shared_row)
validate_claims_visible_iff_example =
    validate_claims_visible_iff request (some acme_admin) (some shared_row)

mem-resolve_roles_example :
    Memᴰ manage_sources (resolve_roles (some acme_admin) (some roles_config))
    ↔ MeetsOne acme_admin (rules_for roles_config manage_sources)
mem-resolve_roles_example = mem-resolve_roles acme_admin roles_config manage_sources

guarded-answers_iff_example :
    (((c : Ctx) × (guarded manage_entries (some roles_config) request ≡ answer c))
      ↔ Allowed manage_entries (some roles_config) request)
    × (¬ Allowed manage_entries (some roles_config) request
        → guarded manage_entries (some roles_config) request
          ≡ error_response "forbidden: insufficient permissions" 403)
guarded-answers_iff_example = guarded-answers_iff manage_entries (some roles_config) request

abbrev sources_request : Ctx
sources_request = record request { roles = manage_sources ∷ [] }

sources_answered : guarded manage_sources (some roles_config) request ≡ answer sources_request
unfolding resolve_roles_middleware require_role resolve_roles matched_roles append_if has_role
    matches_role_rules matches_claim_map matches_entry matches_claim_value to_string_slice
    push_strings lookup
sources_answered = refl

guarded-roles_example :
    (sources_request.claims ≡ some acme_admin)
    × ((r : Role) → Memᴰ r sources_request.roles ↔ MeetsOne acme_admin (rules_for roles_config r))
guarded-roles_example =
    guarded-roles manage_sources roles_config acme_admin request sources_request refl
      sources_answered

plain : is_super_admin request ≡ false
unfolding is_super_admin has_role
plain = refl

one_pos : 0 < 1
one_pos = omega arith

unfoldable pub decode_all : ClaimMap → ClaimMap
decode_all = map λ entry. (entry.0, decoded entry.1)

lookup-decode_all :
    (k : String) (m : ClaimMap) → lookup k (decode_all m) ≡ Option.map decoded (lookup k m)
unfolding decode_all lookup
lookup-decode_all k [] = refl
lookup-decode_all k ((j, v) ∷ m) = elim (Bool-cases (j == k)) [
  | inl e ↦ rw e refl
  | inr e ↦ rw e (lookup-decode_all k m)
]

not_in_nil : (k : String) (v : Value) → ¬ Memᴰ {A = String × Value} (k, v) []
not_in_nil k v m = elim m [ ]

mem-decode_all :
    (k : String) (v' : Value) (m : ClaimMap)
    → Memᴰ {A = String × Value} (k, v') (decode_all m)
      ↔ ((v : Value) × Memᴰ {A = String × Value} (k, v) m × (decoded v ≡ v'))
unfolding decode_all
mem-decode_all k v' [] = (λ h. absurd (not_in_nil k v' h), λ (v, h, _). absurd (not_in_nil k v h))
mem-decode_all k v' ((j, w) ∷ m) =
    let (to, from) = mem-decode_all k v' m in
    (
      λ h. elim (cases_cons h) [
        | inl e ↦ (w, Memᴰ.head (rw (ap (λ p. p.0) e) refl), sym (ap (λ p. p.1) e))
        | inr n ↦ let (v, inside, same) = to n in (v, Memᴰ.tail inside, same)
      ],
      λ (v, h, same). elim (cases_cons h) [
        | inl e ↦
            let same_v : v ≡ w = ap (λ p. p.1) e in
            Memᴰ.head (rw (ap (λ p. p.0) e) (rw (← same) (rw same_v refl)))
        | inr n ↦ Memᴰ.tail (from (v, n, same))
      ],
    )

abbrev pub bytes_len : Option ClaimMap → ℕ
bytes_len none = 0
bytes_len (some _) = 1

abbrev pub read_bytes : Option ClaimMap → Option (Option ClaimMap)
read_bytes none = none
read_bytes (some m) = some (some m)

pub written_len :
    (m : ClaimMap) (b : Option ClaimMap)
    → ◌≡◌ {A = Option (Option ClaimMap)} (some (some (decode_all m))) (some b)
    → 0 < bytes_len b
written_len m none e = absurd (cc)
written_len m (some _) e = one_pos

decode_all-Decodes : (m : ClaimMap) → Decodes m (decode_all m)
decode_all-Decodes m = record {
  at_key = λ k. lookup-decode_all k m;
  entries = λ k v'. mem-decode_all k v' m;
}

pub read_written :
    (m : ClaimMap) (b : Option ClaimMap)
    → ◌≡◌ {A = Option (Option ClaimMap)} (some (some (decode_all m))) (some b)
    → (m' : ClaimMap) × (read_bytes b ≡ some (some m')) × Decodes m m'
read_written m none e = absurd (cc)
read_written m (some m') e =
    let same : decode_all m ≡ m' = cc in (m', refl, rw (← same) (decode_all-Decodes m))

-- JSON of maps is the decoded map itself, of length one; there is no JSON without bytes.
abbrev pub codec : Json
codec = record {
  Bytes = Option ClaimMap;
  len = bytes_len;
  nil_bytes = none;
  marshal = λ m. some (some (decode_all m));
  unmarshal = read_bytes;
  len_nil = refl;
  len_marshal = written_len;
  unmarshal-marshal = read_written;
}

listed_iff_gate_example :
    (listed codec request (some acme_admin) (serialize_claims codec (some shared_row)) ≡ ok true)
    ↔ (validate_claims_visible_bytes codec request
          (some acme_admin)
          (serialize_claims codec (some shared_row))
        ≡ ok tt)
listed_iff_gate_example =
    listed_iff_gate codec request acme_admin (some (decode_all acme_admin)) (some shared_row)
      (λ e. cc) refl

empty_caller_disagrees_example :
    (listed codec request (some []) (some core_row) ≡ ok true)
    × (validate_claims_visible_bytes codec request (some []) (some core_row) ≢ ok tt)
empty_caller_disagrees_example = empty_caller_disagrees codec request (some core_row) plain

empty_object_disagrees_example :
    (listed codec request (some acme_admin) (some []) ≡ ok true)
    × (validate_claims_visible_bytes codec request (some acme_admin) (some []) ≢ ok tt)
empty_object_disagrees_example =
    empty_object_disagrees codec request acme_admin (some (decode_all acme_admin)) (some []) plain
      (λ e. cc) refl one_pos refl
