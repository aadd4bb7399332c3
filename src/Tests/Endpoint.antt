-- ===== src/Tests/Endpoint.antt =====
-- A list request of a caller with claims, which is answered in two batches.
use toolhive_registry_server.Prelude.{
  ℕ, ◌<◌, false, length, String, Option, none, some, List, [], ◌∷◌, ◌≡◌, refl, Outcome, ok, arith,
  All, lookup, contains,
}
use toolhive_registry_server.Value.{ClaimMap, to_string_set}
use toolhive_registry_server.Auth.{is_super_admin, has_role}
use toolhive_registry_server.Claims.{claims_visible, claims_match, is_valid_claim_value, overlaps}
use toolhive_registry_server.Claims.Json.{serialize_claims, deserialize_claims, decoded}
use toolhive_registry_server.Claims.Gate.{validate_claims_visible, validate_claims_with}
use toolhive_registry_server.Claims.Stored.{validate_claims_visible_bytes}
use toolhive_registry_server.Listing.{Cursor, advance}
use toolhive_registry_server.Listing.Endpoint.{
  CursorHost, ListOptions, Database, start_list, list_servers, lookup_registry,
}
use toolhive_registry_server.Listing.Endpoint.Visible.{list_servers-visible}
use toolhive_registry_server.Tests.Claims.{acme_admin, core_row, request, codec, decode_all}

record Skill : Type 0 where
  pub version : String
  pub label : Option ClaimMap

abbrev skill_row : String → Skill
skill_row version = record { version = version; label = some core_row }

abbrev extract : Skill → Option (String × ℕ)
extract s = some ("notes", 0)

abbrev cursor_of : Skill → Cursor
cursor_of s = ("notes", s.version)

abbrev claims_of : Skill → codec.Bytes
claims_of s = serialize_claims codec s.label

abbrev cursor_host : CursorHost
cursor_host = record {
  encode = λ s. s;
  decode = λ s. some s;
  comma_parts = λ s. s ∷ [];
  join_comma = λ a b. a;
}

abbrev full_batch : List Skill
full_batch = skill_row "1.0.0" ∷ record { version = "1.1.0"; label = none } ∷ skill_row "1.2.0" ∷ []

abbrev answer : Option Cursor → Outcome String (List Skill)
answer none = ok full_batch
answer (some _) = ok []

abbrev db : Database codec false request Skill String
db = record { find_registry = λ _. some (some (decode_all core_row)); query = λ _ _. answer }

abbrev opts : ListOptions
opts = record { registry_name = "main"; cursor = ""; limit = 2; claims = some acme_admin }

starts :
    start_list codec false request Skill String cursor_host extract cursor_of claims_of db opts
    ≡ ok none
unfolding start_list lookup_registry validate_claims_visible_bytes validate_claims_visible
    validate_claims_with is_super_admin has_role deserialize_claims decode_all decoded
    claims_visible claims_match is_valid_claim_value lookup to_string_set overlaps contains
starts = refl

abbrev left : Option Cursor → ℕ
left none = 1
left (some _) = 0

answers : (c : Option Cursor) → (batch : List Skill) × (answer c ≡ ok batch)
answers none = (_, refl)
answers (some _) = (_, refl)

shrinks :
    (c : Option Cursor) (batch : List Skill)
    → answer c ≡ ok batch
    → 2 < length batch
    → left (advance cursor_of c batch) < left c
shrinks none batch h full = let same : batch ≡ full_batch = cc in rw same (omega arith)
shrinks (some _) batch h full =
    let same : batch ≡ [] = cc in absurd (let k : 2 < 0 = rw same at full in omega (arith, k))

list_servers-visible_example :
    (found : List Skill) × (next : String) × (list_servers codec false request Skill String
        cursor_host extract cursor_of claims_of db 2 opts
      ≡ some (ok (found, next)))
    × All
        (λ r. validate_claims_visible_bytes codec request (some acme_admin) (claims_of r) ≡ ok tt)
        found
list_servers-visible_example =
    list_servers-visible codec request Skill String extract claims_of cursor_host cursor_of db opts
      (λ s. "notes") (λ s. 0) (λ s. refl) acme_admin (some (decode_all acme_admin)) 2 none left refl
      (λ e. cc) refl (λ r. (r.label, refl)) starts (omega arith) answers shrinks (omega arith)
