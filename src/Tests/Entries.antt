-- ===== src/Tests/Entries.antt =====
-- Entries of a small database: three versions, one of them published over the gates.
use toolhive_registry_server.Prelude.{
  ℕ, ◌<◌, ltb, String, true, false, Option, none, some, List, [], ◌∷◌, ◌≡◌, refl, Memᴰ, ok, arith,
  lookup, contains, ◌==◌, if◌then◌else◌,
}
use toolhive_registry_server.Value.{ClaimMap, to_string_set}
use toolhive_registry_server.Auth.{is_super_admin, has_role}
use toolhive_registry_server.Claims.{
  claims_contain, claims_visible, claims_match, is_valid_claim_value, subset_of, overlaps,
}
use toolhive_registry_server.Claims.Gate.{
  validate_claims_subset, validate_claims_with, validate_claims_visible,
}
use toolhive_registry_server.Claims.Stored.{validate_claims_visible_bytes}
use toolhive_registry_server.Claims.Json.{
  Decodes, decoded, serialize_claims, deserialize_claims, validate_claim_values,
}
use toolhive_registry_server.Tests.Claims.{
  acme_admin, acme_core, core_row, request, codec, decode_all,
}
use toolhive_registry_server.Versions.{Semver, Row, find_highest_version, is_newer_version}
use toolhive_registry_server.Versions.Order.{IsSemver, Above, find_highest_version-Above}
use toolhive_registry_server.Entries.{
  skill, plugin, Entry, Store, Ordering, insert_version, add_version, set_claims, set_entry,
  upsert_latest,
}
use toolhive_registry_server.Entries.Invariant.{Inv}
use toolhive_registry_server.Entries.History.{
  empty_store, publish, Reachable, start, next, Reachable-Inv,
}
use toolhive_registry_server.Entries.Inserting.{shared_pointer}
use toolhive_registry_server.Entries.Access.{
  Service, Source, Db, Publish, publish_skill, execute_publish_skill_transaction, gate_claims,
  get_managed_source, update_entry_claims, execute_update_claims_transaction, map_entry_type,
  get_entry_claims,
}
use toolhive_registry_server.Entries.Access.Rules.{
  Published, skill_call, Permitted, Published-Permitted,
}
use toolhive_registry_server.Entries.Access.Gates
use toolhive_registry_server.Entries.Access.Updates.{UpdatePermitted, update_entry_claims-Permitted}
use toolhive_registry_server.Entries.{remove_version}
use toolhive_registry_server.Entries.Access.Calls.{update_entry_claims-read_back}

-- Three versions parse.
abbrev parse_version : String → Option ℕ
parse_version v =
    if v == "1.0.0"
    then some 1
    else if v == "1.2.0"
    then some 2
    else if v == "2.0.0"
    then some 3
    else none

abbrev semver : Semver
semver = record {
  Version = ℕ;
  new_version = parse_version;
  greater_than = λ a b. ltb b a;
  is_strict = λ v. true;
  contains_plus = λ v. false;
  trim_v = λ v. v;
  byte_len = λ v. 5;
  greater_than_trans = λ a b c h k. ground arith;
  greater_than_irrefl = λ a. ground arith;
}

abbrev ordering : Ordering
ordering = record { order = λ rows. rows; mem-order = λ r rows. (λ m. m, λ m. m) }

abbrev old_row : Row
old_row = record { id = 0; version = "1.0.0" }

abbrev new_row : Row
new_row = record { id = 1; version = "2.0.0" }

abbrev two_rows : List Row
two_rows = old_row ∷ new_row ∷ []

parsed : (w : Row) → Memᴰ w two_rows → IsSemver semver w.version
parsed w (Memᴰ.head e) = rw e (1, refl)
parsed w (Memᴰ.tail (Memᴰ.head e)) = rw e (3, refl)
parsed w (Memᴰ.tail (Memᴰ.tail m)) = elim m [ ]

find_highest_version-Above_example :
    (best : Row) × (find_highest_version semver two_rows ≡ some best)
    × Memᴰ best two_rows
    × Above semver best.version two_rows
find_highest_version-Above_example = find_highest_version-Above semver two_rows parsed (λ e. cc)

abbrev first : Store (Option ClaimMap)
first = empty_store (Option ClaimMap)

abbrev plugin_published : Store (Option ClaimMap)
plugin_published =
    add_version semver plugin "notes" "2.0.0" (record { claims = none; versions = [] }) first

published : insert_version semver codec plugin "notes" "2.0.0" none first ≡ ok plugin_published
unfolding insert_version
published = refl

reached : Reachable codec semver ordering plugin_published
reached =
    next start (publish plugin "notes" "2.0.0" none (3, refl) (λ t e h. absurd (cc)) published)

Reachable-Inv_example : Inv semver plugin_published
Reachable-Inv_example = Reachable-Inv codec semver ordering reached

abbrev both : Store (Option ClaimMap)
both =
    add_version semver skill "notes" "1.2.0" (record { claims = none; versions = [] })
      plugin_published

skill_missing : plugin_published.entries skill "notes" ≡ none
unfolding add_version set_entry
skill_missing = refl

points_at_plugin : plugin_published.latest "notes" ≡ some (record { id = 0; version = "2.0.0" })
unfolding add_version upsert_latest
points_at_plugin = refl

below_next : 0 < plugin_published.next_id
unfolding add_version
below_next = omega arith

older : is_newer_version semver "1.2.0" "2.0.0" ≡ false
unfolding is_newer_version
older = refl

skill_published : insert_version semver codec skill "notes" "1.2.0" none plugin_published ≡ ok both
unfolding insert_version add_version set_entry
skill_published = refl

shared_pointer_example :
    (e : Entry (Option ClaimMap)) × (both.entries skill "notes" ≡ some e)
    × (both.latest "notes" ≡ some (record { id = 0; version = "2.0.0" }))
    × (¬ Memᴰ (record { id = 0; version = "2.0.0" }) e.versions)
shared_pointer_example =
    shared_pointer codec semver skill "notes" "1.2.0" none plugin_published both
      (record { id = 0; version = "2.0.0" }) skill_missing points_at_plugin below_next older
      skill_published

abbrev svc : Service
svc = record { skip_authz = false; max_meta_size = 100 }

abbrev sources : List (Source codec)
sources = record { name = "internal"; claims = some (decode_all core_row) } ∷ []

abbrev db : Db codec
db = record { managed = sources; store = first }

abbrev release : Publish codec
release = record {
  namespace = "acme";
  name = "notes";
  version = "1.2.0";
  claims = some core_row;
  jwt_claims = some acme_admin;
  publisher_provided = none;
  details = true;
}

abbrev db' : Db codec
db' = record {
  managed = sources;
  store =
      add_version semver skill "notes" "1.2.0"
        (record { claims = some (decode_all core_row); versions = [] }) first;
}

published_skill : publish_skill codec semver svc request release db ≡ ok db'
unfolding publish_skill execute_publish_skill_transaction gate_claims get_managed_source
    insert_version validate_claims_subset validate_claims_with is_super_admin has_role
    claims_contain claims_match is_valid_claim_value lookup to_string_set subset_of
    validate_claims_visible_bytes validate_claims_visible deserialize_claims decode_all
    claims_visible decoded overlaps contains
published_skill = refl

skill-Published : Published codec semver svc request skill release db db'
skill-Published = skill_call published_skill

Published-Permitted_example : Permitted codec semver svc request skill release db db'
Published-Permitted_example =
    Published-Permitted codec semver svc request skill release db db' skill-Published

abbrev notes : Entry (Option ClaimMap)
notes = record {
  claims = some (decode_all core_row);
  versions = record { id = 0; version = "1.2.0" } ∷ [];
}

abbrev emptied : Db codec
emptied = record {
  managed = sources;
  store = remove_version semver ordering skill "notes" "1.2.0" notes db'.store;
}

abbrev relabelled : Db codec
relabelled = record {
  managed = sources;
  store =
      set_claims skill "notes" (some (decode_all acme_core))
        (record {
          claims = some (decode_all core_row);
          versions = record { id = 0; version = "1.2.0" } ∷ [];
        })
        db'.store;
}

updated :
    update_entry_claims codec semver svc request "skill" "notes"
      (some acme_core)
      (some acme_admin)
      db'
    ≡ ok relabelled
unfolding update_entry_claims execute_update_claims_transaction map_entry_type gate_claims
    get_managed_source validate_claim_values serialize_claims set_claims add_version set_entry
    validate_claims_subset validate_claims_with is_super_admin has_role claims_contain claims_match
    is_valid_claim_value lookup to_string_set subset_of validate_claims_visible_bytes
    validate_claims_visible deserialize_claims decode_all claims_visible decoded overlaps contains
updated = refl

update_entry_claims-read_back_example :
    (read : ClaimMap) × (get_entry_claims codec semver svc request "skill" "notes" none relabelled
      ≡ ok read)
    × Decodes acme_core read
update_entry_claims-read_back_example =
    update_entry_claims-read_back codec semver svc request "skill" "notes" (some acme_core)
      (some acme_admin) db' relabelled (some (decode_all acme_core)) refl updated

update_entry_claims-Permitted_example :
    UpdatePermitted codec semver svc request "skill" "notes"
      (some acme_core)
      (some acme_admin)
      db'
      relabelled
update_entry_claims-Permitted_example =
    update_entry_claims-Permitted codec semver svc request "skill" "notes" (some acme_core)
      (some acme_admin) db' relabelled updated
