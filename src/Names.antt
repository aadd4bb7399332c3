-- ===== src/Names.antt =====
-- internal/validators/server_name.go. The functions of `strings` and the two regular expressions
-- are parameters.
use toolhive_registry_server.Prelude.{
  ℕ, String, Bool, not, List, [], ◌∷◌, Outcome, ok, err, ◌>>◌, fail_if, blank, ltb, is_ok,
  if◌then◌else◌,
}

-- `strings.TrimSpace`; the parts of a text between its slashes (`strings.Split`, of which
-- `strings.Count` gives one less than the length); `len` in bytes; the two patterns.
pub record NameHost : Type 0 where
  pub trim_space : String → String
  pub slash_parts : String → List String
  pub byte_len : String → ℕ
  pub namespace_matches : String → Bool
  pub name_matches : String → Bool

pub data NameError : Type 0 where
  empty_name no_slash several_slashes empty_namespace empty_name_part : NameError
  too_short too_long bad_namespace bad_name_part : NameError

-- `minServerNameLength`
abbrev pub min_server_name_length : ℕ
min_server_name_length = 3

-- `maxServerNameLength`
abbrev pub max_server_name_length : ℕ
max_server_name_length = 200

module _ (host : NameHost) where
  -- The checks from the slashes on, of a trimmed name with its parts.
  check_parts : String → List String → Outcome NameError String
  check_parts name [] = err no_slash
  check_parts name (part ∷ []) = err no_slash
  check_parts name (namespace ∷ name_part ∷ []) = do
    fail_if (blank namespace) empty_namespace
    fail_if (blank name_part) empty_name_part
    fail_if (ltb (host.byte_len name) min_server_name_length) too_short
    fail_if (ltb max_server_name_length (host.byte_len name)) too_long
    fail_if (not (host.namespace_matches namespace)) bad_namespace
    fail_if (not (host.name_matches name_part)) bad_name_part
    ok name
  check_parts name (_ ∷ _ ∷ _ ∷ _) = err several_slashes

  unfoldable pub validate_server_name : String → Outcome NameError String
  unfolding check_parts
  validate_server_name name =
      let trimmed = host.trim_space name in
      if blank trimmed then err empty_name else check_parts trimmed (host.slash_parts trimmed)

  unfoldable pub is_valid_server_name : String → Bool
  is_valid_server_name name = is_ok (validate_server_name name)
