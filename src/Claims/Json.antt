-- ===== src/Claims/Json.antt =====
-- `encoding/json` on claim maps, as a parameter: the operations that the source calls, with what
-- it relies on. The conversions of internal/db/claims.go stand on it.
pub mod Accepted
use toolhive_registry_server.Prelude.{
  ℕ, ◌+◌, ◌<◌, String, Option, none, some, List, [], ◌∷◌, ◌≡◌, ◌↔◌, Memᴰ, ok, err, Check, ◌>>◌,
  lookup, beq, is_empty, if◌then◌else◌,
}
use mathlib.Core.Option
use toolhive_registry_server.Value.{
  Value, null, boolean, number, str, strs, arr, obj, Values, nil, cons, Fields, end, field, values,
  as_str, ClaimMap,
}

-- `[]string` as a `[]any` of strings.
abbrev pub as_values : List String → Values
as_values [] = nil
as_values (s ∷ ss) = cons (str s) (as_values ss)

-- What a value is after it has been written as JSON and read into an `any`: the lists of strings
-- have become lists of any values.
unfoldable mutual
  pub decoded : Value → Value
  decoded (strs l) = arr (as_values l)
  decoded (arr vs) = arr (decoded_values vs)
  decoded (obj fs) = obj (decoded_fields fs)
  decoded null = null
  decoded (boolean b) = boolean b
  decoded (number n) = number n
  decoded (str s) = str s

  pub decoded_values : Values → Values
  decoded_values nil = nil
  decoded_values (cons v vs) = cons (decoded v) (decoded_values vs)

  pub decoded_fields : Fields → Fields
  decoded_fields end = end
  decoded_fields (field k v fs) = field k (decoded v) (decoded_fields fs)

-- The entries of the second map are those of the first, decoded; their order may differ.
pub record Decodes (m m' : ClaimMap) : Type 0 where
  pub at_key : (k : String) → lookup k m' ≡ Option.map decoded (lookup k m)
  pub entries :
      (k : String) (v' : Value) → Memᴰ (k, v') m' ↔ ((v : Value) × Memᴰ (k, v) m × (decoded v ≡ v'))

-- `json.Marshal` of a `map[string]any` (`none`: an error) and `json.Unmarshal` into one, where the
-- JSON `null` gives the nil map. A slice of bytes is known by its length alone; `nil_bytes` is nil.
pub record Json : Type 1 where
  pub Bytes : Type 0
  pub len : Bytes → ℕ
  pub nil_bytes : Bytes
  pub marshal : ClaimMap → Option Bytes
  pub unmarshal : Bytes → Option (Option ClaimMap)
  pub len_nil : len nil_bytes ≡ 0
  pub len_marshal : (m : ClaimMap) (b : Bytes) → marshal m ≡ some b → 0 < len b
  pub unmarshal-marshal :
      (m : ClaimMap) (b : Bytes)
      → marshal m ≡ some b
      → (m' : ClaimMap) × (unmarshal b ≡ some (some m')) × Decodes m m'

-- A nil map is read like an empty one.
abbrev pub entries_of : Option ClaimMap → ClaimMap
entries_of none = []
entries_of (some m) = m

module _ (json : Json) where
  open json use {Bytes, len, nil_bytes, marshal, unmarshal}

  -- `SerializeClaims`
  unfoldable pub serialize_claims : Option ClaimMap → Bytes
  serialize_claims claims =
      if is_empty (entries_of claims)
      then nil_bytes
      else elim (marshal (entries_of claims)) [ none ↦ nil_bytes | some data' ↦ data' ]

  -- `DeserializeClaims`
  unfoldable pub deserialize_claims : Bytes → Option ClaimMap
  deserialize_claims data' =
      if beq (len data') 0
      then none
      else elim (unmarshal data') [ none ↦ none | some claims ↦ claims ]

-- The errors of `ValidateClaimValues`, with what their texts name.
pub data ClaimValueError : Type 0 where
  bad_element : String → ℕ → ClaimValueError
  bad_value : String → ClaimValueError

check_elements : String → ℕ → List Value → Check ClaimValueError
check_elements key i [] = ok tt
check_elements key i (elem ∷ rest) =
    let later = check_elements key (i + 1) rest in
    elim (as_str elem) [ none ↦ err (bad_element key i) | some _ ↦ later ]

check_value : String → Value → Check ClaimValueError
unfolding check_elements
check_value key (str _) = ok tt
check_value key (arr vs) = check_elements key 0 (values vs)
check_value key (strs _) = ok tt
check_value key _ = err (bad_value key)

-- `ValidateClaimValues`
unfoldable pub validate_claim_values : ClaimMap → Check ClaimValueError
unfolding check_value
validate_claim_values [] = ok tt
validate_claim_values ((key, v) ∷ claims) = do check_value key v; validate_claim_values claims
