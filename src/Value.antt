-- ===== src/Value.antt =====
-- Go values of type `any`, as JSON and YAML decoding yield them, and the string views of a claim
-- value: `toStringSlice` of internal/auth/roles.go and `toStringSet` of
-- internal/service/db/claims_filter.go.
pub mod Strings
use toolhive_registry_server.Prelude.{
  ℕ, String, Bool, true, false, Option, none, some, List, [], ◌∷◌, Dict, contains, if◌then◌else◌,
}

mutual
  pub data Value : Type 0 where
    null : Value
    boolean : Bool → Value
    number : ℕ → Value
    str : String → Value
    strs : List String → Value
    arr : Values → Value
    obj : Fields → Value

  pub data Values : Type 0 where
    nil : Values
    cons : Value → Values → Values

  pub data Fields : Type 0 where
    end : Fields
    field : String → Value → Fields → Fields

abbrev pub values : Values → List Value
values nil = []
values (cons v vs) = v ∷ values vs

abbrev pub fields : Fields → Dict Value
fields end = []
fields (field k v fs) = (k, v) ∷ fields fs

-- `s, ok := v.(string)`
abbrev pub as_str : Value → Option String
as_str (str s) = some s
as_str _ = none

-- `map[string]any` of claims.
abbrev pub ClaimMap : Type 0
ClaimMap = Dict Value

-- One round of the loop over a `[]any`, which leaves out what is no string.
push_string : Value → List String → List String
push_string (str s) rest = s ∷ rest
push_string _ rest = rest

unfoldable pub push_strings : List Value → List String
unfolding push_string
push_strings [] = []
push_strings (v ∷ vs) = push_string v (push_strings vs)

unfoldable pub to_string_slice : Value → List String
unfolding push_strings
to_string_slice (str s) = s ∷ []
to_string_slice (strs l) = l
to_string_slice (arr vs) = push_strings (values vs)
to_string_slice _ = []

-- `set[s] = struct{}{}`
insert_str : String → List String → List String
unfolding contains
insert_str s set = if contains s set then set else s ∷ set

add_strs : List String → List String → List String
unfolding insert_str
add_strs set [] = set
add_strs set (s ∷ ss) = add_strs (insert_str s set) ss

add_value : List String → Value → List String
unfolding insert_str
add_value set (str s) = insert_str s set
add_value set _ = set

add_values : List String → List Value → List String
unfolding add_value
add_values set [] = set
add_values set (v ∷ vs) = add_values (add_value set v) vs

unfoldable pub to_string_set : Value → List String
unfolding add_strs add_values
to_string_set (str s) = s ∷ []
to_string_set (arr vs) = add_values [] (values vs)
to_string_set (strs l) = add_strs [] l
to_string_set _ = []
