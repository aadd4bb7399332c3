-- ===== src/Config.antt =====
-- The configuration types of internal/config/config.go, and the type of a source.
pub mod Sources
pub mod Servers
use toolhive_registry_server.Prelude.{String, Bool, true, false, ◌||◌, Option, none, some, List}
use toolhive_registry_server.Value.{ClaimMap}

pub record GitAuthConfig : Type 0 where
  pub username : String
  pub password_file : String

pub record GitConfig : Type 0 where
  pub repository : String
  pub branch : String
  pub tag : String
  pub commit : String
  pub path : String
  pub auth : Option GitAuthConfig

pub record ApiConfig : Type 0 where
  pub endpoint : String
  pub timeout : String

-- `inline_data` is the field `Data`.
pub record FileConfig : Type 0 where
  pub path : String
  pub url : String
  pub inline_data : String
  pub timeout : String

-- `ManagedConfig`, a struct with no fields.
abbrev pub ManagedConfig : Type 0
ManagedConfig = Unit

pub record KubernetesConfig : Type 0 where
  pub namespaces : List String

pub record SyncPolicyConfig : Type 0 where
  pub interval : String

pub record NameFilterConfig : Type 0 where
  pub include : List String
  pub exclude : List String

pub record TagFilterConfig : Type 0 where
  pub include : List String
  pub exclude : List String

pub record FilterConfig : Type 0 where
  pub names : Option NameFilterConfig
  pub tags : Option TagFilterConfig

pub record SourceConfig : Type 0 where
  pub name : String
  pub git : Option GitConfig
  pub api : Option ApiConfig
  pub file : Option FileConfig
  pub managed : Option ManagedConfig
  pub kubernetes : Option KubernetesConfig
  pub sync_policy : Option SyncPolicyConfig
  pub filter : Option FilterConfig
  pub claims : Option ClaimMap

-- The constants of `SourceType`; `unset` is the empty text.
pub data SourceType : Type 0 where
  git api file managed kubernetes unset : SourceType

-- A chain of tests for nil pointers, which returns at the first that is not nil.
abbrev pub first_type : Bool → Bool → Bool → Bool → Bool → SourceType
first_type true _ _ _ _ = git
first_type false true _ _ _ = api
first_type false false true _ _ = file
first_type false false false true _ = managed
first_type false false false false true = kubernetes
first_type false false false false false = unset

abbrev pub present {ℓ} : {A : Type ℓ} → Option A → Bool
present none = false
present (some _) = true

unfoldable pub get_type : SourceConfig → SourceType
get_type s =
    first_type (present s.git) (present s.api) (present s.file) (present s.managed)
      (present s.kubernetes)

abbrev non_synced_type : SourceType → Bool
non_synced_type managed = true
non_synced_type kubernetes = true
non_synced_type _ = false

unfoldable pub is_non_synced_source : SourceConfig → Bool
unfolding get_type
is_non_synced_source s = non_synced_type (get_type s)
