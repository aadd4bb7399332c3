-- ===== src/Versions.antt =====
-- internal/versions/compare.go and publishable.go, and `findHighestVersion` of
-- internal/service/db/impl_common.go. The semver library is a parameter.
pub mod Order
use Prim.Native.String
use Prim.Native.Nat.{gt, lt, eq, Ordering}
use toolhive_registry_server.Prelude.{
  ℕ, ◌≡◌, String, Bool, true, false, not, ◌||◌, Option, none, some, List, [], ◌∷◌, is_some, blank,
  ltb, if◌then◌else◌,
}

-- `semver.NewVersion` and `GreaterThan` of its results, which is transitive and not reflexive;
-- `StrictNewVersion` without an error; and what `publishable.go` takes from `strings`.
pub record Semver : Type 1 where
  pub Version : Type 0
  pub new_version : String → Option Version
  pub greater_than : Version → Version → Bool
  pub is_strict : String → Bool
  pub contains_plus : String → Bool
  pub trim_v : String → String
  pub byte_len : String → ℕ
  pub greater_than_trans :
      (a b c : Version)
      → greater_than a b ≡ true
      → greater_than b c ≡ true
      → greater_than a c ≡ true
  pub greater_than_irrefl : (a : Version) → greater_than a a ≡ false

is_gt : Ordering → Bool
is_gt gt = true
is_gt _ = false

-- `a > b` on texts.
unfoldable pub text_greater : String → String → Bool
unfolding is_gt
text_greater a b = is_gt (String.compare a b)

-- A version row: the `id` and `version` columns of `entry_version`.
pub record Row : Type 0 where
  pub id : ℕ
  pub version : String

module _ (semver : Semver) where
  -- The comparison of the two parses, or that of the texts if one failed.
  compare_parsed : Option semver.Version → Option semver.Version → Bool → Bool
  compare_parsed (some a) (some b) by_text = semver.greater_than a b
  compare_parsed _ _ by_text = by_text

  unfoldable pub is_newer_version : String → String → Bool
  unfolding compare_parsed
  is_newer_version new_version old_version =
      compare_parsed (semver.new_version new_version) (semver.new_version old_version)
        (text_greater new_version old_version)

  -- `maxVersionLength`
  abbrev pub max_version_length : ℕ
  max_version_length = 255

  unfoldable pub is_publishable : String → Bool
  is_publishable v =
      if blank v || ltb max_version_length (semver.byte_len v)
      then false
      else if semver.contains_plus v
      then false
      else semver.is_strict (semver.trim_v v)

  -- The loop of `findHighestVersion`.
  unfoldable pub highest_from : Row → List Row → Row
  highest_from best [] = best
  highest_from best (row ∷ rows) =
      highest_from (if is_newer_version row.version best.version then row else best) rows

  -- `none` is the nil id.
  unfoldable pub find_highest_version : List Row → Option Row
  find_highest_version [] = none
  find_highest_version (row ∷ rows) = some (highest_from row rows)
