-- ===== src/Filtering/Service.antt =====
-- internal/filtering/filter_service.go and internal/registry/tags.go: the filter of a whole
-- registry. The types of the upstream packages are a parameter, as the accessors that are used.
pub mod Laws
use Prim.Native.String
use toolhive_registry_server.Prelude.{
  String, Bool, true, false, not, ◌||◌, Option, none, some, List, [], ◌∷◌, lookup, is_empty,
  flat_map, Outcome, ok, if◌then◌else◌,
}
use toolhive_registry_server.Value.{Value, arr, obj, values, fields, ClaimMap, push_strings}
use toolhive_registry_server.Config.{FilterConfig}
use toolhive_registry_server.Filtering.Tags
use toolhive_registry_server.Filtering.Tags.{TagReason}
use toolhive_registry_server.Filtering.Names
use toolhive_registry_server.Filtering.Names.{Glob, NameReason}

-- `ServerJSON`, `Skill` and `Plugin`. `publisher_provided` is `none` where the metadata is nil.
pub record Upstream : Type 1 where
  pub Server : Type 0
  pub Skill : Type 0
  pub Plugin : Type 0
  pub server_name : Server → String
  pub publisher_provided : Server → Option ClaimMap
  pub skill_namespace : Skill → String
  pub skill_name : Skill → String
  pub plugin_namespace : Plugin → String
  pub plugin_name : Plugin → String

-- `UpstreamRegistry`, as the fields that the filter copies or builds.
pub record Registry (u : Upstream) : Type 0 where
  pub schema : String
  pub version : String
  pub last_updated : String
  pub servers : List u.Server
  pub skills : List u.Skill
  pub plugins : List u.Plugin

-- The strings of the `tags` entry, which must be a list.
tag_strings : Option Value → List String
tag_strings (some (arr vs)) = push_strings (values vs)
tag_strings _ = []

inner_tags : String × Value → List String
unfolding tag_strings
inner_tags (key, obj fs) = tag_strings (lookup "tags" (fields fs))
inner_tags (key, _) = []

metadata_tags : String × Value → List String
unfolding inner_tags
metadata_tags (key, obj fs) = flat_map inner_tags (fields fs)
metadata_tags (key, _) = []

pub extract_tags : Option ClaimMap → List String
unfolding metadata_tags
extract_tags none = []
extract_tags (some provided) = flat_map metadata_tags provided

-- The reason that goes with a server; the last one holds the parts that are joined by " AND ".
pub data ServerReason : Type 0 where
  name_filter : NameReason → ServerReason
  tag_filter : TagReason → ServerReason
  no_filters : ServerReason
  passed_names : NameReason → ServerReason
  passed_tags : TagReason → ServerReason
  passed_both : NameReason → TagReason → ServerReason

-- The texts of the filters that are configured, joined by " AND ".
joined_reason : Bool → Bool → NameReason → TagReason → ServerReason
joined_reason false false n t = no_filters
joined_reason true false n t = passed_names n
joined_reason false true n t = passed_tags t
joined_reason true true n t = passed_both n t

-- The lists that a `FilterConfig` gives.
pub record Criteria : Type 0 where
  pub name_include : List String
  pub name_exclude : List String
  pub tag_include : List String
  pub tag_exclude : List String

unfoldable pub criteria : FilterConfig → Criteria
criteria filter = record {
  name_include = elim filter.names [ none ↦ [] | some n ↦ n.include ];
  name_exclude = elim filter.names [ none ↦ [] | some n ↦ n.exclude ];
  tag_include = elim filter.tags [ none ↦ [] | some t ↦ t.include ];
  tag_exclude = elim filter.tags [ none ↦ [] | some t ↦ t.exclude ];
}

-- No error is ever returned by the default service; an error of another one is a text.
abbrev pub FilterFailure : Type 0
FilterFailure = String

module _ (u : Upstream) (glob : Glob) where
  open u use {Server, Skill, Plugin}

  -- `shouldIncludeServerWithReason`
  unfoldable pub should_include_server : String → List String → Criteria → Bool × ServerReason
  unfolding joined_reason
  should_include_server name tags c =
      let (by_name, name_reason) = Names.should_include glob name c.name_include c.name_exclude in
      if not by_name
      then (false, name_filter name_reason)
      else let (by_tags, tag_reason) = Tags.should_include tags c.tag_include c.tag_exclude in
        if not by_tags then (false, tag_filter tag_reason) else (
          true,
          joined_reason (not (is_empty c.name_include) || not (is_empty c.name_exclude))
              (not (is_empty c.tag_include) || not (is_empty c.tag_exclude)) name_reason tag_reason,
        )

  -- The three loops of `ApplyFilters`; their counters and log lines are left out.
  filter_servers : Criteria → List Server → List Server
  filter_servers c [] = []
  filter_servers c (server ∷ rest) =
      let later = filter_servers c rest in
      let (included, reason) =
        should_include_server (u.server_name server) (extract_tags (u.publisher_provided server))
          c in
      if included then server ∷ later else later

  filter_skills : Criteria → List Skill → List Skill
  filter_skills c [] = []
  filter_skills c (skill ∷ rest) =
      let later = filter_skills c rest in
      let name = String.◌++◌ (u.skill_namespace skill) (String.◌++◌ "/" (u.skill_name skill)) in
      let (included, reason) = Names.should_include glob name c.name_include c.name_exclude in
      if included then skill ∷ later else later

  filter_plugins : Criteria → List Plugin → List Plugin
  filter_plugins c [] = []
  filter_plugins c (plugin ∷ rest) =
      let later = filter_plugins c rest in
      let name = String.◌++◌ (u.plugin_namespace plugin) (String.◌++◌ "/" (u.plugin_name plugin)) in
      let (included, reason) = Names.should_include glob name c.name_include c.name_exclude in
      if included then plugin ∷ later else later

  unfoldable pub apply_filters :
      Registry u → Option FilterConfig → Outcome FilterFailure (Registry u)
  unfolding filter_servers filter_skills filter_plugins criteria
  apply_filters reg none = ok reg
  apply_filters reg (some filter) =
      let c = criteria filter in
      ok (record {
        schema = reg.schema;
        version = reg.version;
        last_updated = reg.last_updated;
        servers = filter_servers c reg.servers;
        skills = filter_skills c reg.skills;
        plugins = filter_plugins c reg.plugins;
      })
