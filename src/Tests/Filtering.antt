-- ===== src/Tests/Filtering.antt =====
-- A small registry under a filter: the upstream types as pairs of a name and tags, and a matcher
-- for exact names in place of the glob libraries.
use toolhive_registry_server.Prelude.{
  String, true, Option, none, some, [], ◌∷◌, ◌≡◌, ◌↔◌, Memᴰ, ok, ◌==◌, not, blank,
}
use toolhive_registry_server.Value.{str, arr, obj, nil, cons, end, field, ClaimMap}
use toolhive_registry_server.Config.{FilterConfig}
use toolhive_registry_server.Filtering.Names
use toolhive_registry_server.Filtering.Names.{Glob, NamePasses, names_should_include_iff}
use toolhive_registry_server.Filtering.Service.{Upstream, Registry, apply_filters, criteria}
use toolhive_registry_server.Filtering.Service.Laws.{
  ServerPasses, skill_key, plugin_key, mem-apply_filters,
}

-- A name, with what a publisher provided.
abbrev pub upstream : Upstream
upstream = record {
  Server = String × Option ClaimMap;
  Skill = String × String;
  Plugin = String × String;
  server_name = λ s. s.0;
  publisher_provided = λ s. s.1;
  skill_namespace = λ s. s.0;
  skill_name = λ s. s.1;
  plugin_namespace = λ p. p.0;
  plugin_name = λ p. p.1;
}

-- The blank pattern is invalid, and every other one matches itself only.
abbrev pub exact : Glob
exact = record { is_valid = λ p. not (blank p); compile = λ p. some (λ name. p == name) }

abbrev tagged : String → ClaimMap
tagged tag =
    ("io.github", obj (field "x" (obj (field "tags" (arr (cons (str tag) nil)) end)) end)) ∷ []

abbrev pub registry : Registry upstream
registry = record {
  schema = "s";
  version = "1";
  last_updated = "t";
  servers = ("fetch", some (tagged "web")) ∷ ("time", none) ∷ [];
  skills = ("ns", "lint") ∷ [];
  plugins = [];
}

abbrev filter : FilterConfig
filter = record {
  names = some (record { include = "fetch" ∷ "ns/lint" ∷ []; exclude = "time" ∷ [] });
  tags = some (record { include = "web" ∷ []; exclude = [] });
}

names_should_include_iff_example :
    ((Names.should_include exact "fetch" ("fetch" ∷ []) ("time" ∷ [])).0 ≡ true)
    ↔ NamePasses exact "fetch" ("fetch" ∷ []) ("time" ∷ [])
names_should_include_iff_example =
    names_should_include_iff exact "fetch" ("fetch" ∷ []) ("time" ∷ [])

mem-apply_filters_example :
    (reg' : Registry upstream) × (apply_filters upstream exact registry (some filter) ≡ ok reg')
    × (reg'.schema ≡ registry.schema)
    × (reg'.version ≡ registry.version)
    × (reg'.last_updated ≡ registry.last_updated)
    × ((s : upstream.Server)
        → Memᴰ s reg'.servers
          ↔ (Memᴰ s registry.servers × ServerPasses upstream exact (criteria filter) s))
    × ((s : upstream.Skill)
        → Memᴰ s reg'.skills ↔ (
            Memᴰ s registry.skills
            × NamePasses exact
                (skill_key upstream exact s)
                (criteria filter).name_include
                (criteria filter).name_exclude))
    × ((p : upstream.Plugin)
        → Memᴰ p reg'.plugins ↔ (
            Memᴰ p registry.plugins
            × NamePasses exact
                (plugin_key upstream exact p)
                (criteria filter).name_include
                (criteria filter).name_exclude))
mem-apply_filters_example = mem-apply_filters upstream exact registry filter
