-- ===== src/Filtering/Service/Laws.antt =====
-- What the filter of a registry keeps.
use Prim.Native.String
use toolhive_registry_server.Prelude.{
  String, Bool, true, some, List, [], ◌∷◌, ◌≡◌, refl, ◌↔◌, Memᴰ, arith, ok, keep, mem-keep,
}
use toolhive_registry_server.Config.{FilterConfig}
use toolhive_registry_server.Filtering.Tags
use toolhive_registry_server.Filtering.Tags.{TagsPass}
use toolhive_registry_server.Filtering.Names
use toolhive_registry_server.Filtering.Names.{Glob, NamePasses}
use toolhive_registry_server.Filtering.Service.{
  Upstream, Registry, extract_tags, Criteria, criteria, should_include_server, filter_servers,
  filter_skills, filter_plugins, apply_filters,
}

module _ (u : Upstream) (glob : Glob) where
  open u use {Server, Skill, Plugin}

  -- A server passes by its name and by its tags.
  abbrev pub ServerPasses : Criteria → Server → Type 0
  ServerPasses c server =
      NamePasses glob (u.server_name server) c.name_include c.name_exclude
      × TagsPass (extract_tags (u.publisher_provided server)) c.tag_include c.tag_exclude

  -- The name by which a skill is filtered.
  abbrev pub skill_key : Skill → String
  skill_key skill = String.◌++◌ (u.skill_namespace skill) (String.◌++◌ "/" (u.skill_name skill))

  abbrev pub plugin_key : Plugin → String
  plugin_key plugin =
      String.◌++◌ (u.plugin_namespace plugin) (String.◌++◌ "/" (u.plugin_name plugin))

  abbrev keeps_server : Criteria → Server → Bool
  keeps_server c server =
      (should_include_server u glob (u.server_name server)
        (extract_tags (u.publisher_provided server)) c).0

  abbrev keeps_name : Criteria → String → Bool
  keeps_name c name = (Names.should_include glob name c.name_include c.name_exclude).0

  filter_servers-eq-keep :
      (c : Criteria) (l : List Server) → filter_servers u glob c l ≡ keep (keeps_server c) l
  unfolding filter_servers
  filter_servers-eq-keep c [] = refl
  filter_servers-eq-keep c (s ∷ l) = rw (filter_servers-eq-keep c l) refl

  filter_skills-eq-keep :
      (c : Criteria) (l : List Skill)
      → filter_skills u glob c l ≡ keep (λ s. keeps_name c (skill_key s)) l
  unfolding filter_skills
  filter_skills-eq-keep c [] = refl
  filter_skills-eq-keep c (s ∷ l) = rw (filter_skills-eq-keep c l) refl

  filter_plugins-eq-keep :
      (c : Criteria) (l : List Plugin)
      → filter_plugins u glob c l ≡ keep (λ p. keeps_name c (plugin_key p)) l
  unfolding filter_plugins
  filter_plugins-eq-keep c [] = refl
  filter_plugins-eq-keep c (s ∷ l) = rw (filter_plugins-eq-keep c l) refl

  should_include_server_iff :
      (name : String) (tags : List String) (c : Criteria)
      → ((should_include_server u glob name tags c).0 ≡ true) ↔ (
          NamePasses glob name c.name_include c.name_exclude
          × TagsPass tags c.tag_include c.tag_exclude)
  unfolding should_include_server
  should_include_server_iff name tags c =
      let (to_name, from_name) =
        Names.names_should_include_iff glob name c.name_include c.name_exclude in
      let (to_tags, from_tags) = Tags.tags_should_include_iff tags c.tag_include c.tag_exclude in
      (
        λ h. (to_name (ground arith), to_tags (ground arith)),
        λ h. let by_name = from_name h.0 in let by_tags = from_tags h.1 in ground arith,
      )

  -- The result, with each loop as the list of what passes.
  abbrev filtered : Registry u → FilterConfig → Registry u
  filtered reg filter = record reg {
    servers = keep (keeps_server (criteria filter)) reg.servers;
    skills = keep (λ s. keeps_name (criteria filter) (skill_key s)) reg.skills;
    plugins = keep (λ p. keeps_name (criteria filter) (plugin_key p)) reg.plugins;
  }

  apply_filters-eq :
      (reg : Registry u) (filter : FilterConfig)
      → apply_filters u glob reg (some filter) ≡ ok (filtered reg filter)
  apply_filters-eq reg filter =
      rw
        (
          ← filter_servers-eq-keep (criteria filter) reg.servers,
          ← filter_skills-eq-keep (criteria filter) reg.skills,
          ← filter_plugins-eq-keep (criteria filter) reg.plugins,
        )
        (unfold apply_filters in refl)

  name_kept_iff :
      {A : Type 0} (key : A → String) (filter : FilterConfig) (l : List A) (x : A)
      → Memᴰ x (keep (λ y. keeps_name (criteria filter) (key y)) l) ↔ (
          Memᴰ x l
          × NamePasses glob (key x) (criteria filter).name_include (criteria filter).name_exclude)
  name_kept_iff key filter l x =
      let (to, from) = mem-keep (λ y. keeps_name (criteria filter) (key y)) {x = x} l in
      let (passes, passed) =
        Names.names_should_include_iff glob (key x) (criteria filter).name_include
          (criteria filter).name_exclude in
      (λ m. let (inside, h) = to m in (inside, passes h), λ (inside, h). from (inside, passed h))

  -- With a filter, the result has the metadata of the registry, the servers whose name and tags
  -- pass, and the skills and plugins whose name `namespace/name` passes, and no other entries.
  pub mem-apply_filters :
      (reg : Registry u) (filter : FilterConfig)
      → (reg' : Registry u) × (apply_filters u glob reg (some filter) ≡ ok reg')
        × (reg'.schema ≡ reg.schema)
        × (reg'.version ≡ reg.version)
        × (reg'.last_updated ≡ reg.last_updated)
        × ((s : Server)
            → Memᴰ s reg'.servers ↔ (Memᴰ s reg.servers × ServerPasses (criteria filter) s))
        × ((s : Skill)
            → Memᴰ s reg'.skills ↔ (
                Memᴰ s reg.skills
                × NamePasses glob
                    (skill_key s)
                    (criteria filter).name_include
                    (criteria filter).name_exclude))
        × ((p : Plugin)
            → Memᴰ p reg'.plugins ↔ (
                Memᴰ p reg.plugins
                × NamePasses glob
                    (plugin_key p)
                    (criteria filter).name_include
                    (criteria filter).name_exclude))
  mem-apply_filters reg filter = (
    filtered reg filter,
    apply_filters-eq reg filter,
    refl,
    refl,
    refl,
    λ s.
        let (to, from) = mem-keep (keeps_server (criteria filter)) {x = s} reg.servers in
        let (passes, passed) =
          should_include_server_iff (u.server_name s) (extract_tags (u.publisher_provided s))
            (criteria filter) in
        (λ m. let (inside, h) = to m in (inside, passes h), λ (inside, h). from (inside, passed h)),
    name_kept_iff skill_key filter reg.skills,
    name_kept_iff plugin_key filter reg.plugins,
  )
