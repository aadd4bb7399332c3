-- ===== src/Config/Servers/Laws.antt =====
-- What a configuration that `validate` accepts is like.
use mathlib.Core.List.Memᴰ.{cases_cons}
use toolhive_registry_server.Prelude.{
  ℕ, ◌+◌, ◌≤◌, String, Bool, true, false, not, Option, List, [], ◌∷◌, map, ◌≡◌, ◌≢◌, refl, ◌⊎◌, inl,
  inr, arith, Memᴰ, Outcome, ok, err, ◌>>=◌, >>-eq-ok, fail_if-eq-ok, wrap_err-eq-ok, ltb, contains,
  contains_iff, all_iff, All-mem, is_empty,
}
use toolhive_registry_server.Config.{SourceConfig}
use toolhive_registry_server.Config.Sources.{
  Host, name_invalid, name_duplicate, validate_source_config, validate_claims,
}
use toolhive_registry_server.Config.Servers.{
  Config, RegistryConfig, ConfigError, source_error, registry_error, registry_without_sources,
  unknown_source, add_managed, validate_source, validate_sources, validate_registry,
  validate_registries, validate_rest, validate, no_sources, several_managed, no_registries,
}

-- No text stands twice in the list.
abbrev pub Unique : List String → Type 0
Unique [] = Unit
Unique (x ∷ xs) = (¬ Memᴰ x xs) × Unique xs

abbrev pub source_names : List SourceConfig → List String
source_names = map λ src. src.name

abbrev pub managed_count : List SourceConfig → ℕ
managed_count [] = 0
managed_count (src ∷ srcs) = add_managed src (managed_count srcs)

not-contains : (s : String) (l : List String) → contains s l ≡ false → ¬ Memᴰ s l
not-contains s l h m = let c = (contains_iff s l).1 m in cc

not-false : (b : Bool) → not b ≡ false → b ≡ true
not-false true h = refl
not-false false h = cc

add_managed_comm :
    (src : SourceConfig) (n m k : ℕ) → k ≡ add_managed src n + m → k ≡ n + add_managed src m
add_managed_comm src n m k h = ground arith

no_more_than_one : (n m : ℕ) → n ≡ 0 + m → ltb 1 n ≡ false → m ≤ 1
no_more_than_one n m e h = ground arith

not_empty {ℓ} : {A : Type ℓ} (xs : List A) → is_empty xs ≡ false → xs ≢ []
not_empty [] h = absurd (cc)
not_empty (x ∷ xs) h = λ e. cc

module _ (host : Host) where
  -- The checks of a single source: a valid name, a sound configuration and sound claims.
  pub record SourceSound (src : SourceConfig) : Type 0 where
    pub name_ok : host.is_dns_subdomain src.name ≡ true
    pub config_ok : validate_source_config host src ≡ ok tt
    pub claims_ok : validate_claims src.claims ≡ ok tt

  validate_source-ok :
      (names : List String) (src : SourceConfig)
      → validate_source host names src ≡ ok tt
      → SourceSound src × (¬ Memᴰ src.name names)
  unfolding validate_source
  validate_source-ok names src h =
      let (_, h₁) = >>-eq-ok _ _ (wrap_err-eq-ok source_error _ h) in
      let (valid, h₂) = >>-eq-ok _ _ h₁ in
      let (fresh, h₃) = >>-eq-ok _ _ h₂ in
      let (config, claims) = >>-eq-ok _ _ h₃ in
      (
        record {
          name_ok = not-false _ (fail_if-eq-ok _ name_invalid valid);
          config_ok = config;
          claims_ok = claims;
        },
        not-contains _ _ (fail_if-eq-ok _ name_duplicate fresh),
      )

  -- What the loop over the sources has seen to, under the names and the number before it.
  record Collected (names : List String) (n : ℕ) (srcs : List SourceConfig) (names' : List String)
      (n' : ℕ) : Type 0 where
    each : (src : SourceConfig) → Memᴰ src srcs → SourceSound src
    unique : Unique (source_names srcs)
    fresh : (s : String) → Memᴰ s (source_names srcs) → ¬ Memᴰ s names
    known : (s : String) → Memᴰ s names' → Memᴰ s names ⊎ Memᴰ s (source_names srcs)
    count : n' ≡ n + managed_count srcs

  pair_eq :
      (a c : List String) (b d : ℕ)
      → ◌≡◌ {A = Outcome ConfigError (List String × ℕ)} (ok (a, b)) (ok (c, d))
      → (c ≡ a) × (d ≡ b)
  pair_eq a c b d h = (cc, cc)

  validate_sources-ok :
      (names : List String) (n : ℕ) (srcs : List SourceConfig) (names' : List String) (n' : ℕ)
      → validate_sources host names n srcs ≡ ok (names', n')
      → Collected names n srcs names' n'
  unfolding validate_sources
  validate_sources-ok names n [] names' n' h =
      let (same_names, same_n) = pair_eq names names' n n' h in
      record {
        each = λ src m. elim m [ ];
        unique = tt;
        fresh = λ s m. elim m [ ];
        known = λ s m. inl (rw (← same_names) m);
        count = omega arith;
      }
  validate_sources-ok names n (src ∷ srcs) names' n' h =
      let (first, later) = >>-eq-ok _ _ h in
      let (sound, new) = validate_source-ok names src first in
      let rest = validate_sources-ok (src.name ∷ names) (add_managed src n) srcs names' n' later in
      record {
        each = λ s m. elim (cases_cons m) [ inl e ↦ rw e sound | inr k ↦ rest.each s k ];
        unique = ((λ m. rest.fresh src.name m (Memᴰ.head refl)), rest.unique);
        fresh = λ s m. elim (cases_cons m) [
          | inl e ↦ rw e new
          | inr k ↦ λ l. rest.fresh s k (Memᴰ.tail l)
        ];
        known = λ s m. elim (rest.known s m) [
          | inl k ↦ elim (cases_cons k) [ inl e ↦ inr (Memᴰ.head e) | inr l ↦ inl l ]
          | inr k ↦ inr (Memᴰ.tail k)
        ];
        count = add_managed_comm src n (managed_count srcs) n' rest.count;
      }

  -- A registry has sources, each of which is one of the names, and sound claims.
  pub record RegistrySound (names : List String) (reg : RegistryConfig) : Type 0 where
    pub has_sources : reg.sources ≢ []
    pub known : (s : String) → Memᴰ s reg.sources → Memᴰ s names
    pub claims_ok : validate_claims reg.claims ≡ ok tt

  validate_registry-ok :
      (source_names' names : List String) (reg : RegistryConfig)
      → validate_registry host source_names' names reg ≡ ok tt
      → RegistrySound source_names' reg × (¬ Memᴰ reg.name names)
  unfolding validate_registry
  validate_registry-ok source_names' names reg h =
      let (_, h₁) = >>-eq-ok _ _ h in
      let (fresh, h₂) = >>-eq-ok _ _ h₁ in
      let (filled, h₃) = >>-eq-ok _ _ h₂ in
      let (found, claims) = >>-eq-ok _ _ h₃ in
      let every = not-false _ (fail_if-eq-ok _ unknown_source found) in
      (
        record {
          has_sources = not_empty reg.sources (fail_if-eq-ok _ registry_without_sources filled);
          known = λ s m.
              (contains_iff s source_names').0
                (All-mem _ reg.sources ((all_iff _ reg.sources).0 every) m);
          claims_ok = wrap_err-eq-ok registry_error _ claims;
        },
        not-contains _ _ (fail_if-eq-ok _ (registry_error name_duplicate) fresh),
      )

  abbrev pub registry_names : List RegistryConfig → List String
  registry_names = map λ reg. reg.name

  validate_registries-ok :
      (source_names' names : List String) (regs : List RegistryConfig)
      → validate_registries host source_names' names regs ≡ ok tt
      → ((reg : RegistryConfig) → Memᴰ reg regs → RegistrySound source_names' reg)
        × Unique (registry_names regs)
        × ((s : String) → Memᴰ s (registry_names regs) → ¬ Memᴰ s names)
  unfolding validate_registries
  validate_registries-ok source_names' names [] h = (λ reg m. elim m [ ], tt, λ s m. elim m [ ])
  validate_registries-ok source_names' names (reg ∷ regs) h =
      let (first, later) = >>-eq-ok _ _ h in
      let (sound, new) = validate_registry-ok source_names' names reg first in
      let (each, unique, fresh) =
        validate_registries-ok source_names' (reg.name ∷ names) regs later in
      (
        λ r m. elim (cases_cons m) [ inl e ↦ rw e sound | inr k ↦ each r k ],
        ((λ m. fresh reg.name m (Memᴰ.head refl)), unique),
        λ s m. elim (cases_cons m) [ inl e ↦ rw e new | inr k ↦ λ l. fresh s k (Memᴰ.tail l) ],
      )

  pub record WellFormed (c : Config) : Type 0 where
    pub has_sources : c.sources ≢ []
    pub sources_sound : (src : SourceConfig) → Memᴰ src c.sources → SourceSound src
    pub sources_unique : Unique (source_names c.sources)
    pub one_managed : managed_count c.sources ≤ 1
    pub has_registries : c.registries ≢ []
    pub registries_sound :
        (reg : RegistryConfig) → Memᴰ reg c.registries → RegistrySound (source_names c.sources) reg
    pub registries_unique : Unique (registry_names c.registries)

  RegistrySound-map :
      {xs ys : List String} {reg : RegistryConfig}
      → ((s : String) → Memᴰ s xs → Memᴰ s ys)
      → RegistrySound xs reg
      → RegistrySound ys reg
  RegistrySound-map f r = record {
    has_sources = r.has_sources;
    known = λ s m. f s (r.known s m);
    claims_ok = r.claims_ok;
  }

  Collected-WellFormed :
      (log_directory : String → Option (Option Bool)) (c : Config) (names : List String) (n : ℕ)
      → c.sources ≢ []
      → Collected [] 0 c.sources names n
      → validate_rest host log_directory c (names, n) ≡ ok tt
      → WellFormed c
  unfolding validate_rest
  Collected-WellFormed log_directory c names n filled got h =
      let (few, h₁) = >>-eq-ok _ _ h in
      let (some_registry, h₂) = >>-eq-ok _ _ h₁ in
      let (registries, _) = >>-eq-ok _ _ h₂ in
      let (each, unique, _) = validate_registries-ok names [] c.registries registries in
      record {
        has_sources = filled;
        sources_sound = got.each;
        sources_unique = got.unique;
        one_managed = no_more_than_one n _ got.count (fail_if-eq-ok _ several_managed few);
        has_registries = not_empty c.registries (fail_if-eq-ok _ no_registries some_registry);
        registries_sound = λ reg m.
            RegistrySound-map
              (λ s k. elim (got.known s k) [ inl bad ↦ absurd (elim bad [ ]) | inr l ↦ l ])
              (each reg m);
        registries_unique = unique;
      }

  collected-cases :
      (log_directory : String → Option (Option Bool)) (c : Config)
      (collected : Outcome ConfigError (List String × ℕ))
      → validate_sources host [] 0 c.sources ≡ collected
      → c.sources ≢ []
      → (collected >>= validate_rest host log_directory c) ≡ ok tt
      → WellFormed c
  collected-cases log_directory c (err e) known filled h = absurd (cc)
  collected-cases log_directory c (ok (names, n)) known filled h =
      Collected-WellFormed log_directory c names n filled
        (validate_sources-ok [] 0 c.sources names n known) h

  -- A configuration that is accepted has sources of different names, each of them sound and at
  -- most one managed, and registries of different names, each with sources that are configured.
  pub validate-WellFormed :
      (log_directory : String → Option (Option Bool)) (c : Config)
      → validate host log_directory c ≡ ok tt
      → WellFormed c
  unfolding validate
  validate-WellFormed log_directory c h =
      let (some_source, later) = >>-eq-ok _ _ h in
      collected-cases log_directory c _ refl
        (not_empty c.sources (fail_if-eq-ok _ no_sources some_source)) later
