-- ===== src/Entries/Adding.antt =====
-- Publishing a version keeps the invariant of the tables.
use mathlib.Core.List.Memᴰ.{cases_cons}
use toolhive_registry_server.Prelude.{
  ◌<◌, ◌≡◌, ◌≢◌, refl, sym, ◌∙◌, ap, ◌⊎◌, inl, inr, String, true, false, Option, none, some, [],
  ◌∷◌, Memᴰ, arith, Bool-cases, Option-cases, if◌then◌else◌,
}
use toolhive_registry_server.Versions.{Semver, Row, is_newer_version}
use toolhive_registry_server.Versions.Order.{
  IsSemver, Above, AllSemver, is_newer_version_irrefl, not_newer_trans,
}
use toolhive_registry_server.Entries.{
  EntryType, Entry, Store, set_entry, upsert_latest, should_update_latest, add_version,
}
use toolhive_registry_server.Entries.Invariant.{
  Inv, set_entry-cases, upsert_latest-same, upsert_latest-other, set_entry-there, set_entry-other,
  name_split,
}

-- The pointers after a version was added.
abbrev moved_latest : (semver : Semver) → String → Row → (String → Option Row) → String → Option Row
moved_latest semver name row latest =
    if should_update_latest semver row.version (latest name)
    then upsert_latest name row latest
    else latest

moved_latest-other :
    (semver : Semver) (name n : String) (row : Row) (latest : String → Option Row)
    → n ≢ name
    → moved_latest semver name row latest n ≡ latest n
moved_latest-other semver name n row latest ne =
    elim (Bool-cases (should_update_latest semver row.version (latest name))) [
      | inl e ↦ rw e (upsert_latest-other name n row latest ne)
      | inr e ↦ rw e refl
    ]

moved_latest-new :
    (semver : Semver) (name : String) (row : Row) (latest : String → Option Row)
    → should_update_latest semver row.version (latest name) ≡ true
    → moved_latest semver name row latest name ≡ some row
moved_latest-new semver name row latest e = rw e (upsert_latest-same name row latest)

moved_latest-old :
    (semver : Semver) (name : String) (row : Row) (latest : String → Option Row)
    → should_update_latest semver row.version (latest name) ≡ false
    → moved_latest semver name row latest name ≡ latest name
moved_latest-old semver name row latest e = rw e refl

module _ (semver : Semver) {B : Type 0} where
  -- What a publish needs of the tables, which satisfy the invariant: the entry, which is there or
  -- is new and has no versions, no entry of another type under the name, and a version that parses.
  pub record Ready (s : Store B) (ty : EntryType) (name version : String) (e : Entry B)
      : Type 0 where
    pub found : (s.entries ty name ≡ some e) ⊎ ((s.entries ty name ≡ none) × (e.versions ≡ []))
    pub own_name : (t : EntryType) (e' : Entry B) → s.entries t name ≡ some e' → t ≡ ty
    pub parses : IsSemver semver version

  module _ (s : Store B) (ty : EntryType) (name version : String) (e : Entry B) (inv : Inv semver s)
      (ready : Ready s ty name version e) where
    abbrev row : Row
    row = record { id = s.next_id; version = version }

    abbrev grown : Entry B
    grown = record e { versions = row ∷ e.versions }

    abbrev entries' : EntryType → String → Option (Entry B)
    entries' = set_entry ty name (some grown) s.entries

    -- A version of an entry that is there now is the new one, or was there before.
    old_or_new :
        (t : EntryType) (n : String) (f : Entry B) (v : Row)
        → entries' t n ≡ some f
        → Memᴰ v f.versions
        → ((n ≡ name) × (v ≡ row)) ⊎ ((g : Entry B) × (s.entries t n ≡ some g) × Memᴰ v g.versions)
    old_or_new t n f v h m = elim (set_entry-cases semver ty t name n (some grown) s.entries f h) [
      | inl (same_t, same_n, same) ↦
          let same_e : grown ≡ f = cc in
          let m' : Memᴰ v (row ∷ e.versions) = rw (← same_e) at m in
          elim (cases_cons m') [
            | inl new ↦ inl (same_n, new)
            | inr k ↦ elim ready.found [
              | inl there ↦ inr (e, rw (same_t, same_n) there, k)
              | inr (_, no_versions) ↦ absurd (elim (rw no_versions at k) [ ])
            ]
          ]
      | inr (_, there) ↦ inr (f, there, m)
    ]

    elsewhere :
        (t : EntryType) (n : String) (f : Entry B)
        → n ≢ name
        → entries' t n ≡ some f
        → s.entries t n ≡ some f
    elsewhere t n f ne h = elim (set_entry-cases semver ty t name n (some grown) s.entries f h) [
      | inl (_, same_n, _) ↦ absurd (ne same_n)
      | inr (_, there) ↦ there
    ]

    at_name : (t : EntryType) (f : Entry B) → entries' t name ≡ some f → (t ≡ ty) × (f ≡ grown)
    at_name t f h = elim (set_entry-cases semver ty t name name (some grown) s.entries f h) [
      | inl (same_t, _, same) ↦ (same_t, cc)
      | inr (other, there) ↦ absurd (other (ready.own_name t f there, refl))
    ]

    grown_semver : AllSemver semver (row ∷ e.versions)
    grown_semver w m = elim (cases_cons m) [
      | inl new ↦ rw new ready.parses
      | inr k ↦ elim ready.found [
        | inl there ↦ inv.semver_only ty name e there w k
        | inr (_, no_versions) ↦ absurd (elim (rw no_versions at k) [ ])
      ]
    ]

    -- The new version over versions that are not above it.
    Above-row : Above semver version e.versions → Above semver version (row ∷ e.versions)
    Above-row above w m = elim (cases_cons m) [
      | inl new ↦ rw new (is_newer_version_irrefl semver version ready.parses)
      | inr k ↦ above w k
    ]

    abbrev Moved : Type 0
    Moved =
        (v : Row) × (moved_latest semver name row s.latest name ≡ some v)
        × Memᴰ v (row ∷ e.versions)
        × Above semver v.version (row ∷ e.versions)

    first_version : s.latest name ≡ none → Moved
    unfolding should_update_latest
    first_version none_yet = elim ready.found [
      | inl there ↦ absurd (let (v, at, _, _) = inv.pointed ty name e there in cc)
      | inr (_, no_versions) ↦ (
        row,
        moved_latest-new semver name row s.latest (rw none_yet refl),
        Memᴰ.head refl,
        Above-row (λ w k. absurd (elim (rw no_versions at k) [ ])),
      )
    ]

    later_version :
        (current : Row)
        → s.latest name ≡ some current
        → Memᴰ current e.versions
        → Above semver current.version e.versions
        → Moved
    unfolding should_update_latest
    later_version current at m above =
        let parses' = inv_semver current m in
        elim (Bool-cases (is_newer_version semver version current.version)) [
          | inl newer ↦ (
            row,
            moved_latest-new semver name row s.latest (rw at newer),
            Memᴰ.head refl,
            Above-row (λ w k.
                not_newer_trans semver w.version version current.version (inv_semver w k)
                  ready.parses parses' newer (above w k)),
          )
          | inr older ↦ (
            current,
            moved_latest-old semver name row s.latest (rw at older) ∙ at,
            Memᴰ.tail m,
            λ w k. elim (cases_cons k) [ inl new ↦ rw new older | inr l ↦ above w l ],
          )
        ]
      where
        inv_semver : AllSemver semver e.versions
        inv_semver w k = grown_semver w (Memᴰ.tail k)

    -- The pointer of the name after the step: the new version, or an old one that is not below it.
    moved : Moved
    moved = elim (Option-cases (s.latest name)) [
      | inl none_yet ↦ first_version none_yet
      | inr (current, at) ↦
          let (t, f, there) = inv.no_stray name current at in
          let there' : s.entries ty name ≡ some f = rw (← (ready.own_name t f there)) there in
          elim ready.found [
            | inl found ↦
                let (v, at', m, above) = inv.pointed ty name e found in later_version v at' m above
            | inr (missing, _) ↦ absurd (cc)
          ]
    ]

    add_version-one_type :
        (t t' : EntryType) (n : String) (f f' : Entry B)
        → entries' t n ≡ some f
        → entries' t' n ≡ some f'
        → t ≡ t'
    add_version-one_type t t' n f f' h h' = elim (name_split n name) [
      | inl same ↦
          let (a, _) = at_name t f (rw same at h) in
          let (b, _) = at_name t' f' (rw same at h') in a ∙ sym b
      | inr ne ↦ inv.one_type t t' n f f' (elsewhere t n f ne h) (elsewhere t' n f' ne h')
    ]

    add_version-distinct_ids :
        (t t' : EntryType) (n n' : String) (f f' : Entry B) (v v' : Row)
        → entries' t n ≡ some f
        → Memᴰ v f.versions
        → entries' t' n' ≡ some f'
        → Memᴰ v' f'.versions
        → v.id ≡ v'.id
        → (n ≡ n') × (v ≡ v')
    add_version-distinct_ids t t' n n' f f' v v' h m h' m' same = elim (old_or_new t n f v h m) [
      | inl (at, new) ↦ elim (old_or_new t' n' f' v' h' m') [
        | inl (at', new') ↦ (at ∙ sym at', new ∙ sym new')
        | inr (g, there, k) ↦
            absurd (let old = inv.old_ids t' n' g v' there k in clash v v' new same old)
      ]
      | inr (g, there, k) ↦ elim (old_or_new t' n' f' v' h' m') [
        | inl (at', new') ↦
            absurd (let old = inv.old_ids t n g v there k in clash v' v new' (sym same) old)
        | inr (g', there', k') ↦ inv.distinct_ids t t' n n' g g' v v' there k there' k' same
      ]
    ]
      where
        clash : (w old : Row) → w ≡ row → w.id ≡ old.id → old.id < s.next_id → ⊥
        clash w old new same below =
            let id : w.id ≡ s.next_id = ap (λ r. r.id) new in omega (arith, id, same, below)

    -- A version that parses, published under a name of its own type, keeps the invariant.
    pub add_version-Inv : Inv semver (add_version semver ty name version e s)
    unfolding add_version
    add_version-Inv = record {
      one_type = add_version-one_type;
      semver_only = λ t n f h w m. elim (old_or_new t n f w h m) [
        | inl (_, new) ↦ rw new ready.parses
        | inr (g, there, k) ↦ inv.semver_only t n g there w k
      ];
      pointed = λ t n f h. elim (name_split n name) [
        | inl same ↦ let (_, same_f) = at_name t f (rw same at h) in rw (same, same_f) moved
        | inr ne ↦
            let (v, at, m, above) = inv.pointed t n f (elsewhere t n f ne h) in
            (v, moved_latest-other semver name n row s.latest ne ∙ at, m, above)
      ];
      no_stray = λ n v h. elim (name_split n name) [
        | inl same ↦ (ty, grown, rw same (set_entry-there semver ty name (some grown) s.entries))
        | inr ne ↦
            let (t, f, there) =
              inv.no_stray n v (sym (moved_latest-other semver name n row s.latest ne) ∙ h) in
            (t, f, set_entry-other semver ty t name n (some grown) s.entries ne ∙ there)
      ];
      old_ids = λ t n f v h m. elim (old_or_new t n f v h m) [
        | inl (_, new) ↦ rw new (omega arith)
        | inr (g, there, k) ↦ let old = inv.old_ids t n g v there k in omega (arith, old)
      ];
      distinct_ids = add_version-distinct_ids;
    }
