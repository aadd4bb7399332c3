-- ===== src/Entries/Relabelling.antt =====
-- New claims of an entry keep the invariant of the tables.
use toolhive_registry_server.Prelude.{◌≡◌, refl, ◌∙◌, ap, inl, inr, String, Option, some}
use toolhive_registry_server.Versions.{Semver}
use toolhive_registry_server.Entries.{EntryType, Entry, Store, set_entry, set_claims}
use toolhive_registry_server.Entries.Invariant.{
  Inv, set_entry-cases, set_entry-there, set_entry-other, name_split,
}

module _ (semver : Semver) {B : Type 0} (s : Store B) (ty : EntryType) (name : String) (claims : B)
    (e : Entry B) (inv : Inv semver s) (there : s.entries ty name ≡ some e) where
  abbrev relabelled : Entry B
  relabelled = record e { claims = claims }

  abbrev entries' : EntryType → String → Option (Entry B)
  entries' = set_entry ty name (some relabelled) s.entries

  -- The entry at a key was there before, with the same versions.
  same_versions :
      (t : EntryType) (n : String) (f : Entry B)
      → entries' t n ≡ some f
      → (g : Entry B) × (s.entries t n ≡ some g) × (f.versions ≡ g.versions)
  same_versions t n f h =
      elim (set_entry-cases semver ty t name n (some relabelled) s.entries f h) [
        | inl (same_t, same_n, o) ↦
            let same : f ≡ relabelled = cc in
            (e, rw (same_t, same_n) there, ap (λ x. x.versions) same)
        | inr (_, before) ↦ (f, before, refl)
      ]

  -- New claims keep the invariant.
  pub set_claims-Inv : Inv semver (set_claims ty name claims e s)
  unfolding set_claims
  set_claims-Inv = record {
    one_type = λ t t' n f f' h h'.
        let (g, at, _) = same_versions t n f h in
        let (g', at', _) = same_versions t' n f' h' in inv.one_type t t' n g g' at at';
    semver_only =
        λ t n f h. let (g, at, same) = same_versions t n f h in rw same (inv.semver_only t n g at);
    pointed =
        λ t n f h. let (g, at, same) = same_versions t n f h in rw same (inv.pointed t n g at);
    no_stray = λ n v h. elim (name_split n name) [
      | inl same ↦
          (ty, relabelled, rw same (set_entry-there semver ty name (some relabelled) s.entries))
      | inr ne ↦
          let (t, f, before) = inv.no_stray n v h in
          (t, f, set_entry-other semver ty t name n (some relabelled) s.entries ne ∙ before)
    ];
    old_ids = λ t n f v h m.
        let (g, at, same) = same_versions t n f h in inv.old_ids t n g v at (rw same at m);
    distinct_ids = λ t t' n n' f f' v v' h m h' m'.
        let (g, at, same) = same_versions t n f h in
        let (g', at', same') = same_versions t' n' f' h' in
        inv.distinct_ids t t' n n' g g' v v' at (rw same at m) at' (rw same' at m');
  }
