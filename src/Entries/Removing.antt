-- ===== src/Entries/Removing.antt =====
-- Deleting a version keeps the invariant of the tables.
use toolhive_registry_server.Prelude.{
  ℕ, ◌≡◌, ◌≢◌, refl, sym, ◌∙◌, ap, ◌⊎◌, inl, inr, String, true, false, not, Option, none, some,
  List, [], ◌∷◌, Memᴰ, arith, any, any-intro, any-elim, keep, mem-keep, beq, ◌==◌, Bool-cases,
  Option-cases,
}
use toolhive_registry_server.Versions.{Semver, Row, find_highest_version}
use toolhive_registry_server.Versions.Order.{Above, AllSemver, find_highest_version-Above}
use toolhive_registry_server.Entries.{
  EntryType, Entry, Store, Ordering, set_entry, upsert_latest, cascade_row, cascade_latest, repoint,
  cleanup, remove_version,
}
use toolhive_registry_server.Entries.Invariant.{
  Inv, set_entry-cases, set_entry-there, set_entry-other, upsert_latest-same, upsert_latest-other,
  name_split,
}

list_split : (rows : List Row) → (rows ≡ []) ⊎ (rows ≢ [])
list_split [] = inl refl
list_split (r ∷ rows) = inr (λ h. cc)

beq_eq : (a b : ℕ) → beq a b ≡ true → a ≡ b
beq_eq a b h = ground arith

beq_refl : (a : ℕ) → beq a a ≡ true
beq_refl a = ground arith

cascade_row-some :
    (deleted : List Row) (o : Option Row) (v : Row)
    → cascade_row deleted o ≡ some v
    → (o ≡ some v) × (any (λ d. beq d.id v.id) deleted ≡ false)
unfolding cascade_row
cascade_row-some deleted none v h = absurd (let k : none ≡ some v = h in cc)
cascade_row-some deleted (some w) v h = elim (Bool-cases (any (λ d. beq d.id w.id) deleted)) [
  | inl e ↦ absurd (let h' : none ≡ some v = rw e at h in cc)
  | inr e ↦ let h' : some w ≡ some v = rw e at h in let same : w ≡ v = cc in (h', rw (← same) e)
]

cascade_row-kept :
    (deleted : List Row) (v : Row)
    → ((d : Row) → Memᴰ d deleted → d.id ≢ v.id)
    → cascade_row deleted (some v) ≡ some v
unfolding cascade_row
cascade_row-kept deleted v apart = elim (Bool-cases (any (λ d. beq d.id v.id) deleted)) [
  | inl e ↦
      let (d, m, same) = any-elim (λ d. beq d.id v.id) deleted e in
      absurd (apart d m (beq_eq d.id v.id same))
  | inr e ↦ rw e refl
]

module _ (semver : Semver) (ordering : Ordering) (name : String) (rows : List Row)
    (latest : String → Option Row) where
  repoint-none :
      find_highest_version semver (ordering.order rows) ≡ none
      → repoint semver ordering name rows none latest ≡ latest
  unfolding repoint
  repoint-none e = rw (e, repoint) refl

  repoint-best :
      (best : Row)
      → find_highest_version semver (ordering.order rows) ≡ some best
      → repoint semver ordering name rows none latest ≡ upsert_latest name best latest
  unfolding repoint
  repoint-best best e = rw (e, repoint) refl

  repoint-kept : (v : Row) → repoint semver ordering name rows (some v) latest ≡ latest
  unfolding repoint
  repoint-kept v = refl

  repoint-other :
      (n : String) (o : Option Row)
      → n ≢ name
      → repoint semver ordering name rows o latest n ≡ latest n
  repoint-other n (some v) ne = ap (λ l. l n) (repoint-kept v)
  repoint-other n none ne =
      elim (Option-cases (find_highest_version semver (ordering.order rows))) [
        | inl e ↦ ap (λ l. l n) (repoint-none e)
        | inr (best, e) ↦
            ap (λ l. l n) (repoint-best best e) ∙ upsert_latest-other name n best latest ne
      ]

some_row :
    (semver : Semver) (rows : List Row) (best : Row)
    → find_highest_version semver rows ≡ some best
    → (r : Row) × Memᴰ r rows
unfolding find_highest_version
some_row semver [] best h = absurd (let k : none ≡ some best = h in cc)
some_row semver (r ∷ rows) best h = (r, Memᴰ.head refl)

module _ (semver : Semver) {B : Type 0} (ordering : Ordering) (s : Store B) (ty : EntryType)
    (name version : String) (e : Entry B) (inv : Inv semver s)
    (there : s.entries ty name ≡ some e) where
  abbrev deleted : List Row
  deleted = keep (λ row. row.version == version) e.versions

  abbrev remaining : List Row
  remaining = keep (λ row. not (row.version == version)) e.versions

  abbrev entries' : EntryType → String → Option (Entry B)
  entries' = set_entry ty name (cleanup semver e remaining) s.entries

  abbrev cascaded : String → Option Row
  cascaded = cascade_latest deleted s.latest

  abbrev latest' : String → Option Row
  latest' = repoint semver ordering name remaining (cascaded name) cascaded

  from_remaining : (v : Row) → Memᴰ v remaining → Memᴰ v e.versions
  from_remaining v m = ((mem-keep (λ row. not (row.version == version)) e.versions).0 m).0

  cleanup-some :
      (rows : List Row) (f : Entry B)
      → cleanup semver e rows ≡ some f
      → (f.versions ≡ rows) × (rows ≢ [])
  unfolding cleanup
  cleanup-some [] f h = absurd (let k : none ≡ some f = h in cc)
  cleanup-some (r ∷ rows) f h =
      let same : f ≡ record e { versions = r ∷ rows } = cc in (ap (λ g. g.versions) same, λ k. cc)

  cleanup-there : (rows : List Row) → rows ≢ [] → (f : Entry B) × (cleanup semver e rows ≡ some f)
  unfolding cleanup
  cleanup-there [] ne = absurd (ne refl)
  cleanup-there (r ∷ rows) ne = (_, refl)

  -- A version that is left was there before.
  was_there :
      (t : EntryType) (n : String) (f : Entry B) (v : Row)
      → entries' t n ≡ some f
      → Memᴰ v f.versions
      → (g : Entry B) × (s.entries t n ≡ some g) × Memᴰ v g.versions
  was_there t n f v h m =
      elim (set_entry-cases semver ty t name n (cleanup semver e remaining) s.entries f h) [
        | inl (same_t, same_n, o) ↦
            let (rows, _) = cleanup-some remaining f o in
            (e, rw (same_t, same_n) there, from_remaining v (rw rows at m))
        | inr (_, before) ↦ (f, before, m)
      ]

  elsewhere :
      (t : EntryType) (n : String) (f : Entry B)
      → n ≢ name
      → entries' t n ≡ some f
      → s.entries t n ≡ some f
  elsewhere t n f ne h =
      elim (set_entry-cases semver ty t name n (cleanup semver e remaining) s.entries f h) [
        | inl (_, same_n, _) ↦ absurd (ne same_n)
        | inr (_, before) ↦ before
      ]

  at_name :
      (t : EntryType) (f : Entry B)
      → entries' t name ≡ some f
      → (t ≡ ty) × (f.versions ≡ remaining) × (remaining ≢ [])
  at_name t f h =
      elim (set_entry-cases semver ty t name name (cleanup semver e remaining) s.entries f h) [
        | inl (same_t, _, o) ↦ let (rows, ne) = cleanup-some remaining f o in (same_t, rows, ne)
        | inr (other, before) ↦ absurd (other (inv.one_type t ty name f e before there, refl))
      ]

  -- The pointers of other names survive: their ids are not those of the deleted rows.
  cascaded-other : (n : String) → n ≢ name → cascaded n ≡ s.latest n
  unfolding cascade_latest
  cascaded-other n ne = elim (Option-cases (s.latest n)) [
    | inl h ↦ rw (h, cascade_latest) refl
    | inr (v, h) ↦
        rw (h, cascade_latest)
          (cascade_row-kept deleted v (λ d m same.
            let (t, f, at) = inv.no_stray n v h in
            let (w, to, k, _) = inv.pointed t n f at in
            let same_v : v ≡ w = cc in
            let (in_e, _) = (mem-keep (λ row. row.version == version) e.versions).0 m in
            ne (inv.distinct_ids t ty n name f e v d at (rw same_v k) there in_e (sym same)).0))
  ]

  latest'-other : (n : String) → n ≢ name → latest' n ≡ s.latest n
  latest'-other n ne =
      repoint-other semver ordering name remaining cascaded n (cascaded name) ne
      ∙ cascaded-other n ne

  -- A pointer of the name that survives is one of the versions that remain, and was there.
  survives :
      (v : Row)
      → cascaded name ≡ some v
      → (s.latest name ≡ some v) × Memᴰ v remaining × Above semver v.version e.versions
  unfolding cascade_latest
  survives v h =
      let (at, apart) = cascade_row-some deleted (s.latest name) v h in
      let (w, to, m, above) = inv.pointed ty name e there in
      let same : w ≡ v = cc in
      let m' : Memᴰ v e.versions = rw (← same) m in
      elim (Bool-cases (v.version == version)) [
        | inl gone ↦
            let d = (mem-keep (λ row. row.version == version) e.versions).1 (m', gone) in
            let hit = any-intro (λ d. beq d.id v.id) deleted d (beq_refl v.id) in absurd (cc)
        | inr stays ↦ (
          at,
          (mem-keep (λ row. not (row.version == version)) e.versions).1 (m', rw stays refl),
          rw (← same) above,
        )
      ]

  repointed :
      (o : Option Row)
      → cascaded name ≡ o
      → remaining ≢ []
      → (v : Row) × (repoint semver ordering name remaining o cascaded name ≡ some v)
        × Memᴰ v remaining
        × Above semver v.version remaining
  repointed (some v) h ne =
      let (_, m, above) = survives v h in
      (
        v,
        ap (λ l. l name) (repoint-kept semver ordering name remaining cascaded v) ∙ h,
        m,
        λ w k. above w (from_remaining w k),
      )
  repointed none h ne =
      let parse : AllSemver semver (ordering.order remaining) = λ w k.
        inv.semver_only ty name e there w
          (from_remaining w ((ordering.mem-order w remaining).0 k)) in
      let (best, found, m, above) =
        find_highest_version-Above semver (ordering.order remaining) parse
          (ordered_ne remaining ne) in
      (
        best,
        ap (λ l. l name) (repoint-best semver ordering name remaining cascaded best found)
            ∙ upsert_latest-same name best cascaded,
        (ordering.mem-order best remaining).0 m,
        λ w k. above w ((ordering.mem-order w remaining).1 k),
      )
    where
      ordered_ne : (rows : List Row) → rows ≢ [] → ordering.order rows ≢ []
      ordered_ne [] ne h = ne refl
      ordered_ne (r ∷ rows) ne h =
          let m = (ordering.mem-order r (r ∷ rows)).1 (Memᴰ.head refl) in elim (rw h at m) [ ]

  -- If no version remains, the name has no pointer.
  unpointed :
      (rows : List Row)
      → rows ≡ []
      → remaining ≡ rows
      → (o : Option Row) → cascaded name ≡ o
      → repoint semver ordering name rows o cascaded name ≡ none
  unpointed rows nil same (some v) h =
      let (_, m, _) = survives v h in absurd (elim (rw (same, nil) at m) [ ])
  unpointed rows nil same none h =
      elim (Option-cases (find_highest_version semver (ordering.order rows))) [
        | inl f ↦ ap (λ l. l name) (repoint-none semver ordering name rows cascaded f) ∙ h
        | inr (best, f) ↦
            let (r, m) = some_row semver (ordering.order rows) best f in
            let m' = (ordering.mem-order r rows).0 m in absurd (elim (rw nil at m') [ ])
      ]

  -- Deleting a version of an entry keeps the invariant.
  pub remove_version-Inv : Inv semver (remove_version semver ordering ty name version e s)
  unfolding remove_version
  remove_version-Inv = record {
    one_type = λ t t' n f f' h h'. elim (name_split n name) [
      | inl same ↦
          let (a, _, _) = at_name t f (rw same at h) in
          let (b, _, _) = at_name t' f' (rw same at h') in a ∙ sym b
      | inr ne ↦ inv.one_type t t' n f f' (elsewhere t n f ne h) (elsewhere t' n f' ne h')
    ];
    semver_only = λ t n f h w m.
        let (g, before, k) = was_there t n f w h m in inv.semver_only t n g before w k;
    pointed = λ t n f h. elim (name_split n name) [
      | inl same ↦
          let (_, rows, ne) = at_name t f (rw same at h) in
          rw (same, rows) (repointed (cascaded name) refl ne)
      | inr ne ↦
          let (v, at, m, above) = inv.pointed t n f (elsewhere t n f ne h) in
          (v, latest'-other n ne ∙ at, m, above)
    ];
    no_stray = λ n v h. elim (name_split n name) [
      | inl same ↦ elim (list_split remaining) [
        | inl nil ↦ absurd (
            let gone = unpointed remaining nil refl (cascaded name) refl in
            let h' : latest' name ≡ some v = rw same at h in cc)
        | inr ne ↦
            let (f, at) = cleanup-there remaining ne in
            (
              ty,
              f,
              rw same (set_entry-there semver ty name (cleanup semver e remaining) s.entries ∙ at),
            )
      ]
      | inr ne ↦
          let (t, f, before) = inv.no_stray n v (sym (latest'-other n ne) ∙ h) in
          (
            t,
            f,
            set_entry-other semver ty t name n (cleanup semver e remaining) s.entries ne ∙ before,
          )
    ];
    old_ids =
        λ t n f v h m. let (g, before, k) = was_there t n f v h m in inv.old_ids t n g v before k;
    distinct_ids = λ t t' n n' f f' v v' h m h' m' same.
        let (g, before, k) = was_there t n f v h m in
        let (g', before', k') = was_there t' n' f' v' h' m' in
        inv.distinct_ids t t' n n' g g' v v' before k before' k' same;
  }
