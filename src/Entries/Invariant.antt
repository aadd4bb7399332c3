-- ===== src/Entries/Invariant.antt =====
-- What holds of the tables.
use toolhive_registry_server.Prelude.{
  ◌<◌, ◌≡◌, ◌≢◌, refl, sym, ◌⊎◌, inl, inr, String, true, false, ◌&&◌, Option, some, Memᴰ, arith,
  ◌==◌, eq_iff, eq_refl, Bool-cases,
}
use toolhive_registry_server.Entries.{
  EntryType, mcp, skill, plugin, type_eq, Entry, Store, set_entry, set_claims, upsert_latest,
}
use toolhive_registry_server.Versions.{Semver, Row}
use toolhive_registry_server.Versions.Order.{Above, AllSemver}

pub type_eq_eq : (a b : EntryType) → type_eq a b ≡ true → a ≡ b
type_eq_eq mcp mcp h = refl
type_eq_eq skill skill h = refl
type_eq_eq plugin plugin h = refl
type_eq_eq a b h = absurd (cc)

pub type_eq_refl : (a : EntryType) → type_eq a a ≡ true
type_eq_refl mcp = refl
type_eq_refl skill = refl
type_eq_refl plugin = refl

pub upsert_latest-same :
    (name : String) (row : Row) (latest : String → Option Row)
    → upsert_latest name row latest name ≡ some row
unfolding upsert_latest
upsert_latest-same name row latest = rw (eq_refl name) refl

pub upsert_latest-other :
    (name n : String) (row : Row) (latest : String → Option Row)
    → n ≢ name
    → upsert_latest name row latest n ≡ latest n
unfolding upsert_latest
upsert_latest-other name n row latest ne = elim (Bool-cases (name == n)) [
  | inl e ↦ absurd (ne (sym ((eq_iff name n).0 e)))
  | inr e ↦ rw (e, upsert_latest) refl
]

module _ (semver : Semver) {B : Type 0} where
  -- A name belongs to one type of entry; entries have versions, and they parse; the pointer of each
  -- entry's name is one of its versions, and none is newer; no other pointers are there; ids are
  -- distinct and below the next one.
  pub record Inv (s : Store B) : Type 0 where
    pub one_type :
        (t t' : EntryType) (n : String) (e e' : Entry B)
        → s.entries t n ≡ some e
        → s.entries t' n ≡ some e'
        → t ≡ t'
    pub semver_only :
        (t : EntryType) (n : String) (e : Entry B)
        → s.entries t n ≡ some e
        → AllSemver semver e.versions
    pub pointed :
        (t : EntryType) (n : String) (e : Entry B)
        → s.entries t n ≡ some e
        → (v : Row) × (s.latest n ≡ some v) × Memᴰ v e.versions × Above semver v.version e.versions
    pub no_stray :
        (n : String) (v : Row)
        → s.latest n ≡ some v
        → (t : EntryType) × (e : Entry B) × (s.entries t n ≡ some e)
    pub old_ids :
        (t : EntryType) (n : String) (e : Entry B) (v : Row)
        → s.entries t n ≡ some e
        → Memᴰ v e.versions
        → v.id < s.next_id
    pub distinct_ids :
        (t t' : EntryType) (n n' : String) (e e' : Entry B) (v v' : Row)
        → s.entries t n ≡ some e
        → Memᴰ v e.versions
        → s.entries t' n' ≡ some e'
        → Memᴰ v' e'.versions
        → v.id ≡ v'.id
        → (n ≡ n') × (v ≡ v')

  -- The entry found under a key after one was set.
  pub set_entry-cases :
      (ty t : EntryType) (name n : String) (o : Option (Entry B))
      (entries : EntryType → String → Option (Entry B)) (e : Entry B)
      → set_entry ty name o entries t n ≡ some e
      → ((t ≡ ty) × (n ≡ name) × (o ≡ some e))
        ⊎ ((¬ ((t ≡ ty) × (n ≡ name))) × (entries t n ≡ some e))
  unfolding set_entry
  set_entry-cases ty t name n o entries e h = elim (Bool-cases (type_eq ty t && (name == n))) [
    | inl p ↦ inl (
      sym (type_eq_eq ty t (ground arith)),
      sym ((eq_iff name n).0 (ground arith)),
      rw (p, set_entry) at h,
    )
    | inr p ↦ inr (λ (same_t, same_n). other ty t name n p same_t same_n, rw (p, set_entry) at h)
  ]
    where
      other :
          (ty t : EntryType) (name n : String)
          → (type_eq ty t && (name == n)) ≡ false
          → t ≡ ty
          → n ≡ name
          → ⊥
      other ty t name n p same_t same_n =
          let a : type_eq ty t ≡ true = rw same_t (type_eq_refl ty) in
          let b : (name == n) ≡ true = rw same_n (eq_refl name) in ground arith

  -- The entry that is there now, if it is one that was set or another.
  pub set_entry-there :
      (ty : EntryType) (name : String) (o : Option (Entry B))
      (entries : EntryType → String → Option (Entry B))
      → set_entry ty name o entries ty name ≡ o
  unfolding set_entry
  set_entry-there ty name o entries = rw (type_eq_refl ty, eq_refl name) refl

  pub set_claims-there :
      (ty : EntryType) (name : String) (claims : B) (e : Entry B) (s : Store B)
      → (set_claims ty name claims e s).entries ty name ≡ some (record e { claims = claims })
  unfolding set_claims
  set_claims-there ty name claims e s =
      set_entry-there ty name (some (record e { claims = claims })) s.entries

  pub set_entry-other :
      (ty t : EntryType) (name n : String) (o : Option (Entry B))
      (entries : EntryType → String → Option (Entry B))
      → n ≢ name
      → set_entry ty name o entries t n ≡ entries t n
  unfolding set_entry
  set_entry-other ty t name n o entries ne = elim (Bool-cases (name == n)) [
    | inl e ↦ absurd (ne (sym ((eq_iff name n).0 e)))
    | inr e ↦
        let off : (type_eq ty t && (name == n)) ≡ false = ground arith in rw (off, set_entry) refl
  ]

pub name_split : (n name : String) → (n ≡ name) ⊎ (n ≢ name)
name_split n name = elim (Bool-cases (n == name)) [
  | inl e ↦ inl ((eq_iff n name).0 e)
  | inr e ↦ inr (λ same. let t = (eq_iff n name).1 same in cc)
]
