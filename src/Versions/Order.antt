-- ===== src/Versions/Order.antt =====
-- On versions that parse, being newer is an order, and the highest version is the greatest.
use mathlib.Core.List.Memᴰ.{cases_cons}
use toolhive_registry_server.Prelude.{
  ◌≡◌, ◌≢◌, refl, sym, ◌∙◌, ◌⊎◌, inl, inr, String, true, false, some, List, [], ◌∷◌, Memᴰ,
  Bool-cases,
}
use toolhive_registry_server.Versions.{
  Semver, Row, compare_parsed, is_newer_version, highest_from, find_highest_version,
}

module _ (semver : Semver) where
  -- The version is one that `semver.NewVersion` parses.
  abbrev pub IsSemver : String → Type 0
  IsSemver v = (p : semver.Version) × (semver.new_version v ≡ some p)

  pub is_newer_version-eq :
      (a b : String) (p q : semver.Version)
      → semver.new_version a ≡ some p
      → semver.new_version b ≡ some q
      → is_newer_version semver a b ≡ semver.greater_than p q
  unfolding is_newer_version compare_parsed
  is_newer_version-eq a b p q e f = rw e (rw f refl)

  pub is_newer_version_trans :
      (a b c : String)
      → IsSemver a
      → IsSemver b
      → IsSemver c
      → is_newer_version semver a b ≡ true
      → is_newer_version semver b c ≡ true
      → is_newer_version semver a c ≡ true
  is_newer_version_trans a b c (p, e) (q, f) (r, g) h k =
      is_newer_version-eq a c p r e g
      ∙ semver.greater_than_trans p q r (sym (is_newer_version-eq a b p q e f) ∙ h)
          (sym (is_newer_version-eq b c q r f g) ∙ k)

  pub is_newer_version_irrefl : (a : String) → IsSemver a → is_newer_version semver a a ≡ false
  is_newer_version_irrefl a (p, e) = is_newer_version-eq a a p p e e ∙ semver.greater_than_irrefl p

  -- What is not above the old best is not above a newer one.
  pub not_newer_trans :
      (w x c : String)
      → IsSemver w
      → IsSemver x
      → IsSemver c
      → is_newer_version semver x c ≡ true
      → is_newer_version semver w c ≡ false
      → is_newer_version semver w x ≡ false
  not_newer_trans w x c sw sx sc newer not_newer = elim (Bool-cases (is_newer_version semver w x)) [
    | inl h ↦ let above = is_newer_version_trans w x c sw sx sc h newer in absurd (cc)
    | inr h ↦ h
  ]

  -- None of the rows is above the version.
  abbrev pub Above : String → List Row → Type 0
  Above v rows = (w : Row) → Memᴰ w rows → is_newer_version semver w.version v ≡ false

  abbrev pub AllSemver : List Row → Type 0
  AllSemver rows = (w : Row) → Memᴰ w rows → IsSemver w.version

  -- The result of the loop is the old best or a row, no row is above it, and neither is what was
  -- not above the old best.
  record Best (best : Row) (rows : List Row) (found : Row) : Type 0 where
    pub member : (found ≡ best) ⊎ Memᴰ found rows
    pub above_rows : Above found.version rows
    pub above_old :
        (w : String)
        → IsSemver w
        → is_newer_version semver w best.version ≡ false
        → is_newer_version semver w found.version ≡ false

  kept-Best :
      (best row found : Row) (rows : List Row)
      → IsSemver row.version
      → is_newer_version semver row.version best.version ≡ false
      → Best best rows found
      → Best best (row ∷ rows) found
  kept-Best best row found rows sr lower b = record {
    member = elim b.member [ inl e ↦ inl e | inr m ↦ inr (Memᴰ.tail m) ];
    above_rows = λ w m. elim (cases_cons m) [
      | inl e ↦ rw e (b.above_old row.version sr lower)
      | inr k ↦ b.above_rows w k
    ];
    above_old = b.above_old;
  }

  new-Best :
      (best row found : Row) (rows : List Row)
      → IsSemver best.version
      → IsSemver row.version
      → is_newer_version semver row.version best.version ≡ true
      → Best row rows found
      → Best best (row ∷ rows) found
  new-Best best row found rows sb sr higher b = record {
    member = elim b.member [ inl e ↦ inr (Memᴰ.head e) | inr m ↦ inr (Memᴰ.tail m) ];
    above_rows = λ w m. elim (cases_cons m) [
      | inl e ↦ rw e (b.above_old row.version sr (is_newer_version_irrefl row.version sr))
      | inr k ↦ b.above_rows w k
    ];
    above_old =
        λ w s h. b.above_old w s (not_newer_trans w row.version best.version s sr sb higher h);
  }

  highest_from-Best :
      (best : Row) (rows : List Row)
      → IsSemver best.version
      → AllSemver rows
      → Best best rows (highest_from semver best rows)
  unfolding highest_from
  highest_from-Best best [] sb sr = record {
    member = inl refl;
    above_rows = λ w m. elim m [ ];
    above_old = λ w s h. h;
  }
  highest_from-Best best (row ∷ rows) sb sr =
      let s = sr row (Memᴰ.head refl) in
      let later = λ (w : Row) (m : Memᴰ w rows). sr w (Memᴰ.tail m) in
      elim (Bool-cases (is_newer_version semver row.version best.version)) [
        | inl e ↦ rw e (new-Best best row _ rows sb s e (highest_from-Best row rows s later))
        | inr e ↦ rw e (kept-Best best row _ rows s e (highest_from-Best best rows sb later))
      ]

  -- Of rows whose versions parse, the one that `findHighestVersion` answers is a row, and none is
  -- newer; there is an answer unless there are no rows.
  pub find_highest_version-Above :
      (rows : List Row)
      → AllSemver rows
      → rows ≢ []
      → (best : Row) × (find_highest_version semver rows ≡ some best)
        × Memᴰ best rows
        × Above best.version rows
  unfolding find_highest_version
  find_highest_version-Above [] s ne = absurd (ne refl)
  find_highest_version-Above (row ∷ rows) s ne =
      let sr = s row (Memᴰ.head refl) in
      let b = highest_from-Best row rows sr (λ w m. s w (Memᴰ.tail m)) in
      (
        highest_from semver row rows,
        refl,
        elim b.member [ inl e ↦ Memᴰ.head e | inr m ↦ Memᴰ.tail m ],
        λ w m. elim (cases_cons m) [
          | inl e ↦ rw e (b.above_old row.version sr (is_newer_version_irrefl row.version sr))
          | inr k ↦ b.above_rows w k
        ],
      )
