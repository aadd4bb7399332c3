-- ===== src/Config/Sources/Laws.antt =====
-- What a source that passes its checks is like.
use toolhive_registry_server.Prelude.{
  ℕ, ◌+◌, ℤ, pos, ◌≤ℤ◌, leb_ℤ_iff, String, Bool, true, false, not, some, ◌≡◌, ◌≢◌, refl, ◌↔◌, ◌⊎◌,
  inl, inr, arith, ok, ◌>>◌, fail_if, blank, leb_ℤ, eq_iff, Bool-cases, Option-cases, beq, ltb,
}
use toolhive_registry_server.Config.{
  SourceConfig, SourceType, git, api, file, managed, kubernetes, unset, first_type, get_type,
  present,
}
use toolhive_registry_server.Config.Sources.{
  Host, SourceError, max_api_timeout, timeout_not_positive, timeout_too_long, type_count,
  validate_source_type_count, check_api_bounds, validate_api_timeout, validate_sync_policy, no_type,
  several_types, count_if,
}

two_checks :
    (a b : Bool) (e f : SourceError)
    → ((fail_if a e >> fail_if b f) ≡ ok tt) ↔ ((a ≡ false) × (b ≡ false))
two_checks true b e f = (λ h. absurd (cc), λ h. absurd (cc (h.0)))
two_checks false true e f = (λ h. absurd (cc), λ h. absurd (cc (h.1)))
two_checks false false e f = (λ _. (refl, refl), λ _. refl)

not-true : (b : Bool) → not b ≡ false → b ≡ true
not-true true h = refl
not-true false h = cc

check_api_bounds_iff :
    (d : ℤ) → (check_api_bounds d ≡ ok tt) ↔ ((¬ (d ≤ℤ pos 0)) × (d ≤ℤ max_api_timeout))
unfolding check_api_bounds
check_api_bounds_iff d =
    let (to, from) =
      two_checks (leb_ℤ d (pos 0)) (not (leb_ℤ d max_api_timeout)) timeout_not_positive
        timeout_too_long in
    (
      λ h.
          let (a, b) = to h in
          (
            λ k. let c = (leb_ℤ_iff d (pos 0)).1 k in cc,
            (leb_ℤ_iff d max_api_timeout).0 (not-true _ b),
          ),
      λ (a, b). from (is_above a, rw ((leb_ℤ_iff d max_api_timeout).1 b) refl),
    )
  where
    is_above : ¬ (d ≤ℤ pos 0) → leb_ℤ d (pos 0) ≡ false
    is_above n = elim (Bool-cases (leb_ℤ d (pos 0))) [
      | inl t ↦ absurd (n ((leb_ℤ_iff d (pos 0)).0 t))
      | inr f ↦ f
    ]

module _ (host : Host) where
  -- A timeout passes exactly when it is blank or a duration above zero, of at most five minutes.
  pub validate_api_timeout_iff :
      (timeout : String)
      → (validate_api_timeout host timeout ≡ ok tt) ↔ (
          (timeout ≡ "")
          ⊎ ((d : ℤ) × (host.parse_duration timeout ≡ some d)
              × (¬ (d ≤ℤ pos 0))
              × (d ≤ℤ max_api_timeout)))
  unfolding validate_api_timeout
  validate_api_timeout_iff timeout = elim (Bool-cases (blank timeout)) [
    | inl e ↦ rw e (λ _. inl ((eq_iff timeout "").0 e), λ _. refl)
    | inr e ↦ elim (Option-cases (host.parse_duration timeout)) [
      | inl f ↦
          rw (e, validate_api_timeout)
            (rw f (
              λ h. absurd (cc),
              elim [
                | inl p ↦ absurd (let b = (eq_iff timeout "").1 p in cc)
                | inr (d, p, _, _) ↦ absurd (cc)
              ],
            ))
      | inr (d, f) ↦
          let (to, from) = check_api_bounds_iff d in
          rw (e, validate_api_timeout)
            (rw f (
              λ h. let (low, high) = to h in inr (d, refl, low, high),
              elim [
                | inl p ↦ absurd (let b = (eq_iff timeout "").1 p in cc)
                | inr (d', p, low, high) ↦ let same : d ≡ d' = cc in from (rw same (low, high))
              ],
            ))
    ]
  ]

  -- The source's schedule is there and parses.
  abbrev pub Scheduled : SourceConfig → Type 0
  Scheduled src = validate_sync_policy host src.sync_policy ≡ ok tt

-- Whether the section of a type is set.
abbrev set_of : SourceType → Bool → Bool → Bool → Bool → Bool → Bool
set_of git a b c d e = a
set_of api a b c d e = b
set_of file a b c d e = c
set_of managed a b c d e = d
set_of kubernetes a b c d e = e
set_of unset a b c d e = false

abbrev pub is_set : SourceType → SourceConfig → Bool
is_set t src =
    set_of t (present src.git) (present src.api) (present src.file) (present src.managed)
      (present src.kubernetes)

the_only :
    (t : SourceType) (a b c d e : Bool)
    → count_if a + count_if b + count_if c + count_if d + count_if e ≡ 1
    → set_of t a b c d e ≡ true
    → t ≡ first_type a b c d e
the_only git true b c d e h k = refl
the_only git false b c d e h k = cc
the_only api false true c d e h k = refl
the_only api true true c d e h k = absurd (omega arith)
the_only api a false c d e h k = absurd (cc)
the_only file false false true d e h k = refl
the_only file true b true d e h k = absurd (omega arith)
the_only file false true true d e h k = absurd (omega arith)
the_only file a b false d e h k = absurd (cc)
the_only managed false false false true e h k = refl
the_only managed true b c true e h k = absurd (omega arith)
the_only managed false true c true e h k = absurd (omega arith)
the_only managed false false true true e h k = absurd (omega arith)
the_only managed a b c false e h k = absurd (cc)
the_only kubernetes false false false false true h k = refl
the_only kubernetes true b c d true h k = absurd (omega arith)
the_only kubernetes false true c d true h k = absurd (omega arith)
the_only kubernetes false false true d true h k = absurd (omega arith)
the_only kubernetes false false false true true h k = absurd (omega arith)
the_only kubernetes a b c d false h k = absurd (cc)
the_only unset a b c d e h k = absurd (cc)

some_set :
    (a b c d e : Bool)
    → count_if a + count_if b + count_if c + count_if d + count_if e ≡ 1
    → first_type a b c d e ≢ unset
some_set true b c d e h k = cc
some_set false true c d e h k = cc
some_set false false true d e h k = cc
some_set false false false true e h k = cc
some_set false false false false true h k = cc
some_set false false false false false h k = cc

counted : (n : ℕ) → beq n 0 ≡ false → ltb 1 n ≡ false → n ≡ 1
counted n a b = ground arith

-- A source that passes the count has a type, and its type is the only one whose section is set.
pub validate_source_type_count-only :
    (src : SourceConfig)
    → validate_source_type_count src ≡ ok tt
    → (get_type src ≢ unset) × ((t : SourceType) → is_set t src ≡ true → t ≡ get_type src)
unfolding validate_source_type_count type_count get_type
validate_source_type_count-only src h =
    let (a, b) = (two_checks _ _ no_type several_types).0 h in
    let one = counted _ a b in (some_set _ _ _ _ _ one, λ t k. the_only t _ _ _ _ _ one k)
