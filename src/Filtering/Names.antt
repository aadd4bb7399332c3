-- ===== src/Filtering/Names.antt =====
-- internal/filtering/name_filter.go: inclusion by glob patterns. The two pattern libraries,
-- `path/filepath` for validation and `github.com/gobwas/glob` for matching, are a parameter.
use toolhive_registry_server.Prelude.{
  String, Bool, true, false, not, Option, none, some, List, [], ◌∷◌, ◌++◌, ◌≡◌, refl, ap, ◌↔◌, ◌⊎◌,
  inl, inr, arith, Outcome, ok, err, All, is_empty, if◌then◌else◌,
}

-- `filepath.Match(pattern, "test")` without an error, and `glob.Compile(pattern)` with the
-- matcher that it gives.
pub record Glob : Type 0 where
  pub is_valid : String → Bool
  pub compile : String → Option (String → Bool)

pub data PatternError : Type 0 where
  bad_pattern bad_glob : PatternError

pub data NameReason : Type 0 where
  invalid_exclude invalid_include : String → PatternError → NameReason
  excluded_by_pattern included_by_pattern : String → NameReason
  no_include_match no_exclude_match : List String → NameReason
  no_name_filters : NameReason

-- How a loop over patterns ends: at an invalid pattern, at a match, or with neither.
pub data Scan : Type 0 where
  invalid : String → PatternError → Scan
  hit : String → Scan
  clear : Scan

module _ (glob : Glob) where
  pub match_pattern : String → String → Outcome PatternError Bool
  match_pattern pattern name =
      if not (glob.is_valid pattern)
      then err bad_pattern
      else elim (glob.compile pattern) [ none ↦ err bad_glob | some compiled ↦ ok (compiled name) ]

  scan_step : String → Outcome PatternError Bool → Scan → Scan
  scan_step pattern (err e) rest = invalid pattern e
  scan_step pattern (ok true) rest = hit pattern
  scan_step pattern (ok false) rest = rest

  -- The loop over a list of patterns.
  pub scan : String → List String → Scan
  unfolding scan_step
  scan name [] = clear
  scan name (pattern ∷ patterns) =
      let rest = scan name patterns in scan_step pattern (match_pattern pattern name) rest

  -- The returns after the loop over the include patterns.
  include_end : List String → Scan → Bool × NameReason
  include_end include (invalid pattern e) = (false, invalid_include pattern e)
  include_end include (hit pattern) = (true, included_by_pattern pattern)
  include_end include clear = (false, no_include_match include)

  -- What follows the check of the exclude patterns.
  include_names : String → List String → List String → Bool × NameReason
  unfolding include_end
  include_names name include exclude =
      if not (is_empty include)
      then include_end include (scan name include)
      else if not (is_empty exclude)
      then (true, no_exclude_match exclude)
      else (true, no_name_filters)

  -- The returns in the loop over the exclude patterns, and what comes after it.
  exclude_end : String → List String → List String → Scan → Bool × NameReason
  exclude_end name include exclude (invalid pattern e) = (false, invalid_exclude pattern e)
  exclude_end name include exclude (hit pattern) = (false, excluded_by_pattern pattern)
  exclude_end name include exclude clear = include_names name include exclude

  unfoldable pub should_include : String → List String → List String → Bool × NameReason
  unfolding include_names exclude_end
  should_include name include exclude =
      exclude_end name include exclude (if is_empty exclude then clear else scan name exclude)

  -- Every pattern is valid and none matches the name.
  abbrev pub Misses : String → List String → Type 0
  Misses name patterns = All (λ p. match_pattern p name ≡ ok false) patterns

  -- Some pattern matches the name, and those before it are valid and do not.
  pub record Hits (name : String) (patterns : List String) : Type 0 where
    pub before : List String
    pub pattern : String
    pub after : List String
    pub split : patterns ≡ before ++ pattern ∷ after
    pub missed : Misses name before
    pub matched : match_pattern pattern name ≡ ok true

  scan_clear_iff :
      (name : String) (patterns : List String) → (scan name patterns ≡ clear) ↔ Misses name patterns
  unfolding scan scan_step
  scan_clear_iff name [] = (λ _. tt, λ _. refl)
  scan_clear_iff name (p ∷ ps) =
      let (to, from) = scan_clear_iff name ps in
      (λ h. (ground arith, to (ground arith)), λ h. rw h.0 (from h.1))

  -- The loop hits exactly when some pattern matches before any is invalid.
  scan_hit :
      (name : String) (patterns : List String) (p : String)
      → scan name patterns ≡ hit p
      → Hits name patterns
  unfolding scan scan_step
  scan_hit name [] p h = absurd (cc)
  scan_hit name (q ∷ qs) p h = elim (step-cases (match_pattern q name)) [
    | inl matched ↦ record {
      before = [];
      pattern = q;
      after = qs;
      split = refl;
      missed = tt;
      matched = matched;
    }
    | inr (inl missed) ↦
        let later = scan_hit name qs p (rw (missed, scan_step) at h) in
        record {
          before = q ∷ later.before;
          pattern = later.pattern;
          after = later.after;
          split = ap (λ l. q ∷ l) later.split;
          missed = (missed, later.missed);
          matched = later.matched;
        }
    | inr (inr (e, failed)) ↦
        let bad : invalid q e ≡ hit p = rw (failed, scan_step) at h in absurd (cc)
  ]
    where
      step-cases :
          (o : Outcome PatternError Bool)
          → (o ≡ ok true) ⊎ ((o ≡ ok false) ⊎ ((e : PatternError) × (o ≡ err e)))
      step-cases (ok true) = inl refl
      step-cases (ok false) = inr (inl refl)
      step-cases (err e) = inr (inr (e, refl))

  scan_of_Hits :
      (name : String) (before : List String) (pattern : String) (after : List String)
      → Misses name before
      → match_pattern pattern name ≡ ok true
      → scan name (before ++ pattern ∷ after) ≡ hit pattern
  unfolding scan scan_step
  scan_of_Hits name [] pattern after m h = rw h refl
  scan_of_Hits name (q ∷ qs) pattern after (e, m) h = rw e (scan_of_Hits name qs pattern after m h)

  hit_of_Hits :
      (name : String) (patterns : List String) (h : Hits name patterns)
      → scan name patterns ≡ hit h.pattern
  hit_of_Hits name patterns h =
      rw h.split (scan_of_Hits name h.before h.pattern h.after h.missed h.matched)

  -- No pattern is invalid or matches in the exclude list, and the include list has none or hits.
  abbrev pub NamePasses : String → List String → List String → Type 0
  NamePasses name include exclude = Misses name exclude × ((include ≡ []) ⊎ Hits name include)

  include_end_iff :
      (name : String) (include : List String) (found : Scan)
      → scan name include ≡ found
      → ((include_end include found).0 ≡ true) ↔ Hits name include
  unfolding include_end
  include_end_iff name include (invalid p e) s =
      (λ h. absurd (cc), λ h. absurd (let k = hit_of_Hits name include h in cc))
  include_end_iff name include (hit p) s = (λ _. scan_hit name include p s, λ _. refl)
  include_end_iff name include clear s =
      (λ h. absurd (cc), λ h. absurd (let k = hit_of_Hits name include h in cc))

  include_names_iff :
      (name : String) (include exclude : List String)
      → ((include_names name include exclude).0 ≡ true) ↔ ((include ≡ []) ⊎ Hits name include)
  unfolding include_names
  include_names_iff name [] exclude = (λ _. inl refl, λ _. ground arith)
  include_names_iff name (i ∷ is) exclude =
      let (to, from) = include_end_iff name (i ∷ is) (scan name (i ∷ is)) refl in
      (λ h. inr (to h), elim [ inl p ↦ absurd (cc) | inr h ↦ from h ])

  exclude_end_iff :
      (name : String) (include exclude : List String) (found : Scan)
      → scan name exclude ≡ found
      → ((exclude_end name include exclude found).0 ≡ true) ↔ NamePasses name include exclude
  unfolding exclude_end
  exclude_end_iff name include exclude (invalid p e) s =
      (λ h. absurd (cc), λ h. absurd (let k = (scan_clear_iff name exclude).1 h.0 in cc))
  exclude_end_iff name include exclude (hit p) s =
      (λ h. absurd (cc), λ h. absurd (let k = (scan_clear_iff name exclude).1 h.0 in cc))
  exclude_end_iff name include exclude clear s =
      let (to, from) = include_names_iff name include exclude in
      (λ h. ((scan_clear_iff name exclude).0 s, to h), λ h. from h.1)

  -- A name passes exactly when every exclude pattern is valid and misses it, and the include list
  -- is empty or has a match that no invalid pattern precedes.
  pub names_should_include_iff :
      (name : String) (include exclude : List String)
      → ((should_include name include exclude).0 ≡ true) ↔ NamePasses name include exclude
  unfolding should_include
  names_should_include_iff name include [] =
      let (to, from) = include_names_iff name include [] in (λ h. (tt, to h), λ h. from h.1)
  names_should_include_iff name include (x ∷ xs) =
      exclude_end_iff name include (x ∷ xs) (scan name (x ∷ xs)) refl
