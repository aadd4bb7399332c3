-- ===== src/Claims/Rules.antt =====
-- What the two claim rules decide, stated without sets, sizes and loops.
use mathlib.Core.List.Memᴰ.{cases_cons}
use toolhive_registry_server.Prelude.{
  String, Bool, true, Option, none, some, List, [], ◌∷◌, ◌≡◌, refl, ap, ◌↔◌, ◌⊎◌, inl, inr, Memᴰ,
  arith, lookup, contains, contains_iff, any, any-intro, any-elim, all_iff, All, All-mem,
  All-tabulate, is_empty, is_some, ltb, length, Bool-cases,
}
use toolhive_registry_server.Value.{Value, str, strs, arr, values, as_str, ClaimMap, to_string_set}
use toolhive_registry_server.Value.Strings.{Mentions, mem-to_string_set}
use toolhive_registry_server.Auth.Rules.{Shares}
use toolhive_registry_server.Claims.{
  is_valid_claim_value, subset_of, overlaps, match_entry, claims_match, claims_contain,
  claims_visible,
}

-- A string, or a list of strings only.
abbrev pub IsClaimValue : Value → Type 0
IsClaimValue (str _) = Unit
IsClaimValue (strs _) = Unit
IsClaimValue (arr vs) = All (λ v. (s : String) × (v ≡ str s)) (values vs)
IsClaimValue _ = ⊥

-- Every string of the record's value is one of the caller's.
abbrev pub Covers : Value → Value → Type 0
Covers cv rv = (s : String) → Mentions s rv → Mentions s cv

-- The record's value names nobody, or shares a string with the caller's.
abbrev pub Admits : Value → Value → Type 0
Admits cv rv = ((s : String) → ¬ Mentions s rv) ⊎ Shares cv rv

-- Each entry of the record is a claim value, and the caller holds its key at a related value.
abbrev pub Satisfies : (Value → Value → Type 0) → ClaimMap → ClaimMap → Type 0
Satisfies Rel caller record' =
    (k : String) (rv : Value)
    → Memᴰ (k, rv) record'
    → IsClaimValue rv × ((cv : Value) × (lookup k caller ≡ some cv) × Rel cv rv)

is_str : (v : Value) → is_some (as_str v) ≡ true → (s : String) × (v ≡ str s)
is_str (str s) h = (s, refl)
is_str v h = absurd (cc)

is_valid_claim_value_iff : (v : Value) → (is_valid_claim_value v ≡ true) ↔ IsClaimValue v
unfolding is_valid_claim_value
is_valid_claim_value_iff (str s) = (λ _. tt, λ _. refl)
is_valid_claim_value_iff (strs l) = (λ _. tt, λ _. refl)
is_valid_claim_value_iff (arr vs) =
    let (to, from) = all_iff (λ v. is_some (as_str v)) (values vs) in
    (
      λ h. All-tabulate _ (values vs) (λ x m. is_str x (All-mem _ (values vs) (to h) m)),
      λ h.
          from
            (All-tabulate _ (values vs) λ x m. let (s, e) = All-mem _ (values vs) h m in rw e refl),
    )
is_valid_claim_value_iff v = (λ h. absurd (cc), absurd)

subset_of_iff :
    (xs ys : List String) → (subset_of xs ys ≡ true) ↔ ((s : String) → Memᴰ s xs → Memᴰ s ys)
unfolding subset_of
subset_of_iff xs ys =
    let (to, from) = all_iff (λ v. contains v ys) xs in
    (
      λ h s m. (contains_iff s ys).0 (All-mem _ xs (to h) m),
      λ h. from (All-tabulate _ xs (λ s m. (contains_iff s ys).1 (h s m))),
    )

common_iff :
    (xs ys : List String)
    → (any (λ v. contains v ys) xs ≡ true) ↔ ((s : String) × Memᴰ s xs × Memᴰ s ys)
common_iff xs ys = (
  λ h. let (s, m, e) = any-elim _ xs h in (s, m, (contains_iff s ys).0 e),
  λ (s, m, n). any-intro _ xs m ((contains_iff s ys).1 n),
)

-- Whichever set is the smaller, the answer is whether they have a string in common.
overlaps_iff :
    (xs ys : List String) → (overlaps xs ys ≡ true) ↔ ((s : String) × Memᴰ s xs × Memᴰ s ys)
unfolding overlaps
overlaps_iff xs ys = elim (Bool-cases (ltb (length ys) (length xs))) [
  | inl e ↦
      let (to, from) = common_iff ys xs in
      rw e (λ h. let (s, m, n) = to h in (s, n, m), λ (s, m, n). from (s, n, m))
  | inr e ↦ rw e (common_iff xs ys)
]

none_mentioned : (v : Value) → to_string_set v ≡ [] → (s : String) → ¬ Mentions s v
none_mentioned v e s m = let inside = (mem-to_string_set s v).1 m in not_in_nil s (rw e at inside)
  where
    not_in_nil : (t : String) → ¬ Memᴰ t []
    not_in_nil t n = elim n [ ]

empty_of_none : (xs : List String) → ((s : String) → ¬ Memᴰ s xs) → xs ≡ []
empty_of_none [] h = refl
empty_of_none (x ∷ _) h = absurd (h x (Memᴰ.head refl))

-- What `claimsMatch` asks of the two sets of an entry.
abbrev Agrees : (List String → List String → Bool) → Value → Value → Type 0
Agrees match_values cv rv =
    (to_string_set rv ≡ []) ⊎ (match_values (to_string_set rv) (to_string_set cv) ≡ true)

empty_of_is_empty {ℓ} : {A : Type ℓ} (xs : List A) → is_empty xs ≡ true → xs ≡ []
empty_of_is_empty [] h = refl
empty_of_is_empty (_ ∷ _) h = absurd (cc)

module _ (match_values : List String → List String → Bool) where
  match_entry_sound :
      (cv rv : Value) (rest : Bool)
      → match_entry match_values (some cv) rv rest ≡ true
      → Agrees match_values cv rv × (rest ≡ true)
  unfolding match_entry
  match_entry_sound cv rv rest h = elim (Bool-cases (is_empty (to_string_set rv))) [
    | inl e ↦ (inl (empty_of_is_empty (to_string_set rv) e), ground arith)
    | inr e ↦ (inr (ground arith), ground arith)
  ]

  match_entry_complete :
      (cv rv : Value) (rest : Bool)
      → Agrees match_values cv rv
      → rest ≡ true
      → match_entry match_values (some cv) rv rest ≡ true
  unfolding match_entry
  match_entry_complete cv rv rest (inl e) h = rw e h
  match_entry_complete cv rv rest (inr e) h = ground arith

  match_entry_iff :
      (found : Option Value) (rv : Value) (rest : Bool)
      → (match_entry match_values found rv rest ≡ true)
        ↔ (((cv : Value) × (found ≡ some cv) × Agrees match_values cv rv) × (rest ≡ true))
  match_entry_iff none rv rest =
      (unfold match_entry in λ h. absurd (cc), λ ((cv, e, _), _). absurd (cc))
  match_entry_iff (some cv) rv rest = (
    λ h. let (agrees, later) = match_entry_sound cv rv rest h in ((cv, refl, agrees), later),
    λ h. match_entry_complete cv rv rest (agrees_at h.0) h.1,
  )
    where
      agrees_at :
          ((cv' : Value) × (some cv ≡ some cv') × Agrees match_values cv' rv)
          → Agrees match_values cv rv
      agrees_at (cv', e, agrees) = let same : cv ≡ cv' = cc in rw same agrees

  claims_match_sound :
      (caller record' : ClaimMap)
      → claims_match match_values caller record' ≡ true
      → Satisfies (Agrees match_values) caller record'
  unfolding claims_match
  claims_match_sound caller [] h k rv m = elim m [ ]
  claims_match_sound caller ((j, w) ∷ record') h k rv m =
      let valid : is_valid_claim_value w ≡ true = ground arith in
      let step : match_entry match_values (lookup j caller) w
            (claims_match match_values caller record')
          ≡ true =
        ground arith in
      let (here, later) = (match_entry_iff (lookup j caller) w _).0 step in
      elim (cases_cons m) [
        | inl e ↦
            let same_k : k ≡ j = ap (λ p. p.0) e in
            let same_v : rv ≡ w = ap (λ p. p.1) e in
            rw (same_k, same_v) ((is_valid_claim_value_iff w).0 valid, here)
        | inr n ↦ claims_match_sound caller record' later k rv n
      ]

  claims_match_complete :
      (caller record' : ClaimMap)
      → Satisfies (Agrees match_values) caller record'
      → claims_match match_values caller record' ≡ true
  unfolding claims_match
  claims_match_complete caller [] h = refl
  claims_match_complete caller ((j, w) ∷ record') h =
      let (valid, here) = h j w (Memᴰ.head refl) in
      let later = claims_match_complete caller record' (λ k rv m. h k rv (Memᴰ.tail m)) in
      rw ((is_valid_claim_value_iff w).1 valid)
        ((match_entry_iff (lookup j caller) w _).1 (here, later))

module _ (caller record' : ClaimMap) where
  -- A change of the relation, value by value.
  pub Satisfies-map :
      {R S : Value → Value → Type 0}
      → ((cv rv : Value) → R cv rv → S cv rv)
      → Satisfies R caller record'
      → Satisfies S caller record'
  Satisfies-map f h k rv m =
      let (valid, (cv, found, r)) = h k rv m in (valid, (cv, found, f cv rv r))

  -- The write-path rule holds exactly when each entry of the record is a claim value, the caller
  -- has its key, and every string of the entry is one of the caller's at that key.
  pub claims_contain_iff : (claims_contain caller record' ≡ true) ↔ Satisfies Covers caller record'
  unfolding claims_contain
  claims_contain_iff = (
    λ h. Satisfies-map covers (claims_match_sound subset_of caller record' h),
    λ h. claims_match_complete subset_of caller record' (Satisfies-map agrees h),
  )
    where
      covers : (cv rv : Value) → Agrees subset_of cv rv → Covers cv rv
      covers cv rv (inl e) s m = absurd (none_mentioned rv e s m)
      covers cv rv (inr e) s m =
          (mem-to_string_set s cv).0 ((subset_of_iff _ _).0 e s ((mem-to_string_set s rv).1 m))

      agrees : (cv rv : Value) → Covers cv rv → Agrees subset_of cv rv
      agrees cv rv h = inr (
          (subset_of_iff _ _).1
            λ s m. (mem-to_string_set s cv).1 (h s ((mem-to_string_set s rv).0 m)))

  -- The read-path rule holds exactly when each entry of the record is a claim value, the caller
  -- has its key, and the entry names no string or shares one with the caller's value at that key.
  pub claims_visible_iff : (claims_visible caller record' ≡ true) ↔ Satisfies Admits caller record'
  unfolding claims_visible
  claims_visible_iff = (
    λ h. Satisfies-map admits (claims_match_sound overlaps caller record' h),
    λ h. claims_match_complete overlaps caller record' (Satisfies-map agrees h),
  )
    where
      admits : (cv rv : Value) → Agrees overlaps cv rv → Admits cv rv
      admits cv rv (inl e) = inl (none_mentioned rv e)
      admits cv rv (inr e) =
          let (s, m, n) = (overlaps_iff _ _).0 e in
          inr (s, (mem-to_string_set s cv).0 n, (mem-to_string_set s rv).0 m)

      agrees : (cv rv : Value) → Admits cv rv → Agrees overlaps cv rv
      agrees cv rv (inl nobody) =
          inl (empty_of_none (to_string_set rv) λ s m. nobody s ((mem-to_string_set s rv).0 m))
      agrees cv rv (inr (s, m, n)) =
          inr ((overlaps_iff _ _).1 (s, (mem-to_string_set s rv).1 n, (mem-to_string_set s cv).1 m))
