-- ===== src/Filtering/Tags.antt =====
-- internal/filtering/tag_filter.go: inclusion by exact tags, and what it decides.
use mathlib.Core.List.Memᴰ.{cases_cons}
use toolhive_registry_server.Prelude.{
  String, Bool, true, false, not, Option, none, some, List, [], ◌∷◌, ◌≡◌, refl, ◌↔◌, ◌⊎◌, inl, inr,
  Memᴰ, arith, is_empty, ◌==◌, eq_iff, Bool-cases, Option-cases, if◌then◌else◌,
}

-- The texts that go with a decision, with what they name.
pub data TagReason : Type 0 where
  excluded_by_tag included_by_tag : String → TagReason
  no_matching_tags no_matching_exclude : List String → List String → TagReason
  no_tag_filters : TagReason

-- The inner loop: the first filter tag equal to the server's tag.
find_equal : String → List String → Option String
find_equal tag [] = none
find_equal tag (f ∷ fs) = if tag == f then some f else find_equal tag fs

-- The nested loops over the server's tags and a filter's.
find_tag : List String → List String → Option String
unfolding find_equal
find_tag [] wanted = none
find_tag (tag ∷ tags) wanted =
    let rest = find_tag tags wanted in
    elim (find_equal tag wanted) [ none ↦ rest | some f ↦ some f ]

-- What follows the check of the exclude list.
include_tags : List String → List String → List String → Bool × TagReason
include_tags tags include exclude =
    if not (is_empty include)
    then elim (find_tag tags include) [
      | some f ↦ (true, included_by_tag f)
      | none ↦ (false, no_matching_tags include tags)
    ]
    else if not (is_empty exclude)
    then (true, no_matching_exclude exclude tags)
    else (true, no_tag_filters)

unfoldable pub should_include : List String → List String → List String → Bool × TagReason
unfolding find_tag include_tags
should_include tags include exclude =
    let excluded = if is_empty exclude then none else find_tag tags exclude in
    elim excluded [ some f ↦ (false, excluded_by_tag f) | none ↦ include_tags tags include exclude ]

-- The two lists have a tag in common.
abbrev pub Common : List String → List String → Type 0
Common xs ys = (t : String) × Memᴰ t xs × Memᴰ t ys

find_equal_sound :
    (tag : String) (fs : List String) (f : String)
    → find_equal tag fs ≡ some f
    → (tag ≡ f) × Memᴰ tag fs
unfolding find_equal
find_equal_sound tag [] f h = absurd (cc)
find_equal_sound tag (g ∷ gs) f h = elim (Bool-cases (tag == g)) [
  | inl e ↦
      let same = (eq_iff tag g).0 e in
      let found : g ≡ f = ground arith in (rw same found, Memᴰ.head same)
  | inr e ↦ let (same, m) = find_equal_sound tag gs f (ground arith) in (same, Memᴰ.tail m)
]

find_equal-none : (tag : String) (fs : List String) → find_equal tag fs ≡ none → ¬ Memᴰ tag fs
unfolding find_equal
find_equal-none tag [] h m = elim m [ ]
find_equal-none tag (g ∷ gs) h m = elim (Bool-cases (tag == g)) [
  | inl e ↦ ground arith
  | inr e ↦ elim (cases_cons m) [
    | inl same ↦ let back = (eq_iff tag g).1 same in cc
    | inr k ↦ find_equal-none tag gs (ground arith) k
  ]
]

find_tag_sound :
    (tags wanted : List String) (f : String)
    → find_tag tags wanted ≡ some f
    → Memᴰ f tags × Memᴰ f wanted
unfolding find_tag
find_tag_sound [] wanted f h = absurd (cc)
find_tag_sound (tag ∷ tags) wanted f h = elim (Option-cases (find_equal tag wanted)) [
  | inl e ↦ let (m, n) = find_tag_sound tags wanted f (rw (e, find_tag) at h) in (Memᴰ.tail m, n)
  | inr (g, e) ↦
      let (same, m) = find_equal_sound tag wanted g e in
      let found : g ≡ f = some_eq g f (rw (e, find_tag) at h) in
      let tag_is : tag ≡ f = rw same found in (rw (← tag_is) (Memᴰ.head refl), rw (← tag_is) m)
]
  where
    some_eq : (a b : String) → some a ≡ some b → a ≡ b
    some_eq a b e = cc

find_tag-none : (tags wanted : List String) → find_tag tags wanted ≡ none → ¬ Common tags wanted
unfolding find_tag
find_tag-none [] wanted h (t, m, n) = elim m [ ]
find_tag-none (tag ∷ tags) wanted h (t, m, n) = elim (Option-cases (find_equal tag wanted)) [
  | inl e ↦ elim (cases_cons m) [
    | inl same ↦ find_equal-none tag wanted e (rw (← same) n)
    | inr k ↦ find_tag-none tags wanted (rw (e, find_tag) at h) (t, k, n)
  ]
  | inr (g, e) ↦ let bad : some g ≡ none = rw (e, find_tag) at h in cc
]

-- The loops find a tag or there is none to find.
find_tag-cases :
    (tags wanted : List String)
    → ((f : String) × (find_tag tags wanted ≡ some f) × Common tags wanted)
      ⊎ ((find_tag tags wanted ≡ none) × (¬ Common tags wanted))
find_tag-cases tags wanted = elim (Option-cases (find_tag tags wanted)) [
  | inl e ↦ inr (e, find_tag-none tags wanted e)
  | inr (f, e) ↦ let (m, n) = find_tag_sound tags wanted f e in inl (f, e, (f, m, n))
]

-- No common tag with the exclude list, and one with the include list if that list has any.
abbrev pub TagsPass : List String → List String → List String → Type 0
TagsPass tags include exclude = (¬ Common tags exclude) × ((include ≡ []) ⊎ Common tags include)

include_tags_iff :
    (tags include exclude : List String)
    → ((include_tags tags include exclude).0 ≡ true) ↔ ((include ≡ []) ⊎ Common tags include)
unfolding include_tags
include_tags_iff tags [] exclude = (λ _. inl refl, λ _. ground arith)
include_tags_iff tags (i ∷ is) exclude = elim (find_tag-cases tags (i ∷ is)) [
  | inl (f, e, c) ↦ (λ _. inr c, λ _. ground arith)
  | inr (e, n) ↦ (λ h. absurd (ground arith), elim [ inl p ↦ absurd (cc) | inr c ↦ absurd (n c) ])
]

-- A server passes the tag filter exactly when it has no excluded tag and, if the include list has
-- tags, one of these. The exclude list takes precedence.
pub tags_should_include_iff :
    (tags include exclude : List String)
    → ((should_include tags include exclude).0 ≡ true) ↔ TagsPass tags include exclude
unfolding should_include
tags_should_include_iff tags include [] =
    let (to, from) = include_tags_iff tags include [] in
    (λ h. ((λ (t, m, n). elim n [ ]), to h), λ p. from p.1)
tags_should_include_iff tags include (x ∷ xs) = elim (find_tag-cases tags (x ∷ xs)) [
  | inl (f, e, c) ↦ (λ h. absurd (ground arith), λ p. absurd (p.0 c))
  | inr (e, n) ↦
      let (to, from) = include_tags_iff tags include (x ∷ xs) in
      (λ h. (n, to (rw (e, should_include) at h)), λ p. rw (e, should_include) (from p.1))
]
