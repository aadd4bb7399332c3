-- ===== src/Prelude/Lists.antt =====
-- Lists measured by native numbers, Boolean loops over lists, and predicates on all items.
use Prim.Native.Nat.{ℕ, suc, ◌+◌}
use Prim.Native.String.{String}
use mathlib.Core.Path.{◌≡◌, refl}
use mathlib.Core.Logic.{◌↔◌, inl, inr}
use mathlib.Core.Bool.{Bool, true, false, ◌&&◌, ◌||◌}
use mathlib.Core.List.{List, [], ◌∷◌, ◌++◌, Memᴰ}
use mathlib.Core.List.Memᴰ.{cases_cons}
use native.Mathlib.Omega.{arith}
use text.Mathlib.Text.{◌==◌}
use text.Mathlib.TextEquality.{eq_iff}
use toolhive_registry_server.Prelude.Tests.{Bool-cases, if◌then◌else◌}

module _ {ℓ} {A : Type ℓ} where
  abbrev pub length : List A → ℕ
  length [] = 0
  length (x ∷ xs) = suc (length xs)

  -- `len(xs) == 0` of the source.
  abbrev pub is_empty : List A → Bool
  is_empty [] = true
  is_empty (_ ∷ _) = false

  -- A loop that returns at the first item which passes the test.
  abbrev pub any : (A → Bool) → List A → Bool
  any p [] = false
  any p (x ∷ xs) = p x || any p xs

  -- A loop that returns at the first item which fails the test.
  abbrev pub all : (A → Bool) → List A → Bool
  all p [] = true
  all p (x ∷ xs) = p x && all p xs

  pub length-append : (xs ys : List A) → length (xs ++ ys) ≡ length xs + length ys
  length-append [] ys = omega arith
  length-append (x ∷ xs) ys = omega (arith, length-append xs ys)

  pub any-intro : (p : A → Bool) {x : A} (xs : List A) → Memᴰ x xs → p x ≡ true → any p xs ≡ true
  any-intro p [] m h = elim m [ ]
  any-intro p (y ∷ ys) (Memᴰ.head e) h = let k : p y ≡ true = rw (← e) h in rw k
  any-intro p (y ∷ ys) (Memᴰ.tail m) h = ground (arith, any-intro p ys m h)

  pub any-elim : (p : A → Bool) (xs : List A) → any p xs ≡ true → (x : A) × Memᴰ x xs × (p x ≡ true)
  any-elim p [] h = absurd (cc)
  any-elim p (y ∷ ys) h = elim (Bool-cases (p y)) [
    | inl e ↦ (y, Memᴰ.head refl, e)
    | inr e ↦ let (x, m, k) = any-elim p ys (rw e at h) in (x, Memᴰ.tail m, k)
  ]

module _ {ℓ κ} {A : Type ℓ} (P : A → Type κ) where
  abbrev pub All : List A → Type κ
  All [] = Unit
  All (x ∷ xs) = P x × All xs

  pub All-mem : {x : A} (xs : List A) → All xs → Memᴰ x xs → P x
  All-mem [] h m = elim m [ ]
  All-mem (y ∷ ys) (p, h) (Memᴰ.head e) = rw e p
  All-mem (y ∷ ys) (p, h) (Memᴰ.tail m) = All-mem ys h m

  pub All-tabulate : (xs : List A) → ((x : A) → Memᴰ x xs → P x) → All xs
  All-tabulate [] f = tt
  All-tabulate (y ∷ ys) f = (f y (Memᴰ.head refl), All-tabulate ys (λ x m. f x (Memᴰ.tail m)))

module _ {ℓ} {A : Type ℓ} where
  pub all_iff : (p : A → Bool) (xs : List A) → (all p xs ≡ true) ↔ All (λ x. p x ≡ true) xs
  all_iff p [] = (λ _. tt, λ _. refl)
  all_iff p (y ∷ ys) =
      let (to, from) = all_iff p ys in
      (λ h. (ground arith, to (ground arith)), λ h. rw h.0 (from h.1))

-- Membership in a `[]string`, or in a `map[string]struct{}` as the list of its keys.
unfoldable pub contains : String → List String → Bool
contains s [] = false
contains s (t ∷ ts) = s == t || contains s ts

pub contains_iff : (s : String) (xs : List String) → (contains s xs ≡ true) ↔ Memᴰ s xs
unfolding contains
contains_iff s [] = (λ h. absurd (cc), λ m. elim m [ ])
contains_iff s (t ∷ ts) = (
  λ h. elim (Bool-cases (s == t)) [
    | inl e ↦ Memᴰ.head ((eq_iff s t).0 e)
    | inr e ↦ Memᴰ.tail ((contains_iff s ts).0 (rw e at h))
  ],
  λ m. elim (cases_cons m) [
    | inl e ↦ rw ((eq_iff s t).1 e)
    | inr k ↦ ground (arith, (contains_iff s ts).1 k)
  ],
)

-- The appends of a loop over a list, one part for each item.
abbrev pub flat_map {ℓ κ} : {A : Type ℓ} {B : Type κ} → (A → List B) → List A → List B
flat_map f [] = []
flat_map f (x ∷ xs) = f x ++ flat_map f xs

module _ {ℓ} {A : Type ℓ} (p : A → Bool) where
  -- The items that pass a test, in their order.
  abbrev pub keep : List A → List A
  keep [] = []
  keep (x ∷ xs) = if p x then x ∷ keep xs else keep xs

  pub mem-keep : {x : A} (xs : List A) → Memᴰ x (keep xs) ↔ (Memᴰ x xs × (p x ≡ true))
  mem-keep [] = (λ m. elim m [ ], λ m. elim m.0 [ ])
  mem-keep (y ∷ ys) = elim (Bool-cases (p y)) [
    | inl e ↦ rw e (
      λ m. elim (cases_cons m) [
        | inl same ↦ (Memᴰ.head same, rw same e)
        | inr k ↦ let (n, h) = (mem-keep ys).0 k in (Memᴰ.tail n, h)
      ],
      λ (m, h). elim (cases_cons m) [
        | inl same ↦ Memᴰ.head same
        | inr k ↦ Memᴰ.tail ((mem-keep ys).1 (k, h))
      ],
    )
    | inr e ↦ rw e (
      λ k. let (n, h) = (mem-keep ys).0 k in (Memᴰ.tail n, h),
      λ (m, h). elim (cases_cons m) [
        | inl same ↦ let clash : p y ≡ true = rw (← same) h in absurd (cc)
        | inr k ↦ (mem-keep ys).1 (k, h)
      ],
    )
  ]
