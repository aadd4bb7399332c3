-- ===== src/Catalog/Rows.antt =====
-- Lookups after a row was added, replaced or removed.
use toolhive_registry_server.Prelude.{
  ◌≡◌, ◌≢◌, refl, ◌⊎◌, inl, inr, String, false, none, some, [], ◌∷◌, Dict, lookup, ◌==◌, eq_iff,
  eq_refl, Bool-cases,
}
use toolhive_registry_server.Catalog.{remove, replace}

pub name_split : (n name : String) → (n ≡ name) ⊎ (n ≢ name)
name_split n name = elim (Bool-cases (n == name)) [
  | inl e ↦ inl ((eq_iff n name).0 e)
  | inr e ↦ inr (λ same. let t = (eq_iff n name).1 same in cc)
]

differ : (name n : String) → n ≢ name → (name == n) ≡ false
differ name n ne = elim (Bool-cases (name == n)) [
  | inl e ↦ absurd (ne (let same = (eq_iff name n).0 e in cc))
  | inr e ↦ e
]

module _ {V : Type 0} (name : String) where
  pub lookup-added : (v : V) (rows : Dict V) → lookup name ((name, v) ∷ rows) ≡ some v
  unfolding lookup
  lookup-added v rows = rw (eq_refl name) refl

  pub lookup-added_other :
      (n : String) (v : V) (rows : Dict V) → n ≢ name → lookup n ((name, v) ∷ rows) ≡ lookup n rows
  unfolding lookup
  lookup-added_other n v rows ne = rw (differ name n ne) refl

  pub lookup-remove : (rows : Dict V) → lookup name (remove name rows) ≡ none
  unfolding lookup
  lookup-remove [] = refl
  lookup-remove ((j, w) ∷ rows) = elim (Bool-cases (j == name)) [
    | inl e ↦ rw e (lookup-remove rows)
    | inr e ↦ rw e (rw e (lookup-remove rows))
  ]

  pub lookup-remove_other :
      (n : String) (rows : Dict V) → n ≢ name → lookup n (remove name rows) ≡ lookup n rows
  unfolding lookup
  lookup-remove_other n [] ne = refl
  lookup-remove_other n ((j, w) ∷ rows) ne = elim (Bool-cases (j == name)) [
    | inl e ↦
        let off : (j == n) ≡ false = rw ((eq_iff j name).0 e) (differ name n ne) in
        rw e (rw off (lookup-remove_other n rows ne))
    | inr e ↦ elim (Bool-cases (j == n)) [
      | inl f ↦ rw e (rw f refl)
      | inr f ↦ rw e (rw f (lookup-remove_other n rows ne))
    ]
  ]

  pub lookup-replace :
      (v w : V) (rows : Dict V)
      → lookup name rows ≡ some w
      → lookup name (replace name v rows) ≡ some v
  unfolding lookup
  lookup-replace v w [] h = absurd (let k : none ≡ some w = h in cc)
  lookup-replace v w ((j, u) ∷ rows) h = elim (Bool-cases (j == name)) [
    | inl e ↦ rw e (rw (eq_refl name) refl)
    | inr e ↦ rw e (rw e (lookup-replace v w rows (rw e at h)))
  ]

  pub lookup-replace_other :
      (n : String) (v : V) (rows : Dict V)
      → n ≢ name
      → lookup n (replace name v rows) ≡ lookup n rows
  unfolding lookup
  lookup-replace_other n v [] ne = refl
  lookup-replace_other n v ((j, u) ∷ rows) ne = elim (Bool-cases (j == name)) [
    | inl e ↦
        let off : (j == n) ≡ false = rw ((eq_iff j name).0 e) (differ name n ne) in
        rw e (rw (differ name n ne) (rw off (lookup-replace_other n v rows ne)))
    | inr e ↦ elim (Bool-cases (j == n)) [
      | inl f ↦ rw e (rw f refl)
      | inr f ↦ rw e (rw f (lookup-replace_other n v rows ne))
    ]
  ]
