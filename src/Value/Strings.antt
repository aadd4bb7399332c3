-- ===== src/Value/Strings.antt =====
-- The strings that a claim value stands for, stated without the two conversions.
use mathlib.Core.List.Memᴰ.{cases_cons}
use toolhive_registry_server.Prelude.{
  String, List, [], ◌∷◌, ◌≡◌, ◌≢◌, refl, ap, ◌↔◌, ◌⊎◌, inl, inr, Memᴰ, contains, contains_iff,
  Bool-cases,
}
use toolhive_registry_server.Value.{
  Value, null, boolean, number, str, strs, arr, obj, values, push_string, push_strings,
  to_string_slice, insert_str, add_strs, add_value, add_values, to_string_set,
}

-- The value is the string, or a list in which the string stands.
abbrev pub Mentions : String → Value → Type 0
Mentions s (str t) = s ≡ t
Mentions s (strs l) = Memᴰ s l
Mentions s (arr vs) = Memᴰ (str s) (values vs)
Mentions s _ = ⊥

-- A value is a string or differs from every string.
str-cases : (v : Value) → ((s : String) × (v ≡ str s)) ⊎ ((s : String) → str s ≢ v)
str-cases (str s) = inl (s, refl)
str-cases null = inr (λ s e. cc)
str-cases (boolean _) = inr (λ s e. cc)
str-cases (number _) = inr (λ s e. cc)
str-cases (strs _) = inr (λ s e. cc)
str-cases (arr _) = inr (λ s e. cc)
str-cases (obj _) = inr (λ s e. cc)

str-injective : (s t : String) → str s ≡ str t → s ≡ t
str-injective s t h = cc

module _ (t : String) where
  mem-push_string :
      (v : Value) (rest : List String) → Memᴰ t (push_string v rest) ↔ ((str t ≡ v) ⊎ Memᴰ t rest)
  unfolding push_string
  mem-push_string (str s) rest = (
    λ m. elim (cases_cons m) [ inl e ↦ inl (ap str e) | inr k ↦ inr k ],
    elim [ inl e ↦ Memᴰ.head (str-injective t s e) | inr k ↦ Memᴰ.tail k ],
  )
  mem-push_string v rest = (inr, elim [ inl e ↦ absurd (cc) | inr k ↦ k ])

  mem-push_strings : (vs : List Value) → Memᴰ t (push_strings vs) ↔ Memᴰ (str t) vs
  unfolding push_strings
  mem-push_strings [] = (λ m. elim m [ ], λ m. elim m [ ])
  mem-push_strings (v ∷ vs) =
      let (to, from) = mem-push_strings vs in
      let (open_up, close) = mem-push_string v (push_strings vs) in
      (
        λ m. elim (open_up m) [ inl e ↦ Memᴰ.head e | inr k ↦ Memᴰ.tail (to k) ],
        λ m. close (elim (cases_cons m) [ inl e ↦ inl e | inr k ↦ inr (from k) ]),
      )

  mem-insert_str :
      (s : String) (set : List String) → Memᴰ t (insert_str s set) ↔ ((t ≡ s) ⊎ Memᴰ t set)
  unfolding insert_str
  mem-insert_str s set = elim (Bool-cases (contains s set)) [
    | inl here ↦ rw here (inr, elim [ inl e ↦ rw e ((contains_iff s set).0 here) | inr k ↦ k ])
    | inr new ↦ rw new (cases_cons, elim [ inl e ↦ Memᴰ.head e | inr k ↦ Memᴰ.tail k ])
  ]

  mem-add_strs : (set ss : List String) → Memᴰ t (add_strs set ss) ↔ (Memᴰ t set ⊎ Memᴰ t ss)
  unfolding add_strs
  mem-add_strs set [] = (inl, elim [ inl k ↦ k | inr k ↦ elim k [ ] ])
  mem-add_strs set (s ∷ ss) =
      let (to, from) = mem-add_strs (insert_str s set) ss in
      let (open_up, close) = mem-insert_str s set in
      (
        λ m. elim (to m) [
          | inl k ↦ elim (open_up k) [ inl e ↦ inr (Memᴰ.head e) | inr old ↦ inl old ]
          | inr k ↦ inr (Memᴰ.tail k)
        ],
        elim [
          | inl k ↦ from (inl (close (inr k)))
          | inr m ↦ elim (cases_cons m) [
            | inl e ↦ from (inl (close (inl e)))
            | inr k ↦ from (inr k)
          ]
        ],
      )

  mem-add_value :
      (set : List String) (v : Value) → Memᴰ t (add_value set v) ↔ ((str t ≡ v) ⊎ Memᴰ t set)
  unfolding add_value
  mem-add_value set (str s) =
      let (to, from) = mem-insert_str s set in
      (
        λ m. elim (to m) [ inl e ↦ inl (ap str e) | inr k ↦ inr k ],
        elim [ inl e ↦ from (inl (str-injective t s e)) | inr k ↦ from (inr k) ],
      )
  mem-add_value set v = (inr, elim [ inl e ↦ absurd (cc) | inr k ↦ k ])

  mem-add_values :
      (set : List String) (vs : List Value)
      → Memᴰ t (add_values set vs) ↔ (Memᴰ t set ⊎ Memᴰ (str t) vs)
  unfolding add_values
  mem-add_values set [] = (inl, elim [ inl k ↦ k | inr k ↦ elim k [ ] ])
  mem-add_values set (v ∷ vs) =
      let (to, from) = mem-add_values (add_value set v) vs in
      let (open_up, close) = mem-add_value set v in
      (
        λ m. elim (to m) [
          | inl k ↦ elim (open_up k) [ inl e ↦ inr (Memᴰ.head e) | inr old ↦ inl old ]
          | inr k ↦ inr (Memᴰ.tail k)
        ],
        elim [
          | inl k ↦ from (inl (close (inr k)))
          | inr m ↦ elim (cases_cons m) [
            | inl e ↦ from (inl (close (inl e)))
            | inr k ↦ from (inr k)
          ]
        ],
      )

-- The slice of a value holds exactly the strings that the value mentions.
pub mem-to_string_slice : (t : String) (v : Value) → Memᴰ t (to_string_slice v) ↔ Mentions t v
unfolding to_string_slice
mem-to_string_slice t (str s) =
    (λ m. elim (cases_cons m) [ inl e ↦ e | inr k ↦ elim k [ ] ], Memᴰ.head)
mem-to_string_slice t (strs l) = (λ m. m, λ m. m)
mem-to_string_slice t (arr vs) = mem-push_strings t (values vs)
mem-to_string_slice t v = (λ m. elim m [ ], absurd)

-- So does its set.
pub mem-to_string_set : (t : String) (v : Value) → Memᴰ t (to_string_set v) ↔ Mentions t v
unfolding to_string_set
mem-to_string_set t (str s) =
    (λ m. elim (cases_cons m) [ inl e ↦ e | inr k ↦ elim k [ ] ], Memᴰ.head)
mem-to_string_set t (strs l) =
    let (to, from) = mem-add_strs t [] l in
    (λ m. elim (to m) [ inl k ↦ elim k [ ] | inr k ↦ k ], λ m. from (inr m))
mem-to_string_set t (arr vs) =
    let (to, from) = mem-add_values t [] (values vs) in
    (λ m. elim (to m) [ inl k ↦ elim k [ ] | inr k ↦ k ], λ m. from (inr m))
mem-to_string_set t v = (λ m. elim m [ ], absurd)
