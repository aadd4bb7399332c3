-- ===== src/Claims/Stored/Decoding.antt =====
-- A caller's claims after they have been through JSON decide as before.
use mathlib.Core.Option
use mathlib.Core.List.Memᴰ.{cases_cons}
use toolhive_registry_server.Prelude.{
  String, true, some, List, [], ◌∷◌, ◌≡◌, sym, ap, ◌∙◌, ◌↔◌, inl, inr, Memᴰ, lookup,
}
use toolhive_registry_server.Value.{Value, str, strs, arr, Values, nil, cons, values, ClaimMap}
use toolhive_registry_server.Value.Strings.{Mentions}
use toolhive_registry_server.Claims.{claims_visible}
use toolhive_registry_server.Claims.Rules.{Admits, claims_visible_iff}
use toolhive_registry_server.Claims.Json.{Decodes, decoded, decoded_values, as_values}

mem-as_values : (s : String) (l : List String) → Memᴰ (str s) (values (as_values l)) ↔ Memᴰ s l
mem-as_values s [] = (λ m. elim m [ ], λ m. elim m [ ])
mem-as_values s (t ∷ ts) =
    let (to, from) = mem-as_values s ts in
    (
      λ m. elim (cases_cons m) [ inl e ↦ Memᴰ.head (inj e) | inr k ↦ Memᴰ.tail (to k) ],
      λ m. elim (cases_cons m) [ inl e ↦ Memᴰ.head (ap str e) | inr k ↦ Memᴰ.tail (from k) ],
    )
  where
    inj : str s ≡ str t → s ≡ t
    inj e = cc

-- A value decodes to a string exactly when it is that string.
decoded-str : (s : String) (v : Value) → (str s ≡ decoded v) ↔ (str s ≡ v)
unfolding decoded
decoded-str s (str t) = (λ e. e, λ e. e)
decoded-str s v = (λ e. absurd (cc), λ e. absurd (cc))

mem-decoded_values :
    (s : String) (vs : Values)
    → Memᴰ (str s) (values (decoded_values vs)) ↔ Memᴰ (str s) (values vs)
unfolding decoded
mem-decoded_values s nil = (λ m. m, λ m. m)
mem-decoded_values s (cons v vs) =
    let (to, from) = mem-decoded_values s vs in
    (
      λ m. elim (cases_cons m) [
        | inl e ↦ Memᴰ.head ((decoded-str s v).0 e)
        | inr k ↦ Memᴰ.tail (to k)
      ],
      λ m. elim (cases_cons m) [
        | inl e ↦ Memᴰ.head ((decoded-str s v).1 e)
        | inr k ↦ Memᴰ.tail (from k)
      ],
    )

-- A value mentions the same strings after it has been through JSON.
Mentions-decoded : (s : String) (v : Value) → Mentions s (decoded v) ↔ Mentions s v
unfolding decoded
Mentions-decoded s (strs l) = mem-as_values s l
Mentions-decoded s (arr vs) = mem-decoded_values s vs
Mentions-decoded s (str t) = (λ e. e, λ e. e)
Mentions-decoded s v = (absurd, absurd)

module _ (caller caller' record' : ClaimMap) (d : Decodes caller caller') where
  decode_caller :
      (k : String) (rv : Value)
      → ((cv : Value) × (lookup k caller ≡ some cv) × Admits cv rv)
      → (cv : Value) × (lookup k caller' ≡ some cv) × Admits cv rv
  decode_caller k rv (cv, found, admits) = (
    decoded cv,
    d.at_key k ∙ ap (Option.map decoded) found,
    elim admits [
      | inl nobody ↦ inl nobody
      | inr (s, in_caller, in_record) ↦ inr (s, (Mentions-decoded s cv).1 in_caller, in_record)
    ],
  )

  encode_caller :
      (k : String) (rv : Value)
      → ((cv : Value) × (lookup k caller' ≡ some cv) × Admits cv rv)
      → (cv : Value) × (lookup k caller ≡ some cv) × Admits cv rv
  encode_caller k rv (cv', found, admits) =
      let (cv, at_k, same) = (Option.map-eq-some_iff _ _).0 (sym (d.at_key k) ∙ found) in
      (
        cv,
        at_k,
        elim admits [
          | inl nobody ↦ inl nobody
          | inr (s, in_caller, in_record) ↦
              inr (s, (Mentions-decoded s cv).0 (rw same in_caller), in_record)
        ],
      )

  -- A caller sees the same claims whether its own have been through JSON or not.
  pub visible_decoded_iff :
      (claims_visible caller' record' ≡ true) ↔ (claims_visible caller record' ≡ true)
  visible_decoded_iff = (
    λ h. (claims_visible_iff caller record').1 λ k rv m.
        let (valid, rest) = (claims_visible_iff caller' record').0 h k rv m in
        (valid, encode_caller k rv rest),
    λ h. (claims_visible_iff caller' record').1 λ k rv m.
        let (valid, rest) = (claims_visible_iff caller record').0 h k rv m in
        (valid, decode_caller k rv rest),
  )
