-- ===== src/Claims/Stored/Agreement.antt =====
-- The filter of the list endpoints and the gate of a single resource, side by side: where they
-- agree on a stored row, and where they do not.
use toolhive_registry_server.Prelude.{
  ◌<◌, String, Bool, true, false, Option, none, some, [], ◌∷◌, ◌≡◌, ◌≢◌, refl, sym, ap, ◌∙◌, ◌↔◌,
  inl, inr, Memᴰ, arith, Outcome, ok, lookup, beq, is_empty, Bool-cases, Option-cases,
  if◌then◌else◌,
}
use toolhive_registry_server.Value.{Value, ClaimMap}
use toolhive_registry_server.Auth.{Ctx, is_super_admin}
use toolhive_registry_server.Claims.{claims_visible}
use toolhive_registry_server.Claims.Rules.{Admits, Satisfies, claims_visible_iff}
use toolhive_registry_server.Claims.Json.{
  Json, Decodes, decoded, entries_of, serialize_claims, deserialize_claims,
}
use toolhive_registry_server.Claims.Gate.{validate_claims_visible, validate_claims_visible_iff}
use toolhive_registry_server.Claims.Stored.{
  FilterError, validate_claims_visible_bytes, marshal_claims, check_claims, see_decoded,
  keep_record, new_claims_filter_with,
}
use toolhive_registry_server.Claims.Stored.Decoding.{visible_decoded_iff}

ok-injective : (a b : Bool) → ◌≡◌ {A = Outcome FilterError Bool} (ok a) (ok b) → a ≡ b
ok-injective a b h = cc

-- A caller without entries sees no labelled record.
nothing_seen : (r : ClaimMap) → r ≢ [] → ¬ Satisfies Admits [] r
unfolding lookup
nothing_seen [] ne sees = ne refl
nothing_seen ((k, v) ∷ r) ne sees = let (_, (cv, found, _)) = sees k v (Memᴰ.head refl) in cc

module _ (json : Json) where
  open json use {Bytes, len, nil_bytes, marshal, unmarshal, len_nil, len_marshal}

  -- Whether the list endpoint shows a stored row with these claims.
  unfoldable pub listed : Ctx → Option ClaimMap → Bytes → Outcome FilterError Bool
  listed ctx caller stored = elim (new_claims_filter_with json ctx caller some) [
    | none ↦ ok true
    | some filter ↦ filter stored
  ]

  -- How a stored row reads: no claims, or claims that are not empty.
  data Reads (stored : Bytes) : Type 0 where
    no_claims : len stored ≡ 0 → Reads stored
    some_claims :
        (m : ClaimMap) → m ≢ [] → 0 < len stored → unmarshal stored ≡ some (some m) → Reads stored

  Decodes-ne-nil : (m m' : ClaimMap) → m ≢ [] → Decodes m m' → m' ≢ []
  Decodes-ne-nil [] m' ne d e = ne refl
  Decodes-ne-nil ((k, v) ∷ m) m' ne d e =
      let inside = (d.entries k (decoded v)).1 (v, Memᴰ.head refl, refl) in
      not_in_nil (rw e at inside)
    where
      not_in_nil : ¬ Memᴰ {A = String × Value} (k, decoded v) []
      not_in_nil n = elim n [ ]

  serialized-Reads : (claims : Option ClaimMap) → Reads (serialize_claims json claims)
  unfolding serialize_claims
  serialized-Reads claims = by_entries (entries_of claims)
    where
      by_entries :
          (m : ClaimMap)
          → Reads
              (if is_empty m then nil_bytes else elim (marshal m) [ none ↦ nil_bytes | some b ↦ b ])
      by_entries [] = no_claims len_nil
      by_entries (e ∷ es) = elim (Option-cases (marshal (e ∷ es))) [
        | inl failed ↦ rw failed (no_claims len_nil)
        | inr (b, made) ↦
            let (m', read, d) = json.unmarshal-marshal (e ∷ es) b made in
            rw made (
              some_claims m' (Decodes-ne-nil (e ∷ es) m' (λ p. cc) d) (len_marshal (e ∷ es) b made)
                read)
      ]

  gate_reads :
      (ctx : Ctx) (caller : ClaimMap) (stored : Bytes) (m : ClaimMap)
      → 0 < len stored
      → unmarshal stored ≡ some (some m)
      → validate_claims_visible_bytes json ctx (some caller) stored
        ≡ validate_claims_visible ctx (some caller) (some m)
  unfolding validate_claims_visible_bytes deserialize_claims
  gate_reads ctx caller stored m pos read =
      let filled : beq (len stored) 0 ≡ false = ground arith in rw filled (rw read refl)

  check_reads :
      (cb stored : Bytes) (caller m : ClaimMap)
      → 0 < len cb
      → 0 < len stored
      → unmarshal cb ≡ some (some caller)
      → unmarshal stored ≡ some (some m)
      → check_claims json cb stored ≡ claims_visible caller m
  unfolding check_claims see_decoded
  check_reads cb stored caller m p q read_caller read =
      let filled_caller : beq (len cb) 0 ≡ false = ground arith in
      let filled : beq (len stored) 0 ≡ false = ground arith in
      rw filled_caller (rw filled (rw read_caller (rw read refl)))

  check_empty : (cb stored : Bytes) → len stored ≡ 0 → check_claims json cb stored ≡ false
  unfolding check_claims
  check_empty cb stored empty = ground arith

  module _ (ctx : Ctx) (not_super : is_super_admin ctx ≡ false) where
    listed_checks :
        (caller : ClaimMap) (cb : Bytes) (stored : Bytes)
        → caller ≢ []
        → marshal caller ≡ some cb
        → listed ctx (some caller) stored ≡ ok (check_claims json cb stored)
    unfolding listed new_claims_filter_with marshal_claims keep_record
    listed_checks [] cb stored ne made = absurd (ne refl)
    listed_checks (e ∷ es) cb stored ne made = rw made (rw not_super refl)

    gate_unlabelled :
        (caller : ClaimMap) (stored : Bytes)
        → len stored ≡ 0
        → validate_claims_visible_bytes json ctx (some caller) stored ≢ ok tt
    unfolding validate_claims_visible_bytes deserialize_claims
    gate_unlabelled caller stored empty h =
        let passed : validate_claims_visible ctx (some caller) none ≡ ok tt = rw empty at h in
        elim ((validate_claims_visible_iff ctx (some caller) none).0 passed) [
          | inl super ↦ cc
          | inr p ↦ p.0 refl
        ]

    gate_labelled :
        (caller : ClaimMap) (stored : Bytes) (m : ClaimMap)
        → m ≢ []
        → 0 < len stored
        → unmarshal stored ≡ some (some m)
        → (validate_claims_visible_bytes json ctx (some caller) stored ≡ ok tt)
          ↔ (claims_visible caller m ≡ true)
    gate_labelled caller stored m ne pos read =
        let (to, from) = validate_claims_visible_iff ctx (some caller) (some m) in
        let (see, seen) = claims_visible_iff caller m in
        let same = gate_reads ctx caller stored m pos read in
        (
          λ h. seen (elim (to (sym same ∙ h)) [ inl super ↦ absurd (cc) | inr p ↦ p.1 ]),
          λ h. same ∙ from (inr (ne, see h)),
        )

    agree_as_read :
        (caller : ClaimMap) (cb stored : Bytes)
        → caller ≢ []
        → marshal caller ≡ some cb
        → Reads stored
        → (listed ctx (some caller) stored ≡ ok true)
          ↔ (validate_claims_visible_bytes json ctx (some caller) stored ≡ ok tt)
    agree_as_read caller cb stored ne made (no_claims empty) = (
      λ h.
          let shown = sym (listed_checks caller cb stored ne made) ∙ h in
          absurd (let no_match = check_empty cb stored empty in cc (shown, no_match)),
      λ h. absurd (gate_unlabelled caller stored empty h),
    )
    agree_as_read caller cb stored ne made (some_claims m filled pos read) =
        let (caller', read_caller, d) = json.unmarshal-marshal caller cb made in
        let checks =
          check_reads cb stored caller' m (len_marshal caller cb made) pos read_caller read in
        let shows = listed_checks caller cb stored ne made in
        let (to_gate, from_gate) = gate_labelled caller stored m filled pos read in
        let (to_plain, from_plain) = visible_decoded_iff caller caller' m d in
        (
          λ h. from_gate (to_plain (sym checks ∙ ok-injective _ _ (sym shows ∙ h))),
          λ h. shows ∙ ap ok (checks ∙ from_plain (to_gate h)),
        )

  listed_of_super :
      (ctx : Ctx) (caller : Option ClaimMap) (stored : Bytes)
      → is_super_admin ctx ≡ true
      → listed ctx caller stored ≡ ok true
  unfolding listed new_claims_filter_with
  listed_of_super ctx caller stored super = elim (Option-cases (marshal_claims json caller)) [
    | inl e ↦ rw (e, listed, new_claims_filter_with) refl
    | inr (b, e) ↦ rw (e, listed, new_claims_filter_with) (rw super refl)
  ]

  gate_of_super :
      (ctx : Ctx) (caller : ClaimMap) (stored : Bytes)
      → is_super_admin ctx ≡ true
      → validate_claims_visible_bytes json ctx (some caller) stored ≡ ok tt
  unfolding validate_claims_visible_bytes
  gate_of_super ctx caller stored super =
      (validate_claims_visible_iff ctx (some caller) (deserialize_claims json stored)).1 (inl super)

  -- On a row whose claims `SerializeClaims` wrote, the list filter shows the row to a caller with
  -- claims, which marshal, exactly when the gate lets the caller use it.
  pub listed_iff_gate :
      (ctx : Ctx) (caller : ClaimMap) (cb : Bytes) (claims : Option ClaimMap)
      → caller ≢ []
      → marshal caller ≡ some cb
      → (listed ctx (some caller) (serialize_claims json claims) ≡ ok true) ↔ (
          validate_claims_visible_bytes json ctx (some caller) (serialize_claims json claims)
          ≡ ok tt)
  listed_iff_gate ctx caller cb claims ne made = elim (Bool-cases (is_super_admin ctx)) [
    | inl super ↦ (λ _. gate_of_super ctx caller _ super, λ _. listed_of_super ctx _ _ super)
    | inr plain ↦
        agree_as_read ctx plain caller cb (serialize_claims json claims) ne made
          (serialized-Reads claims)
  ]

  -- A caller whose claims are present and empty is shown every row by the list filter, and is
  -- refused every row by the gate, unless it is a super-admin.
  pub empty_caller_disagrees :
      (ctx : Ctx) (stored : Bytes)
      → is_super_admin ctx ≡ false
      → (listed ctx (some []) stored ≡ ok true)
        × (validate_claims_visible_bytes json ctx (some []) stored ≢ ok tt)
  unfolding listed new_claims_filter_with marshal_claims validate_claims_visible_bytes
  empty_caller_disagrees ctx stored plain = (
    refl,
    λ h. elim ((validate_claims_visible_iff ctx (some []) (deserialize_claims json stored)).0 h) [
      | inl super ↦ cc
      | inr (ne, sees) ↦ nothing_seen (entries_of (deserialize_claims json stored)) ne sees
    ],
  )

  -- A row that stores the empty JSON object is shown by the list filter to every caller with
  -- claims, which marshal, and is refused by the gate, unless the caller is a super-admin.
  pub empty_object_disagrees :
      (ctx : Ctx) (caller : ClaimMap) (cb stored : Bytes)
      → is_super_admin ctx ≡ false
      → caller ≢ []
      → marshal caller ≡ some cb
      → 0 < len stored
      → unmarshal stored ≡ some (some [])
      → (listed ctx (some caller) stored ≡ ok true)
        × (validate_claims_visible_bytes json ctx (some caller) stored ≢ ok tt)
  empty_object_disagrees ctx caller cb stored plain ne made pos read =
      let (caller', read_caller, d) = json.unmarshal-marshal caller cb made in
      let checks =
        check_reads cb stored caller' [] (len_marshal caller cb made) pos read_caller read in
      (
        listed_checks ctx plain caller cb stored ne made
            ∙ ap ok (checks ∙ (claims_visible_iff caller' []).1 (λ k rv m. elim m [ ])),
        λ h.
            elim ((validate_claims_visible_iff ctx (some caller) (some [])).0
              (sym (gate_reads ctx caller stored [] pos read) ∙ h)) [
                | inl super ↦ cc
                | inr p ↦ p.0 refl
              ],
      )
