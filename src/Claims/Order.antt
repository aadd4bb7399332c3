-- ===== src/Claims/Order.antt =====
-- How the two rules and claim equality relate.
use toolhive_registry_server.Prelude.{
  String, true, ◌≡◌, ◌⊎◌, inl, inr, Memᴰ, arith, lookup-mem, [], ◌∷◌, refl,
}
use toolhive_registry_server.Value.{Value, str, strs, arr, nil, cons, ClaimMap}
use toolhive_registry_server.Value.Strings.{Mentions}
use toolhive_registry_server.Claims.{claims_contain, claims_visible, claims_equal}
use toolhive_registry_server.Claims.Rules.{IsClaimValue, claims_contain_iff, claims_visible_iff}

-- A claim value names a string or names none.
names_or_not :
    (v : Value) → IsClaimValue v → ((s : String) × Mentions s v) ⊎ ((s : String) → ¬ Mentions s v)
names_or_not (str s) h = inl (s, refl)
names_or_not (strs []) h = inr (λ s m. elim m [ ])
names_or_not (strs (s ∷ l)) h = inl (s, Memᴰ.head refl)
names_or_not (arr nil) h = inr (λ s m. elim m [ ])
names_or_not (arr (cons v vs)) ((s, e), h) = inl (s, rw e (Memᴰ.head refl))
names_or_not v h = absurd h

-- A caller that passes the write-path rule on some claims passes the read-path rule on them.
pub claims_visible_of_contain :
    (caller record' : ClaimMap)
    → claims_contain caller record' ≡ true
    → claims_visible caller record' ≡ true
claims_visible_of_contain caller record' h = (claims_visible_iff caller record').1 λ k rv m.
    let (valid, (cv, found, covers)) = (claims_contain_iff caller record').0 h k rv m in
    (
      valid,
      (
        cv,
        found,
        elim (names_or_not rv valid) [
          | inl (s, named) ↦ inr (s, covers s named, named)
          | inr nobody ↦ inl nobody
        ],
      ),
    )

-- The write-path rule is transitive: claims that cover claims that cover others cover those too.
pub claims_contain_trans :
    (a b c : ClaimMap)
    → claims_contain a b ≡ true
    → claims_contain b c ≡ true
    → claims_contain a c ≡ true
claims_contain_trans a b c h₁ h₂ = (claims_contain_iff a c).1 λ k cv m.
    let (valid, (bv, at_b, b_covers)) = (claims_contain_iff b c).0 h₂ k cv m in
    let (_, (av, at_a, a_covers)) = (claims_contain_iff a b).0 h₁ k bv (lookup-mem k b at_b) in
    (valid, (av, at_a, λ s named. a_covers s (b_covers s named)))

-- What a caller can see, every caller whose claims cover the first one's can see.
pub claims_visible_of_contain_trans :
    (a b c : ClaimMap)
    → claims_contain a b ≡ true
    → claims_visible b c ≡ true
    → claims_visible a c ≡ true
claims_visible_of_contain_trans a b c h₁ h₂ = (claims_visible_iff a c).1 λ k cv m.
    let (valid, (bv, at_b, admits)) = (claims_visible_iff b c).0 h₂ k cv m in
    let (_, (av, at_a, a_covers)) = (claims_contain_iff a b).0 h₁ k bv (lookup-mem k b at_b) in
    (
      valid,
      (
        av,
        at_a,
        elim admits [
          | inl nobody ↦ inl nobody
          | inr (s, in_b, in_c) ↦ inr (s, a_covers s in_b, in_c)
        ],
      ),
    )

-- Claim equality is symmetric and transitive.
pub claims_equal_equivalence :
    (a b c : ClaimMap)
    → (claims_equal a b ≡ claims_equal b a)
      × (claims_equal a b ≡ true → claims_equal b c ≡ true → claims_equal a c ≡ true)
unfolding claims_equal
claims_equal_equivalence a b c =
    (ground arith, λ h k. ground (arith, claims_contain_trans a b c, claims_contain_trans c b a))
