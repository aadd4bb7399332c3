-- ===== src/Config/Servers/Providers.antt =====
-- What the checks of the auth section guarantee of the providers that tokens are checked against.
use mathlib.Core.List.Memᴰ.{cases_cons}
use toolhive_registry_server.Prelude.{
  Bool, true, false, not, ◌&&◌, Option, none, some, List, [], ◌∷◌, ◌≡◌, ◌≢◌, refl, ◌⊎◌, inl, inr,
  Memᴰ, ok, >>-eq-ok, fail_if-eq-ok, blank, eq_iff, is_empty,
}
use toolhive_registry_server.Config.Sources.{Host, Url}
use toolhive_registry_server.Config.Servers.{
  OauthProviderConfig, oauth, https_required, audience_required, is_loopback_host, validate_issuer,
  validate_provider, validate_providers, validate_auth_config, providers_required,
}

module _ (host : Host) where
  -- The issuer's URL parses, and it is HTTPS, or on the loopback host, or HTTP is allowed; tokens
  -- are checked for an audience.
  pub record Secure (insecure : Bool) (p : OauthProviderConfig) : Type 0 where
    pub issuer : Url
    pub parsed : host.parse_url p.issuer_url ≡ some issuer
    pub scheme :
        (issuer.scheme ≡ "https") ⊎ (insecure ≡ true) ⊎ (is_loopback_host issuer.hostname ≡ true)
    pub audience : p.audience ≢ ""

  insecure_cases :
      (sso https insecure loopback : Bool)
      → sso ≡ true
      → (sso && not https && not insecure && not loopback) ≡ false
      → (https ≡ true) ⊎ (insecure ≡ true) ⊎ (loopback ≡ true)
  insecure_cases true true insecure loopback e h = inl refl
  insecure_cases true false true loopback e h = inr (inl refl)
  insecure_cases true false false true e h = inr (inr refl)
  insecure_cases true false false false e h = absurd (cc)
  insecure_cases false https insecure loopback e h = absurd (cc)

  both_blank : (a b : Bool) → a ≡ true → b ≡ true → ¬ ((a && b) ≡ false)
  both_blank true true h k e = cc
  both_blank false b h k e = cc
  both_blank true false h k e = cc

  filled_list : (ps : List OauthProviderConfig) → is_empty ps ≡ false → ps ≢ []
  filled_list [] h = λ _. cc
  filled_list (p ∷ ps) h = λ e. cc

  checked_issuer :
      (insecure : Bool) (p : OauthProviderConfig) (parsed : Option Url)
      → host.parse_url p.issuer_url ≡ parsed
      → blank p.sso_check_url ≡ true
      → validate_issuer host insecure p parsed ≡ ok tt
      → Secure insecure p
  unfolding validate_issuer
  checked_issuer insecure p none known standard h = absurd (cc)
  checked_issuer insecure p (some issuer) known standard h =
      let (_, h₁) = >>-eq-ok _ _ h in
      let (_, h₂) = >>-eq-ok _ _ h₁ in
      let (transport, aud) = >>-eq-ok _ _ h₂ in
      let no_plain = fail_if-eq-ok _ https_required transport in
      let no_blank = fail_if-eq-ok _ audience_required aud in
      record {
        issuer = issuer;
        parsed = known;
        scheme = elim (insecure_cases _ _ _ _ standard no_plain) [
          | inl e ↦ inl ((eq_iff issuer.scheme "https").0 e)
          | inr r ↦ inr r
        ];
        audience = λ e. both_blank _ _ standard ((eq_iff p.audience "").1 e) no_blank;
      }

  validate_provider-Secure :
      (insecure : Bool) (p : OauthProviderConfig)
      → p.sso_check_url ≡ ""
      → validate_provider host insecure p ≡ ok tt
      → Secure insecure p
  unfolding validate_provider
  validate_provider-Secure insecure p standard h =
      let (_, h₁) = >>-eq-ok _ _ h in
      let (_, h₂) = >>-eq-ok _ _ h₁ in
      checked_issuer insecure p (host.parse_url p.issuer_url) refl
        ((eq_iff p.sso_check_url "").1 standard) h₂

  validate_providers-Secure :
      (insecure : Bool) (ps : List OauthProviderConfig) (p : OauthProviderConfig)
      → validate_providers host insecure ps ≡ ok tt
      → Memᴰ p ps
      → p.sso_check_url ≡ ""
      → Secure insecure p
  unfolding validate_providers
  validate_providers-Secure insecure [] p h m standard = elim m [ ]
  validate_providers-Secure insecure (q ∷ ps) p h m standard =
      let (first, later) = >>-eq-ok _ _ h in
      elim (cases_cons m) [
        | inl e ↦ validate_provider-Secure insecure p standard (rw e first)
        | inr k ↦ validate_providers-Secure insecure ps p later k standard
      ]

  -- If the auth section is accepted in OAuth mode, it has providers, and each of them that is
  -- none of company SSO has an audience and an issuer that is HTTPS, on the loopback host, or
  -- allowed to be neither.
  pub validate_auth_config-Secure :
      (insecure : Bool) (section : Option (List OauthProviderConfig))
      → validate_auth_config host insecure oauth section ≡ ok tt
      → (ps : List OauthProviderConfig) × (section ≡ some ps)
        × (ps ≢ [])
        × ((p : OauthProviderConfig) → Memᴰ p ps → p.sso_check_url ≡ "" → Secure insecure p)
  unfolding validate_auth_config
  validate_auth_config-Secure insecure none h = absurd (cc)
  validate_auth_config-Secure insecure (some ps) h =
      let (filled, later) = >>-eq-ok _ _ h in
      (
        ps,
        refl,
        filled_list ps (fail_if-eq-ok _ providers_required filled),
        λ p m standard. validate_providers-Secure insecure ps p later m standard,
      )
