-- ===== src/Requests/Agreement.antt =====
-- Requests and the configuration are checked alike, but for references and files.
use toolhive_registry_server.Prelude.{
  ltb, ◌≡◌, refl, ◌↔◌, String, Bool, true, false, Option, none, some, ok, err, Check, ◌>>◌, fail_if,
}
use toolhive_registry_server.Value.{ClaimMap}
use toolhive_registry_server.Config.{
  ManagedConfig, KubernetesConfig, SyncPolicyConfig, FilterConfig, GitConfig, ApiConfig,
  SourceConfig,
}
use toolhive_registry_server.Config.Sources.{SourceError}
use toolhive_registry_server.Requests.{SourceCreateRequest, RequestError, set_count}

-- The source of the configuration that a request stands for.
abbrev pub named : String → SourceCreateRequest → SourceConfig
named name req = record {
  name = name;
  git = req.git;
  api = req.api;
  file = req.file;
  managed = req.managed;
  kubernetes = req.kubernetes;
  sync_policy = req.sync_policy;
  filter = req.filter;
  claims = req.claims;
}

-- A git section names at most one of branch, tag and commit.
abbrev pub OneRef : Option GitConfig → Type 0
OneRef none = Unit
OneRef (some g) = ltb 1 (set_count g.branch g.tag g.commit) ≡ false

-- The request passes exactly when the configuration does and the references are exclusive.
abbrev Same : Check RequestError → Check SourceError → Type 0 → Type 0
Same request config extra = (request ≡ ok tt) ↔ ((config ≡ ok tt) × extra)

>>-ok : {E : Type 0} (m k : Check E) → m ≡ ok tt → k ≡ ok tt → (m >> k) ≡ ok tt
>>-ok (ok tt) k e f = f
>>-ok (err x) k e f = absurd (cc)

fail_if-ok : {E : Type 0} (b : Bool) (x : E) → b ≡ false → fail_if b x ≡ ok tt
fail_if-ok true x e = absurd (cc)
fail_if-ok false x e = refl

-- A request without a file section.
abbrev pub without_file :
    Option GitConfig
    → Option ApiConfig
    → Option ManagedConfig
    → Option KubernetesConfig
    → Option SyncPolicyConfig
    → Option FilterConfig
    → Option ClaimMap
    → SourceCreateRequest
without_file g a m k policy filter claims = record {
  git = g;
  api = a;
  file = none;
  managed = m;
  kubernetes = k;
  sync_policy = policy;
  filter = filter;
  claims = claims;
}
