-- ===== src/Tests/Caching.antt =====
-- The provider's controller at concrete inputs.
use cluster_api_provider_scv.Base.{codes, true, [], ◌∷◌, ◌≡◌, refl}
use cluster_api_provider_scv.Api.Meta.{Error, not_found}
use cluster_api_provider_scv.Api.Call.{gives, fails}
use cluster_api_provider_scv.Api.Provider.{ScvmmProviderReference, ScvmmProvider}
use cluster_api_provider_scv.Winrm.Event.{Cache}
use cluster_api_provider_scv.Controllers.Provider.{
  Env, empty_provider, read_provider, reconcile_provider,
}
use cluster_api_provider_scv.Controllers.Provider.Caching.{
  Caches, is_failure, reconcile_provider-Caches, reconcile_provider-keeps_missing,
}

abbrev pub sample_ref : ScvmmProviderReference
sample_ref = record { name = b's' ∷ []; namespace = b'n' ∷ [] }

abbrev pub sample_provider : ScvmmProvider
unfolding empty_provider
sample_provider = record empty_provider {
  spec = record empty_provider.spec { scvmm_host = b'h' ∷ [] };
}

abbrev pub sample_cache : Cache
sample_cache = (sample_ref, sample_provider) ∷ []

-- The API server gives the provider, and every variable of the environment is empty.
abbrev serving : Env
serving = record {
  getenv = λ name. [];
  fetch_provider = λ namespace name. gives sample_provider;
  get_secret = λ namespace name. gives [];
}

reconcile_provider-Caches_example :
    Caches sample_ref
      (read_provider serving sample_ref)
      sample_cache
      (reconcile_provider serving sample_ref sample_cache)
reconcile_provider-Caches_example = reconcile_provider-Caches serving sample_ref sample_cache

abbrev missing : Error
missing = not_found (codes "scvmmproviders")

abbrev emptied : Env
emptied = record serving { fetch_provider = λ namespace name. fails missing }

reconcile_provider-keeps_missing_example :
    ((reconcile_provider emptied sample_ref sample_cache).1 ≡ sample_cache)
    × (is_failure (reconcile_provider emptied sample_ref sample_cache).0 ≡ true)
reconcile_provider-keeps_missing_example =
    reconcile_provider-keeps_missing emptied sample_ref sample_cache missing refl refl
