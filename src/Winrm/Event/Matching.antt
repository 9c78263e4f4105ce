-- ===== src/Winrm/Event/Matching.antt =====
-- References of providers as the keys of a map.
use cluster_api_provider_scv.Base.{◌≡◌, true, arith, str_eq→≡}
use cluster_api_provider_scv.Api.Provider.{ScvmmProviderReference}
use cluster_api_provider_scv.Winrm.Event.{ref_eq}

pub ref_eq→≡ : (a b : ScvmmProviderReference) → ref_eq a b ≡ true → a ≡ b
unfolding ref_eq
ref_eq→≡ a b h = ground (arith, str_eq→≡ a.name b.name, str_eq→≡ a.namespace b.namespace)
