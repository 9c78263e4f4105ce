-- ===== src/Controllers/Provider/Caching.antt =====
-- What the cache holds after a reconciliation of a provider.
use cluster_api_provider_scv.Base.{
  Str, codes, Bool, true, false, ◌&&◌, not, Option, none, some, List, [], ◌∷◌, ◌≡◌, refl, arith,
  is_empty, is_some, if◌then◌else◌, Bool-cases, inl, inr, ◌∙◌,
}
use cluster_api_provider_scv.Api.Meta.{
  Error, Result, ok, err, panic, timeout, message, is_not_found,
}
use cluster_api_provider_scv.Api.Call.{Reply, gives, fails}
use cluster_api_provider_scv.Api.Provider.{ScvmmProviderReference, ScvmmProviderSpec, ScvmmProvider}
use cluster_api_provider_scv.Winrm.Event.{
  Cache, ref_eq, find_provider, store_provider, drop_provider,
}
use cluster_api_provider_scv.Winrm.Event.Matching.{ref_eq→≡}
use cluster_api_provider_scv.Controllers.Provider.{
  Env, empty_provider, first_of, with_hosts, with_credentials, read_secret, complete_provider,
  read_provider, received_provider, fill_provider, cache_answer, reconcile_provider,
}

find_provider-store_provider :
    (r k : ScvmmProviderReference) (p : ScvmmProvider) (cache : Cache)
    → find_provider k (store_provider r p cache)
      ≡ (if ref_eq r k then some p else find_provider k cache)
unfolding find_provider store_provider
find_provider-store_provider r k p [] = refl
find_provider-store_provider r k p ((j, q) ∷ cache) = elim (Bool-cases (ref_eq j r)) [
  | inl e ↦ rw (e, ref_eq→≡ j r e) (ground arith)
  | inr e ↦
      rw (e, find_provider-store_provider r k p cache)
        (elim (Bool-cases (ref_eq r k)) [
          | inl a ↦ let other : ref_eq j k ≡ false = rw (← (ref_eq→≡ r k a)) e in rw (a, other) refl
          | inr a ↦ rw a refl
        ])
]

find_provider-drop_provider :
    (r k : ScvmmProviderReference) (cache : Cache)
    → find_provider k (drop_provider r cache) ≡ (if ref_eq r k then none else find_provider k cache)
unfolding find_provider drop_provider
find_provider-drop_provider r k [] = ground arith
find_provider-drop_provider r k ((j, q) ∷ cache) = elim (Bool-cases (ref_eq j r)) [
  | inl e ↦ rw (e, find_provider-drop_provider r k cache, ref_eq→≡ j r e) (ground arith)
  | inr e ↦
      rw (e, find_provider-drop_provider r k cache)
        (elim (Bool-cases (ref_eq r k)) [
          | inl a ↦ let other : ref_eq j k ≡ false = rw (← (ref_eq→≡ r k a)) e in rw (a, other) refl
          | inr a ↦ rw a refl
        ])
]

-- The call ended with an error.
abbrev pub is_failure : {A : Type 0} → Result A → Bool
is_failure (err e) = true
is_failure _ = false

-- The provider's settings are complete: its server and its library are named, it has a list of
-- execution hosts or the one host, and the scripts see the credentials.
pub record IsComplete (p : ScvmmProviderSpec) : Type 0 where
  pub has_host : is_empty p.scvmm_host ≡ false
  pub has_exec_host : (is_empty p.exec_host && not (is_some p.exec_hosts)) ≡ false
  pub has_library : is_empty p.cloud_init.library_share ≡ false
  pub has_env : p.sensitive_env ≡ (
      (codes "SCVMM_USERNAME", p.scvmm_username) ∷ (codes "SCVMM_PASSWORD", p.scvmm_password) ∷ [])

not_empty-first_of : (a b : Str) → is_empty b ≡ false → is_empty (first_of a b) ≡ false
unfolding first_of
not_empty-first_of [] b h = h
not_empty-first_of (x ∷ a) b h = refl

-- A complete provider is what `getProvider` gives, whatever the outside answers.
abbrev pub GivesComplete : Result ScvmmProvider → Type 0
GivesComplete (ok p) = IsComplete p.spec
GivesComplete (err e) = (s : Str) × (e ≡ message s)
GivesComplete (panic s) = ⊥
GivesComplete timeout = ⊥

IsComplete-with_credentials :
    (env : Env) (host : Str) (creds : List (Str × Str)) (p : ScvmmProviderSpec)
    → is_empty host ≡ false
    → IsComplete (with_credentials env creds (with_hosts env host p))
unfolding with_credentials with_hosts codes
IsComplete-with_credentials env host creds p h = record {
  has_host = h;
  has_exec_host = exec_host_filled (is_some p.exec_hosts) p.exec_host;
  has_library =
      not_empty-first_of p.cloud_init.library_share _
        (not_empty-first_of (env.getenv (codes "SCVMM_LIBRARY")) _ refl);
  has_env = refl;
}
  where
    exec_host_filled :
        (b : Bool) (x : Str)
        → (is_empty (
              if is_empty x && not b
              then first_of (env.getenv (codes "SCVMM_EXECHOST")) host
              else x)
            && not b)
          ≡ false
    exec_host_filled true [] = refl
    exec_host_filled true (c ∷ x) = refl
    exec_host_filled false [] =
        rw (not_empty-first_of (env.getenv (codes "SCVMM_EXECHOST")) host h) refl
    exec_host_filled false (c ∷ x) = refl

GivesComplete-fill_provider :
    (env : Env) (host : Str) (p : ScvmmProvider) (o : Option Str)
    → is_empty host ≡ false
    → GivesComplete (fill_provider env host p (read_secret env p.meta.namespace o))
unfolding fill_provider read_secret
GivesComplete-fill_provider env host p none h = IsComplete-with_credentials env host [] p.spec h
GivesComplete-fill_provider env host p (some name) h =
    by_answer (env.get_secret p.meta.namespace name)
  where
    by_answer :
        (r : Reply (List (Str × Str)))
        → GivesComplete (
            fill_provider env host p (elim r [
              | gives creds ↦ gives creds
              | fails e ↦ fails (message (codes "Failed to get scvmm credential secretref"))
            ]))
    by_answer (gives creds) = IsComplete-with_credentials env host creds p.spec h
    by_answer (fails e) = (codes "Failed to get scvmm credential secretref", refl)

GivesComplete-complete_provider :
    (env : Env) (p : ScvmmProvider) → GivesComplete (complete_provider env p)
unfolding complete_provider
GivesComplete-complete_provider env p =
    let host = first_of p.spec.scvmm_host (env.getenv (codes "SCVMM_HOST")) in
    elim (Bool-cases (is_empty host)) [
      | inl e ↦ rw e (codes "missing required value ScvmmHost", refl)
      | inr e ↦ rw e (GivesComplete-fill_provider env host p p.spec.scvmm_secret e)
    ]

GivesComplete-read_provider :
    (env : Env) (ref : ScvmmProviderReference) → GivesComplete (read_provider env ref)
unfolding read_provider received_provider
GivesComplete-read_provider env ref = elim (Bool-cases (is_empty ref.name)) [
  | inl e ↦ rw e (GivesComplete-complete_provider env empty_provider)
  | inr e ↦ rw e (by_answer (env.fetch_provider ref.namespace ref.name))
]
  where
    by_answer : (r : Reply ScvmmProvider) → GivesComplete (received_provider env r)
    by_answer (gives p) = GivesComplete-complete_provider env p
    by_answer (fails e) = (codes "Failed to get ScvmmProvider", refl)

-- What a reference then has in the cache.
abbrev kept : ScvmmProvider → Option ScvmmProvider
kept p = if p.meta.deleting then none else some p

-- After a reconciliation of `ref`: the provider that was read is complete, it stands at `ref` unless
-- it is being deleted, and every other reference has what it had; after an error all is as it was.
abbrev pub Caches :
    ScvmmProviderReference → Result ScvmmProvider → Cache → Result (Unit {0}) × Cache → Type 0
Caches ref read old (ok a, new) =
    (p : ScvmmProvider) × (read ≡ ok p)
    × IsComplete p.spec
    × ((k : ScvmmProviderReference)
        → find_provider k new ≡ (if ref_eq ref k then kept p else find_provider k old))
Caches ref read old (err e, new) = (new ≡ old) × (read ≡ err e)
Caches ref read old (panic s, new) = ⊥
Caches ref read old (timeout, new) = ⊥

Caches-cache_answer :
    (ref : ScvmmProviderReference) (r : Result ScvmmProvider) (cache : Cache)
    → GivesComplete r
    → Caches ref r cache (cache_answer ref r cache)
unfolding cache_answer is_not_found
Caches-cache_answer ref (ok p) cache h = by_deleting p.meta.deleting refl
  where
    by_deleting :
        (b : Bool)
        → p.meta.deleting ≡ b
        → Caches ref
            (ok p)
            cache
            (if b then (ok tt, drop_provider ref cache) else (ok tt, store_provider ref p cache))
    by_deleting true e = (p, refl, h, λ k. find_provider-drop_provider ref k cache ∙ simp e refl)
    by_deleting false e =
        (p, refl, h, λ k. find_provider-store_provider ref k p cache ∙ simp e refl)
Caches-cache_answer ref (err e) cache (s, same) = rw same (refl, refl)
Caches-cache_answer ref (panic s) cache h = h
Caches-cache_answer ref timeout cache h = h

-- If reconcile_provider ends well, the provider that it has read has a host, an execution host or
-- a list of them, a library and the variables of its account; it stands in the cache for the
-- reference unless it is being deleted, and then nothing stands there; every other reference has
-- what it had. If it ends with an error, the cache is as it was and the error is that of
-- read_provider. It does not panic.
pub reconcile_provider-Caches :
    (env : Env) (ref : ScvmmProviderReference) (cache : Cache)
    → Caches ref (read_provider env ref) cache (reconcile_provider env ref cache)
unfolding reconcile_provider
reconcile_provider-Caches env ref cache =
    Caches-cache_answer ref (read_provider env ref) cache (GivesComplete-read_provider env ref)

-- For a reference with a name, if the API server gives an error for it, the one of a missing
-- object included, reconcile_provider leaves the cache as it was and ends with an error.
pub reconcile_provider-keeps_missing :
    (env : Env) (ref : ScvmmProviderReference) (cache : Cache) (e : Error)
    → is_empty ref.name ≡ false
    → env.fetch_provider ref.namespace ref.name ≡ fails e
    → ((reconcile_provider env ref cache).1 ≡ cache)
      × (is_failure (reconcile_provider env ref cache).0 ≡ true)
unfolding reconcile_provider read_provider received_provider cache_answer is_not_found
reconcile_provider-keeps_missing env ref cache e named missing =
    (rw (named, missing) refl, rw (named, missing) refl)
