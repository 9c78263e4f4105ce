-- ===== src/Controllers/Provider.antt =====
-- internal/controllers/scvmmprovider_controller.go: the cache of providers that the workers read.
pub mod Caching
use cluster_api_provider_scv.Base.{
  Str, codes, Bool, ◌&&◌, Option, none, some, List, [], ◌∷◌, is_empty, is_some, not, if◌then◌else◌,
}
use cluster_api_provider_scv.Api.Meta.{
  ObjectMeta, Error, Result, ok, err, panic, timeout, message, is_not_found, find_key,
}
use cluster_api_provider_scv.Api.Call.{Reply, gives, fails}
use cluster_api_provider_scv.Api.Provider.{
  ScvmmProviderReference, ScvmmCloudInitSpec, ScvmmProviderSpec, ScvmmProvider,
}
use cluster_api_provider_scv.Winrm.Event.{Cache, drop_provider, store_provider}

-- The environment of the process and the API server.
pub record Env : Type 0 where
  pub getenv : Str → Str
  pub fetch_provider : Str → Str → Reply ScvmmProvider  -- namespace and name
  pub get_secret : Str → Str → Reply (List (Str × Str))

-- `&infrav1.ScvmmProvider{}`
unfoldable pub empty_provider : ScvmmProvider
empty_provider = record {
  meta = record {
    name = [];
    namespace = [];
    uid = [];
    deleting = Bool.false;
    finalizers = [];
    owner_references = [];
    labels = [];
    annotations = [];
  };
  resource_version = [];
  spec = record {
    scvmm_host = [];
    scvmm_secret = none;
    exec_hosts = none;
    exec_host = [];
    keep_alive_seconds = 0;
    timeout_seconds = 0;
    cloud_init = record { library_share = []; file_system = []; device_type = [] };
    extra_functions = [];
    scvmm_username = [];
    scvmm_password = [];
    env = [];
    sensitive_env = [];
  };
  status = record { exec_hosts = [] };
}

-- The first text that is not empty.
unfoldable pub first_of : Str → Str → Str
first_of value other = if is_empty value then other else value

-- The defaults of the execution host, from the server's host, and of the library.
unfoldable pub with_hosts : Env → Str → ScvmmProviderSpec → ScvmmProviderSpec
unfolding first_of
with_hosts env host p = record p {
  scvmm_host = host;
  exec_host =
      if is_empty p.exec_host && not (is_some p.exec_hosts)
      then first_of (env.getenv (codes "SCVMM_EXECHOST")) host
      else p.exec_host;
  cloud_init = record p.cloud_init {
    library_share =
        first_of p.cloud_init.library_share
          (first_of (env.getenv (codes "SCVMM_LIBRARY")) (codes "ISOs\\cloud-init"));
  };
}

-- A key of the secret, or what the spec has.
unfoldable pub credential : Str → List (Str × Str) → Str → Str
credential key creds value = elim (find_key key creds) [ none ↦ value | some v ↦ v ]

-- The credentials of the secret, then those of the environment, and the variables made of them.
unfoldable pub with_credentials : Env → List (Str × Str) → ScvmmProviderSpec → ScvmmProviderSpec
unfolding first_of credential
with_credentials env creds p =
    let user =
      first_of (credential (codes "username") creds p.scvmm_username)
        (env.getenv (codes "SCVMM_USERNAME")) in
    let password =
      first_of (credential (codes "password") creds p.scvmm_password)
        (env.getenv (codes "SCVMM_PASSWORD")) in
    record p {
      scvmm_username = user;
      scvmm_password = password;
      sensitive_env = (codes "SCVMM_USERNAME", user) ∷ (codes "SCVMM_PASSWORD", password) ∷ [];
    }

-- The secret that the spec names, if it names one.
unfoldable pub read_secret : Env → Str → Option Str → Reply (List (Str × Str))
read_secret env namespace none = gives []
read_secret env namespace (some name) = elim (env.get_secret namespace name) [
  | gives creds ↦ gives creds
  | fails e ↦ fails (message (codes "Failed to get scvmm credential secretref"))
]

-- The provider with its defaults, for the host of the server and the answer for the secret.
unfoldable pub fill_provider :
    Env → Str → ScvmmProvider → Reply (List (Str × Str)) → Result ScvmmProvider
unfolding with_hosts with_credentials
fill_provider env host p (gives creds) =
    ok (record p { spec = with_credentials env creds (with_hosts env host p.spec) })
fill_provider env host p (fails e) = err e

-- What `getProvider` does with the object: `%v` leaves nothing of an error but its text.
unfoldable pub complete_provider : Env → ScvmmProvider → Result ScvmmProvider
unfolding fill_provider read_secret first_of
complete_provider env p =
    let host = first_of p.spec.scvmm_host (env.getenv (codes "SCVMM_HOST")) in
    if is_empty host
    then err (message (codes "missing required value ScvmmHost"))
    else fill_provider env host p (read_secret env p.meta.namespace p.spec.scvmm_secret)

-- `getProvider` of the reconciler, with the answer of the API server.
unfoldable pub received_provider : Env → Reply ScvmmProvider → Result ScvmmProvider
unfolding complete_provider
received_provider env (gives p) = complete_provider env p
received_provider env (fails e) = err (message (codes "Failed to get ScvmmProvider"))

unfoldable pub read_provider : Env → ScvmmProviderReference → Result ScvmmProvider
unfolding received_provider empty_provider
read_provider env ref =
    if is_empty ref.name
    then complete_provider env empty_provider
    else received_provider env (env.fetch_provider ref.namespace ref.name)

-- What `Reconcile` does with the answer of `getProvider`.
unfoldable pub cache_answer :
    ScvmmProviderReference → Result ScvmmProvider → Cache → Result (Unit {0}) × Cache
cache_answer ref (ok p) cache =
    if p.meta.deleting
    then (ok tt, drop_provider ref cache)
    else (ok tt, store_provider ref p cache)
cache_answer ref (err e) cache =
    if is_not_found e then (ok tt, drop_provider ref cache) else (err e, cache)
cache_answer ref (panic s) cache = (panic s, cache)
cache_answer ref timeout cache = (timeout, cache)

-- `Reconcile`
unfoldable pub reconcile_provider : Env → ScvmmProviderReference → Cache → Result (Unit {0}) × Cache
unfolding cache_answer
reconcile_provider env ref cache = cache_answer ref (read_provider env ref) cache

-- `SetupWithManager`, but for the manager: the provider of the empty reference is cached.
unfoldable pub setup_with_manager : Env → Cache → Cache
setup_with_manager env cache =
    let ref : ScvmmProviderReference = record { name = []; namespace = [] } in
    elim (read_provider env ref) [ ok p ↦ store_provider ref p cache | _ ↦ cache ]
