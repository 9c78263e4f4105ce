-- ===== src/Controllers/Cluster.antt =====
-- internal/controllers/scvmmcluster_controller.go and api/v1alpha1/scvmmcluster_types.go.
pub mod Patching
use cluster_api_provider_scv.Base.{
  Str, codes, Bool, true, false, Option, none, some, List, [], ◌∷◌, map, not, if◌then◌else◌,
}
use cluster_api_provider_scv.Api.Meta.{
  ObjectMeta, Error, Result, ok, err, panic, timeout, wrap, is_not_found,
}
use cluster_api_provider_scv.Api.Call.{
  Call, Reply, gives, fails, reply, pure, raise, asks, exchange, reads, changes, ◌>>=◌, ◌>>◌, check,
}
use cluster_api_provider_scv.Api.Machine.{ScvmmCondition}
use cluster_api_provider_scv.Machine.Env.{FailureDomain, ScvmmClusterSpec}

-- `clusterv1.FailureDomain`
pub record FailureDomainStatus : Type 0 where
  pub name : Str
  pub control_plane : Option Bool
  pub attributes : List (Str × Str)

pub record ScvmmClusterStatus : Type 0 where
  pub provisioned : Bool  -- `Initialization.Provisioned`
  pub conditions : List ScvmmCondition
  pub failure_domains : List FailureDomainStatus

pub record ScvmmCluster : Type 0 where
  pub meta : ObjectMeta
  pub spec : ScvmmClusterSpec
  pub status : ScvmmClusterStatus

-- The cluster object of the call, which the deferred patch also reads, and the patches written, the
-- last one first.
pub record World : Type 0 where
  pub cluster : ScvmmCluster
  pub patches : List ScvmmCluster

pub record Env : Type 0 where
  pub get_cluster : Str → Str → Reply ScvmmCluster  -- namespace and name
  pub get_owner_cluster : ObjectMeta → Reply (Option Str)  -- its name
  pub new_helper : ScvmmCluster → Reply (Unit {0})
  pub patch : List ScvmmCluster → ScvmmCluster → Reply (Unit {0})
  pub order : List (Str × FailureDomain) → List (Str × FailureDomain)  -- of a `range` over the map
  pub contains_finalizer : List Str → Str → Bool
  pub add_finalizer : List Str → Str → List Str
  pub remove_finalizer : List Str → Str → List Str
  pub set_condition : List ScvmmCondition → ScvmmCondition → List ScvmmCondition

abbrev pub cluster_finalizer : Str
cluster_finalizer = codes "scvmmcluster.finalizers.cluster.x-k8s.io"

abbrev pub cluster_created : Str
cluster_created = codes "ClusterCreated"

abbrev pub created_condition : ScvmmCondition
created_condition = record {
  type = cluster_created;
  status = true;
  reason = cluster_created;
  message = codes "Cluster Provisioned";
}

abbrev pub deleting_condition : ScvmmCondition
deleting_condition = record {
  type = cluster_created;
  status = false;
  reason = codes "ClusterDeleting";
  message = codes "Cluster being deleted";
}

abbrev pub with_finalizers : ScvmmCluster → List Str → ScvmmCluster
with_finalizers c fs = record c { meta = record c.meta { finalizers = fs } }

unfoldable pub with_cluster_condition : Env → ScvmmCondition → ScvmmCluster → ScvmmCluster
with_cluster_condition env x c = record c {
  status = record c.status { conditions = env.set_condition c.status.conditions x };
}

unfoldable pub change_cluster : (ScvmmCluster → ScvmmCluster) → Call World (Unit {0})
change_cluster f = changes (λ w. record w { cluster = f w.cluster })

-- `patchScvmmCluster`
unfoldable pub patch_scvmm_cluster : Env → Call World (Unit {0})
patch_scvmm_cluster env =
    exchange (λ w. env.patch w.patches w.cluster)
      (λ w. record w { patches = w.cluster ∷ w.patches })

unfoldable pub failure_domain_status : Str × FailureDomain → FailureDomainStatus
failure_domain_status (key, fd) = record {
  name = key;
  control_plane = some fd.control_plane;
  attributes = (codes "cloud", fd.cloud) ∷ (codes "hostGroup", fd.host_group) ∷ [];
}

-- What `reconcileNormal` makes of the cluster.
unfoldable pub provisioned_cluster : Env → ScvmmCluster → ScvmmCluster
unfolding with_cluster_condition failure_domain_status
provisioned_cluster env c = with_cluster_condition env created_condition (record c {
  status = record c.status {
    failure_domains = map failure_domain_status (env.order c.spec.failure_domains);
    provisioned = true;
  };
})

-- `reconcileNormal`
unfoldable pub reconcile_cluster_normal : Env → Call World (Unit {0})
unfolding change_cluster provisioned_cluster
reconcile_cluster_normal env = change_cluster (provisioned_cluster env)

-- `reconcileDelete`
unfoldable pub reconcile_cluster_delete : Env → Call World (Unit {0})
unfolding change_cluster with_cluster_condition patch_scvmm_cluster
reconcile_cluster_delete env =
    asks (λ w. env.new_helper w.cluster)
    >> (change_cluster (with_cluster_condition env deleting_condition)
        >> check (patch_scvmm_cluster env)
            (λ e. raise (wrap (codes "failed to patch ScvmmCluster") e))
            (λ _.
              change_cluster (λ c.
                with_finalizers c (env.remove_finalizer c.meta.finalizers cluster_finalizer))))

-- The error of the deferred patch comes out where there is no other.
unfoldable pub keep_error : Result (Unit {0}) → Result (Unit {0}) → Result (Unit {0})
keep_error (ok a) r = r
keep_error (err e) r = err e
keep_error (panic s) r = panic s
keep_error timeout r = timeout

-- `defer func() { … }()` around what follows it.
unfoldable pub deferring_patch : Env → Call World (Unit {0}) → Call World (Unit {0})
unfolding keep_error patch_scvmm_cluster
deferring_patch env m w =
    let (r, w') = m w in let (p, w'') = patch_scvmm_cluster env w' in (keep_error r p, w'')

-- What follows the patch helper.
unfoldable pub reconcile_patched : Env → ScvmmCluster → Call World (Unit {0})
unfolding reconcile_cluster_normal reconcile_cluster_delete change_cluster
reconcile_patched env c =
    if c.meta.deleting
    then reconcile_cluster_delete env
    else if not (env.contains_finalizer c.meta.finalizers cluster_finalizer)
    then change_cluster
        (λ c. with_finalizers c (env.add_finalizer c.meta.finalizers cluster_finalizer))
    else reconcile_cluster_normal env

unfoldable pub reconcile_owned_cluster : Env → ScvmmCluster → Option Str → Call World (Unit {0})
unfolding deferring_patch reconcile_patched
reconcile_owned_cluster env c none = pure tt
reconcile_owned_cluster env c (some owner) =
    asks (λ w. env.new_helper c) >> deferring_patch env (reconcile_patched env c)

-- `Reconcile` of the cluster that was read.
unfoldable pub reconcile_found_cluster : Env → Call World (Unit {0})
unfolding reconcile_owned_cluster
reconcile_found_cluster env = reads (λ w. w.cluster) >>= λ c.
    asks (λ w. env.get_owner_cluster c.meta) >>= reconcile_owned_cluster env c

-- `Reconcile` by the answer of the API server, with the patches that it writes after `old`.
unfoldable pub reconcile_read :
    Env → List ScvmmCluster → Reply ScvmmCluster → Result (Unit {0}) × List ScvmmCluster
unfolding reconcile_found_cluster
reconcile_read env old (gives c) =
    let (r, w) = reconcile_found_cluster env (record { cluster = c; patches = old }) in
    (r, w.patches)
reconcile_read env old (fails e) = ((if is_not_found e then ok tt else err e), old)

-- `Reconcile`
unfoldable pub reconcile_cluster :
    Env → Str → Str → List ScvmmCluster → Result (Unit {0}) × List ScvmmCluster
unfolding reconcile_read
reconcile_cluster env namespace name old = reconcile_read env old (env.get_cluster namespace name)
