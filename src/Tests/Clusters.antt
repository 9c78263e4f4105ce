-- ===== src/Tests/Clusters.antt =====
-- The cluster's controller at concrete inputs.
use cluster_api_provider_scv.Base.{codes, true, none, some, [], ◌∷◌}
use cluster_api_provider_scv.Api.Call.{gives}
use cluster_api_provider_scv.Controllers.Cluster.{
  Env, ScvmmCluster, cluster_finalizer, reconcile_cluster,
}
use cluster_api_provider_scv.Controllers.Cluster.Patching.{Reconciles, reconcile_cluster-Reconciles}
use cluster_api_provider_scv.Tests.Sample.{meta_of}

abbrev deleted_cluster : ScvmmCluster
deleted_cluster = record {
  meta = record (meta_of (codes "c")) { deleting = true; finalizers = cluster_finalizer ∷ [] };
  spec = record { provider_ref = none; failure_domains = [] };
  status = record { provisioned = true; conditions = []; failure_domains = [] };
}

abbrev sample_env : Env
sample_env = record {
  get_cluster = λ namespace name. gives deleted_cluster;
  get_owner_cluster = λ m. gives (some (codes "c"));
  new_helper = λ c. gives tt;
  patch = λ ps c. gives tt;
  order = λ domains. domains;
  contains_finalizer = λ fs f. true;
  add_finalizer = λ fs f. f ∷ fs;
  remove_finalizer = λ fs f. [];
  set_condition = λ cs c. c ∷ [];
}

reconcile_cluster-Reconciles_example :
    Reconciles sample_env
      (sample_env.get_cluster (codes "default") (codes "c"))
      []
      (reconcile_cluster sample_env (codes "default") (codes "c") [])
reconcile_cluster-Reconciles_example =
    reconcile_cluster-Reconciles sample_env (codes "default") (codes "c") [] tt
