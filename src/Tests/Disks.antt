-- ===== src/Tests/Disks.antt =====
-- The persistent disk's controller at concrete inputs.
use cluster_api_provider_scv.Base.{codes, true, none, some, [], ◌∷◌}
use cluster_api_provider_scv.Api.Call.{gives}
use cluster_api_provider_scv.Api.PersistentDisk.{ScvmmPersistentDisk}
use cluster_api_provider_scv.Machine.Words.{persistent_disk_finalizer}
use cluster_api_provider_scv.Controllers.Disk.{Env, reconcile_disk}
use cluster_api_provider_scv.Controllers.Disk.Removal.{Reconciles, reconcile_disk-Reconciles}
use cluster_api_provider_scv.Tests.Sample.{disk_named, sample_vm}

abbrev deleted_disk : ScvmmPersistentDisk
deleted_disk = record (disk_named (codes "p-1")) {
  meta = record (disk_named (codes "p-1")).meta {
    deleting = true;
    finalizers = persistent_disk_finalizer ∷ [];
  };
}

-- SCVMM answers that the disk is not there.
abbrev sample_env : Env
sample_env = record {
  get_disk = λ namespace name. gives deleted_disk;
  winrm = λ h ref c. record { stdout = []; stderr = []; err = none };
  decode_vm = λ out. some (record sample_vm { message = codes "Not Found" });
  update = λ h d. gives tt;
  remove_finalizer = λ fs f. [];
}

reconcile_disk-Reconciles_example :
    Reconciles sample_env []
      (sample_env.get_disk (codes "default") (codes "p-1"))
      (reconcile_disk sample_env (codes "default") (codes "p-1") [])
reconcile_disk-Reconciles_example =
    reconcile_disk-Reconciles sample_env (codes "default") (codes "p-1") []
