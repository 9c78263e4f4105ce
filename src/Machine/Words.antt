-- ===== src/Machine/Words.antt =====
-- The texts of the machine controller: conditions, reasons, statuses and finalizers.
use cluster_api_provider_scv.Base.{Str, codes}

abbrev pub vm_created : Str
vm_created = codes "VmCreated"

abbrev pub vm_running : Str
vm_running = codes "VmRunning"

abbrev pub vm_deleting : Str
vm_deleting = codes "VmDeleting"

abbrev pub waiting_for_cluster_infrastructure : Str
waiting_for_cluster_infrastructure = codes "WaitingForClusterInfrastructure"

abbrev pub waiting_for_control_plane : Str
waiting_for_control_plane = codes "WaitingForControlplaneAvailable"

abbrev pub waiting_for_bootstrap_data : Str
waiting_for_bootstrap_data = codes "WaitingForBootstrapData"

abbrev pub waiting_for_owner : Str
waiting_for_owner = codes "WaitingForOwner"

abbrev pub cluster_not_available : Str
cluster_not_available = codes "ClusterNotAvailable"

abbrev pub provider_not_available : Str
provider_not_available = codes "ProviderNotAvailable"

abbrev pub missing_cluster : Str
missing_cluster = codes "MissingCluster"

abbrev pub vm_creating : Str
vm_creating = codes "VmCreating"

abbrev pub vm_updating_properties : Str
vm_updating_properties = codes "VmUpdatingProperties"

abbrev pub vm_updating_cloud_init : Str
vm_updating_cloud_init = codes "VmUpdatingCloudInit"

abbrev pub vm_updating_disks : Str
vm_updating_disks = codes "VmUpdatingDisks"

abbrev pub vm_updating_network : Str
vm_updating_network = codes "VmUpdatingNetwork"

abbrev pub vm_starting : Str
vm_starting = codes "VmStarting"

abbrev pub vm_deleting_disks : Str
vm_deleting_disks = codes "VmDeletingDisks"

abbrev pub vm_deleting_disks_done : Str
vm_deleting_disks_done = codes "VmDeletingDisksDone"

abbrev pub vm_failed : Str
vm_failed = codes "VmFailed"

abbrev pub waiting_for_ip_address : Str
waiting_for_ip_address = codes "WaitingForIPAddress"

abbrev pub ip_address_claimed : Str
ip_address_claimed = codes "IPAddressClaimed"

abbrev pub ip_address_claims_being_created : Str
ip_address_claims_being_created = codes "IPAddressClaimsBeingCreated"

abbrev pub ip_address_claim_not_found : Str
ip_address_claim_not_found = codes "IPAddressClaimNotFound"

-- VM statuses and messages of the scripts.
abbrev pub running : Str
running = codes "Running"

abbrev pub power_off : Str
power_off = codes "PowerOff"

abbrev pub under_creation : Str
under_creation = codes "UnderCreation"

abbrev pub under_update : Str
under_update = codes "UnderUpdate"

abbrev pub removed : Str
removed = codes "Removed"

abbrev pub machine_finalizer : Str
machine_finalizer = codes "scvmmmachine.finalizers.cluster.x-k8s.io"

abbrev pub persistent_disk_finalizer : Str
persistent_disk_finalizer = codes "scvmmpersistentdisk.finalizers.cluster.x-k8s.io"

abbrev pub ip_claim_finalizer : Str
ip_claim_finalizer = codes "scvmmmachine.finalizers.cluster.x-k8s.io/ip-claim-protection"

abbrev pub api_version : Str
api_version = codes "infrastructure.cluster.x-k8s.io/v1alpha1"
