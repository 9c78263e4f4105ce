-- ===== src/Tests/Sample.antt =====
-- A small outside world for the tests: every write succeeds, a VM with two virtual disks answers to
-- every command, and two VMs answer to every name.
use cluster_api_provider_scv.Base.{Str, codes, true, false, none, some, [], ◌∷◌}
use cluster_api_provider_scv.Api.Meta.{ObjectMeta, Error, message, ok, err}
use cluster_api_provider_scv.Api.CopySpec.{SpecEquality}
use cluster_api_provider_scv.Api.PersistentDisk.{
  ScvmmPersistentDisk, ScvmmPersistentDiskPool, ScvmmPersistentDiskSpec,
}
use cluster_api_provider_scv.Api.Machine.{VmDisk, ScvmmMachineSpec, ScvmmMachine}
use cluster_api_provider_scv.Scvmm.Answer.{VmResult}
use cluster_api_provider_scv.Machine.Env.{Env}
use cluster_api_provider_scv.Machine.Action.{World}

abbrev pub meta_of : Str → ObjectMeta
meta_of name = record {
  name = name;
  namespace = codes "default";
  uid = codes "u1";
  deleting = false;
  finalizers = codes "scvmmmachine.finalizers.cluster.x-k8s.io" ∷ [];
  owner_references = [];
  labels = [];
  annotations = [];
}

abbrev pub claimed_slot : VmDisk
claimed_slot = record {
  size = some 1048576;
  dynamic = true;
  vh_disk = [];
  volume_type = [];
  storage_qos_policy = [];
  iops_maximum = none;
  persistent_disk = some (record {
    pool = b'p' ∷ [];
    disk = some (record { name = b'p' ∷ b'-' ∷ b'1' ∷ []; path = []; filename = []; vm_host = [] });
  });
}

abbrev pub sample_spec : ScvmmMachineSpec
sample_spec = record {
  provider_id = [];
  id = b'i' ∷ b'd' ∷ [];
  cloud = b'c' ∷ [];
  host_group = [];
  vm_name = b'v' ∷ b'm' ∷ [];
  vm_name_from_pool = none;
  hostname = [];
  vm_template = [];
  disks = some (claimed_slot ∷ []);
  fibre_channel = [];
  cpu_count = 2;
  memory = some 4096;
  dynamic_memory = none;
  hardware_profile = [];
  operating_system = [];
  networking = none;
  availability_set = [];
  vm_options = none;
  custom_property = [];
  tag = [];
  provider_ref = none;
  metadata = [];
  bootstrap = none;
}

abbrev pub sample_machine : ScvmmMachine
sample_machine = record {
  meta = meta_of (codes "machine-0");
  spec = sample_spec;
  status = record {
    provisioned = false;
    vm_status = [];
    bios_guid = [];
    creation_time = [];
    modified_time = [];
    hostname = [];
    addresses = [];
    conditions = [];
    backoff = some (record { reason = codes "VmFailed"; try = 3; wait = 0 });
  };
}

abbrev pub sample_world : World
sample_world = record { machine = sample_machine; log = [] }

abbrev pub sample_vm : VmResult
sample_vm = record {
  cloud = [];
  name = codes "vm";
  hostname = [];
  status = codes "Running";
  memory = 0;
  cpu_count = 0;
  virtual_network = [];
  ipv4_addresses = none;
  network_adapters = [];
  virtual_disks = [];
  isos = [];
  bios_guid = [];
  id = codes "id";
  vm_id = [];
  availability_set_names = [];
  tag = [];
  custom_property = [];
  error = [];
  script_errors = [];
  message = [];
  creation_time = [];
  modified_time = [];
  result = [];
}

abbrev pub sample_disk_spec : ScvmmPersistentDiskSpec
sample_disk_spec = record {
  provider_ref = none;
  vm_host = [];
  path = [];
  filename = [];
  dynamic = true;
  size = 1048576;
}

abbrev pub disk_named : Str → ScvmmPersistentDisk
disk_named name = record {
  meta = meta_of name;
  spec = sample_disk_spec;
  status = record { size = none };
  index = 0;
}

abbrev pub sample_pool : ScvmmPersistentDiskPool
sample_pool = record {
  meta = meta_of (codes "pool-a");
  spec = record {
    max_disks = 4;
    selector = record { match_labels = []; match_expressions = [] };
    template_labels = [];
    template_annotations = [];
    template_spec = sample_disk_spec;
  };
}

-- Comparisons that find nothing equal.
abbrev pub all_different : SpecEquality
all_different = record {
  same_disk = λ a b. false;
  same_memory = λ a b. false;
  deep_networking = λ a b. false;
  deep_options = λ a b. false;
}

abbrev missing : Error
missing = message (b'?' ∷ [])

abbrev pub sample_env : Env
sample_env = record {
  winrm = λ h r c. record { stdout = b'{' ∷ []; stderr = []; err = none };
  decode_vm = λ s. some sample_vm;
  decode_vm_ids = λ s. some (record { error = []; vm_ids = (b'a' ∷ []) ∷ (b'b' ∷ []) ∷ [] });
  decode_vm_spec =
      λ s. some (record { spec = sample_spec; error = []; script_errors = []; message = [] });
  marshal_disks = λ d. ok [];
  marshal_options = λ o. ok [];
  marshal_devices = λ d. ok [];
  marshal_fibre_channel = λ f. ok [];
  marshal_properties = λ p. ok [];
  marshal_spec = λ s. ok [];
  marshal_meta = λ m. ok [];
  get_machine = λ h n m. ok sample_machine;
  get_disk = λ h n d. ok (disk_named d);
  get_disk_pool = λ h n d. ok sample_pool;
  list_disks = λ h s. ok [];
  get_name_pool = λ h n p. err missing;
  list_machines = λ h n. ok (sample_machine ∷ []);
  get_claim = λ h n c. err missing;
  get_address = λ h n a. err missing;
  get_secret_value = λ h n s. err missing;
  get_scvmm_cluster = λ h n c. err missing;
  patch_machine = λ h m. none;
  update_disk = λ h d. none;
  update_disk_status = λ h d. none;
  create_disk = λ h d. none;
  update_pool_status = λ h p. none;
  apply_claim = λ h c. ok (c, true);
  update_claim = λ h c. none;
  patch_helper_error = λ m. none;
  get_owner_machine = λ h m. ok none;
  get_cluster = λ h m. ok none;
  is_paused = λ c m. false;
  has_paused = λ m. false;
  contains_finalizer = λ fs f. true;
  add_finalizer = λ fs f. f ∷ fs;
  remove_finalizer = λ fs f. [];
  ensure_owner_ref = λ os o. o ∷ os;
  remove_owner_ref = λ os o. [];
  selector_error = λ s. none;
  set_condition = λ cs c. c ∷ cs;
  set_aggregate_condition = λ ds cs. cs;
  winrm_providers = λ h r. none;
  execute_template = λ t m. ok t;
  marshal_metadata = λ m. ok [];
  marshal_network_data = λ m. ok [];
  smb_create = λ h t. none;
  smb_write = λ h t f d fs. none;
  rounds = 200;
  sprintf_int = λ f i. f;
  error_text = λ e. [];
  spec_equality = all_different;
}
