-- ===== src/Machine/CloudInit.antt =====
-- internal/controllers/helper_cloudinit.go: where the cloud-init file lies, what is in it, and its
-- writing. The SMB session is a parameter; the writers of the image are the modules under `Image`.
pub mod Attach
use cluster_api_provider_scv.Base.{
  ℕ, suc, Str, codes, str_eq, has_prefix, is_empty, Bool, true, false, not, ◌&&◌, ◌||◌, Option,
  none, some, List, [], ◌∷◌, ◌++◌, ltb, ◌==◌, any, drop, get_or, is_some, length, if◌then◌else◌,
}
use cluster_api_provider_scv.Base.Decimal.{show}
use cluster_api_provider_scv.Api.Meta.{Error, message, Result, find_key, put_key}
use cluster_api_provider_scv.Api.Provider.{ScvmmProviderReference, ScvmmProviderSpec}
use cluster_api_provider_scv.Api.Machine.{Networking, NetworkDevice, ScvmmMachine}
use cluster_api_provider_scv.Scvmm.Command.{get_library_share}
use cluster_api_provider_scv.Scvmm.Answer.{VmResult}
use cluster_api_provider_scv.Machine.Event.{
  read, provider_kind, created_cloud_init, wrote_cloud_init, removed_cloud_init,
}
use cluster_api_provider_scv.Machine.Env.{Env, CloudInitFile, CloudInitEthernet, SmbTarget}
use cluster_api_provider_scv.Machine.Send.{send_vm, the_provider}
use cluster_api_provider_scv.Machine.Action.{
  Action, pure, raise, lift, ask, get_machine, emit, write, on_option, check, ◌>>=◌, ◌>>◌,
}

abbrev backslash : ℕ
backslash = b'\\'

-- `cloudInitDeviceTypeExtensions`
unfoldable pub extension_of : Str → Option Str
extension_of t = find_key t (
    ([], codes "iso")
    ∷ (codes "dvd", codes "iso")
    ∷ (codes "floppy", codes "vfd")
    ∷ (codes "scsi", codes "vhdx")
    ∷ (codes "ide", codes "vhdx")
    ∷ [])

-- The keys of `FilesystemHandlers` and of `DeviceHandlers`, which the `init` functions fill.
unfoldable pub has_filesystem : Str → Bool
has_filesystem t = any (str_eq t) (codes "vfat" ∷ codes "iso9660" ∷ [] ∷ [])

unfoldable pub has_device : Str → Bool
has_device t =
    any (str_eq t)
      ([] ∷ codes "dvd" ∷ codes "floppy" ∷ codes "vhd" ∷ codes "ide" ∷ codes "scsi" ∷ [])

-- `strings.Split` at one character: the first part and the others.
unfoldable pub split_at : ℕ → Str → Str × List Str
split_at c [] = ([], [])
split_at c (a ∷ s) =
    let rest = split_at c s in if a == c then ([], rest.0 ∷ rest.1) else (a ∷ rest.0, rest.1)

unfoldable pub split : ℕ → Str → List Str
unfolding split_at
split c s = (split_at c s).0 ∷ (split_at c s).1

-- `strings.Join` with one character.
unfoldable pub join : ℕ → List Str → Str
join c [] = []
join c (s ∷ ss) = s ++ (if is_empty ss then [] else c ∷ join c ss)

-- `baseName`: what stands behind the last slash or backslash.
unfoldable pub base_name : Str → Str
base_name [] = []
base_name (c ∷ s) =
    let rest = base_name s in
    if any (λ d. d == backslash || d == b'/') (c ∷ s)
    then (if any (λ d. d == backslash || d == b'/') s then rest else s)
    else c ∷ s

-- `strings.Cut` at one character.
unfoldable pub cut : ℕ → Str → Option (Str × Str)
unfolding split_at
cut c s = if any (λ d. d == c) s then some ((split_at c s).0, join c (split_at c s).1) else none

-- `domain\user` or `user@domain`, as the domain and the user.
unfoldable pub smb_account : Str → Str × Str
unfolding cut
smb_account name = elim (cut backslash name) [
  | some p ↦ p
  | none ↦ elim (cut b'@' name) [ none ↦ ([], name) | some q ↦ (q.1, q.0) ]
]

-- A share path `\\host\share\path…`.
unfoldable pub share_target : Str → Str → Option SmbTarget
unfolding split join smb_account
share_target path user =
    let parts = split backslash path in
    if ltb (length parts) 5
      || (not (is_empty (get_or parts 0 [])) || not (is_empty (get_or parts 1 [])))
    then none
    else some (record {
      host = get_or parts 2 [];
      share = get_or parts 3 [];
      path = join b'/' (drop 4 parts);
      domain = (smb_account user).0;
      user = (smb_account user).1;
    })

unfoldable pub vm_needs_cloud_init : Str → ScvmmMachine → VmResult → Bool
unfolding base_name
vm_needs_cloud_init path m vm =
    let wanted : Bool = elim (m.spec.bootstrap) [
      | none ↦ true
      | some b ↦ is_some b.data_secret_name
    ] in
    wanted
    && (not (any (λ i. str_eq i.filename (base_name path)) vm.isos)
        && not (any (λ d. str_eq d.filename (base_name path)) vm.virtual_disks))

unfoldable pub render_hostname : Env → ScvmmMachine → Result Str
render_hostname env m =
    env.execute_template
      (if is_empty m.spec.hostname
        then codes
            "{{ regexReplaceAll \"\\\\..*)$\" .spec.vmName \"\" }}.{{ .spec.networking.domain }}"
        else m.spec.hostname)
      m

-- The map of `meta-data`, with the machine's own entries last.
unfoldable pub put_all : List (Str × Str) → List (Str × Str) → List (Str × Str)
put_all [] m = m
put_all ((k, v) ∷ more) m = put_all more (put_key k v m)

unfoldable pub metadata_object : Str → Str → List (Str × Str) → List (Str × Str)
unfolding put_all
metadata_object machine_id hostname extra = put_all extra (
    (codes "instance-id", machine_id)
    ∷ (codes "hostname", hostname)
    ∷ (codes "local-hostname", hostname)
    ∷ [])

unfoldable pub ethernets :
    ℕ → List NetworkDevice → List (Str × CloudInitEthernet) → List (Str × CloudInitEthernet)
ethernets slot [] m = m
ethernets slot (d ∷ ds) m = ethernets (suc slot) ds (
    put_key (if is_empty d.device_name then codes "eth" ++ show slot else d.device_name)
      (record {
        addresses = d.ip_addresses;
        gateway4 = d.gateway;
        nameservers = record { addresses = d.nameservers; search_domains = d.search_domains };
      })
      m)

unfoldable pub cloud_init_files : Str → Str → Option Str → List CloudInitFile
cloud_init_files meta user network =
    record { filename = codes "meta-data"; contents = meta }
    ∷ record { filename = codes "user-data"; contents = user }
    ∷ (elim network [
      | none ↦ []
      | some n ↦ record { filename = codes "network-config"; contents = n } ∷ []
    ])

module _ (env : Env) where
  -- `getProvider`, from the cache that the provider controller fills.
  unfoldable pub get_provider : Option ScvmmProviderReference → Action ScvmmProviderSpec
  get_provider ref =
      ask (λ h. env.winrm_providers h (the_provider ref))
        (λ p. read provider_kind (the_provider ref).namespace (the_provider ref).name)
      >>= λ p.
          on_option p
            (raise (
              message (
                codes "ScvmmProvider "
                ++ ((the_provider ref).namespace
                    ++ (codes "/" ++ ((the_provider ref).name ++ codes " not found"))))))
            (λ q. pure q.spec)

  unfoldable pub cloud_init_path : ScvmmProviderSpec → Action Str
  unfolding extension_of
  cloud_init_path provider = do
    m ← get_machine
    on_option (extension_of provider.cloud_init.device_type)
        (raise (message (codes "Unknown devicetype " ++ provider.cloud_init.device_type)))
        (λ extension.
          (if has_prefix provider.cloud_init.library_share (backslash ∷ backslash ∷ [])
            then pure provider.cloud_init.library_share
            else (send_vm env m.spec.provider_ref get_library_share >>= λ res.
                if is_empty res.result
                then raise (message (codes "GetLibraryShare returned nothing"))
                else pure (res.result ++ (backslash ∷ provider.cloud_init.library_share))))
          >>= λ share.
              pure (share ++ (backslash ∷ (m.spec.vm_name ++ (codes "_cloud-init." ++ extension)))))

  -- The three files. An empty list of devices stands for a nil one.
  unfoldable pub make_files : Str → Str → Action (List CloudInitFile)
  unfolding cloud_init_files metadata_object ethernets render_hostname
  make_files machine_id user_data = do
    m ← get_machine
    hostname ← lift (render_hostname env m)
    meta ← lift (env.marshal_metadata (metadata_object machine_id hostname m.spec.metadata))
    on_option m.spec.networking (pure (cloud_init_files meta user_data none)) (λ n.
        if is_empty n.devices
        then pure (cloud_init_files meta user_data none)
        else lift (env.marshal_network_data (ethernets 0 n.devices [])) >>= λ network.
            pure (cloud_init_files meta user_data (some network)))

  unfoldable pub fill_file : ScvmmProviderSpec → SmbTarget → Str → Str → Action (Unit {0})
  unfolding make_files has_filesystem has_device
  fill_file provider target machine_id user_data = do
    files ← make_files machine_id user_data
    if has_filesystem provider.cloud_init.file_system
        then (if has_device provider.cloud_init.device_type
            then write
                (λ h.
                  env.smb_write h target provider.cloud_init.file_system
                    provider.cloud_init.device_type files)
                (wrote_cloud_init target.path)
            else raise (message (codes "Unknown device type " ++ provider.cloud_init.device_type)))
        else raise (message (codes "Unknown filesystem " ++ provider.cloud_init.file_system))

  -- `writeCloudInit`: a file that was created is removed again if its writing fails.
  unfoldable pub write_cloud_init : ScvmmProviderSpec → Str → Str → Str → Action (Unit {0})
  unfolding share_target fill_file
  write_cloud_init provider machine_id path user_data =
      on_option (share_target path provider.scvmm_username)
        (raise (message (codes "malformed library share path " ++ path)))
        (λ target.
          write (λ h. env.smb_create h target) (created_cloud_init target.path)
          >> check (fill_file provider target machine_id user_data)
              (λ e. emit (removed_cloud_init target.path) >> raise e) pure)
