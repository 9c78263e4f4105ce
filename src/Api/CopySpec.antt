-- ===== src/Api/CopySpec.antt =====
-- `CopyNonZeroTo` and `VmDiskEquals` of api/v1alpha1/scvmmmachine_types.go. Go's `!=` on `*Quantity`
-- and on a `VmDisk`, which holds pointers, compares addresses, which values do not show: those two
-- comparisons are parameters, as are `reflect.DeepEqual` on the networking and on the options.
pub mod Overlay
use cluster_api_provider_scv.Base.{
  ℕ, Str, str_eq, Bool, true, false, not, ◌&&◌, ◌||◌, Option, none, some, List, [], ◌∷◌, ◌==◌,
  is_some, is_empty, if◌then◌else◌,
}
use cluster_api_provider_scv.Api.Machine.{Slice, VmDisk, Networking, VmOptions, ScvmmMachineSpec}

pub record SpecEquality : Type 0 where
  pub same_disk : VmDisk → VmDisk → Bool
  pub same_memory : Option ℕ → Option ℕ → Bool
  pub deep_networking : Option Networking → Option Networking → Bool
  pub deep_options : Option VmOptions → Option VmOptions → Bool

module _ (eq : SpecEquality) where
  open eq use {same_disk, same_memory, deep_networking, deep_options}

  -- The loop of `VmDiskEquals` after the lengths are found equal.
  unfoldable pub disks_equal : List VmDisk → List VmDisk → Bool
  disks_equal [] [] = true
  disks_equal [] (b ∷ r) = false
  disks_equal (a ∷ l) [] = false
  disks_equal (a ∷ l) (b ∷ r) = same_disk a b && disks_equal l r

  -- A nil left side equals only nil; `len(nil)` is 0, so an empty left side equals nil too.
  unfoldable pub vm_disk_equals : Slice VmDisk → Slice VmDisk → Bool
  unfolding disks_equal
  vm_disk_equals none right = not (is_some right)
  vm_disk_equals (some l) none = is_empty l
  vm_disk_equals (some l) (some r) = disks_equal l r

  unfoldable pub copy_non_zero_to : ScvmmMachineSpec → ScvmmMachineSpec → ScvmmMachineSpec × Bool
  unfolding vm_disk_equals
  copy_non_zero_to n out =
      let cloud = not (is_empty n.cloud) && not (str_eq n.cloud out.cloud) in
      let group = not (is_empty n.host_group) && not (str_eq n.host_group out.host_group) in
      let name = not (is_empty n.vm_name) && not (str_eq n.vm_name out.vm_name) in
      let template = not (is_empty n.vm_template) && not (str_eq n.vm_template out.vm_template) in
      let disks = is_some n.disks && vm_disk_equals n.disks out.disks in
      let cpu = not (n.cpu_count == 0) && not (n.cpu_count == out.cpu_count) in
      let memory = is_some n.memory && not (same_memory n.memory out.memory) in
      let profile =
        not (is_empty n.hardware_profile) && not (str_eq n.hardware_profile out.hardware_profile) in
      let network = is_some n.networking && not (deep_networking n.networking out.networking) in
      let avail =
        not (is_empty n.availability_set) && not (str_eq n.availability_set out.availability_set) in
      let options = is_some n.vm_options && not (deep_options n.vm_options out.vm_options) in
      (
        record out {
          cloud = if cloud then n.cloud else out.cloud;
          host_group = if group then n.host_group else out.host_group;
          vm_name = if name then n.vm_name else out.vm_name;
          vm_template = if template then n.vm_template else out.vm_template;
          disks = if disks then n.disks else out.disks;
          cpu_count = if cpu then n.cpu_count else out.cpu_count;
          memory = if memory then n.memory else out.memory;
          hardware_profile = if profile then n.hardware_profile else out.hardware_profile;
          networking = if network then n.networking else out.networking;
          availability_set = if avail then n.availability_set else out.availability_set;
          vm_options = if options then n.vm_options else out.vm_options;
        },
        cloud || group || name || template || disks || cpu || memory || profile || network || avail
            || options,
      )
