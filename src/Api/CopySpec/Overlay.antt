-- ===== src/Api/CopySpec/Overlay.antt =====
-- What `CopyNonZeroTo` leaves in its target.
use cluster_api_provider_scv.Base.{
  ℕ, Str, str_eq, str_eq→≡, Bool, true, not, ◌&&◌, Option, none, some, List, [], ◌∷◌, ◌==◌, is_some,
  is_empty, if◌then◌else◌, ◌≡◌, refl, arith, Bool-cases, inl, inr, sym,
}
use cluster_api_provider_scv.Api.Machine.{
  Slice, items, VmDisk, Networking, VmOptions, ScvmmMachineSpec,
}
use cluster_api_provider_scv.Api.CopySpec.{
  SpecEquality, disks_equal, vm_disk_equals, copy_non_zero_to,
}

-- The values after the copy, for a text, a number and a pointer.
abbrev pub or_text : Str → Str → Str
or_text [] b = b
or_text (c ∷ s) b = c ∷ s

abbrev pub or_number : ℕ → ℕ → ℕ
or_number a b = if a == 0 then b else a

abbrev pub or_pointer {ℓ} : {A : Type ℓ} → Option A → Option A → Option A
or_pointer none b = b
or_pointer (some a) b = some a

copied_text : (a b : Str) → (if not (is_empty a) && not (str_eq a b) then a else b) ≡ or_text a b
copied_text [] b = refl
copied_text (c ∷ s) b = elim (Bool-cases (str_eq (c ∷ s) b)) [
  | inl h ↦ rw h (sym (str_eq→≡ (c ∷ s) b h))
  | inr h ↦ rw h refl
]

copied_number : (a b : ℕ) → (if not (a == 0) && not (a == b) then a else b) ≡ or_number a b
copied_number a b = ground arith

copied_pointer {ℓ} :
    {A : Type ℓ} (same : Option A → Option A → Bool) (a b : Option A)
    → (same a b ≡ true → a ≡ b)
    → (if is_some a && not (same a b) then a else b) ≡ or_pointer a b
copied_pointer same none b h = refl
copied_pointer same (some x) b h = elim (Bool-cases (same (some x) b)) [
  | inl e ↦ rw e (sym (h e))
  | inr e ↦ rw e refl
]

disks_equal→≡ :
    (eq : SpecEquality)
    → ((a b : VmDisk) → eq.same_disk a b ≡ true → a ≡ b)
    → (l r : List VmDisk) → disks_equal eq l r ≡ true
    → l ≡ r
unfolding disks_equal
disks_equal→≡ eq h [] [] e = refl
disks_equal→≡ eq h [] (b ∷ r) e = absurd (ground arith)
disks_equal→≡ eq h (a ∷ l) [] e = absurd (ground arith)
disks_equal→≡ eq h (a ∷ l) (b ∷ r) e =
    let head : eq.same_disk a b ≡ true = ground arith in
    let tail = disks_equal→≡ eq h l r (ground arith) in rw (h a b head, tail) refl

-- The disks are taken from the source only where they are equal already, so the slots of the target
-- stay; a nil list may become an empty one.
copied_disks :
    (eq : SpecEquality)
    → ((a b : VmDisk) → eq.same_disk a b ≡ true → a ≡ b)
    → (n out : Slice VmDisk)
    → items (if is_some n && vm_disk_equals eq n out then n else out) ≡ items out
unfolding vm_disk_equals
copied_disks eq h none out = refl
copied_disks eq h (some []) none = refl
copied_disks eq h (some (a ∷ l)) none = refl
copied_disks eq h (some l) (some r) = elim (Bool-cases (disks_equal eq l r)) [
  | inl e ↦ rw e (disks_equal→≡ eq h l r e)
  | inr e ↦ rw e refl
]

-- Comparisons that find only equal values equal.
pub record IsLawful (eq : SpecEquality) : Type 0 where
  pub disk : (a b : VmDisk) → eq.same_disk a b ≡ true → a ≡ b
  pub memory : (a b : Option ℕ) → eq.same_memory a b ≡ true → a ≡ b
  pub networking : (a b : Option Networking) → eq.deep_networking a b ≡ true → a ≡ b
  pub options : (a b : Option VmOptions) → eq.deep_options a b ≡ true → a ≡ b

module _ (eq : SpecEquality) (lawful : IsLawful eq) (n out : ScvmmMachineSpec) where
  -- The target with the values of the source that are not zero, its own disks and its other fields.
  abbrev pub overlay : ScvmmMachineSpec
  overlay = record out {
    cloud = or_text n.cloud out.cloud;
    host_group = or_text n.host_group out.host_group;
    vm_name = or_text n.vm_name out.vm_name;
    vm_template = or_text n.vm_template out.vm_template;
    disks = (copy_non_zero_to eq n out).0.disks;
    cpu_count = or_number n.cpu_count out.cpu_count;
    memory = or_pointer n.memory out.memory;
    hardware_profile = or_text n.hardware_profile out.hardware_profile;
    networking = or_pointer n.networking out.networking;
    availability_set = or_text n.availability_set out.availability_set;
    vm_options = or_pointer n.vm_options out.vm_options;
  }

  -- For comparisons that find only equal values equal, copy_non_zero_to leaves the target with
  -- each of ten fields from the source where that is not zero and from the target otherwise, with
  -- its other fields, and with the slots of its own disks.
  pub copy_non_zero_to-overlay :
      ((copy_non_zero_to eq n out).0 ≡ overlay)
      × (items (copy_non_zero_to eq n out).0.disks ≡ items out.disks)
  unfolding copy_non_zero_to
  copy_non_zero_to-overlay = (
    rw
        (
          copied_text n.cloud out.cloud,
          copied_text n.host_group out.host_group,
          copied_text n.vm_name out.vm_name,
          copied_text n.vm_template out.vm_template,
          copied_number n.cpu_count out.cpu_count,
          copied_pointer eq.same_memory n.memory out.memory (lawful.memory n.memory out.memory),
          copied_text n.hardware_profile out.hardware_profile,
          copied_pointer eq.deep_networking n.networking out.networking
              (lawful.networking n.networking out.networking),
          copied_text n.availability_set out.availability_set,
          copied_pointer eq.deep_options n.vm_options out.vm_options
              (lawful.options n.vm_options out.vm_options),
        )
        refl,
    copied_disks eq lawful.disk n.disks out.disks,
  )
