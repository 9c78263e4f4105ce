-- ===== src/Tests.antt =====
-- The theorems at concrete inputs.
mod Caching
mod Clusters
mod Disks
mod Images
mod Sample
mod Workers
use cluster_api_provider_scv.Base.{
  ℕ, ◌<◌, ◌≤◌, Str, codes, Bool, true, false, Option, none, some, List, [], ◌∷◌, ◌++◌, ◌≡◌, ◌≢◌,
  refl, arith, All, length, ap, inl, inr, ◌↔◌, ◌+◌, ◌*◌, suc, not, any, if◌then◌else◌, str_ltb, map,
  sym, str_eq,
}
use cluster_api_provider_scv.Api.Meta.{OwnerReference, Result, ok, script_error, Error}
use cluster_api_provider_scv.Api.Machine.{items}
use cluster_api_provider_scv.Api.NamePool.{VmNameRange, ScvmmPoolCounts}
use cluster_api_provider_scv.Base.Int.{pos}
use cluster_api_provider_scv.Base.Decimal.{parse}
use cluster_api_provider_scv.Api.CopySpec.{copy_non_zero_to}
use cluster_api_provider_scv.Api.CopySpec.Overlay.{IsLawful, overlay, copy_non_zero_to-overlay}
use cluster_api_provider_scv.Names.Increment.{increment_string, bumps}
use cluster_api_provider_scv.Names.Carry.{increment_carry, increment_carry_lem}
use cluster_api_provider_scv.Names.Rank.{rank, capacity, radix, last, top, rank-increment_string}
use cluster_api_provider_scv.Names.Range.{
  range_ends, lt-increment_string, range_terminates, range_diverges,
}
use cluster_api_provider_scv.Scvmm.Escape.{escape_single_quotes, escape_single_quotes_array, quote}
use cluster_api_provider_scv.Scvmm.Escape.Quoting.{
  read_quoted, read_quoted-escape_single_quotes, quoted_array,
  escape_single_quotes_array-repeats_first,
}
use cluster_api_provider_scv.Machine.Emits.{Emits, Extends}
use cluster_api_provider_scv.Machine.Gives.{Post}
use cluster_api_provider_scv.Machine.Action.{Action, World, check, ask, lift, raise, pure, ◌>>=◌}
use cluster_api_provider_scv.Machine.Event.{History}
use cluster_api_provider_scv.Machine.Send.{
  vm_ids_by_name, send_vm, send_vm_ids, read_answer, read_decoded,
}
use cluster_api_provider_scv.Machine.Disks.{vm_has_persistent_disks, claimed_disk}
use cluster_api_provider_scv.Api.PersistentDisk.{ScvmmPersistentDisk}
use cluster_api_provider_scv.Machine.Reason.{
  CtrlResult, patch_reason_condition, finish_reason, next_backoff,
}
use cluster_api_provider_scv.Machine.Reason.Bounds.{smaller}
use cluster_api_provider_scv.Machine.Reason.Repeated.{Waits, after_calls, call-Waits}
use cluster_api_provider_scv.Machine.Reason.Answer.{IsAnswer, patch_reason_condition-IsAnswer}
use cluster_api_provider_scv.Machine.DiskClaim.{
  index_of_name, new_disk, with_index, sort_disks, pick_disk, machine_owner, after_last_dash,
  parse_int, index_of_part, is_skipped,
}
use cluster_api_provider_scv.Machine.DiskClaim.Index.{index_of_name-new_disk}
use cluster_api_provider_scv.Machine.DiskClaim.Pick.{
  IsClaimable, pick_disk-IsClaimable, pick_disk-new_index,
}
use cluster_api_provider_scv.Machine.NamePool.{Owners, search_ranges, Search, release_names}
use cluster_api_provider_scv.Machine.NamePool.Counts.{search_ranges-Post, IsConsistent}
use cluster_api_provider_scv.Machine.NamePool.Release.{others, held, released, release_names_lem}
use cluster_api_provider_scv.Machine.Steps.{equal_string_map, start_machine}
use cluster_api_provider_scv.Machine.Steps.Properties.{Includes, equal_string_map_iff}
use cluster_api_provider_scv.Machine.Delete.Finalizer.{has_finalizer, reconcile_delete-Kept}
use cluster_api_provider_scv.Machine.Holds.{Kept}
use cluster_api_provider_scv.Machine.Words.{removed}
use cluster_api_provider_scv.Scvmm.Answer.{VmResult}
use cluster_api_provider_scv.Scvmm.Command.{remove_vm}
use cluster_api_provider_scv.Api.Provider.{
  ScvmmProviderReference, ScvmmProviderStatus, get_exec_host_status, set_exec_host_status,
}
use cluster_api_provider_scv.Api.Provider.ExecHosts.{get_exec_host_status-set_exec_host_status}
use cluster_api_provider_scv.Machine.Delete.{reconcile_delete}
use cluster_api_provider_scv.Machine.Reconcile.{reconcile_found}
use cluster_api_provider_scv.Machine.Commands.{
  by_command, is_live_command, is_deletion_command, is_detaching_command, is_not_start,
}
use cluster_api_provider_scv.Machine.Commands.Whole.{command_of, reconcile_found-Extends}
use cluster_api_provider_scv.Machine.Commands.Guards.{
  reconcile_delete-detaches, start_machine-guarded, same_name_answer,
}
use cluster_api_provider_scv.Tests.Sample.{
  sample_env, sample_world, sample_machine, sample_pool, sample_spec, all_different, disk_named,
}

-- Names.
abbrev name_z9 : Str
name_z9 = b'z' ∷ b'9' ∷ []

increment_carry_lem_example :
    increment_carry name_z9 ≡ (increment_string name_z9, not (any bumps name_z9))
increment_carry_lem_example = increment_carry_lem name_z9

rank-increment_string_example :
    rank (increment_string name_z9) ≡ (if any bumps name_z9 then rank name_z9 + 1 else 0)
rank-increment_string_example = rank-increment_string name_z9

lt-increment_string_example : str_ltb name_z9 (increment_string name_z9) ≡ any bumps name_z9
lt-increment_string_example = lt-increment_string name_z9

abbrev name_00 : Str
name_00 = b'0' ∷ b'0' ∷ []

abbrev name_98 : Str
name_98 = b'9' ∷ b'8' ∷ []

abbrev name_99 : Str
name_99 = b'9' ∷ b'9' ∷ []

before_last : str_ltb name_98 (last name_00) ≡ true
unfolding str_ltb last top
before_last = refl

range_terminates_example : range_ends (suc (capacity name_00)) name_98 name_00 ≡ true
range_terminates_example = range_terminates name_98 name_00 before_last

at_last : str_ltb name_99 (last name_00) ≡ false
unfolding str_ltb last top
at_last = refl

range_diverges_example : range_ends 1000 name_99 name_00 ≡ false
range_diverges_example = range_diverges 1000 name_99 name_00 refl at_last

-- Texts for PowerShell.
abbrev with_quote : Str
with_quote = b'i' ∷ quote ∷ b's' ∷ []

-- A typographic quote is not doubled, and its text is not read back.
typographic_lost : read_quoted false (escape_single_quotes (0x2018 ∷ []) ++ (quote ∷ [])) ≡ none
unfolding read_quoted escape_single_quotes
typographic_lost = refl

read_quoted-escape_single_quotes_example :
    read_quoted false (escape_single_quotes with_quote ++ (quote ∷ [])) ≡ some (with_quote, [])
read_quoted-escape_single_quotes_example = read_quoted-escape_single_quotes with_quote [] refl tt

escape_single_quotes_array-repeats_first_example :
    escape_single_quotes_array (name_00 ∷ name_98 ∷ []) ≡ quoted_array (name_00 ∷ name_00 ∷ [])
escape_single_quotes_array-repeats_first_example =
    escape_single_quotes_array-repeats_first name_00 (name_98 ∷ [])

-- The specification that a script sends back.
all_different-IsLawful : IsLawful all_different
all_different-IsLawful = record {
  disk = λ a b h. absurd (ground arith);
  memory = λ a b h. absurd (ground arith);
  networking = λ a b h. absurd (ground arith);
  options = λ a b h. absurd (ground arith);
}

copy_non_zero_to-overlay_example :
    ((copy_non_zero_to all_different sample_spec sample_spec).0
      ≡ overlay all_different all_different-IsLawful sample_spec sample_spec)
    × (items (copy_non_zero_to all_different sample_spec sample_spec).0.disks
        ≡ items sample_spec.disks)
copy_non_zero_to-overlay_example =
    copy_non_zero_to-overlay all_different all_different-IsLawful sample_spec sample_spec

-- The execution hosts.
abbrev no_hosts : ScvmmProviderStatus
no_hosts = record { exec_hosts = [] }

get_exec_host_status-set_exec_host_status_example :
    get_exec_host_status (set_exec_host_status no_hosts name_00 name_98 []) name_99 ≡ (
      if str_eq name_00 name_99
      then some (record { host = name_00; status = name_98; message = [] })
      else get_exec_host_status no_hosts name_99)
get_exec_host_status-set_exec_host_status_example =
    get_exec_host_status-set_exec_host_status no_hosts name_00 name_98 [] name_99

-- Waiting.
abbrev failed : Str
failed = b'f' ∷ []

abbrev fresh_world : World
fresh_world = record sample_world {
  machine = record sample_machine { status = record sample_machine.status { backoff = none } };
}

abbrev failing : Action CtrlResult
failing = patch_reason_condition sample_env 10 none failed failed []

call-Waits_example :
    Waits sample_env 10 failed failed []
      (smaller (10 + 10 * 3) 600)
      3
      (after_calls failing 3 fresh_world)
      (failing (after_calls failing 3 fresh_world))
call-Waits_example =
    call-Waits sample_env 10 failed failed [] fresh_world refl 3 (omega arith) (omega arith) refl
      (omega arith)

abbrev script_failure : Error
script_failure = script_error failed failed

patch_reason_condition-IsAnswer_example :
    IsAnswer
      (some script_failure)
      failed
      (patch_reason_condition sample_env 0 (some script_failure) failed failed [] sample_world).0
patch_reason_condition-IsAnswer_example =
    patch_reason_condition-IsAnswer sample_env 0 (some script_failure) failed failed [] sample_world
      (omega arith) (omega arith)

-- Persistent disks.
index_of_name-new_disk_example :
    index_of_name (new_disk sample_env sample_machine sample_pool 3).meta.name ≡ 3
index_of_name-new_disk_example =
    index_of_name-new_disk sample_env sample_machine sample_pool 3 (omega arith)

abbrev owner : OwnerReference
owner = machine_owner sample_machine false

abbrev disks : List ScvmmPersistentDisk
disks = disk_named (b'p' ∷ b'-' ∷ b'1' ∷ []) ∷ []

picked : pick_disk owner [] 4 1 disks ≡ (some (disk_named (b'p' ∷ b'-' ∷ b'1' ∷ [])), 1)
unfolding pick_disk
picked = refl

pick_disk-IsClaimable_example :
    (passed : List ScvmmPersistentDisk) × (rest : List ScvmmPersistentDisk) × (disks
      ≡ passed ++ (disk_named (b'p' ∷ b'-' ∷ b'1' ∷ []) ∷ rest))
    × IsClaimable owner [] 4 (disk_named (b'p' ∷ b'-' ∷ b'1' ∷ []))
    × All (λ e. is_skipped owner [] 4 e ≡ true) passed
pick_disk-IsClaimable_example =
    pick_disk-IsClaimable owner [] 4 1 1 (disk_named (b'p' ∷ b'-' ∷ b'1' ∷ [])) disks picked

-- A disk that is being deleted.
abbrev leaving : ScvmmPersistentDisk
leaving =
    let d = disk_named (b'p' ∷ b'-' ∷ b'1' ∷ []) in
    record d { meta = record (d.meta) { deleting = true } }

none_picked : pick_disk owner [] 4 1 (sort_disks (map with_index (leaving ∷ []))) ≡ (none, 2)
unfolding pick_disk sort_disks with_index index_of_name index_of_part after_last_dash parse_int
    parse
none_picked = refl

pick_disk-new_index_example : (1 ≤ 2) × All (λ d. index_of_name d.meta.name ≢ 2) (leaving ∷ [])
pick_disk-new_index_example = pick_disk-new_index owner [] 4 2 (leaving ∷ []) none_picked

-- Name pools.
abbrev ranges : List VmNameRange
ranges = record { start = name_00; end = name_98; postfix = [] } ∷ []

abbrev start_search : Search
start_search = record { name = []; owners = []; total = 0; free = 0; used = 0 }

enough_rounds : capacity name_00 < 200
unfolding capacity radix
enough_rounds = omega arith

search_ranges-Post_example :
    Post
      (λ m. m.meta.name ≡ sample_machine.meta.name)
      (IsConsistent sample_machine.meta.name)
      (search_ranges sample_env ranges start_search sample_world)
search_ranges-Post_example =
    search_ranges-Post sample_env ranges start_search sample_world
      ((before_last, enough_rounds), tt) (refl, inl refl)

abbrev some_counts : ScvmmPoolCounts
some_counts = record { total = pos 3; free = pos 1; used = pos 2 }

abbrev some_owners : Owners
some_owners = (name_00, sample_machine.meta.name) ∷ (name_98, failed) ∷ []

release_names_lem_example :
    release_names (sample_machine ∷ []) sample_machine.meta.name some_owners (some some_counts) ≡ (
      others (sample_machine ∷ []) sample_machine.meta.name some_owners,
      some (
          released
            (sample_machine ∷ [])
            sample_machine.meta.name
            (held (sample_machine ∷ []) sample_machine.meta.name some_owners)
            some_counts),
    )
release_names_lem_example =
    release_names_lem (sample_machine ∷ []) sample_machine.meta.name some_owners some_counts

-- Commands.
equal_string_map_iff_example :
    (equal_string_map ((name_00, failed) ∷ []) ((name_98, []) ∷ (name_00, failed) ∷ []) ≡ true)
    ↔ Includes ((name_00, failed) ∷ []) ((name_98, []) ∷ (name_00, failed) ∷ [])
equal_string_map_iff_example =
    equal_string_map_iff ((name_00, failed) ∷ []) ((name_98, []) ∷ (name_00, failed) ∷ [])

reconcile_found-Extends_example :
    Extends
      (by_command (command_of sample_machine.meta.deleting))
      (reconcile_found sample_env sample_world).1.log
      []
reconcile_found-Extends_example = reconcile_found-Extends sample_env sample_world

has_a_disk : vm_has_persistent_disks sample_machine ≡ true
unfolding vm_has_persistent_disks claimed_disk
has_a_disk = refl

reconcile_delete-detaches_example :
    Extends (by_command is_detaching_command) (reconcile_delete sample_env sample_world).1.log []
reconcile_delete-detaches_example = reconcile_delete-detaches sample_env sample_world has_a_disk

abbrev message_of : Result VmResult → Str
message_of (ok vm) = vm.message
message_of _ = []

not_removed :
    (ref : Option ScvmmProviderReference) (id : Str) (w : World) (vm : VmResult)
    → (send_vm sample_env ref (remove_vm id) w).0 ≡ ok vm
    → str_eq vm.message removed ≡ false
unfolding send_vm ask lift read_answer read_decoded ◌>>=◌ codes str_eq
not_removed ref id w vm p = sym (ap (λ r. str_eq (message_of r) removed) p)

reconcile_delete-Kept_example :
    Kept (has_finalizer sample_env) (reconcile_delete sample_env sample_world).1 sample_world
reconcile_delete-Kept_example = reconcile_delete-Kept sample_env sample_world refl refl not_removed

abbrev ids_of : Result (List Str) → List Str
ids_of (ok ids) = ids
ids_of _ = []

two_answers : length (ids_of (same_name_answer sample_env sample_world)) ≡ 2
unfolding vm_ids_by_name send_vm_ids check ask lift raise pure read_answer read_decoded ◌>>=◌
two_answers = refl

two_at_least : (ids : List Str) → same_name_answer sample_env sample_world ≡ ok ids → 1 < length ids
two_at_least ids p = omega (arith, two_answers, ap (λ r. length (ids_of r)) p)

start_machine-guarded_example :
    Extends (by_command is_not_start) (start_machine sample_env sample_world).1.log []
start_machine-guarded_example = start_machine-guarded sample_env sample_world two_at_least
