-- ===== src/Winrm/Hosts.antt =====
-- The first half of `doWinrmWork`: the execution host that is tried first, the loop over the hosts,
-- and the status of the provider that it leaves.
pub mod Tried
use cluster_api_provider_scv.Base.{
  ℕ, zero, suc, ◌+◌, ◌%◌, Str, codes, str_eq, Bool, Option, none, some, List, [], ◌∷◌, map,
  if◌then◌else◌, is_empty, length, get_or,
}
use cluster_api_provider_scv.Api.Meta.{Error}
use cluster_api_provider_scv.Api.Call.{pure, asks, changes, check}
use cluster_api_provider_scv.Api.Provider.{
  ScvmmProvider, ScvmmProviderSpec, ScvmmProviderStatus, ScvmmExecHostStatus, get_exec_host_status,
  set_exec_host_status,
}
use cluster_api_provider_scv.Winrm.Event.{Env, Work, HostPatch, note, patched_status}
use cluster_api_provider_scv.Winrm.Connect.{create_winrm_cmd}

abbrev pub exec_host_ok : Str
unfolding codes
exec_host_ok = codes "OK"

abbrev pub exec_host_failed : Str
unfolding codes
exec_host_failed = codes "Failed"

-- Where no list is given, the one host of older resources.
unfoldable pub exec_hosts_of : ScvmmProviderSpec → List Str
exec_hosts_of spec = elim spec.exec_hosts [
  | none ↦ spec.exec_host ∷ []
  | some hosts ↦ if is_empty hosts then spec.exec_host ∷ [] else hosts
]

-- `stat == nil || stat.Status == ExecHostOK`
unfoldable pub is_healthy : ScvmmProviderStatus → Str → Bool
is_healthy sts host = elim (get_exec_host_status sts host) [
  | none ↦ Bool.true
  | some s ↦ str_eq s.status exec_host_ok
]

-- The index of the first host that is healthy; 0 where none is.
unfoldable pub first_healthy : ScvmmProviderStatus → ℕ → List Str → ℕ
unfolding is_healthy
first_healthy sts i [] = 0
first_healthy sts i (host ∷ hosts) =
    if is_healthy sts host then i else first_healthy sts (suc i) hosts

unfoldable pub set_status : ScvmmProvider → Str → Str → Str → ScvmmProvider
set_status p host st m = record p { status = set_exec_host_status p.status host st m }

-- `err.Error()`, whose text is the caller's.
module _ (error_text : Error → Str) where
  -- The loop with `left` hosts to try; the error is that of the last try.
  unfoldable pub try_hosts :
      Env
      → List Str
      → ℕ
      → ℕ
      → ℕ
      → ScvmmProvider
      → Option Error
      → Work (ScvmmProvider × Option Error)
  unfolding set_status
  try_hosts env hosts idx i zero p last = pure (p, last)
  try_hosts env hosts idx i (suc left) p last =
      let host = get_or hosts ((i + idx) % length hosts) [] in
      check (create_winrm_cmd env p.spec host)
        (λ e.
          try_hosts env hosts idx (suc i) left (set_status p host exec_host_failed (error_text e))
            (some e))
        (λ _. pure (set_status p host exec_host_ok [], none))

  -- The loop over all hosts, from the first healthy one with wraparound.
  unfoldable pub connect_provider : Env → ScvmmProvider → Work (ScvmmProvider × Option Error)
  unfolding exec_hosts_of first_healthy try_hosts
  connect_provider env p =
      let hosts = exec_hosts_of p.spec in
      try_hosts env hosts (first_healthy p.status 0 hosts) 0 (length hosts) p none

unfoldable pub host_patch : ScvmmExecHostStatus → HostPatch
host_patch s = record {
  host = s.host;
  status = s.status;
  message = if is_empty s.message then none else some s.message;
}

-- The patch of the status; its errors are only logged.
unfoldable pub patch_provider_status : Env → ScvmmProvider → Work (Unit {0})
unfolding host_patch
patch_provider_status env p =
    check (asks (λ w. env.new_client w.log)) (λ e. pure tt)
      (λ _.
        changes
          (note (patched_status p.meta.name p.meta.namespace (map host_patch p.status.exec_hosts))))
