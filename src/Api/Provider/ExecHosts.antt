-- ===== src/Api/Provider/ExecHosts.antt =====
-- The statuses of the execution hosts, read after a write.
use cluster_api_provider_scv.Base.{
  Str, str_eq, str_eq→≡, false, some, List, [], ◌∷◌, ◌≡◌, refl, arith, if◌then◌else◌, Bool-cases,
  inl, inr,
}
use cluster_api_provider_scv.Api.Provider.{
  ScvmmExecHostStatus, ScvmmProviderStatus, find_host, put_host, get_exec_host_status,
  set_exec_host_status,
}

find_host-put_host :
    (h st m k : Str) (l : List ScvmmExecHostStatus)
    → find_host k (put_host h st m l)
      ≡ (if str_eq h k then some (record { host = h; status = st; message = m }) else find_host k l)
unfolding find_host put_host
find_host-put_host h st m k [] = refl
find_host-put_host h st m k (s ∷ l) = elim (Bool-cases (str_eq s.host h)) [
  | inl e ↦ let same = str_eq→≡ s.host h e in rw (e, same) (ground arith)
  | inr e ↦
      rw (e, find_host-put_host h st m k l)
        (elim (Bool-cases (str_eq h k)) [
          | inl a ↦
              let other : str_eq s.host k ≡ false = rw (← (str_eq→≡ h k a)) e in rw (a, other) refl
          | inr a ↦ rw a refl
        ])
]

-- After set_exec_host_status for one host, get_exec_host_status gives for that host the status and
-- the message that were set, and for every other host what it gave before.
pub get_exec_host_status-set_exec_host_status :
    (sts : ScvmmProviderStatus) (h st m k : Str)
    → get_exec_host_status (set_exec_host_status sts h st m) k ≡ (
        if str_eq h k
        then some (record { host = h; status = st; message = m })
        else get_exec_host_status sts k)
unfolding get_exec_host_status set_exec_host_status
get_exec_host_status-set_exec_host_status sts h st m k = find_host-put_host h st m k sts.exec_hosts
