-- ===== src/Winrm/Worker/Returning.antt =====
-- The loop over the execution hosts ends with a value, whatever the hosts answer.
use cluster_api_provider_scv.Base.{
  ℕ, zero, suc, ◌+◌, ◌%◌, Str, Option, none, some, List, [], length, get_or,
}
use cluster_api_provider_scv.Api.Meta.{Error, Result, ok, err, panic, timeout}
use cluster_api_provider_scv.Api.Call.{Call, check, check_result, pure}
use cluster_api_provider_scv.Api.Call.Returns.{IsReturn}
use cluster_api_provider_scv.Api.Provider.{ScvmmProvider}
use cluster_api_provider_scv.Winrm.Event.{Env, World}
use cluster_api_provider_scv.Winrm.Connect.{create_winrm_cmd}
use cluster_api_provider_scv.Winrm.Hosts.{
  try_hosts, connect_provider, first_healthy, exec_hosts_of, set_status, exec_host_failed,
}
use cluster_api_provider_scv.Winrm.Connect.Returning.{Returns-create_winrm_cmd}

-- The call ends with a value.
abbrev pub IsOk : {A : Type 0} → Result A → Type 0
IsOk (ok a) = Unit
IsOk (err e) = ⊥
IsOk (panic s) = ⊥
IsOk timeout = ⊥

-- A call whose error is handled by calls that end with a value ends with one.
IsOk-check_result :
    {W A B : Type 0} (r : Result A × W) (g : Error → Call W B) (f : A → Call W B)
    → IsReturn r.0
    → ((e : Error) (w : W) → IsOk (g e w).0)
    → ((a : A) (w : W) → IsOk (f a w).0)
    → IsOk (check_result r g f).0
IsOk-check_result (ok a, w) g f h j k = k a w
IsOk-check_result (err e, w) g f h j k = j e w
IsOk-check_result (panic s, w) g f h j k = elim h [ ]
IsOk-check_result (timeout, w) g f h j k = elim h [ ]

module _ (error_text : Error → Str) (env : Env) where
  IsOk-try_hosts :
      (hosts : List Str) (idx i left : ℕ) (p : ScvmmProvider) (e : Option Error) (w : World)
      → IsOk (try_hosts error_text env hosts idx i left p e w).0
  unfolding try_hosts check pure
  IsOk-try_hosts hosts idx i zero p e w = tt
  IsOk-try_hosts hosts idx i (suc left) p e w =
      let host = get_or hosts ((i + idx) % length hosts) [] in
      IsOk-check_result (create_winrm_cmd env p.spec host w) _ _
        ((Returns-create_winrm_cmd env p.spec host).at w)
        (λ x v.
          IsOk-try_hosts hosts idx (suc i) left (set_status p host exec_host_failed (error_text x))
            (some x) v)
        (λ a v. tt)

  pub IsOk-connect_provider :
      (p : ScvmmProvider) (w : World) → IsOk (connect_provider error_text env p w).0
  unfolding connect_provider
  IsOk-connect_provider p w =
      let hosts = exec_hosts_of p.spec in
      IsOk-try_hosts hosts (first_healthy p.status 0 hosts) 0 (length hosts) p none w
