-- ===== src/Winrm/Connect.antt =====
-- `createWinrmCmd` and the calls that it makes: a PowerShell session on an execution host.
pub mod Returning
use mathlib.Core.List.{reverse}
use cluster_api_provider_scv.Base.{
  ℕ, Str, codes, Bool, ◌||◌, [], ◌∷◌, ◌++◌, ◌==◌, leb, ◌&&◌, if◌then◌else◌, str_eq,
}
use cluster_api_provider_scv.Api.Meta.{Error, message, wrap}
use cluster_api_provider_scv.Api.Call.{pure, raise, exchange, asks, changes, ◌>>=◌, ◌>>◌, check}
use cluster_api_provider_scv.Api.Provider.{ScvmmProviderSpec}
use cluster_api_provider_scv.Winrm.Event.{
  Env, Work, Output, note, opened, sent, read_output, closed,
}
use cluster_api_provider_scv.Winrm.Script.{get_func_script}

-- `unicode.IsSpace`, of the characters below 256.
is_space : ℕ → Bool
is_space c = (leb 9 c && leb c 13) || (c == 32 || (c == 0x85 || c == 0xa0))

drop_spaces : Str → Str
unfolding is_space
drop_spaces [] = []
drop_spaces (c ∷ s) = if is_space c then drop_spaces s else c ∷ s

unfoldable pub trim_space : Str → Str
unfolding drop_spaces
trim_space s = reverse (drop_spaces (reverse (drop_spaces s)))

unfoldable pub send_text : Env → Str → Work (Unit {0})
send_text env text = exchange (λ w. env.send w.log text) (note (sent text))

unfoldable pub read_reply : Env → Work Output
read_reply env = exchange (λ w. env.read w.log) (note read_output)

-- `sendWinrmPing`
unfoldable pub send_winrm_ping : Env → Str → Work (Unit {0})
unfolding send_text read_reply trim_space
send_winrm_ping env what =
    check (send_text env (codes "Write-Host 'OK'"))
      (λ e. raise (wrap (what ++ codes ", Pinging") e))
      (λ _.
        check (read_reply env) (λ e. raise (wrap (what ++ codes ", Reading result") e))
          (λ out.
            if str_eq (trim_space out.stdout) (codes "OK")
            then pure tt
            else raise (
                message
                  (what ++ (codes " result: " ++ (out.stdout ++ (codes " (ERR=" ++ out.stderr)))))))

-- `createWinrmConnection`: it takes the keep-alive time for the timeout, 60 where that is 0.
unfoldable pub create_winrm_connection : Env → ScvmmProviderSpec → Str → Work (Unit {0})
create_winrm_connection env provider exec_host =
    let timeout = if provider.keep_alive_seconds == 0 then 60 else provider.keep_alive_seconds in
    check
      (asks
        (λ w. env.connect w.log exec_host provider.scvmm_username provider.scvmm_password timeout))
      (λ e. raise (wrap (codes "Creating winrm client") e)) (λ _. pure tt)

-- `createWinrmShell`
unfoldable pub create_winrm_shell : Env → ScvmmProviderSpec → Str → Work (Unit {0})
unfolding create_winrm_connection
create_winrm_shell env provider exec_host =
    create_winrm_connection env provider exec_host
    >> check (asks (λ w. env.create_shell w.log))
        (λ e. raise (wrap (codes "Creating winrm shell") e)) (λ _. pure tt)

-- `createWinrmPowershell`
unfoldable pub create_winrm_powershell : Env → ScvmmProviderSpec → Str → Work (Unit {0})
unfolding create_winrm_shell send_winrm_ping
create_winrm_powershell env provider exec_host =
    create_winrm_shell env provider exec_host
    >> check (asks (λ w. env.execute_direct w.log))
        (λ e. raise (wrap (codes "Creating winrm powershell") e))
        (λ _.
          changes (note (opened exec_host))
          >> send_winrm_ping env (codes "Creating winrm powershell"))

-- `sendWinrmFunctions`
unfoldable pub send_winrm_functions : Env → Str → Work (Unit {0})
unfolding send_text send_winrm_ping
send_winrm_functions env script =
    check (send_text env script) (λ e. raise (wrap (codes "Sending powershell functions") e))
      (λ _. send_winrm_ping env (codes "Sending powerwhell functions"))

-- `sendWinrmConnect`: the host stands between quotes as it is.
unfoldable pub send_winrm_connect : Env → Str → Work (Unit {0})
unfolding send_text send_winrm_ping
send_winrm_connect env scvmm_host =
    check (send_text env (codes "ConnectSCVMM -Computername '" ++ (scvmm_host ++ codes "'")))
      (λ e. raise (wrap (codes "Connecting to SCVMM") e))
      (λ _. send_winrm_ping env (codes "Connecting to SCVMM"))

-- The command is closed before the error goes on.
unfoldable pub close_and_raise : Error → Work (Unit {0})
close_and_raise e = changes (note closed) >> raise e

-- `createWinrmCmd`
unfoldable pub create_winrm_cmd : Env → ScvmmProviderSpec → Str → Work (Unit {0})
unfolding create_winrm_powershell send_winrm_functions send_winrm_connect close_and_raise
create_winrm_cmd env provider exec_host = do
  script ← get_func_script env provider
  _ ← create_winrm_powershell env provider exec_host
  check (send_winrm_functions env script) close_and_raise
      (λ _. check (send_winrm_connect env provider.scvmm_host) close_and_raise pure)
