-- ===== src/Winrm/Connect/Returning.antt =====
-- The calls that open a session end with a value or an error, whatever the host answers.
use cluster_api_provider_scv.Base.{Str}
use cluster_api_provider_scv.Api.Call.Returns.{Returns, returns_rules}
use cluster_api_provider_scv.Api.Provider.{ScvmmProviderSpec}
use cluster_api_provider_scv.Winrm.Event.{Env}
use cluster_api_provider_scv.Winrm.Script.{get_func_script}
use cluster_api_provider_scv.Winrm.Connect.{
  send_text, read_reply, send_winrm_ping, create_winrm_connection, create_winrm_shell,
  create_winrm_powershell, send_winrm_functions, send_winrm_connect, close_and_raise,
  create_winrm_cmd,
}

Returns-get_func_script : (env : Env) (p : ScvmmProviderSpec) → Returns (get_func_script env p)
unfolding get_func_script
Returns-get_func_script env p = search (returns_rules) depth 12

pub Returns-send_text : (env : Env) (s : Str) → Returns (send_text env s)
unfolding send_text
Returns-send_text env s = search (returns_rules) depth 12

pub Returns-read_reply : (env : Env) → Returns (read_reply env)
unfolding read_reply
Returns-read_reply env = search (returns_rules) depth 12

ruleset exchanges = (Returns-send_text, Returns-read_reply, Returns-get_func_script)

Returns-send_winrm_ping : (env : Env) (s : Str) → Returns (send_winrm_ping env s)
unfolding send_winrm_ping
Returns-send_winrm_ping env s = search (returns_rules, exchanges) depth 12

Returns-create_winrm_powershell :
    (env : Env) (p : ScvmmProviderSpec) (host : Str) → Returns (create_winrm_powershell env p host)
unfolding create_winrm_powershell create_winrm_shell create_winrm_connection
Returns-create_winrm_powershell env p host =
    search (returns_rules, Returns-send_winrm_ping) depth 12

pub Returns-create_winrm_cmd :
    (env : Env) (p : ScvmmProviderSpec) (host : Str) → Returns (create_winrm_cmd env p host)
unfolding create_winrm_cmd send_winrm_functions send_winrm_connect close_and_raise
Returns-create_winrm_cmd env p host =
    search (returns_rules, exchanges, Returns-send_winrm_ping, Returns-create_winrm_powershell)
      depth 12
