-- ===== src/Tests/Workers.antt =====
-- The WinRM workers at concrete inputs.
use cluster_api_provider_scv.Base.{Str, none, [], ◌∷◌, refl, arith}
use cluster_api_provider_scv.Api.Meta.{Error}
use cluster_api_provider_scv.Api.Call.{gives}
use cluster_api_provider_scv.Winrm.Event.{
  Env, WinrmCommand, World, Arrival, History, timed_out, arrived,
}
use cluster_api_provider_scv.Winrm.Hosts.{connect_provider, exec_hosts_of}
use cluster_api_provider_scv.Winrm.Hosts.Tried.{Connects, connect_provider-Connects}
use cluster_api_provider_scv.Winrm.Session.{read_result}
use cluster_api_provider_scv.Winrm.Session.Ending.{Ends, read_result-Ends}
use cluster_api_provider_scv.Winrm.Worker.{winrm_worker}
use cluster_api_provider_scv.Winrm.Worker.Owing.{at_rest}
use cluster_api_provider_scv.Winrm.Worker.Settling.{Settles}
use cluster_api_provider_scv.Winrm.Worker.Rounds.{winrm_worker-Settles}
use cluster_api_provider_scv.Tests.Caching.{sample_ref, sample_provider, sample_cache}

abbrev sample_command : WinrmCommand
sample_command = record { provider_ref = sample_ref; input = b'x' ∷ []; output = 7 }

-- One command comes at the start, and no other.
abbrev first_arrival : History → Arrival
first_arrival [] = arrived sample_command sample_cache
first_arrival (e ∷ h) = timed_out

-- Everything succeeds, and every read gives the answer to a ping.
abbrev sample_env : Env
sample_env = record {
  script_dir = b'd' ∷ [];
  glob = λ pattern. gives [];
  read_file = λ h file. gives [];
  order = λ entries. entries;
  connect = λ h host user password seconds. gives tt;
  create_shell = λ h. gives tt;
  execute_direct = λ h. gives tt;
  send = λ h text. gives tt;
  read = λ h. gives (record { stdout = b'O' ∷ b'K' ∷ []; stderr = [] });
  new_client = λ h. gives tt;
  arrival = first_arrival;
}

abbrev sample_world : World
sample_world = record { log = []; providers = sample_cache }

abbrev no_text : Error → Str
no_text e = []

winrm_worker-Settles_example : Settles (winrm_worker no_text sample_env 5 3 4 none sample_world)
winrm_worker-Settles_example =
    winrm_worker-Settles no_text sample_env 5 3 4 none sample_world at_rest

connect_provider-Connects_example :
    Connects
      (exec_hosts_of sample_provider.spec)
      (connect_provider no_text sample_env sample_provider sample_world).0
connect_provider-Connects_example =
    connect_provider-Connects no_text sample_env sample_provider sample_world

read_result-Ends_example : Ends (read_result sample_env 5 [] sample_world).0
read_result-Ends_example = read_result-Ends sample_env 5 0 [] sample_world (omega arith) refl
