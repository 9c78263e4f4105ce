-- ===== src/Winrm/Worker/Owing.antt =====
-- What a worker owes: the commands that it has taken from the channel and not answered.
use cluster_api_provider_scv.Base.{none, some, ℕ, zero, suc, Str, Option, List, [], ◌∷◌, ◌≡◌, refl}
use cluster_api_provider_scv.Api.Meta.{Error}
use cluster_api_provider_scv.Api.Call.Keeps.{Keeps, keeps_rules}
use cluster_api_provider_scv.Api.Provider.{ScvmmProvider, ScvmmProviderSpec}
use cluster_api_provider_scv.Winrm.Event.{Env, World, History, WinrmCommand, returned, received}
use cluster_api_provider_scv.Winrm.Script.{get_func_script}
use cluster_api_provider_scv.Winrm.Connect.{
  send_text, read_reply, send_winrm_ping, create_winrm_connection, create_winrm_shell,
  create_winrm_powershell, send_winrm_functions, send_winrm_connect, close_and_raise,
  create_winrm_cmd,
}
use cluster_api_provider_scv.Winrm.Hosts.{try_hosts, connect_provider, patch_provider_status}

-- What the senders see of a worker: a command taken from the channel, and a result by the number of
-- its channel.
pub data Act : Type 0 where
  taken : WinrmCommand → Act
  answered : ℕ → Act

-- The acts of a history, the last one first.
abbrev pub acts : History → List Act
acts [] = []
acts (received c ∷ h) = taken c ∷ acts h
acts (returned output r ∷ h) = answered output ∷ acts h
acts (_ ∷ h) = acts h

-- A server with one place: it takes a command only when it owes no result, and answers the command
-- that it has taken. The index is the command that it owes.
pub data Serves : List Act → Option WinrmCommand → Type 0 where
  at_rest : Serves [] none
  takes : {l : List Act} (c : WinrmCommand) → Serves l none → Serves (taken c ∷ l) (some c)
  answers :
      {l : List Act} {c : WinrmCommand} → Serves l (some c) → Serves (answered c.output ∷ l) none

-- What has happened is a run of such a server.
abbrev pub Owes : Option WinrmCommand → World → Type 0
Owes pending w = Serves (acts w.log) pending

-- The command that was taken last.
abbrev pub last_taken : List Act → Option WinrmCommand
last_taken [] = none
last_taken (taken c ∷ l) = some c
last_taken (answered output ∷ l) = last_taken l

-- The command that was taken last before the last result.
abbrev pub last_answered : List Act → Option WinrmCommand
last_answered [] = none
last_answered (taken c ∷ l) = last_answered l
last_answered (answered output ∷ l) = last_taken l

-- What is owed is the command that was taken last.
pub owed_last : (l : List Act) (c : WinrmCommand) → Serves l (some c) → last_taken l ≡ some c
owed_last _ c (takes _ h) = refl

module _ (pending : Option WinrmCommand) (env : Env) where
  pub Keeps-send_text : (s : Str) → Keeps (Owes pending) (send_text env s)
  unfolding send_text
  Keeps-send_text s = search (keeps_rules) depth 12

  pub Keeps-read_reply : Keeps (Owes pending) (read_reply env)
  unfolding read_reply
  Keeps-read_reply = search (keeps_rules) depth 12

  Keeps-get_func_script : (p : ScvmmProviderSpec) → Keeps (Owes pending) (get_func_script env p)
  unfolding get_func_script
  Keeps-get_func_script p = search (keeps_rules) depth 12

  Keeps-send_winrm_ping : (s : Str) → Keeps (Owes pending) (send_winrm_ping env s)
  unfolding send_winrm_ping
  Keeps-send_winrm_ping s = search (keeps_rules, Keeps-send_text, Keeps-read_reply) depth 12

  Keeps-create_winrm_powershell :
      (p : ScvmmProviderSpec) (host : Str)
      → Keeps (Owes pending) (create_winrm_powershell env p host)
  unfolding create_winrm_powershell create_winrm_shell create_winrm_connection
  Keeps-create_winrm_powershell p host = search (keeps_rules, Keeps-send_winrm_ping) depth 12

  Keeps-create_winrm_cmd :
      (p : ScvmmProviderSpec) (host : Str) → Keeps (Owes pending) (create_winrm_cmd env p host)
  unfolding create_winrm_cmd send_winrm_functions send_winrm_connect close_and_raise
  Keeps-create_winrm_cmd p host =
      search
        (
          keeps_rules, Keeps-send_text, Keeps-get_func_script, Keeps-send_winrm_ping,
          Keeps-create_winrm_powershell,
        )
        depth 12

  Keeps-try_hosts :
      (error_text : Error → Str) (hosts : List Str) (idx i left : ℕ) (p : ScvmmProvider)
      (e : Option Error)
      → Keeps (Owes pending) (try_hosts error_text env hosts idx i left p e)
  unfolding try_hosts
  Keeps-try_hosts error_text hosts idx i zero p e = search (keeps_rules) depth 4
  Keeps-try_hosts error_text hosts idx i (suc left) p e =
      search
        (
          keeps_rules,
          Keeps-create_winrm_cmd,
          λ (q : ScvmmProvider) (x : Option Error).
              Keeps-try_hosts error_text hosts idx (suc i) left q x,
        )
        depth 6

  pub Keeps-connect_provider :
      (error_text : Error → Str) (p : ScvmmProvider)
      → Keeps (Owes pending) (connect_provider error_text env p)
  unfolding connect_provider
  Keeps-connect_provider error_text p = search (keeps_rules, Keeps-try_hosts) depth 6

  pub Keeps-patch_provider_status :
      (p : ScvmmProvider) → Keeps (Owes pending) (patch_provider_status env p)
  unfolding patch_provider_status
  Keeps-patch_provider_status p = search (keeps_rules) depth 12
