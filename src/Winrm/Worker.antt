-- ===== src/Winrm/Worker.antt =====
-- `winrmWorker`: the loop that takes a command from the channel and works on it, and on what that
-- work passes back.
pub mod Returning
pub mod Owing
pub mod Settling
pub mod Serving
pub mod Rounds
use cluster_api_provider_scv.Base.{ℕ, zero, suc, Str, Option, none, some}
use cluster_api_provider_scv.Api.Meta.{Error}
use cluster_api_provider_scv.Api.Call.{pure, ◌>>=◌}
use cluster_api_provider_scv.Winrm.Event.{
  Env, Work, WinrmCommand, Arrival, timed_out, closed_channel, arrived,
}
use cluster_api_provider_scv.Winrm.Session.{next_arrival, do_winrm_work}

-- An idle worker sleeps and looks again, ends with the channel, or takes the command.
unfoldable pub on_idle :
    (Option WinrmCommand → Work (Option WinrmCommand)) → Arrival → Work (Option WinrmCommand)
on_idle again timed_out = again none
on_idle again (closed_channel cache) = pure none
on_idle again (arrived c cache) = again (some c)

-- The first `turns` rounds of the loop, and the command that the worker then holds.
unfoldable pub winrm_worker :
    (Error → Str) → Env → ℕ → ℕ → ℕ → Option WinrmCommand → Work (Option WinrmCommand)
unfolding on_idle
winrm_worker error_text env lines rounds zero inp = pure inp
winrm_worker error_text env lines rounds (suc turns) none =
    next_arrival env >>= on_idle (winrm_worker error_text env lines rounds turns)
winrm_worker error_text env lines rounds (suc turns) (some c) =
    do_winrm_work error_text env lines rounds c >>= winrm_worker error_text env lines rounds turns
