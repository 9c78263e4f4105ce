-- ===== src/Winrm/Session.antt =====
-- The second half of `doWinrmWork`: the commands that one session serves.
pub mod Ending
use cluster_api_provider_scv.Base.{
  ℕ, zero, suc, Str, codes, str_eq, not, ◌||◌, Option, none, some, [], ◌∷◌, ◌++◌, is_empty,
  if◌then◌else◌,
}
use cluster_api_provider_scv.Api.Meta.{Error, message, ok, timeout}
use cluster_api_provider_scv.Api.Call.{
  pure, panics, lift, reads, changes, finally, ◌>>=◌, ◌>>◌, check, on_option,
}
use cluster_api_provider_scv.Api.Provider.{ScvmmProviderReference, ScvmmProvider}
use cluster_api_provider_scv.Winrm.Event.{
  Env, World, Work, WinrmCommand, Arrival, timed_out, closed_channel, arrived, note, returned,
  received, closed, kept_alive, ended, ref_eq, find_provider, store_provider,
}
use cluster_api_provider_scv.Winrm.Connect.{send_text, read_reply}
use cluster_api_provider_scv.Winrm.Hosts.{connect_provider, patch_provider_status}

-- `winrmReturn`
unfoldable pub winrm_return : ℕ → Str → Str → Option Error → Work (Unit {0})
winrm_return output out errors e =
    changes (note (returned output (record { stdout = out; stderr = errors; err = e })))

-- What the read loop ends with.
pub data Reading : Type 0 where
  complete : Str → Str → Reading
  broken : Str → Error → Reading

-- The inner loop: lines of stderr are collected until there is output on stdout.
unfoldable pub read_result : Env → ℕ → Str → Work Reading
read_result env zero errors = lift timeout
read_result env (suc rounds) errors =
    check (read_reply env) (λ e. pure (broken errors e))
      (λ out.
        let more = read_result env rounds (errors ++ out.stderr) in
        if not (is_empty out.stdout)
        then pure (complete out.stdout errors)
        else if is_empty out.stderr
        then pure (broken errors (message (codes "Timeout reading winrm output")))
        else more)

unfoldable pub take_arrival : Arrival → World → World
take_arrival timed_out w = note kept_alive w
take_arrival (closed_channel cache) w = record { log = ended ∷ w.log; providers = cache }
take_arrival (arrived c cache) w = record { log = received c ∷ w.log; providers = cache }

-- The `select` on the channel.
unfoldable pub next_arrival : Env → Work Arrival
unfolding take_arrival
next_arrival env w = let a = env.arrival w.log in (ok a, take_arrival a w)

-- The provider of the session is looked up again in the cache, also to log its version: the
-- process panics where it is gone. Otherwise a command for the same provider in the same version is
-- served, and any other is passed back.
unfoldable pub on_arrival :
    ScvmmProviderReference
    → ScvmmProvider
    → (WinrmCommand → Work (Option WinrmCommand))
    → Arrival
    → Work (Option WinrmCommand)
on_arrival ref p serve timed_out = pure none
on_arrival ref p serve (closed_channel cache) =
    on_option (find_provider ref cache) (panics (codes "nil pointer")) (λ current. pure none)
on_arrival ref p serve (arrived c cache) =
    on_option (find_provider ref cache) (panics (codes "nil pointer")) (λ current.
      if not (ref_eq ref c.provider_ref) || not (str_eq current.resource_version p.resource_version)
      then pure (some c)
      else serve c)

unfoldable pub settle :
    Env
    → ScvmmProviderReference
    → ScvmmProvider
    → (WinrmCommand → Work (Option WinrmCommand))
    → WinrmCommand
    → Reading
    → Work (Option WinrmCommand)
unfolding winrm_return next_arrival on_arrival
settle env ref p serve inp (broken errors e) =
    winrm_return inp.output [] errors (some e) >> pure none
settle env ref p serve inp (complete out errors) =
    winrm_return inp.output out errors none
    >> (if is_empty errors then next_arrival env >>= on_arrival ref p serve else pure none)

-- The outer loop: at most `rounds` commands, with at most `lines` reads for each.
unfoldable pub serve :
    Env → ScvmmProviderReference → ScvmmProvider → ℕ → ℕ → WinrmCommand → Work (Option WinrmCommand)
unfolding winrm_return read_result settle
serve env ref p lines zero inp = lift timeout
serve env ref p lines (suc rounds) inp =
    check (send_text env inp.input) (λ e. winrm_return inp.output [] [] (some e) >> pure none)
      (λ _. read_result env lines [] >>= settle env ref p (serve env ref p lines rounds) inp)

-- The provider's object in the cache has the status that the loop over the hosts has set.
abbrev cache_provider : ScvmmProviderReference → ScvmmProvider → World → World
cache_provider ref p w = record w { providers = store_provider ref p w.providers }

-- `doWinrmWork`, with the command that is passed back.
unfoldable pub do_winrm_work :
    (Error → Str) → Env → ℕ → ℕ → WinrmCommand → Work (Option WinrmCommand)
unfolding winrm_return serve
do_winrm_work error_text env lines rounds inp = do
  let ref = inp.provider_ref
  found ← reads (λ w. find_provider ref w.providers)
  on_option found
      (winrm_return inp.output [] [] (
          some (
            message (
              codes "ScvmmProvider "
              ++ (ref.namespace ++ (codes "/" ++ (ref.name ++ codes " not found"))))))
        >> pure none)
      (λ provider. do
        (p, failure) ← connect_provider error_text env provider
        changes (cache_provider ref p)
        patch_provider_status env p
        on_option failure (finally (serve env ref p lines rounds inp) (note closed))
            (λ e. winrm_return inp.output [] [] (some e) >> pure none))
