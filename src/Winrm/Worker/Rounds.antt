-- ===== src/Winrm/Worker/Rounds.antt =====
-- A worker over any number of rounds of its loop.
use cluster_api_provider_scv.Base.{ℕ, zero, suc, Str, Option, none, some, [], refl}
use cluster_api_provider_scv.Api.Meta.{Error, Result, ok, err, panic, timeout}
use cluster_api_provider_scv.Api.Call.{bind_result, pure, ◌>>=◌, ◌>>◌, changes, reads}
use cluster_api_provider_scv.Winrm.Event.{
  Env, World, Work, WinrmCommand, find_provider, Arrival, timed_out, closed_channel, arrived,
  store_provider,
}
use cluster_api_provider_scv.Winrm.Hosts.{connect_provider, patch_provider_status}
use cluster_api_provider_scv.Winrm.Session.{next_arrival, do_winrm_work, take_arrival}
use cluster_api_provider_scv.Winrm.Worker.{on_idle, winrm_worker}
use cluster_api_provider_scv.Winrm.Worker.Returning.{IsOk-connect_provider}
use cluster_api_provider_scv.Winrm.Worker.Owing.{
  Owes, takes, Keeps-connect_provider, Keeps-patch_provider_status,
}
use cluster_api_provider_scv.Winrm.Worker.Settling.{
  Settles, SettlesFrom, IsSteady-of_ok, Settles-bind, Settles-winrm_return, Settles-pure-none,
}
use cluster_api_provider_scv.Winrm.Worker.Serving.{
  Settles-serve, Settles-closed, IsSteady-patch_provider_status, Settles-on_option,
}

module _ (error_text : Error → Str) (env : Env) (lines rounds : ℕ) where
  Settles-do_winrm_work :
      (c : WinrmCommand) → SettlesFrom (some c) (do_winrm_work error_text env lines rounds c)
  unfolding do_winrm_work reads ◌>>=◌ ◌>>◌ changes
  Settles-do_winrm_work c w h =
      Settles-on_option (some c) (find_provider c.provider_ref w.providers) _ _
        (Settles-winrm_return c [] [] _ (pure none) (Settles-pure-none c))
        (λ provider v o.
          Settles-bind (connect_provider error_text env provider) _ v
            (IsSteady-of_ok _ (IsOk-connect_provider error_text env provider v))
            ((Keeps-connect_provider (some c) env error_text provider).at v o)
            (λ x u o'.
              Settles-bind (patch_provider_status env x.0) _
                (record u { providers = store_provider c.provider_ref x.0 u.providers })
                (IsSteady-patch_provider_status env x.0 _)
                ((Keeps-patch_provider_status (some c) env x.0).at _ o')
                (λ done.
                  Settles-on_option (some c) x.1 _ _
                    (Settles-closed _ (some c)
                      (Settles-serve c.provider_ref x.0 env lines rounds c refl))
                    (λ e.
                      Settles-winrm_return c [] [] (some e) (pure none) (Settles-pure-none c)))))
        w h

  Settles-turn :
      (k : Option WinrmCommand → Work (Option WinrmCommand))
      (x : Result (Option WinrmCommand) × World)
      → Settles x
      → ((c : Option WinrmCommand) (v : World) → Settles (ok c, v) → Settles (k c v))
      → Settles (bind_result x k)
  Settles-turn k (ok none, v) h q = q none v h
  Settles-turn k (ok (some c), v) h q = q (some c) v h
  Settles-turn k (err e, v) h q = h
  Settles-turn k (panic s, v) h q = h
  Settles-turn k (timeout, v) h q = h

  Settles-idle :
      (k : Option WinrmCommand → Work (Option WinrmCommand)) (w : World)
      → Owes none w
      → ((c : Option WinrmCommand) (v : World) → Settles (ok c, v) → Settles (k c v))
      → Settles ((next_arrival env >>= on_idle k) w)
  unfolding next_arrival on_idle ◌>>=◌ pure
  Settles-idle k w h q = by_arrival (env.arrival w.log)
    where
      by_arrival : (a : Arrival) → Settles (on_idle k a (take_arrival a w))
      by_arrival timed_out = q none _ h
      by_arrival (closed_channel cache) = h
      by_arrival (arrived c cache) = q (some c) _ (takes c h)

  -- From a state in which what the worker owes is the command that it holds, after any number of
  -- rounds the history is a run of a server with one place: it takes a command only when it owes
  -- no result, and gives one result, to the command that it has taken. If the rounds end, what is
  -- owed is the command that the worker then holds. If they do not end or the worker panics, at
  -- most one command is owed; if it panics, the provider of the command that was answered last is
  -- not in the cache. No error leaves the rounds.
  pub winrm_worker-Settles :
      (turns : ℕ) (c : Option WinrmCommand) (w : World)
      → Settles (ok c, w)
      → Settles (winrm_worker error_text env lines rounds turns c w)
  unfolding winrm_worker pure ◌>>=◌
  winrm_worker-Settles zero none w h = h
  winrm_worker-Settles zero (some c) w h = h
  winrm_worker-Settles (suc turns) none w h = Settles-idle _ w h (winrm_worker-Settles turns)
  winrm_worker-Settles (suc turns) (some c) w h =
      Settles-turn _ _ (Settles-do_winrm_work c w h) (winrm_worker-Settles turns)
