-- ===== src/Winrm/Event.antt =====
-- What a worker sees and does: the commands of the channel, the session of the winrm library, the
-- cache of providers.
pub mod Matching
use cluster_api_provider_scv.Base.{
  ℕ, Str, str_eq, Bool, ◌&&◌, Option, none, some, List, [], ◌∷◌, if◌then◌else◌,
}
use cluster_api_provider_scv.Api.Call.{Call, Reply}
use cluster_api_provider_scv.Api.Provider.{ScvmmProviderReference, ScvmmProvider}
use cluster_api_provider_scv.Scvmm.Answer.{WinrmResult}

-- `WinrmCommand`; the channel of its result is a number. The zero value, whose input is nil, is
-- `none` of `Option WinrmCommand`.
pub record WinrmCommand : Type 0 where
  pub provider_ref : ScvmmProviderReference
  pub input : Str
  pub output : ℕ

-- What the server sends at one read of the output.
pub record Output : Type 0 where
  pub stdout : Str
  pub stderr : Str

-- A host of the status that is patched; an empty message is left out.
pub record HostPatch : Type 0 where
  pub host : Str
  pub status : Str
  pub message : Option Str

pub data Event : Type 0 where
  read_script : Str → Event
  opened : Str → Event  -- a powershell.exe on the host
  sent : Str → Event  -- `SendInput` or `SendCommand`, with what it sends
  read_output : Event
  closed : Event
  patched_status : Str → Str → List HostPatch → Event  -- name and namespace of the provider
  returned : ℕ → WinrmResult → Event  -- `winrmReturn`
  received : WinrmCommand → Event
  kept_alive ended : Event  -- the wait timed out; the channel was closed

abbrev pub History : Type 0
History = List Event

-- `winrmProviders`, a map by reference.
abbrev pub Cache : Type 0
Cache = List (ScvmmProviderReference × ScvmmProvider)

unfoldable pub ref_eq : ScvmmProviderReference → ScvmmProviderReference → Bool
ref_eq a b = str_eq a.name b.name && str_eq a.namespace b.namespace

unfoldable pub find_provider : ScvmmProviderReference → Cache → Option ScvmmProvider
unfolding ref_eq
find_provider r [] = none
find_provider r ((k, p) ∷ cache) = if ref_eq k r then some p else find_provider r cache

unfoldable pub store_provider : ScvmmProviderReference → ScvmmProvider → Cache → Cache
unfolding ref_eq
store_provider r p [] = (r, p) ∷ []
store_provider r p ((k, q) ∷ cache) =
    if ref_eq k r then (k, p) ∷ cache else (k, q) ∷ store_provider r p cache

unfoldable pub drop_provider : ScvmmProviderReference → Cache → Cache
unfolding ref_eq
drop_provider r [] = []
drop_provider r ((k, q) ∷ cache) =
    let rest = drop_provider r cache in if ref_eq k r then rest else (k, q) ∷ rest

-- What a wait on the channel gives, with the cache as the controllers have left it by then.
pub data Arrival : Type 0 where
  timed_out : Arrival
  closed_channel : Cache → Arrival
  arrived : WinrmCommand → Cache → Arrival

pub record Env : Type 1 where
  pub script_dir : Str
  pub glob : Str → Reply (List Str)
  pub read_file : History → Str → Reply Str
  pub order : List (Str × Str) → List (Str × Str)  -- in which `range` goes through a map
  pub connect : History → Str → Str → Str → ℕ → Reply (Unit {0})  -- host, user, password, seconds
  pub create_shell : History → Reply (Unit {0})
  pub execute_direct : History → Reply (Unit {0})
  pub send : History → Str → Reply (Unit {0})
  pub read : History → Reply Output
  pub new_client : History → Reply (Unit {0})
  pub arrival : History → Arrival

pub record World : Type 0 where
  pub log : History
  pub providers : Cache

abbrev pub Work : Type 0 → Type 0
Work = Call World

abbrev pub note : Event → World → World
note e w = record w { log = e ∷ w.log }
