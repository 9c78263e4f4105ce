-- ===== src/Winrm/Hosts/Tried.antt =====
-- The loop over the execution hosts: how it ends, and the statuses that it leaves.
use mathlib.Core.Path.{subst}
use native.Mathlib.Nat.{mod-eq_of_lt, mod-eq-sub-mod, mod-lt}
use cluster_api_provider_scv.Base.{
  ℕ, zero, suc, ◌+◌, ◌-◌, ◌%◌, ◌<◌, ◌≡◌, refl, Str, str_eq, str_eq_refl, str_eq→≡, true, Option,
  none, some, is_some, List, [], ◌∷◌, length, get_or, All, arith, ◌⊎◌, inl, inr, Bool-cases,
  if◌then◌else◌, leb, is_empty,
}
use cluster_api_provider_scv.Api.Meta.{Error, Result, ok, err, panic, timeout}
use cluster_api_provider_scv.Api.Call.{check, check_result, pure}
use cluster_api_provider_scv.Api.Call.Returns.{IsReturn}
use cluster_api_provider_scv.Api.Provider.{
  ScvmmProvider, ScvmmProviderSpec, ScvmmProviderStatus, get_exec_host_status,
}
use cluster_api_provider_scv.Api.Provider.ExecHosts.{get_exec_host_status-set_exec_host_status}
use cluster_api_provider_scv.Winrm.Event.{Env, World}
use cluster_api_provider_scv.Winrm.Connect.{create_winrm_cmd}
use cluster_api_provider_scv.Winrm.Connect.Returning.{Returns-create_winrm_cmd}
use cluster_api_provider_scv.Winrm.Hosts.{
  try_hosts, connect_provider, first_healthy, exec_hosts_of, set_status, exec_host_ok,
  exec_host_failed,
}

-- The provider's status has the host with the state, with some message.
abbrev pub HasStatus : Str → ScvmmProvider → Str → Type 0
HasStatus st p h =
    (m : Str) × (get_exec_host_status p.status h
      ≡ some (record { host = h; status = st; message = m }))

HasStatus-set_status : (p : ScvmmProvider) (h st m : Str) → HasStatus st (set_status p h st m) h
unfolding set_status
HasStatus-set_status p h st m =
    (m, rw (get_exec_host_status-set_exec_host_status p.status h st m h, str_eq_refl h) refl)

-- A later write of the same state keeps it.
HasStatus-set_other :
    (p : ScvmmProvider) (h st m k : Str) → HasStatus st p k → HasStatus st (set_status p h st m) k
unfolding set_status
HasStatus-set_other p h st m k (old, e) = elim (Bool-cases (str_eq h k)) [
  | inl a ↦
      (m, rw (get_exec_host_status-set_exec_host_status p.status h st m k, a, str_eq→≡ h k a) refl)
  | inr a ↦ (old, rw (get_exec_host_status-set_exec_host_status p.status h st m k, a) e)
]

All-of_index :
    (P : Str → Type 0) (xs : List Str) → ((k : ℕ) → k < length xs → P (get_or xs k [])) → All P xs
All-of_index P [] h = tt
All-of_index P (x ∷ xs) h = (h 0 (omega arith), All-of_index P xs (λ k lt. h (suc k) (omega arith)))

module _ (error_text : Error → Str) (env : Env) (hosts : List Str) (idx : ℕ) where
  abbrev host_at : ℕ → Str
  host_at i = get_or hosts ((i + idx) % length hosts) []

  abbrev Failed : ℕ → ScvmmProvider → Type 0
  Failed n p = (j : ℕ) → j < n → HasStatus exec_host_failed p (host_at j)

  -- After the tries up to the n-th: each has failed, or the last one connected.
  abbrev Outcome : ℕ → Result (ScvmmProvider × Option Error) → Type 0
  Outcome n (ok (p, some e)) = Failed n p
  Outcome n (ok (p, none)) = (j : ℕ) × HasStatus exec_host_ok p (host_at j)
  Outcome n (err e) = ⊥
  Outcome n (panic s) = ⊥
  Outcome n timeout = ⊥

  Failed-more :
      (i : ℕ) (p : ScvmmProvider) (m : Str)
      → Failed i p
      → Failed (suc i) (set_status p (host_at i) exec_host_failed m)
  Failed-more i p m h j lt = elim (Bool-cases (leb i j)) [
    | inl e ↦
        let same : j ≡ i = ground arith in
        rw same (HasStatus-set_status p (host_at i) exec_host_failed m)
    | inr e ↦ HasStatus-set_other p (host_at i) exec_host_failed m (host_at j) (h j (ground arith))
  ]

  Outcome-try_hosts :
      (left i n : ℕ) (p : ScvmmProvider) (last : Option Error) (w : World)
      → i + left ≡ n
      → is_some last ≡ true ⊎ (0 < left)
      → Failed i p
      → Outcome n (try_hosts error_text env hosts idx i left p last w).0
  unfolding try_hosts check pure
  Outcome-try_hosts zero i n p none w e (inl x) h = cc
  Outcome-try_hosts zero i n p none w e (inr x) h = absurd (omega arith)
  Outcome-try_hosts zero i n p (some last) w e x h = λ j lt. h j (omega arith)
  Outcome-try_hosts (suc left) i n p last w e x h =
      after_try (create_winrm_cmd env p.spec (host_at i) w)
        ((Returns-create_winrm_cmd env p.spec (host_at i)).at w)
        (λ x v.
          Outcome-try_hosts left (suc i) n
            (set_status p (host_at i) exec_host_failed (error_text x)) (some x) v (omega arith)
            (inl refl) (Failed-more i p (error_text x) h))
    where
      after_try :
          (r : Result (Unit {0}) × World)
          → IsReturn r.0
          → ((x : Error) (v : World)
              → Outcome n
                  (try_hosts error_text env hosts idx
                    (suc i)
                    left
                    (set_status p (host_at i) exec_host_failed (error_text x))
                    (some x)
                    v).0)
          → Outcome n
              (check_result r
                (λ x.
                  try_hosts error_text env hosts idx
                    (suc i)
                    left
                    (set_status p (host_at i) exec_host_failed (error_text x))
                    (some x))
                (λ _. pure (set_status p (host_at i) exec_host_ok [], none))).0
      after_try (ok a, v) ret rest = (i, HasStatus-set_status p (host_at i) exec_host_ok [])
      after_try (err x, v) ret rest = rest x v
      after_try (panic s, v) ret rest = elim ret [ ]
      after_try (timeout, v) ret rest = elim ret [ ]

first_healthy_bound :
    (sts : ScvmmProviderStatus) (i : ℕ) (hosts : List Str)
    → 0 < i + length hosts
    → first_healthy sts i hosts < i + length hosts
unfolding first_healthy
first_healthy_bound sts i [] h = h
first_healthy_bound sts i (host ∷ hosts) h =
    ground (arith, first_healthy_bound sts (suc i) hosts (omega arith))

exec_hosts_of_pos : (spec : ScvmmProviderSpec) → 0 < length (exec_hosts_of spec)
unfolding exec_hosts_of
exec_hosts_of_pos spec = by_hosts spec.exec_hosts
  where
    by_hosts :
        (o : Option (List Str))
        → 0
          < length (elim o [
            | none ↦ spec.exec_host ∷ []
            | some hosts ↦ if is_empty hosts then spec.exec_host ∷ [] else hosts
          ])
    by_hosts none = omega arith
    by_hosts (some []) = omega arith
    by_hosts (some (x ∷ xs)) = omega arith

-- The round that comes to the k-th host.
wraps : (k idx n : ℕ) → k < n → idx < n → (j : ℕ) × (j < n) × ((j + idx) % n ≡ k)
wraps k idx n p q = elim (Bool-cases (leb idx k)) [
  | inl e ↦ (k - idx, ground arith, ground (arith, mod-eq_of_lt {n = k} {m = n} p))
  | inr e ↦ (
    k + n - idx,
    ground arith,
    ground
        (arith, mod-eq_of_lt {n = k} {m = n} p, mod-eq-sub-mod {n = k + n} {m = n} (omega arith)),
  )
]

-- How the loop over the hosts ends.
abbrev pub Connects : List Str → Result (ScvmmProvider × Option Error) → Type 0
Connects hosts (ok (p, some e)) = All (HasStatus exec_host_failed p) hosts
Connects hosts (ok (p, none)) =
    (k : ℕ) × (k < length hosts) × HasStatus exec_host_ok p (get_or hosts k [])
Connects hosts (err e) = ⊥
Connects hosts (panic s) = ⊥
Connects hosts timeout = ⊥

module _ (error_text : Error → Str) (env : Env) (hosts : List Str) (idx : ℕ) where
  Connects-of_Outcome :
      (r : Result (ScvmmProvider × Option Error))
      → 0 < length hosts
      → idx < length hosts
      → Outcome error_text env hosts idx (length hosts) r
      → Connects hosts r
  Connects-of_Outcome (ok (p, some e)) pos lt h =
      All-of_index (HasStatus exec_host_failed p) hosts (λ k in_list.
        let (j, in_rounds, same) = wraps k idx (length hosts) in_list lt in
        let failed_there : HasStatus exec_host_failed p
            (get_or hosts ((j + idx) % length hosts) []) =
          h j in_rounds in
        subst (λ i. HasStatus exec_host_failed p (get_or hosts i [])) same failed_there)
  Connects-of_Outcome (ok (p, none)) pos lt (j, h) =
      ((j + idx) % length hosts, mod-lt (j + idx) pos, h)
  Connects-of_Outcome (err e) pos lt h = h
  Connects-of_Outcome (panic s) pos lt h = h
  Connects-of_Outcome timeout pos lt h = h

-- Whatever the hosts and the script directory answer, connect_provider ends with a provider. If it
-- also gives an error, every execution host of the spec has the status Failed in it; if not, some
-- execution host has the status OK.
pub connect_provider-Connects :
    (error_text : Error → Str) (env : Env) (p : ScvmmProvider) (w : World)
    → Connects (exec_hosts_of p.spec) (connect_provider error_text env p w).0
unfolding connect_provider
connect_provider-Connects error_text env p w =
    let hosts = exec_hosts_of p.spec in
    let pos = exec_hosts_of_pos p.spec in
    Connects-of_Outcome error_text env hosts (first_healthy p.status 0 hosts) _ pos
      (omega (arith, first_healthy_bound p.status 0 (exec_hosts_of p.spec)))
      (Outcome-try_hosts error_text env hosts (first_healthy p.status 0 hosts) (length hosts) 0
        (length hosts) p none w (omega arith) (inr pos) (λ j lt. absurd (omega arith)))
