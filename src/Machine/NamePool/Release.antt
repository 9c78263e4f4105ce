-- ===== src/Machine/NamePool/Release.antt =====
-- What `removeVMNameInPool` leaves in the status of a pool.
use cluster_api_provider_scv.Base.{
  ℕ, zero, suc, Str, str_eq, not, ◌&&◌, some, List, [], ◌∷◌, ◌≡◌, refl, if◌then◌else◌, Bool-cases,
  inl, inr,
}
use cluster_api_provider_scv.Api.NamePool.{ScvmmPoolCounts}
use cluster_api_provider_scv.Api.Machine.{ScvmmMachine}
use cluster_api_provider_scv.Machine.NamePool.{Owners, release_count, is_machine, release_names}

module _ (ms : List ScvmmMachine) (me : Str) where
  -- The names of the other machines that are still there.
  pub others : Owners → Owners
  others [] = []
  others ((name, owner) ∷ os) =
      let rest = others os in
      if is_machine ms owner && not (str_eq owner me) then (name, owner) ∷ rest else rest

  -- The number of names that the machine has.
  pub held : Owners → ℕ
  held [] = 0
  held ((name, owner) ∷ os) =
      if is_machine ms owner && str_eq owner me then suc (held os) else held os

  -- The counts after a number of names went from used to free.
  pub released : ℕ → ScvmmPoolCounts → ScvmmPoolCounts
  released zero c = c
  released (suc n) c = released n (release_count c)

  -- For counts that are there, release_names keeps exactly the names of the other machines that
  -- are still listed, in their order, and moves one name from used to free for each name that the
  -- machine has while it is listed.
  pub release_names_lem :
      (os : Owners) (c : ScvmmPoolCounts)
      → release_names ms me os (some c) ≡ (others os, some (released (held os) c))
  unfolding release_names others held released
  release_names_lem [] c = refl
  release_names_lem ((name, owner) ∷ os) c = elim (Bool-cases (is_machine ms owner)) [
    | inl a ↦ elim (Bool-cases (str_eq owner me)) [
      | inl b ↦ rw (a, b) (rw (release_names_lem os (release_count c)) refl)
      | inr b ↦ rw (a, b) (rw (release_names_lem os c) refl)
    ]
    | inr a ↦ rw a (rw (release_names_lem os c) refl)
  ]
