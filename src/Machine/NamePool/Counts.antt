-- ===== src/Machine/NamePool/Counts.antt =====
-- The variables of the search for a name: the counts, and the owner of the name that is found.
use cluster_api_provider_scv.Base.{
  ℕ, zero, suc, ◌+◌, Str, str_eq, str_eq_refl, is_empty, Bool, true, false, ◌&&◌, Option, none,
  some, List, [], ◌∷◌, ◌++◌, ◌≡◌, refl, ◌⊎◌, inl, inr, arith, if◌then◌else◌, Bool-cases,
  Option-cases, All, str_ltb, ◌<◌,
}
use cluster_api_provider_scv.Api.Meta.{find_key, read_key, put_key}
use cluster_api_provider_scv.Api.Provider.{ScvmmProviderReference}
use cluster_api_provider_scv.Api.NamePool.{VmNameRange}
use cluster_api_provider_scv.Api.Machine.{ScvmmMachine}
use cluster_api_provider_scv.Names.Increment.{increment_string}
use cluster_api_provider_scv.Names.Range.{range_done, range_ends, range_ends_mono, range_terminates}
use cluster_api_provider_scv.Names.Rank.{capacity, last}
use cluster_api_provider_scv.Machine.Action.{World}
use cluster_api_provider_scv.Scvmm.Command.{Command}
use cluster_api_provider_scv.Scvmm.Answer.{WinrmResult}
use cluster_api_provider_scv.Machine.Env.{Env}
use cluster_api_provider_scv.Machine.Send.{vm_ids_by_name, send_vm_ids, read_decoded, read_answer}
use cluster_api_provider_scv.Machine.NamePool.{
  Search, count_name, try_name, search_range, search_ranges,
}
use cluster_api_provider_scv.Machine.Gives.{
  IsDone, Post, Gives, Gives-pure, Gives-raise, Gives-lift, Gives-ask, Gives-check, Gives-if,
  Gives-get_machine, Gives-bind,
}

find_key-put_key : (k v : Str) (m : List (Str × Str)) → find_key k (put_key k v m) ≡ some v
unfolding find_key put_key
find_key-put_key k v [] = rw (str_eq_refl k) refl
find_key-put_key k v ((j, w) ∷ m) = elim (Bool-cases (str_eq j k)) [
  | inl h ↦ rw (h, str_eq_refl k) refl
  | inr h ↦ rw (h, h) (find_key-put_key k v m)
]

pub read_key-put_key : (k v : Str) (m : List (Str × Str)) → read_key k (put_key k v m) ≡ v
unfolding read_key
read_key-put_key k v m = ground (arith, find_key-put_key k v m)

-- Every counted name is free or used, and a name that is found has the machine as its owner.
abbrev pub IsConsistent : Str → Search → Type 0
IsConsistent me s = (s.total ≡ s.free + s.used) × ((s.name ≡ []) ⊎ (read_key s.name s.owners ≡ me))

count_name-IsConsistent :
    (me c : Str) (s : Search) → IsConsistent me s → IsConsistent me (count_name c s)
unfolding count_name
count_name-IsConsistent me c s h = elim (Bool-cases (is_empty (read_key c s.owners))) [
  | inl b ↦ rw b (omega (arith, h.0), h.1)
  | inr b ↦ rw b (omega (arith, h.0), h.1)
]

module _ (env : Env) (me : Str) where
  abbrev Named : ScvmmMachine → Type 0
  Named m = m.meta.name ≡ me

  read_decoded-IsDone :
      {T : Type 0} (text : T → Str) (c : Command) (out : Str) (o : Option T)
      → IsDone (read_decoded text c out o)
  unfolding read_decoded
  read_decoded-IsDone text c out none = tt
  read_decoded-IsDone text c out (some t) = elim (Bool-cases (is_empty (text t))) [
    | inl b ↦ rw b tt
    | inr b ↦ rw b tt
  ]

  read_answer-IsDone :
      {T : Type 0} (decode : Str → Option T) (text : T → Str) (c : Command) (r : WinrmResult)
      → IsDone (read_answer decode text c r)
  unfolding read_answer
  read_answer-IsDone decode text c r = elim (Option-cases (r.err)) [
    | inr (e, h) ↦ rw h tt
    | inl h ↦ rw h (read_decoded-IsDone text c r.stdout (decode r.stdout))
  ]

  vm_ids_by_name-Gives :
      (ref : Option ScvmmProviderReference) (name : Str)
      → Gives Named (λ _. Unit) (vm_ids_by_name env ref name)
  unfolding vm_ids_by_name send_vm_ids
  vm_ids_by_name-Gives ref name =
      Gives-check _ _ _ _ _ _
        (Gives-bind _ (λ _. Unit) (λ _. Unit) _ _ (Gives-ask _ _ _ _ (λ _. tt))
          (λ r _. Gives-lift _ _ _ (read_answer-IsDone _ _ _ r) (λ _. tt)))
        (λ e. Gives-raise _ _ _) (λ r _. Gives-pure _ _ _ tt)

  taken-IsConsistent :
      (c : Str) (m : ScvmmMachine) (s : Search) (b : Bool)
      → Named m
      → IsConsistent me s
      → IsConsistent me
          (if b then record s { name = c; owners = put_key c m.meta.name s.owners } else s)
  taken-IsConsistent c m s true p h = (h.0, inr (rw (read_key-put_key c m.meta.name s.owners) p))
  taken-IsConsistent c m s false p h = h

  try_name-Gives :
      (c : Str) (s : Search) → IsConsistent me s → Gives Named (IsConsistent me) (try_name env c s)
  unfolding try_name
  try_name-Gives c s h =
      Gives-if _ _ (is_empty s.name && is_empty (read_key c s.owners)) _ _
        (λ _. Gives-get_machine _ _ _ (λ m p.
          Gives-bind _ _ _ _ _ (vm_ids_by_name-Gives _ _)
            (λ ids _. Gives-pure _ _ _ (taken-IsConsistent c m s (is_empty ids) p h))))
        (λ _. Gives-pure _ _ s h)

  search_range-Gives :
      (n : ℕ) (r : VmNameRange) (c : Str) (s : Search)
      → range_ends n r.end c ≡ true
      → IsConsistent me s
      → Gives Named (IsConsistent me) (search_range env n r c s)
  unfolding search_range range_ends
  search_range-Gives zero r c s d h = absurd (ground arith)
  search_range-Gives (suc n) r c s d h =
      Gives-bind _ _ _ _ _ (try_name-Gives (c ++ r.postfix) s h) (λ t k.
        let counted = count_name-IsConsistent me (c ++ r.postfix) t k in
        Gives-if _ _ (range_done r.end (increment_string c)) _ _ (λ _. Gives-pure _ _ _ counted)
          (λ b. search_range-Gives n r (increment_string c) _ (ground arith) counted))

  search_ranges-Gives :
      (rs : List VmNameRange) (s : Search)
      → All (λ r. range_ends env.rounds r.end r.start ≡ true) rs
      → IsConsistent me s
      → Gives Named (IsConsistent me) (search_ranges env rs s)
  unfolding search_ranges
  search_ranges-Gives [] s d h = Gives-pure _ _ s h
  search_ranges-Gives (r ∷ rs) s d h =
      Gives-bind _ _ _ _ _ (search_range-Gives env.rounds r r.start s d.0 h)
        (λ t k. search_ranges-Gives rs t d.1 k)

-- A range whose `End` comes before the last name of the cycle of its `Start`, with rounds for
-- every name of the cycle.
abbrev pub IsSearched : ℕ → VmNameRange → Type 0
IsSearched rounds r = (str_ltb r.end (last r.start) ≡ true) × (capacity r.start < rounds)

All-range_ends :
    (n : ℕ) (rs : List VmNameRange)
    → All (IsSearched n) rs
    → All (λ r. range_ends n r.end r.start ≡ true) rs
All-range_ends n [] h = tt
All-range_ends n (r ∷ rs) h = (
  range_ends_mono (suc (capacity r.start)) n r.end r.start h.0.1
      (range_terminates r.end r.start h.0.0),
  All-range_ends n rs h.1,
)

-- If each range has an End before the last name of the cycle of its Start and the rounds exceed
-- the size of that cycle, search_ranges does not run out of rounds; from variables where total is
-- free plus used and a found name has the machine as its owner, it answers variables for which
-- this holds, and a machine with the same name is left in every case but a panic.
pub search_ranges-Post :
    (env : Env) (rs : List VmNameRange) (s : Search) (w : World)
    → All (IsSearched env.rounds) rs
    → IsConsistent w.machine.meta.name s
    → Post
        (λ m. m.meta.name ≡ w.machine.meta.name)
        (IsConsistent w.machine.meta.name)
        (search_ranges env rs s w)
search_ranges-Post env rs s w d h =
    (search_ranges-Gives env w.machine.meta.name rs s (All-range_ends env.rounds rs d) h).at w refl
