-- ===== src/Api/Meta.antt =====
-- The parts of Kubernetes metadata that the controllers read, and the errors that they handle.
use cluster_api_provider_scv.Base.{
  Str, str_eq, Bool, true, false, Option, none, some, List, [], ◌∷◌, if◌then◌else◌,
}

pub record OwnerReference : Type 0 where
  pub api_version : Str
  pub kind : Str
  pub name : Str
  pub uid : Str
  pub controller : Option Bool

pub record ObjectMeta : Type 0 where
  pub name : Str
  pub namespace : Str
  pub uid : Str
  pub deleting : Bool  -- `!DeletionTimestamp.IsZero()`
  pub finalizers : List Str
  pub owner_references : List OwnerReference
  pub labels : List (Str × Str)
  pub annotations : List (Str × Str)

-- A Go error with the chain that `errors.As` walks: `wrap` is `errors.Wrap` or `%w`, and
-- `message` an error made from text alone, as by `fmt.Errorf` with `%v`. An `aggregate` holds the
-- texts of its errors; `errors.As` does not look into one.
pub data Error : Type 0 where
  script_error : Str → Str → Error
  not_found : Str → Error
  api_error : Str → Error
  message : Str → Error
  wrap : Str → Error → Error
  aggregate : List Str → Error

-- `errors.As(err, &scriptError)`
unfoldable pub is_script_error : Error → Bool
is_script_error (script_error f m) = true
is_script_error (wrap s e) = is_script_error e
is_script_error _ = false

-- `apierrors.IsNotFound(err)`
unfoldable pub is_not_found : Error → Bool
is_not_found (not_found s) = true
is_not_found (wrap s e) = is_not_found e
is_not_found _ = false

-- A Go pair `(A, error)`, or the panic that ended the call.
pub data Result (A : Type 0) : Type 0 where
  ok : A → Result A
  err : Error → Result A
  panic : Str → Result A
  timeout : Result A  -- a loop did not end in the rounds allowed

-- A Go map with string keys, as an association list; a read of a missing key gives "".
unfoldable pub find_key {ℓ} : {V : Type ℓ} → Str → List (Str × V) → Option V
find_key k [] = none
find_key k ((j, v) ∷ m) = if str_eq j k then some v else find_key k m

unfoldable pub read_key : Str → List (Str × Str) → Str
unfolding find_key
read_key k m = elim (find_key k m) [ none ↦ [] | some v ↦ v ]

unfoldable pub put_key {ℓ} : {V : Type ℓ} → Str → V → List (Str × V) → List (Str × V)
put_key k v [] = (k, v) ∷ []
put_key k v ((j, w) ∷ m) = if str_eq j k then (k, v) ∷ m else (j, w) ∷ put_key k v m
