-- ===== src/Machine/Steps/Properties.antt =====
-- The test before the custom properties of a VM are set.
use cluster_api_provider_scv.Base.{
  Str, str_eq, str_eq→≡, str_eq_refl, true, some, List, [], ◌∷◌, ◌≡◌, refl, ◌↔◌, All, arith,
  Option-cases, inl, inr,
}
use cluster_api_provider_scv.Api.Meta.{find_key}
use cluster_api_provider_scv.Machine.Steps.{equal_string_map}

-- The target has every entry of the source.
abbrev pub Includes : List (Str × Str) → List (Str × Str) → Type 0
Includes source target = All (λ e. find_key e.0 target ≡ some e.1) source

to_Includes :
    (source target : List (Str × Str))
    → equal_string_map source target ≡ true
    → Includes source target
unfolding equal_string_map
to_Includes [] target h = tt
to_Includes ((k, v) ∷ source) target h = elim (Option-cases (find_key k target)) [
  | inl e ↦ absurd (ground arith)
  | inr (w, e) ↦
      let same : str_eq v w ≡ true = ground arith in
      (rw (str_eq→≡ v w same) e, to_Includes source target (ground arith))
]

from_Includes :
    (source target : List (Str × Str))
    → Includes source target
    → equal_string_map source target ≡ true
unfolding equal_string_map
from_Includes [] target h = refl
from_Includes ((k, v) ∷ source) target h = rw (h.0, str_eq_refl v) (from_Includes source target h.1)

-- equal_string_map holds exactly if the target has every entry of the source with the same value.
pub equal_string_map_iff :
    (source target : List (Str × Str))
    → (equal_string_map source target ≡ true) ↔ Includes source target
equal_string_map_iff source target = (to_Includes source target, from_Includes source target)
