-- ===== src/Version/Profile.antt =====
-- agent/version/profile.go and the gate on it in agent/updates/qrx_core.go: switch safety.
use qrx_node_suite.Prelude.{
  ℕ, ◌≡◌, ◌↔◌, ◌⊎◌, String, Bool, true, false, not, ◌&&◌, Option, none, some, List, [], ◌∷◌,
  if◌then◌else◌, arith,
}

pub data SwitchCompat : Type 0 where
  compatible incompatible unknown : SwitchCompat

pub record SwitchSafety : Type 0 where
  pub blockchain_data : SwitchCompat
  pub configuration : SwitchCompat
  pub wallet : SwitchCompat
  pub adapter : SwitchCompat
  pub network : SwitchCompat

abbrev is_compatible : SwitchCompat → Bool
is_compatible compatible = true
is_compatible _ = false

abbrev is_incompatible : SwitchCompat → Bool
is_incompatible incompatible = true
is_incompatible _ = false

dimensions : SwitchSafety → List SwitchCompat
dimensions s = s.blockchain_data ∷ s.configuration ∷ s.wallet ∷ s.adapter ∷ s.network ∷ []

all_known_loop : List SwitchCompat → Bool
all_known_loop [] = true
all_known_loop (c ∷ cs) =
    if not (is_compatible c) && not (is_incompatible c) then false else all_known_loop cs

pub all_known : SwitchSafety → Bool
unfolding all_known_loop dimensions
all_known s = all_known_loop (dimensions s)

any_incompatible_loop : List SwitchCompat → Bool
any_incompatible_loop [] = false
any_incompatible_loop (c ∷ cs) = if is_incompatible c then true else any_incompatible_loop cs

pub any_incompatible : SwitchSafety → Bool
unfolding any_incompatible_loop dimensions
any_incompatible s = any_incompatible_loop (dimensions s)

pub record CompatibilityProfile : Type 0 where
  pub profile_version : ℕ
  pub qrx_core_version : String
  pub feature_flags : List (String × Bool)
  pub required_adapter : String
  pub core_version_switch_safety : SwitchSafety

pub data SwitchRefusal : Type 0 where
  safety_incompatible safety_unknown : SwitchRefusal

-- CheckSwitchSafety: `none` is a nil error.
unfoldable pub check_switch_safety : CompatibilityProfile → Bool → Option SwitchRefusal
unfolding any_incompatible all_known
check_switch_safety profile expert_override =
    if any_incompatible profile.core_version_switch_safety
    then some safety_incompatible
    else if not (all_known profile.core_version_switch_safety) && not expert_override
    then some safety_unknown
    else none

-- A dimension lets a switch pass: it is compatible, or unknown under the override.
abbrev pub Passes : Bool → SwitchCompat → Type 0
Passes o compatible = Unit
Passes o incompatible = ⊥
Passes o unknown = o ≡ true

abbrev pub AllPass : Bool → SwitchSafety → Type 0
AllPass o s =
    Passes o s.blockchain_data
    × Passes o s.configuration
    × Passes o s.wallet
    × Passes o s.adapter
    × Passes o s.network

-- A switch is allowed exactly if every dimension passes.
pub check_switch_safety-none_iff :
    (p : CompatibilityProfile) (o : Bool)
    → (check_switch_safety p o ≡ none) ↔ AllPass o p.core_version_switch_safety
unfolding check_switch_safety
check_switch_safety-none_iff p o = (ground arith, ground arith)

-- One incompatible dimension refuses the switch, and for that reason, whatever the override.
pub check_switch_safety-incompatible :
    (p : CompatibilityProfile) (o : Bool)
    → let s = p.core_version_switch_safety in
      (s.blockchain_data ≡ incompatible)
        ⊎ (s.configuration ≡ incompatible)
        ⊎ (s.wallet ≡ incompatible)
        ⊎ (s.adapter ≡ incompatible)
        ⊎ (s.network ≡ incompatible)
      → check_switch_safety p o ≡ some safety_incompatible
unfolding check_switch_safety
check_switch_safety-incompatible p o h = ground arith
