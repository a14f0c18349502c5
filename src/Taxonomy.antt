-- ===== src/Taxonomy.antt =====
-- core/execution/verification_taxonomy.py: the verification modes, and which of them the class of a
-- capability's determinism allows. Both enumerations are `str` enums, and the table's keys are texts.
use novamind.Prelude.{String, Option, none, some, List, [], ◌∷◌, ◌==◌, any, if◌then◌else◌}
use novamind.Prelude.Dict
use novamind.Prelude.Dict.{Dict}
use novamind.Prelude.Result.{Result, ok, err}

pub data VerificationMode : Type 0 where
  strict_state_verification side_effect_verification observational_verification : VerificationMode
  human_confirmed best_effort none_performed : VerificationMode

abbrev pub mode_value : VerificationMode → String
mode_value strict_state_verification = "STRICT_STATE_VERIFICATION"
mode_value side_effect_verification = "SIDE_EFFECT_VERIFICATION"
mode_value observational_verification = "OBSERVATIONAL_VERIFICATION"
mode_value human_confirmed = "HUMAN_CONFIRMED"
mode_value best_effort = "BEST_EFFORT"
mode_value none_performed = "NONE"

-- DETERMINISM_TO_ALLOWED_MODES
unfoldable pub determinism_to_allowed_modes : Dict (List VerificationMode)
determinism_to_allowed_modes =
    (
      "DETERMINISTIC",
      strict_state_verification ∷ side_effect_verification ∷ best_effort ∷ none_performed ∷ [],
    )
    ∷ (
      "SEMI_DETERMINISTIC",
      side_effect_verification ∷ observational_verification ∷ best_effort ∷ [],
    )
    ∷ ("NON_DETERMINISTIC", observational_verification ∷ human_confirmed ∷ best_effort ∷ [])
    ∷ []

abbrev or_empty : Option (List VerificationMode) → List VerificationMode
or_empty none = []
or_empty (some l) = l

unfoldable pub allowed_modes : String → List VerificationMode
unfolding determinism_to_allowed_modes Dict.lookup
allowed_modes c = or_empty (Dict.lookup c determinism_to_allowed_modes)

-- ValueError, with the mode, the class and the allowed modes that its message gives
pub record IncompatibleMode : Type 0 where
  pub mode : VerificationMode
  pub determinism : String
  pub allowed : List VerificationMode

unfoldable pub validate_verification_mode :
    String → VerificationMode → Result IncompatibleMode (Unit {0})
unfolding allowed_modes
validate_verification_mode c m =
    if any (λ a. mode_value a == mode_value m) (allowed_modes c)
    then ok tt
    else err (record { mode = m; determinism = c; allowed = allowed_modes c })
