-- ===== src/Registry/Consistent.antt =====
-- What every entry of the capability table satisfies.
use novamind.Prelude.{
  String, ◌≡◌, ◌≢◌, refl, ◌∙◌, Bool, true, false, none, some, arith, contains, not, ◌&&◌, ◌⊎◌, inl,
  inr, Option-cases, if◌then◌else◌,
}
use novamind.Prelude.Result.{ok, err}
use novamind.Prelude.Dict
use novamind.Prelude.Dict.{Dict, Entries, lookup-Entries}
use novamind.Taxonomy.{
  VerificationMode, mode_value, none_performed, validate_verification_mode,
  strict_state_verification, side_effect_verification, observational_verification,
}
use novamind.Registry.{
  DeterminismClass, ReplayPolicy, AuthorityLevel, CapabilityTrustLevel, CapabilityDefinition,
  capabilities, get, require, all_capabilities, unregistered,
}

abbrev pub class_value : DeterminismClass → String
class_value DeterminismClass.deterministic = "DETERMINISTIC"
class_value DeterminismClass.semi_deterministic = "SEMI_DETERMINISTIC"
class_value DeterminismClass.non_deterministic = "NON_DETERMINISTIC"

-- The rules that the comments of the two files state for a capability.
pub record IsSound (name : String) (d : CapabilityDefinition) : Type 0 where
  pub named : d.capability_name ≡ name
  pub mode : VerificationMode
  pub declared : mode_value mode ≡ d.verification_mode
  pub compatible : validate_verification_mode (class_value d.determinism_class) mode ≡ ok tt
  pub verified : d.side_effect_permanent ≡ true → mode ≢ none_performed
  pub foreground : d.requires_user_focus ≡ true → d.allows_background_execution ≡ false
  pub replayed :
      d.replay_policy ≡ ReplayPolicy.strict → d.determinism_class ≡ DeterminismClass.deterministic
  pub trusted :
      d.trust_level ≡ CapabilityTrustLevel.high_authority
      → d.determinism_class ≢ DeterminismClass.non_deterministic
  pub bridged :
      d.authority_level ≡ AuthorityLevel.legacy_bridge
      → d.determinism_class ≡ DeterminismClass.non_deterministic

-- The same rules as a test.
implies : Bool → Bool → Bool
implies a b = if a then b else true

is_non_deterministic : CapabilityDefinition → Bool
is_non_deterministic d = elim d.determinism_class [
  | DeterminismClass.non_deterministic ↦ true
  | _ ↦ false
]

is_deterministic : CapabilityDefinition → Bool
is_deterministic d = elim d.determinism_class [ DeterminismClass.deterministic ↦ true | _ ↦ false ]

check : VerificationMode → CapabilityDefinition → Bool
unfolding implies is_non_deterministic is_deterministic
check mode d =
    implies d.side_effect_permanent (elim mode [ none_performed ↦ false | _ ↦ true ])
    && (implies d.requires_user_focus (not d.allows_background_execution)
        && (implies (elim d.replay_policy [ ReplayPolicy.strict ↦ true | _ ↦ false ])
              (is_deterministic d)
            && (implies
                  (elim d.trust_level [ CapabilityTrustLevel.high_authority ↦ true | _ ↦ false ])
                  (not (is_non_deterministic d))
                && implies
                    (elim d.authority_level [ AuthorityLevel.legacy_bridge ↦ true | _ ↦ false ])
                    (is_non_deterministic d))))

check-IsSound :
    (m : VerificationMode) (d : CapabilityDefinition)
    → mode_value m ≡ d.verification_mode
    → validate_verification_mode (class_value d.determinism_class) m ≡ ok tt
    → check m d ≡ true
    → IsSound d.capability_name d
unfolding check
check-IsSound m d same valid h = record {
  named = refl;
  mode = m;
  declared = same;
  compatible = valid;
  verified = ground arith;
  foreground = ground arith;
  replayed = ground arith;
  trusted = ground arith;
  bridged = ground arith;
}

capabilities-IsSound : Entries IsSound capabilities
unfolding capabilities check validate_verification_mode
capabilities-IsSound = (
  check-IsSound strict_state_verification _ refl refl refl,
  (
    check-IsSound side_effect_verification _ refl refl refl,
    (
      check-IsSound side_effect_verification _ refl refl refl,
      (
        check-IsSound strict_state_verification _ refl refl refl,
        (
          check-IsSound side_effect_verification _ refl refl refl,
          (
            check-IsSound side_effect_verification _ refl refl refl,
            (
              check-IsSound observational_verification _ refl refl refl,
              (
                check-IsSound observational_verification _ refl refl refl,
                (
                  check-IsSound observational_verification _ refl refl refl,
                  (
                    check-IsSound observational_verification _ refl refl refl,
                    (
                      check-IsSound observational_verification _ refl refl refl,
                      (check-IsSound side_effect_verification _ refl refl refl, tt),
                    ),
                  ),
                ),
              ),
            ),
          ),
        ),
      ),
    ),
  ),
)

-- Every capability that the registry returns is declared under its own name, with a verification mode
-- that its determinism class allows; one with a permanent effect is verified; one that needs the
-- user's focus does not run in the background; one that is replayed strictly is deterministic; one of
-- high authority is not non-deterministic; and one for the legacy bridge is.
pub get-IsSound : (name : String) (d : CapabilityDefinition) → get name ≡ some d → IsSound name d
unfolding get
get-IsSound name d h = lookup-Entries IsSound name capabilities capabilities-IsSound h

-- `require` returns a definition for exactly the names of `all_capabilities`, and raises for any other.
require_cases :
    (name : String)
    → ((d : CapabilityDefinition) × (require name ≡ ok d)
        × (get name ≡ some d)
        × (contains all_capabilities name ≡ true))
      ⊎ ((require name ≡ err (unregistered name))
          × (get name ≡ none)
          × (contains all_capabilities name ≡ false))
unfolding require get all_capabilities
require_cases name = elim (Option-cases (Dict.lookup name capabilities)) [
  | inl e ↦
      inr
        (rw e, e, Dict.contains-keys name capabilities ∙ Dict.not_has_of_lookup name capabilities e)
  | inr (d, e) ↦
      inl (
        d,
        rw e,
        e,
        Dict.contains-keys name capabilities ∙ Dict.has_of_lookup name d capabilities e,
      )
]
