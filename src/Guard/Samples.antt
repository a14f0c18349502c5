-- ===== src/Guard/Samples.antt =====
-- A session: an installation is refused, approved, and then allowed.
use novamind.Prelude.{String, ◌≡◌, refl, true, false, List, [], ◌∷◌, leb, ◌⊎◌}
use novamind.Prelude.Dict.{lookup, insert}
use novamind.Prelude.Texts.{is_in}
use novamind.Guard.Rules.{
  value, high, critical, first_match, is_blacklisted, modifies_protected_path, risk_patterns,
  file_risk,
}
use novamind.Guard.Session.{Call, command_checked, confirmed_by, allowed, blocked, run, step}
use novamind.Guard.Approval.{check-approved}
use novamind.Guard.Origin.{Grant, check-Grant}
use novamind.Guard.{
  Python, Now, check_string, check_command, check_risk, check_patterns, stops, assess_risk,
  confirm_action, confirm_found, request_user_confirmation, add_to_allowlist, build_command_string,
  text, other, assess_file_risk,
}

-- For texts in lower case, without a match of the confirmation patterns.
abbrev plain : Python
plain = record { lower = λ s. s; strip = λ s. s; search = λ p s. false }

abbrev first_moment : Now
first_moment = record { stamp = "1"; iso = "1" }

abbrev second_moment : Now
second_moment = record { stamp = "2"; iso = "2" }

abbrev installation : String
installation = "pip install x"

check-approved_example :
    (check_command plain second_moment installation (
      run plain false (
        blocked "pip"
        ∷ confirmed_by "confirm_1" true
        ∷ command_checked first_moment installation
        ∷ []))).0.is_allowed
    ≡ true
unfolding check_command run check_string check_risk assess_risk first_match is_blacklisted
    modifies_protected_path risk_patterns is_in
check-approved_example =
    check-approved plain false [] (blocked "pip" ∷ []) first_moment second_moment installation high
      refl

abbrev history : List Call
history = confirmed_by "confirm_1" true ∷ command_checked first_moment installation ∷ []

check-Grant_example :
    (is_blacklisted installation ≡ false)
    × (modifies_protected_path installation ≡ false)
    × ((leb 3 (value (assess_risk plain installation)) ≡ false)
        ⊎ Grant plain false history installation)
unfolding run step check_string check_command check_risk check_patterns stops assess_risk
    first_match is_blacklisted modifies_protected_path risk_patterns is_in confirm_action
    confirm_found request_user_confirmation lookup insert
check-Grant_example = check-Grant plain false false history second_moment installation refl

-- A command of the blacklist is refused although it was added to the allowlist.
refused_for_good :
    (check_command plain first_moment "diskpart"
      (run plain false (allowed "diskpart" ∷ []))).0.is_allowed
    ≡ false
unfolding check_command run step check_string is_blacklisted is_in add_to_allowlist
refused_for_good = refl

built :
    build_command_string "file_agent" "write"
      (("path", text "/tmp/a") ∷ ("mode", text "w") ∷ ("n", other "3") ∷ [])
    ≡ "file_agent write /tmp/a mode=w 3"
unfolding build_command_string
built = refl

protected_file : assess_file_risk plain "/etc/passwd" "read" ≡ critical
unfolding file_risk
protected_file = refl
