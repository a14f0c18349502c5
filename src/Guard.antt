-- ===== src/Guard.antt =====
-- security/command_guard.py, CommandGuard and its helpers. `Python` holds what the code calls of
-- str.lower, str.strip and re.search; a date that the code takes is an argument. The risk levels are
-- the five constants. The log messages and get_status are left out.
pub mod Rules
pub mod Session
pub mod Origin
pub mod Approval
pub mod Sandbox
mod Samples
use novamind.Prelude.{
  ℕ, String, Bool, true, false, not, ◌&&◌, ◌||◌, Option, none, some, List, [], ◌∷◌, ◌++◌, contains,
  drop, length, ◌-◌, leb, if◌then◌else◌,
}
use novamind.Prelude.Dict.{Dict, lookup, insert, remove}
use novamind.Prelude.Texts.{concat}
use novamind.Guard.Rules.{
  Risk, value, risk_name, risk_order, confirmation_patterns, any_in, is_blacklisted,
  modifies_protected_path, first_match, file_risk,
}

pub record Python : Type 0 where
  pub lower : String → String
  pub strip : String → String
  pub search : String → String → Bool

unfoldable pub assess_risk : Python → String → Risk
assess_risk py command = first_match risk_order (py.lower command)

abbrev pub assess_file_risk : Python → String → String → Risk
assess_file_risk py path operation = file_risk (py.lower path) operation

pub record Entry : Type 0 where
  pub description : String
  pub risk_level : String
  pub timestamp : String
  pub confirmed : Option Bool

pub record Decision : Type 0 where
  pub entry : Entry
  pub approved : Bool

pub record CommandGuard : Type 0 where
  pub strict_mode : Bool
  pub confirmation_history : List Decision
  pub pending_confirmations : Dict Entry
  pub session_allowlist : List String
  pub session_blocklist : List String

abbrev pub new_guard : Bool → CommandGuard
new_guard strict = record {
  strict_mode = strict;
  confirmation_history = [];
  pending_confirmations = [];
  session_allowlist = [];
  session_blocklist = [];
}

-- The texts of the date that a request takes.
pub record Now : Type 0 where
  pub stamp : String
  pub iso : String

abbrev pub id_of : Now → String
id_of now = concat "confirm_" now.stamp

unfoldable pub request_user_confirmation : Now → String → Risk → CommandGuard → CommandGuard
request_user_confirmation now description risk g = record g {
  pending_confirmations =
      insert (id_of now)
        (record {
          description = description;
          risk_level = risk_name risk;
          timestamp = now.iso;
          confirmed = none;
        })
        g.pending_confirmations;
}

abbrev pub approve : Bool → String → List String → List String
approve approved description l = if approved then l ++ description ∷ [] else l

unfoldable pub confirm_found : String → Bool → Option Entry → CommandGuard → Bool × CommandGuard
confirm_found id approved none g = (false, g)
confirm_found id approved (some e) g = (
  true,
  record g {
    pending_confirmations = remove id g.pending_confirmations;
    session_allowlist = approve approved e.description g.session_allowlist;
    confirmation_history =
        g.confirmation_history
        ++ record { entry = record e { confirmed = some approved }; approved = approved } ∷ [];
  },
)

unfoldable pub confirm_action : String → Bool → CommandGuard → Bool × CommandGuard
confirm_action id approved g = confirm_found id approved (lookup id g.pending_confirmations) g

unfoldable pub add_to_allowlist : Python → String → CommandGuard → CommandGuard
add_to_allowlist py pattern g = record g {
  session_allowlist = g.session_allowlist ++ py.lower pattern ∷ [];
}

unfoldable pub add_to_blocklist : Python → String → CommandGuard → CommandGuard
add_to_blocklist py pattern g = record g {
  session_blocklist = g.session_blocklist ++ py.lower pattern ∷ [];
}

abbrev pub get_security_log : CommandGuard → List Decision
get_security_log g = drop (length g.confirmation_history - 100) g.confirmation_history

abbrev pub is_confirmed : String → CommandGuard → Bool
is_confirmed command g = any_in g.session_allowlist command

-- The reasons that _check_string gives.
pub data Reason : Type 0 where
  dangerous_pattern protected_path strict_confirmation : Reason
  confirmation_required allowed_at : Risk → Reason

pub record Check : Type 0 where
  pub is_allowed : Bool
  pub reason : Reason
  pub guard : CommandGuard

abbrev pub refused : Reason → CommandGuard → Check
refused r g = record { is_allowed = false; reason = r; guard = g }

-- The loop over the confirmation patterns.
unfoldable pub stops : Python → String → Bool → List String → Bool
stops py cl is_known [] = false
stops py cl is_known (p ∷ ps) = (py.search p cl && not is_known) || stops py cl is_known ps

unfoldable pub check_patterns : Python → String → Bool → Risk → CommandGuard → Check
check_patterns py command strict risk g =
    if strict
      && stops py (py.strip (py.lower command)) (is_confirmed command g) confirmation_patterns
    then refused strict_confirmation g
    else record { is_allowed = true; reason = allowed_at risk; guard = g }

unfoldable pub check_risk : Python → Now → String → Bool → Risk → CommandGuard → Check
check_risk py now command strict risk g =
    if leb 3 (value risk) && not (is_confirmed command g)
    then refused (confirmation_required risk) (request_user_confirmation now command risk g)
    else check_patterns py command strict risk g

-- _check_string
unfoldable pub check_string : Python → Now → String → Bool → CommandGuard → Check
check_string py now command strict g =
    if is_blacklisted (py.strip (py.lower command))
    then refused dangerous_pattern g
    else if modifies_protected_path (py.strip (py.lower command))
    then refused protected_path g
    else check_risk py now command strict (assess_risk py command) g

-- A value of a dict: a text, or another with the text that str gives for it.
pub data Value : Type 0 where
  text other : String → Value

abbrev pub special_keys : List String
special_keys = "command" ∷ "path" ∷ "file" ∷ "url" ∷ []

abbrev pub part : String → Value → String
part k (text v) = if contains special_keys k then v else concat k (concat "=" v)
part k (other v) = v

abbrev pub parts : Dict Value → List String
parts [] = []
parts ((k, v) ∷ d) = part k v ∷ parts d

-- sep.join(texts)
abbrev pub joined : String → List String → String
joined sep [] = ""
joined sep (t ∷ []) = t
joined sep (t ∷ u ∷ ts) = concat t (concat sep (joined sep (u ∷ ts)))

unfoldable pub build_command_string : String → String → Dict Value → String
build_command_string agent action parameters = joined " " (agent ∷ action ∷ parts parameters)

unfoldable pub check_action : Python → Now → String → String → Dict Value → CommandGuard → Check
check_action py now agent action parameters g =
    check_string py now (build_command_string agent action parameters) g.strict_mode g

unfoldable pub check_command : Python → Now → String → CommandGuard → Check × Risk
check_command py now command g =
    (check_string py now command g.strict_mode g, assess_risk py command)
