-- ===== src/Intent.antt =====
-- core/execution/intent_execution_state.py: the states of an execution intent, the table of legal
-- transitions and the machine that each intent has. `IntentExecutionState` is a `str` enum, so two
-- states are compared by their values.
pub mod Lineage
pub mod Progress
mod Samples
use novamind.Prelude.{
  String, Bool, Option, none, some, List, [], ◌∷◌, ◌++◌, ◌==◌, any, if◌then◌else◌,
}
use novamind.Prelude.Result.{Result, ok, err}

pub data State : Type 0 where
  created queued dispatched running verifying completed failed : State
  compensating compensated aborted rejected orphaned recovering reconciled : State

abbrev pub value : State → String
value created = "CREATED"
value queued = "QUEUED"
value dispatched = "DISPATCHED"
value running = "RUNNING"
value verifying = "VERIFYING"
value completed = "COMPLETED"
value failed = "FAILED"
value compensating = "COMPENSATING"
value compensated = "COMPENSATED"
value aborted = "ABORTED"
value rejected = "REJECTED"
value orphaned = "ORPHANED"
value recovering = "RECOVERING"
value reconciled = "RECONCILED"

abbrev pub states : List State
states =
    created ∷ queued ∷ dispatched ∷ running ∷ verifying ∷ completed ∷ failed ∷ compensating
    ∷ compensated ∷ aborted ∷ rejected ∷ orphaned ∷ recovering ∷ reconciled ∷ []

-- `s in states`
abbrev pub mem : State → List State → Bool
mem s l = any (λ t. value t == value s) l

find_value : String → List State → Option State
find_value v [] = none
find_value v (s ∷ l) = if value s == v then some s else find_value v l

-- IntentExecutionState(v), where `none` is the ValueError
unfoldable pub of_value : String → Option State
unfolding find_value
of_value v = find_value v states

-- LEGAL_TRANSITIONS
unfoldable pub legal_transitions : State → List State
legal_transitions created = queued ∷ rejected ∷ aborted ∷ []
legal_transitions queued = dispatched ∷ aborted ∷ []
legal_transitions dispatched = running ∷ failed ∷ aborted ∷ []
legal_transitions running = verifying ∷ failed ∷ orphaned ∷ []
legal_transitions orphaned = recovering ∷ failed ∷ []
legal_transitions recovering = reconciled ∷ failed ∷ []
legal_transitions verifying = completed ∷ failed ∷ []
legal_transitions completed = []
legal_transitions failed = compensating ∷ aborted ∷ []
legal_transitions compensating = compensated ∷ failed ∷ []
legal_transitions compensated = []
legal_transitions aborted = []
legal_transitions rejected = []
legal_transitions reconciled = []

-- TERMINAL_STATES
unfoldable pub terminal_states : List State
terminal_states = completed ∷ compensated ∷ aborted ∷ rejected ∷ reconciled ∷ []

-- IntentStateError, with the states that its message names
pub record IllegalTransition : Type 0 where
  pub from : State
  pub to : State

-- IntentStateMachine
pub record Machine : Type 0 where
  pub intent_id : String
  pub state : State
  pub history : List State

unfoldable pub new : String → Machine
new id = record { intent_id = id; state = created; history = created ∷ [] }

unfoldable pub transition : Machine → State → Result IllegalTransition Machine
transition m s =
    if mem s (legal_transitions m.state)
    then ok (record m { state = s; history = m.history ++ s ∷ [] })
    else err (record { from = m.state; to = s })

unfoldable pub is_terminal : Machine → Bool
is_terminal m = mem m.state terminal_states

-- What the caller holds after an attempt: a refused transition leaves the machine as it was.
abbrev pub after : Machine → Result IllegalTransition Machine → Machine
after m (ok m') = m'
after m (err _) = m

-- The machine after a list of attempts, where the caller catches each IntentStateError.
unfoldable pub attempts : Machine → List State → Machine
attempts m [] = m
attempts m (s ∷ l) = attempts (after m (transition m s)) l
