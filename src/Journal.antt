-- ===== src/Journal.antt =====
-- core/execution/recovery_journal.py and core/replay/replay_coordinator.py: the log of the intents'
-- transitions and its analysis, with `_transition` of core/execution/intent_dispatcher.py, which
-- writes it. A line of the file is its parsed record. Of a payload, the recovery contract is kept.
-- A write that raises leaves no line, or the line that it was to write.
pub mod Faithful
pub mod Recovery
pub mod Orphan
mod Samples
use novamind.Prelude.{
  ℕ, ◌+◌, String, Bool, true, false, not, ◌&&◌, ◌||◌, Option, none, some, List, [], ◌∷◌, ◌++◌, ◌==◌,
  if◌then◌else◌,
}
use novamind.Prelude.Dict
use novamind.Prelude.Dict.{Dict}
use novamind.Prelude.Result.{Result, ok, err}
use novamind.Intent.{
  State, value, mem, of_value, legal_transitions, Machine, IllegalTransition, new, transition,
}

-- payload.get("path"), payload.get("content_sha256")
pub record Contract : Type 0 where
  pub path : Option String
  pub content_sha256 : Option String

-- A record; an id or a state that is missing is the empty text, which the code treats alike.
pub record Entry : Type 0 where
  pub intent_id : String
  pub state : String
  pub payload : Contract

pub data Line : Type 0 where
  blank corrupt : Line
  entry : Entry → Line

pub record Info : Type 0 where
  pub id : String
  pub state : String
  pub payload : Contract
  pub history : List Entry

pub record Analysis : Type 0 where
  pub intents : Dict Info
  pub divergences : ℕ

-- Whether a record of the state `next` after one of the state `curr` is counted as a divergence: a
-- text that is no state raises ValueError.
unfoldable pub is_divergence : Bool → String → String → Bool
is_divergence is_first curr next =
    if curr == ""
    then (if next == "" then false else unknown (of_value next))
    else elim (of_value curr) [
      | none ↦ true
      | some s ↦ if next == "" then false else elim (of_value next) [
        | none ↦ true
        | some t ↦ not is_first && not (mem t (legal_transitions s))
      ]
    ]
  where
    unknown : Option State → Bool
    unknown none = true
    unknown (some s) = false

abbrev pub count : Bool → ℕ → ℕ
count b n = if b then n + 1 else n

abbrev pub first_info : Entry → Info
first_info e = record { id = e.intent_id; state = e.state; payload = e.payload; history = [] }

-- What a record does to the entry of its intent.
abbrev pub add_record : Entry → Info → Info
add_record e i = record i { state = e.state; history = i.history ++ e ∷ [] }

-- The body of the loop of `analyze_lineage`.
unfoldable pub absorb : Line → Analysis → Analysis
absorb blank a = a
absorb corrupt a = record a { divergences = a.divergences + 1 }
absorb (entry e) a = if e.intent_id == "" then a else elim (Dict.lookup e.intent_id a.intents) [
  | none ↦ record {
    intents = Dict.insert e.intent_id (add_record e (first_info e)) a.intents;
    divergences = count (is_divergence true e.state e.state) a.divergences;
  }
  | some i ↦ record {
    intents = Dict.insert e.intent_id (add_record e i) a.intents;
    divergences = count (is_divergence false i.state e.state) a.divergences;
  }
]

abbrev pub no_lines : Analysis
no_lines = record { intents = []; divergences = 0 }

unfoldable pub analyze_from : List Line → Analysis → Analysis
analyze_from [] a = a
analyze_from (l ∷ ls) a = analyze_from ls (absorb l a)

unfoldable pub analyze_lineage : List Line → Analysis
analyze_lineage ls = analyze_from ls no_lines

pub data TransitionError : Type 0 where
  illegal : IllegalTransition → TransitionError
  wal_failed : List Line → TransitionError  -- the file after it

-- The outcome of write, flush and fsync: where they raise, the line is lost, or it was left in the
-- file before the flush or the fsync failed. A line that is left in part is not modelled.
pub data Write : Type 0 where
  stored lost left : Write

abbrev pub is_stored : Write → Bool
is_stored stored = true
is_stored lost = false
is_stored left = false

abbrev pub is_left : Write → Bool
is_left left = true
is_left stored = false
is_left lost = false

abbrev pub left_lines : Bool → Line → List Line → List Line
left_lines b l ls = if b then ls ++ l ∷ [] else ls

-- log_transition
abbrev pub log_transition :
    String → State → Contract → Write → List Line → Result TransitionError (List Line)
log_transition id s payload durable ls =
    let l = entry (record { intent_id = id; state = value s; payload = payload }) in
    if is_stored durable
    then ok (ls ++ l ∷ [])
    else err (wal_failed (left_lines (is_left durable) l ls))

-- The file after an error.
abbrev pub lines_after : TransitionError → List Line → List Line
lines_after (illegal e) ls = ls
lines_after (wal_failed ls') ls = ls'

-- IntentDispatcher._transition and IntentRecovery._transition: the legality check, the record, the
-- machine.
unfoldable pub transition_logged :
    Machine → State → Contract → Write → List Line → Result TransitionError (Machine × List Line)
transition_logged m s payload durable ls =
    if mem s (legal_transitions m.state)
    then elim (log_transition m.intent_id s payload durable ls) [
      | err e ↦ err e
      | ok ls' ↦ elim (transition m s) [ err e ↦ err (illegal e) | ok m' ↦ ok (m', ls') ]
    ]
    else err (illegal (record { from = m.state; to = s }))

-- The machines of the intents that were dispatched, and the file.
pub record Kernel : Type 0 where
  pub machines : Dict Machine
  pub lines : List Line

abbrev pub or_new : String → Option Machine → Machine
or_new id none = new id
or_new id (some m) = m

abbrev pub machine_of : String → Dict Machine → Machine
machine_of id d = or_new id (Dict.lookup id d)

-- One call of `_transition`, on the machine of the intent; the first call makes it.
pub record Move : Type 0 where
  pub id : String
  pub to : State
  pub payload : Contract
  pub durable : Write

unfoldable pub move : Move → Kernel → Kernel
move c k = elim (transition_logged (machine_of c.id k.machines) c.to c.payload c.durable k.lines) [
  | err e ↦ record k { lines = lines_after e k.lines }
  | ok (m, ls) ↦ record { machines = Dict.insert c.id m k.machines; lines = ls }
]

unfoldable pub moves : List Move → Kernel → Kernel
moves [] k = k
moves (c ∷ l) k = moves l (move c k)

pub data ReconstructError : Type 0 where
  unknown_state : String → ReconstructError
  refused : IllegalTransition → ReconstructError

-- IntentRecovery._reconstruct, from the machine that `IntentStateMachine(intent_id)` makes
unfoldable pub reconstruct : Machine → List Entry → Result ReconstructError Machine
reconstruct m [] = ok m
reconstruct m (e ∷ l) = elim (of_value e.state) [
  | none ↦ err (unknown_state e.state)
  | some s ↦ elim (transition m s) [ err x ↦ err (refused x) | ok m' ↦ reconstruct m' l ]
]

abbrev pub no_kernel : Kernel
no_kernel = record { machines = []; lines = [] }
