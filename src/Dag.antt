-- ===== src/Dag.antt =====
-- core/orchestration/parallel_engine.py, and the rows that it writes by core/state/state_manager.py.
-- The tasks of a call have distinct ids, as the entries of a dict have; the rows are those of the
-- session. The event bus is the list of the events that it got, and neither the bus nor the database
-- raises. `wait` is asyncio.wait: from the number of the round and the ids that run it gives the tasks
-- that are done, in the order of the loop, with what came of them. Times, descriptions and the
-- events of the tool calls are left out; the lock around GUI agents is in what came of a task.
pub mod Step
pub mod Kept
pub mod Rounds
pub mod Ends
pub mod Runs
mod Samples
use novamind.Prelude.{
  ℕ, zero, suc, ◌+◌, String, Bool, true, false, ◌&&◌, Option, none, some, List, [], ◌∷◌, ◌++◌, add,
  all, any, contains, keep_if, length, ltb, if◌then◌else◌, not, ◌==◌,
}
use novamind.Prelude.Dict
use novamind.Prelude.Dict.{Dict}

pub data TaskStatus : Type 0 where
  pending running completed failed retrying : TaskStatus

-- The exceptions of a task.
pub data Fault : Type 0 where
  no_agent timed_out dependency_failed : Fault
  raised : String → Fault

pub record TaskNode : Type 0 where
  pub agent_type : String
  pub depends_on : List String
  pub retry_limit : ℕ
  pub retry_count : ℕ
  pub status : TaskStatus
  pub outcome : Option String
  pub error : Option Fault

-- A row of dag_nodes.
pub record Row : Type 0 where
  pub status : TaskStatus
  pub retry_count : ℕ
  pub outcome : Option String
  pub error : Option Fault

pub data Event : Type 0 where
  session_started : ℕ → Event
  task_started task_completed : String → Event
  task_retrying : String → Fault → ℕ → Event
  task_failed : String → Fault → Event
  session_ended : ℕ → ℕ → Event

pub record Engine : Type 0 where
  pub nodes : Dict TaskNode  -- task_dag and task_map
  pub done : List String  -- `completed`, a set
  pub lost : List String  -- `failed`, a set
  pub busy : List String  -- the keys of _running_tasks
  pub results : Dict String
  pub rows : Dict Row
  pub events : List Event

abbrev pub row_of : TaskNode → Row
row_of n = record {
  status = n.status;
  retry_count = n.retry_count;
  outcome = n.outcome;
  error = n.error;
}

-- save_session_state
unfoldable pub save_rows : Dict TaskNode → Dict Row → Dict Row
save_rows [] rows = rows
save_rows ((k, n) ∷ d) rows = save_rows d (Dict.insert k (row_of n) rows)

-- a or b
abbrev pub or_else {ℓ} : {A : Type ℓ} → Option A → Option A → Option A
or_else none b = b
or_else (some a) b = some a

-- update_task, which leaves a column alone for a None
abbrev pub updated : TaskStatus → Option String → Option Fault → Option ℕ → Row → Row
updated st res e none r = record r {
  status = st;
  outcome = or_else res r.outcome;
  error = or_else e r.error;
}
updated st res e (some c) r = record r {
  status = st;
  outcome = or_else res r.outcome;
  error = or_else e r.error;
  retry_count = c;
}

abbrev pub is_pending : TaskStatus → Bool
is_pending pending = true
is_pending _ = false

-- The test of `ready`.
abbrev pub is_ready : Engine → String → TaskNode → Bool
is_ready s k n =
    is_pending n.status && (all (contains s.done) n.depends_on && not (contains s.busy k))

unfoldable pub ready : Engine → Dict TaskNode → List String
ready s [] = []
ready s ((k, n) ∷ d) = let rest = ready s d in if is_ready s k n then k ∷ rest else rest

-- The ready task `k` becomes a running one.
unfoldable pub start : String → TaskNode → Engine → Engine
start k n s = record s {
  nodes = Dict.insert k (record n { status = running }) s.nodes;
  busy = add k s.busy;
  rows = Dict.modify k (updated running none none none) s.rows;
  events = s.events ++ task_started k ∷ [];
}

abbrev pub start_found : String → Option TaskNode → Engine → Engine
start_found k none s = s
start_found k (some n) s = start k n s

unfoldable pub start_all : List String → Engine → Engine
start_all [] s = s
start_all (k ∷ ks) s = start_all ks (start_found k (Dict.lookup k s.nodes) s)

-- What comes of a call of an agent.
pub data Answer : Type 0 where
  returns : String → Answer
  raises : String → Answer
  late : Answer

pub data Outcome : Type 0 where
  good : String → Outcome
  bad : Fault → Outcome

-- _run_node
unfoldable pub run_node : List String → TaskNode → Answer → Outcome
run_node agents n a =
    if contains agents n.agent_type
    then elim a [ returns r ↦ good r | raises e ↦ bad (raised e) | late ↦ bad timed_out ]
    else bad no_agent

abbrev pub without : String → List String → List String
without k = keep_if (λ j. not (j == k))

unfoldable pub complete : String → TaskNode → String → Engine → Engine
complete k n r s = record s {
  nodes = Dict.insert k (record n { status = completed; outcome = some r }) s.nodes;
  done = add k s.done;
  busy = without k s.busy;
  results = Dict.insert k r s.results;
  rows = Dict.modify k (updated completed (some r) none none) s.rows;
  events = s.events ++ task_completed k ∷ [];
}

unfoldable pub retry : String → TaskNode → Fault → Engine → Engine
retry k n e s = record s {
  nodes =
      Dict.insert k (record n { status = pending; retry_count = n.retry_count + 1; error = some e })
        s.nodes;
  busy = without k s.busy;
  rows = Dict.modify k (updated retrying none (some e) (some (n.retry_count + 1))) s.rows;
  events = s.events ++ task_retrying k e (n.retry_count + 1) ∷ [];
}

-- The task `k` has failed for good.
unfoldable pub fail : String → TaskNode → Fault → Engine → Engine
fail k n e s = record s {
  nodes = Dict.insert k (record n { status = failed; error = some e }) s.nodes;
  lost = add k s.lost;
  busy = without k s.busy;
  rows = Dict.modify k (updated failed none (some e) none) s.rows;
  events = s.events ++ task_failed k e ∷ [];
}

-- The task `j` fails because it depends on `k`.
unfoldable pub abandon : String → TaskNode → Engine → Engine
abandon j n s = record s {
  nodes = Dict.insert j (record n { status = failed }) s.nodes;
  lost = add j s.lost;
  rows = Dict.modify j (updated failed none (some dependency_failed) none) s.rows;
}

abbrev pub abandon_found : String → String → Option TaskNode → Engine → Engine
abandon_found k j none s = s
abandon_found k j (some n) s =
    if contains n.depends_on k && is_pending n.status then abandon j n s else s

-- The loop over the tasks that depend on `k`.
unfoldable pub abandon_all : String → List String → Engine → Engine
abandon_all k [] s = s
abandon_all k (j ∷ js) s = abandon_all k js (abandon_found k j (Dict.lookup j s.nodes) s)

unfoldable pub settle : String → TaskNode → Outcome → Engine → Engine
settle k n (good r) s = complete k n r s
settle k n (bad e) s =
    if ltb n.retry_count n.retry_limit
    then retry k n e s
    else abandon_all k (Dict.keys s.nodes) (fail k n e s)

abbrev pub finish_found : List String → String → Answer → Option TaskNode → Engine → Engine
finish_found agents k a none s = s
finish_found agents k a (some n) s = settle k n (run_node agents n a) s

-- The loop over `done`.
unfoldable pub finish_all : List String → List (String × Answer) → Engine → Engine
finish_all agents [] s = s
finish_all agents ((k, a) ∷ l) s =
    finish_all agents l
      (if contains s.busy k then finish_found agents k a (Dict.lookup k s.nodes) s else s)

abbrev pub is_open : Engine → Bool
is_open s = ltb (length s.done + length s.lost) (length s.nodes)

abbrev pub Wait : Type 0
Wait = ℕ → List String → List (String × Answer)

-- The ready tasks are started.
unfoldable pub start_ready : Engine → Engine
start_ready s = start_all (ready s s.nodes) s

-- The loop, with fuel; `none` means that the fuel ran out.
unfoldable pub loop : List String → Wait → ℕ → ℕ → Engine → Option Engine
loop agents wait zero i s = none
loop agents wait (suc fuel) i s =
    let s' = start_ready s in
    let rest = loop agents wait fuel (i + 1) (finish_all agents (wait i s'.busy) s') in
    if is_open s then elim s'.busy [ [] ↦ some s' | _ ∷ _ ↦ rest ] else some s

unfoldable pub begin : Dict TaskNode → Dict Row → Engine
begin d rows = record {
  nodes = d;
  done = [];
  lost = [];
  busy = [];
  results = [];
  rows = save_rows d rows;
  events = session_started (length d) ∷ [];
}

unfoldable pub end : Option Engine → Option Engine
end none = none
end (some s) =
    some (record s { events = s.events ++ session_ended (length s.done) (length s.lost) ∷ [] })

unfoldable pub execute_dag : List String → Wait → ℕ → Dict TaskNode → Dict Row → Option Engine
execute_dag agents wait fuel d rows = end (loop agents wait fuel 0 (begin d rows))
