-- ===== src/Dag/Samples.antt =====
-- A task that fails twice, two that wait for it in a row, and one on its own.
use novamind.Prelude.{
  suc, String, ◌≡◌, refl, Option, none, some, List, [], ◌∷◌, map, if◌then◌else◌, ◌==◌, eq_refl,
  arith,
}
use novamind.Prelude.Dict
use novamind.Prelude.Dict.{Dict}
use novamind.Dag.Event.{session_started, task_started, task_completed, session_ended}
use novamind.Dag.{
  row_of, TaskStatus, pending, TaskNode, Engine, Answer, returns, raises, Wait, execute_dag, loop,
  begin, end, save_rows, start_ready, start_all, ready, start, finish_all, settle, complete, retry,
  fail, abandon, abandon_all, run_node,
}
use novamind.Dag.Kept.{sum_of, left_of}
use novamind.Dag.Ends.{Waits, AllSettled}
use novamind.Dag.Step.{starts}
use novamind.Dag.Runs.{execute_dag-AllSettled, execute_dag-IsReported, IsReported}

abbrev task : List String → TaskNode
task deps = record {
  agent_type = "files";
  depends_on = deps;
  retry_limit = 1;
  retry_count = 0;
  status = pending;
  outcome = none;
  error = none;
}

abbrev tasks : Dict TaskNode
tasks = ("a", task []) ∷ ("b", task ("a" ∷ [])) ∷ ("c", task ("b" ∷ [])) ∷ ("e", task []) ∷ []

abbrev agents : List String
agents = "files" ∷ []

-- "e" returns, and the others raise.
abbrev answer : String → Answer
answer k = if k == "e" then returns "done" else raises "broken"

abbrev wait : Wait
wait i xs = map (λ k. (k, answer k)) xs

wait-Waits : Waits wait
wait-Waits i x xs = ground (arith, eq_refl x)

execute_dag-AllSettled_example :
    (s : Engine) × (execute_dag agents wait (suc (sum_of left_of tasks)) tasks [] ≡ some s)
    × AllSettled s
unfolding Dict.keys
execute_dag-AllSettled_example =
    execute_dag-AllSettled agents wait tasks [] wait-Waits (refl, (refl, (refl, (refl, tt))))
      ((refl, refl), ((refl, refl), ((refl, refl), ((refl, refl), tt))))

abbrev or_begun : Option Engine → Engine
or_begun none = begin tasks []
or_begun (some s) = s

abbrev final : Engine
final = or_begun (execute_dag agents wait 5 tasks [])

abbrev finished : TaskNode
finished = record (task []) { status = TaskStatus.completed; outcome = some "done" }

-- What comes of "e" alone.
abbrev alone : Engine
alone = record {
  nodes = ("e", finished) ∷ [];
  done = "e" ∷ [];
  lost = [];
  busy = [];
  results = ("e", "done") ∷ [];
  rows = ("e", row_of finished) ∷ [];
  events = session_started 1 ∷ task_started "e" ∷ task_completed "e" ∷ session_ended 1 0 ∷ [];
}

execute_dag-IsReported_example : IsReported (("e", task []) ∷ []) alone "e" finished
unfolding execute_dag loop begin end save_rows start_ready start_all ready start finish_all settle
    complete run_node Dict.keys Dict.lookup Dict.insert Dict.modify
execute_dag-IsReported_example =
    execute_dag-IsReported agents wait (("e", task []) ∷ []) [] 2 alone "e" finished (refl, tt)
      ((refl, refl), tt) refl refl

-- "a" has failed and "b" with it; "c", which depends on "b", is in neither set.
sets : ◌≡◌ {A = List String × List String} (final.done, final.lost) ("e" ∷ [], "a" ∷ "b" ∷ [])
unfolding execute_dag loop begin end save_rows start_ready start_all ready start finish_all settle
    complete retry fail abandon abandon_all run_node Dict.keys Dict.lookup Dict.insert Dict.modify
sets = refl

tried_twice : starts "a" final.events ≡ 2
unfolding execute_dag loop begin end save_rows start_ready start_all ready start finish_all settle
    complete retry fail abandon abandon_all run_node Dict.keys Dict.lookup Dict.insert Dict.modify
    starts
tried_twice = refl
