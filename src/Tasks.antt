-- ===== src/Tasks.antt =====
-- core/orchestration/scheduler.py: the scheduler of background tasks. The heap is the list of its
-- entries in the order in which they are popped, equal ones in the order of their push, where heapq
-- leaves that open; an entry has the time and the priority of its task
-- when it was pushed, which do not change while it is there. `time.time()` is an argument, in whole
-- units, and `uuid4()` is the argument `id`. The thread of a task that is RUNNING is one step, with the
-- answer of the brain. Requests, labels, contexts and callbacks are left out.
pub mod Held
pub mod Runs
mod Samples
use novamind.Prelude.{
  ℕ, suc, ◌+◌, String, Bool, true, false, not, ◌&&◌, ◌||◌, Option, none, some, List, [], ◌∷◌, leb,
  ltb, eqb, if◌then◌else◌,
}
use novamind.Prelude.Dict
use novamind.Prelude.Dict.{Dict}

pub data Priority : Type 0 where
  critical high normal low idle : Priority

abbrev pub priority_value : Priority → ℕ
priority_value critical = 0
priority_value high = 1
priority_value normal = 2
priority_value low = 3
priority_value idle = 4

pub data Status : Type 0 where
  queued waiting running done failed cancelled recurring : Status

pub record ScheduledTask : Type 0 where
  pub run_at : ℕ
  pub priority : ℕ
  pub recur_every : Option ℕ
  pub max_runs : ℕ
  pub runs_done : ℕ
  pub status : Status

pub record HeapEntry : Type 0 where
  pub run_at : ℕ
  pub priority : ℕ
  pub task_id : String

-- The order of the dataclass: the time, then the priority.
abbrev pub before : HeapEntry → HeapEntry → Bool
before a b = ltb a.run_at b.run_at || eqb a.run_at b.run_at && ltb a.priority b.priority

-- heapq.heappush
unfoldable pub heappush : HeapEntry → List HeapEntry → List HeapEntry
heappush e [] = e ∷ []
heappush e (f ∷ h) = let rest = heappush e h in if before e f then e ∷ f ∷ h else f ∷ rest

pub record TaskScheduler : Type 0 where
  pub heap : List HeapEntry
  pub tasks : Dict ScheduledTask

abbrev pub empty : TaskScheduler
empty = record { heap = []; tasks = [] }

-- The arguments of `submit`.
pub record Submission : Type 0 where
  pub id : String
  pub priority : Priority
  pub run_at : Option ℕ
  pub delay_secs : ℕ
  pub recur_every : Option ℕ
  pub max_runs : ℕ

time_of : ℕ → Submission → ℕ
time_of now x = elim x.run_at [ none ↦ now + x.delay_secs | some t ↦ t ]

is_set : Option ℕ → Bool
is_set none = false
is_set (some t) = true

unfoldable pub task_of : ℕ → Submission → ScheduledTask
unfolding time_of is_set
task_of now x = record {
  run_at = time_of now x;
  priority = priority_value x.priority;
  recur_every = x.recur_every;
  max_runs = if ltb 0 x.max_runs then x.max_runs else 999999;
  runs_done = 0;
  status = if ltb 0 x.delay_secs || is_set x.run_at then waiting else queued;
}

abbrev pub entry_of : String → ScheduledTask → HeapEntry
entry_of id t = record { run_at = t.run_at; priority = t.priority; task_id = id }

unfoldable pub submit : ℕ → Submission → TaskScheduler → TaskScheduler
submit now x s = record {
  heap = heappush (entry_of x.id (task_of now x)) s.heap;
  tasks = Dict.insert x.id (task_of now x) s.tasks;
}

-- The test of `_tick`.
abbrev pub skips : Status → Bool
skips cancelled = true
skips running = true
skips _ = false

-- _execute_async, unless `_tick` skips the task
abbrev pub start : ScheduledTask → ScheduledTask
start t = if skips t.status then t else record t { status = running }

-- The loop of `_tick`.
unfoldable pub pop_due : ℕ → List HeapEntry → Dict ScheduledTask → TaskScheduler
pop_due now [] d = record { heap = []; tasks = d }
pop_due now (e ∷ h) d =
    let rest = pop_due now h (Dict.modify e.task_id start d) in
    if leb e.run_at now then rest else record { heap = e ∷ h; tasks = d }

unfoldable pub tick : ℕ → TaskScheduler → TaskScheduler
tick now s = pop_due now s.heap s.tasks

-- The end of `_run_task`: the task, and whether it is pushed again.
unfoldable pub again : ℕ → Bool → Option ℕ → ScheduledTask → ScheduledTask × Bool
again now success none t = (record t { status = if success then done else failed }, false)
again now success (some secs) t = (record t { status = recurring; run_at = now + secs }, true)

unfoldable pub settle : ℕ → Bool → ScheduledTask → ScheduledTask × Bool
unfolding again
settle now success t =
    if leb t.max_runs t.runs_done
    then (record t { status = if success then done else failed }, false)
    else again now success t.recur_every t

abbrev pub is_running : Status → Bool
is_running running = true
is_running _ = false

unfoldable pub push_again : String → ScheduledTask × Bool → TaskScheduler → TaskScheduler
push_again id (t, false) s = record s { tasks = Dict.insert id t s.tasks }
push_again id (t, true) s = record {
  heap = heappush (entry_of id t) s.heap;
  tasks = Dict.insert id t s.tasks;
}

unfoldable pub run_found : ℕ → String → Bool → Option ScheduledTask → TaskScheduler → TaskScheduler
unfolding push_again
run_found now id success none s = s
run_found now id success (some t) s =
    if is_running t.status
    then push_again id (settle now success (record t { runs_done = t.runs_done + 1 })) s
    else s

-- _run_task, on a task whose thread was started
unfoldable pub run_task : ℕ → String → Bool → TaskScheduler → TaskScheduler
unfolding run_found
run_task now id success s = run_found now id success (Dict.lookup id s.tasks) s

abbrev pub is_cancellable : Status → Bool
is_cancellable queued = true
is_cancellable waiting = true
is_cancellable recurring = true
is_cancellable _ = false

abbrev cancel_found : Option ScheduledTask → Option Bool
cancel_found none = some false
cancel_found (some t) = if is_cancellable t.status then none else some false

-- cancel; `none` is the call that never returns, since `_notify_all` takes the lock again
unfoldable pub cancel : String → TaskScheduler → Option Bool
cancel id s = cancel_found (Dict.lookup id s.tasks)

-- The calls that return, with the clock's reading.
pub data Call : Type 0 where
  submits : Submission → Call
  ticks : Call
  runs : String → Bool → Call

unfoldable pub step : ℕ → Call → TaskScheduler → TaskScheduler
step now (submits x) s = submit now x s
step now ticks s = tick now s
step now (runs id success) s = run_task now id success s

unfoldable pub run : List (ℕ × Call) → TaskScheduler → TaskScheduler
run [] s = s
run ((now, c) ∷ cs) s = run cs (step now c s)
