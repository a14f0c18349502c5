-- ===== src/Causal.antt =====
-- core/orchestration/causal_scheduler.py. The payload of an event is its text; what is passed to
-- `dispatch_fn` is kept, in order, in `calls`. `dispatch_fn` is the parameter `raises`: the message of
-- the exception that it raises for an event, if it raises one; it does not call the scheduler. The
-- runtime clock and the epoch are fields. Wall-clock times are left out.
mod Sort
pub mod Order
mod Known
pub mod Drain
pub mod Dropped
mod Samples
pub use Sort.{ScheduledEvent, clock_sort}
use novamind.Prelude.{
  ℕ, zero, suc, ◌+◌, ◌-◌, String, Bool, true, false, not, ◌&&◌, Option, none, some, List, [], ◌∷◌,
  ◌++◌, add, length, take, drop, keep_if, contains, eqb, if◌then◌else◌,
}
use novamind.Prelude.Dict
use novamind.Prelude.Dict.{Dict}

pub data Action : Type 0 where
  submitted dispatched blocked dropped : Action

-- The texts of `wait_reason`.
pub data WaitReason : Type 0 where
  no_reason deadlock_resolution : WaitReason
  waiting_on : ℕ → WaitReason
  blocked_on : List String → WaitReason
  raised : String → WaitReason

pub record TraceEntry : Type 0 where
  pub event_id : String
  pub action : Action
  pub logical_clock : ℕ
  pub epoch_id : ℕ
  pub causal_parents : List String
  pub wait_reason : WaitReason

pub record Scheduler : Type 0 where
  pub pending : Dict ScheduledEvent
  pub completed : List String  -- a set
  pub dependents : Dict (List String)  -- of sets
  pub trace : List TraceEntry
  pub clock : ℕ
  pub epoch : ℕ
  pub calls : List ScheduledEvent

abbrev pub max_entries : ℕ
max_entries = 2000

-- l[-n:]
unfoldable pub last_n : ℕ → List TraceEntry → List TraceEntry
last_n n l = drop (length l - n) l

abbrev pub entry : Action → WaitReason → ScheduledEvent → TraceEntry
entry a w e = record {
  event_id = e.event_id;
  action = a;
  logical_clock = e.logical_clock;
  epoch_id = e.epoch_id;
  causal_parents = e.causal_parents;
  wait_reason = w;
}

-- SchedulerTraceLog.record
unfoldable pub note : TraceEntry → List TraceEntry → List TraceEntry
note t l = last_n max_entries (l ++ t ∷ [])

-- self._dependents[parent_id].add(event_id), on a defaultdict
unfoldable pub add_dependents : String → List String → Dict (List String) → Dict (List String)
add_dependents id [] d = d
add_dependents id (p ∷ ps) d =
    add_dependents id ps
      (Dict.insert p (add id (elim (Dict.lookup p d) [ none ↦ [] | some l ↦ l ])) d)

-- The arguments of `submit` that may be None.
abbrev pub clock_of : Option ℕ → Scheduler → ℕ × Scheduler
clock_of none s = (s.clock + 1, record s { clock = s.clock + 1 })
clock_of (some c) s = (c, s)

abbrev pub epoch_of : Option ℕ → Scheduler → ℕ
epoch_of none s = s.epoch
epoch_of (some e) s = e

abbrev pub waits_for : List String → WaitReason
waits_for [] = no_reason
waits_for (p ∷ ps) = waiting_on (length (p ∷ ps))

abbrev pub add_node : ScheduledEvent → Scheduler → Scheduler
add_node e s = record s {
  pending = Dict.insert e.event_id e s.pending;
  dependents = add_dependents e.event_id e.causal_parents s.dependents;
  trace = note (entry submitted (waits_for e.causal_parents) e) s.trace;
}

unfoldable pub submit : String → String → List String → Option ℕ → Option ℕ → Scheduler → Scheduler
submit id payload parents clock epoch s =
    let (c, s') = clock_of clock s in
    add_node
      (record {
        event_id = id;
        payload = payload;
        causal_parents = parents;
        logical_clock = c;
        epoch_id = epoch_of epoch s';
      })
      s'

-- [p for p in node.causal_parents if p not in self._completed]
abbrev pub unresolved : List String → ScheduledEvent → List String
unresolved done e = keep_if (λ p. not (contains done p)) e.causal_parents

abbrev pub is_nil {ℓ} : {A : Type ℓ} → List A → Bool
is_nil [] = true
is_nil (x ∷ xs) = false

-- The loop of `_get_ready_events`: the ready nodes in the order of the dict, and the trace.
unfoldable pub scan :
    List String → Dict ScheduledEvent → List TraceEntry → List ScheduledEvent × List TraceEntry
scan done [] t = ([], t)
scan done ((k, e) ∷ d) t =
    let left = unresolved done e in
    let (ready, t') =
      scan done d
        (if is_nil left then t else note (entry blocked (blocked_on (take 3 left)) e) t) in
    (if is_nil left then e ∷ ready else ready, t')

unfoldable pub get_ready_events : Scheduler → List ScheduledEvent × Scheduler
unfolding scan
get_ready_events s =
    let (ready, t) = scan s.completed s.pending s.trace in
    (clock_sort ready, record s { trace = t })

-- What both branches of the `try` in `run_cycle` do, with the trace entry that they make.
abbrev pub finish : TraceEntry → ScheduledEvent → Scheduler → Scheduler
finish t e s = record s {
  completed = add e.event_id s.completed;
  pending = Dict.remove e.event_id s.pending;
  trace = note t s.trace;
  calls = s.calls ++ e ∷ [];
}

-- One event of the force-completion of those that are stuck.
abbrev pub force_one : String → ScheduledEvent → Scheduler → Scheduler
force_one k e s = record s {
  pending = Dict.remove k s.pending;
  completed = add k s.completed;
  trace = note (entry dropped deadlock_resolution (record e { event_id = k })) s.trace;
}

unfoldable pub force : Dict ScheduledEvent → Scheduler → Scheduler
force [] s = s
force ((k, e) ∷ d) s = force d (force_one k e s)

module _ (raises : ScheduledEvent → Option String) where
  -- One node of `for node in ready`, with the count of those that were dispatched.
  unfoldable pub dispatch_one : ScheduledEvent → ℕ × Scheduler → ℕ × Scheduler
  dispatch_one e (n, s) = elim (raises e) [
    | none ↦ (n + 1, finish (entry dispatched no_reason e) e s)
    | some m ↦ (n, finish (entry dropped (raised m) e) e s)
  ]

  unfoldable pub dispatch_all : List ScheduledEvent → ℕ × Scheduler → ℕ × Scheduler
  dispatch_all [] r = r
  dispatch_all (e ∷ es) r = dispatch_all es (dispatch_one e r)

  unfoldable pub run_cycle : Scheduler → ℕ × Scheduler
  run_cycle s = let (ready, s') = get_ready_events s in dispatch_all ready (0, s')

  -- `for cycle in range(max_cycles)`, with the total so far.
  unfoldable pub cycles : ℕ → ℕ → Scheduler → ℕ × Scheduler
  cycles zero total s = (total, s)
  cycles (suc k) total s = elim (is_nil s.pending) [
    | true ↦ (total, s)
    | false ↦
        let (n, s') = run_cycle s in
        elim (eqb n 0 && not (is_nil s'.pending)) [
          | true ↦ (total + n, force s'.pending s')
          | false ↦ cycles k (total + n) s'
        ]
  ]

  unfoldable pub run_until_empty : ℕ → Scheduler → ℕ × Scheduler
  run_until_empty max_cycles s = cycles max_cycles 0 s

abbrev pub fresh : ℕ → ℕ → Scheduler
fresh clock epoch = record {
  pending = [];
  completed = [];
  dependents = [];
  trace = [];
  clock = clock;
  epoch = epoch;
  calls = [];
}

-- The arguments of one call of `submit`.
pub record Submission : Type 0 where
  pub id : String
  pub payload : String
  pub parents : List String
  pub clock : Option ℕ
  pub epoch : Option ℕ

abbrev pub submit_one : Submission → Scheduler → Scheduler
submit_one x s = submit x.id x.payload x.parents x.clock x.epoch s

unfoldable pub submit_all : List Submission → Scheduler → Scheduler
submit_all [] s = s
submit_all (x ∷ l) s = submit_all l (submit_one x s)
