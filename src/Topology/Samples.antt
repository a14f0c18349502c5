-- ===== src/Topology/Samples.antt =====
-- A window that dies, and handlers that answer each other.
use novamind.Prelude.{
  String, ◌≡◌, refl, true, false, Option, none, some, List, [], ◌∷◌, ◌==◌, if◌then◌else◌, arith,
}
use novamind.Topology.{
  returned, waiting, Out, Ending, propagate, dispatch_locked, verification_event, Bus, EventType,
  scheduler_event, RuntimeEvent, Kind, lifecycle, verification, scheduler, other_action,
  queue_abort, committed, delivered, Topology, Handler, emissions, dispatch, remember, commit,
  commit_unless_telemetry, abort_storm, enforce, body, route, emit_sync, idle,
}
use novamind.Topology.Durable.{durable, emit_sync-durable}
use novamind.Topology.Depth.{Back, emit_sync-Back_quiet, emit_sync-storm}

abbrev event : String → Kind → RuntimeEvent
event id k = record { event_id = id; kind = k; parent_event_id = none; causal_lineage = [] }

-- Handlers that emit nothing.
abbrev deaf : EventType → List Handler
deaf t = (λ e. []) ∷ []

abbrev calm : Bus
calm = record { works = λ n. true; new_id = λ n. "new"; has_scheduler = true; handlers = deaf }

abbrev dead : RuntimeEvent
dead = event "w" (lifecycle true "7")

emit_sync-Back_quiet_example : Back 0 false (emit_sync calm 6 dead idle)
emit_sync-Back_quiet_example =
    emit_sync-Back_quiet calm dead idle ((λ e. refl), tt) ((λ e. refl), tt) refl refl

abbrev abort : RuntimeEvent
abort = record {
  event_id = "new";
  kind = scheduler (queue_abort "7");
  parent_event_id = some "w";
  causal_lineage = "w" ∷ [];
}

-- The abort of the queue is committed and delivered before the death of the window is delivered.
abbrev afterwards : Topology
afterwards = record {
  trace = committed "w" ∷ committed "new" ∷ delivered abort ∷ delivered dead ∷ [];
  event_log = abort ∷ dead ∷ [];
  depth = 0;
  verifying = false;
  seen_ids = [];
  commits = 2;
  ids = 1;
}

emit_sync-durable_example : durable [] afterwards.trace ≡ true
unfolding emit_sync route body enforce commit commit_unless_telemetry dispatch propagate
    dispatch_locked emissions remember durable
emit_sync-durable_example = emit_sync-durable calm 6 dead idle afterwards returned refl refl

-- The names of a chain of events.
abbrev follows : String → String
follows id =
    if id == "a"
    then "b"
    else if id == "b"
    then "c"
    else if id == "c"
    then "d"
    else if id == "d"
    then "e"
    else "f"

-- Each scheduler event is answered by another.
abbrev chatter : EventType → List Handler
chatter scheduler_event =
    (λ e. event (follows e.event_id) (scheduler (other_action "next")) ∷ []) ∷ []
chatter t = []

abbrev loud : Bus
loud = record calm { handlers = chatter }

abbrev deep : Topology
deep = record idle { depth = 5 }

emit_sync-storm_example : emit_sync loud 40 (event "x" verification) deep ≡ none
emit_sync-storm_example =
    emit_sync-storm loud (λ e. event (follows e.event_id) (scheduler (other_action "next")) ∷ []) []
      40 (event "x" verification) deep refl (λ a e. cc e) (λ n. refl) (omega arith)

-- The chain alone leads there.
storm : emit_sync loud 40 (event "a" (scheduler (other_action "first"))) idle ≡ none
unfolding emit_sync route body enforce commit commit_unless_telemetry dispatch propagate
    dispatch_locked emissions remember abort_storm
storm = refl

-- A handler of verification events that emits one waits for the lock that its own thread holds.
abbrev nested : EventType → List Handler
nested verification_event = (λ e. event (follows e.event_id) verification ∷ []) ∷ []
nested t = []

abbrev state_of : Out → Option Ending
state_of none = none
state_of (some (b, s)) = some b

nested_waits :
    state_of (emit_sync (record calm { handlers = nested }) 6 (event "a" verification) idle)
    ≡ some waiting
unfolding emit_sync route body enforce commit commit_unless_telemetry dispatch propagate
    dispatch_locked emissions remember
nested_waits = refl
