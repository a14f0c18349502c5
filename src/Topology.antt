-- ===== src/Topology.antt =====
-- core/orchestration/event_bus.py, RuntimeEventTopologyCoordinator, for one thread. A handler is what
-- it emits for an event, in order; it catches nothing, so it ends at an emission that raises. The trace
-- keeps what was committed to the journal and what was delivered to a handler. `works` tells of each
-- commit whether it succeeds, `new_id` gives the next uuid, and `has_scheduler` whether a scheduler
-- was set. What a coroutine handler does later, and the log messages, are left out.
pub mod Durable
pub mod Depth
mod Samples
use novamind.Prelude.{
  ℕ, zero, suc, ◌+◌, ◌-◌, String, Bool, true, false, ◌&&◌, Option, none, some, List, [], ◌∷◌, ◌++◌,
  add, contains, drop, length, leb, ltb, eqb, if◌then◌else◌, ◌==◌,
}

pub data Action : Type 0 where
  topology_storm_abort : Action
  queue_abort : String → Action
  other_action : String → Action

-- The subclasses of RuntimeEvent with the fields that are looked at.
pub data Kind : Type 0 where
  lifecycle : Bool → String → Kind  -- is_dead and hwnd
  execution verification telemetry plain : Kind
  scheduler : Action → Kind

pub data EventType : Type 0 where
  lifecycle_event execution_event verification_event telemetry_event runtime_event : EventType
  scheduler_event : EventType

abbrev pub type_of : Kind → EventType
type_of (lifecycle b h) = lifecycle_event
type_of execution = execution_event
type_of verification = verification_event
type_of telemetry = telemetry_event
type_of plain = runtime_event
type_of (scheduler a) = scheduler_event

pub record RuntimeEvent : Type 0 where
  pub event_id : String
  pub kind : Kind
  pub parent_event_id : Option String
  pub causal_lineage : List String

pub data Mark : Type 0 where
  committed : String → Mark
  delivered : RuntimeEvent → Mark

pub record Topology : Type 0 where
  pub trace : List Mark
  pub event_log : List RuntimeEvent
  pub depth : ℕ
  pub verifying : Bool  -- the verification lock is held
  pub seen_ids : List String
  pub commits : ℕ
  pub ids : ℕ

abbrev pub Handler : Type 0
Handler = RuntimeEvent → List RuntimeEvent

-- How a call of one thread ends: it waits for good for a lock that this thread holds itself.
pub data Ending : Type 0 where
  returned raised waiting : Ending

-- A call; `none` where more calls are open than were allowed.
abbrev pub Out : Type 0
Out = Option (Ending × Topology)

abbrev pub max_propagation_depth : ℕ
max_propagation_depth = 5

abbrev pub is_telemetry : Kind → Bool
is_telemetry telemetry = true
is_telemetry _ = false

-- What goes on after a call that returned; an exception goes up.
abbrev pub then_call : Out → (Topology → Out) → Out
then_call none f = none
then_call (some (returned, s)) f = f s
then_call (some (raised, s)) f = some (raised, s)
then_call (some (waiting, s)) f = some (waiting, s)

-- What goes on whether or not the call raised.
abbrev pub finally : Out → (Topology → Topology) → Out
finally none f = none
finally (some (returned, s)) f = some (returned, f s)
finally (some (raised, s)) f = some (raised, f s)
finally (some (waiting, s)) f = some (waiting, s)

-- A call whose exception is caught.
abbrev pub caught : Out → (Topology → Out) → Out
caught none f = none
caught (some (returned, s)) f = f s
caught (some (raised, s)) f = f s
caught (some (waiting, s)) f = some (waiting, s)

-- The calls of `emit_sync` in a handler.
unfoldable pub emissions : (RuntimeEvent → Topology → Out) → List RuntimeEvent → Topology → Out
emissions emit [] s = some (returned, s)
emissions emit (e ∷ es) s = then_call (emit e s) (emissions emit es)

abbrev pub deliver : RuntimeEvent → Topology → Topology
deliver e s = record s { trace = s.trace ++ delivered e ∷ [] }

-- _dispatch_to_subscribers
unfoldable pub dispatch :
    (RuntimeEvent → Topology → Out) → RuntimeEvent → List Handler → Topology → Out
dispatch emit e [] s = some (returned, s)
dispatch emit e (h ∷ hs) s = caught (emissions emit (h e) (deliver e s)) (dispatch emit e hs)

abbrev pub lock : Topology → Topology
lock s = record s { verifying = true }

abbrev pub unlock : Topology → Topology
unlock s = record s { verifying = false }

-- `with self._verification_lock`, a lock that its own thread cannot take again.
unfoldable pub dispatch_locked :
    (RuntimeEvent → Topology → Out) → RuntimeEvent → List Handler → Topology → Out
dispatch_locked emit e hs s =
    if s.verifying then some (waiting, s) else finally (dispatch emit e hs (lock s)) unlock

-- The dispatch of emit_sync.
unfoldable pub propagate :
    (RuntimeEvent → Topology → Out) → RuntimeEvent → Kind → List Handler → Topology → Out
propagate emit e verification hs s = dispatch_locked emit e hs s
propagate emit e k hs s = dispatch emit e hs s

abbrev pub enter : RuntimeEvent → Topology → Topology
enter e s = record s { depth = s.depth + 1; seen_ids = add e.event_id s.seen_ids }

-- The `finally` of emit_sync.
abbrev pub leave : Topology → Topology
leave s = record s {
  depth = s.depth - 1;
  seen_ids = if eqb (s.depth - 1) 0 then [] else s.seen_ids;
}

-- The window of the last events.
unfoldable pub remember : RuntimeEvent → Topology → Topology
remember e s = record s {
  event_log = (if ltb 5000 (length s.event_log) then drop 1 s.event_log else s.event_log) ++ e ∷ [];
}

-- What the coordinator was given, and what the system answers.
pub record Bus : Type 0 where
  pub works : ℕ → Bool
  pub new_id : ℕ → String
  pub has_scheduler : Bool
  pub handlers : EventType → List Handler

abbrev pub next_id : Topology → Topology
next_id s = record s { ids = s.ids + 1 }

module _ (bus : Bus) where
  -- RecoveryJournal.commit_sync
  unfoldable pub commit : RuntimeEvent → Topology → Out
  commit e s =
      if bus.works s.commits
      then some (
        returned,
        record s { commits = s.commits + 1; trace = s.trace ++ committed e.event_id ∷ [] },
      )
      else some (raised, record s { commits = s.commits + 1 })

  unfoldable pub commit_unless_telemetry : RuntimeEvent → Topology → Out
  commit_unless_telemetry e s =
      let committed_state = commit e s in
      if is_telemetry e.kind then some (returned, s) else committed_state

  abbrev pub storm_event : RuntimeEvent → Topology → RuntimeEvent
  storm_event e s = record {
    event_id = bus.new_id s.ids;
    kind = scheduler topology_storm_abort;
    parent_event_id = some e.event_id;
    causal_lineage = [];
  }

  unfoldable pub abort_storm : (RuntimeEvent → Topology → Out) → RuntimeEvent → Topology → Out
  abort_storm emit e s =
      then_call (commit (storm_event e s) (next_id s))
        (dispatch emit (storm_event e s) (bus.handlers scheduler_event))

  abbrev pub dead_event : String → RuntimeEvent → Topology → RuntimeEvent
  dead_event hwnd e s = record {
    event_id = bus.new_id s.ids;
    kind = scheduler (queue_abort hwnd);
    parent_event_id = some e.event_id;
    causal_lineage = e.causal_lineage ++ e.event_id ∷ [];
  }

  -- _enforce_topology_rules
  unfoldable pub enforce : (RuntimeEvent → Topology → Out) → RuntimeEvent → Kind → Topology → Out
  enforce emit e (lifecycle true hwnd) s =
      if bus.has_scheduler then emit (dead_event hwnd e s) (next_id s) else some (returned, s)
  enforce emit e k s = some (returned, s)

  -- The body of the `try`.
  unfoldable pub body : (RuntimeEvent → Topology → Out) → RuntimeEvent → Topology → Out
  body emit e s = then_call (commit_unless_telemetry e s) λ s1.
      then_call (enforce emit e e.kind s1) λ s2.
        then_call (propagate emit e e.kind (bus.handlers (type_of e.kind)) s2)
          λ s3. some (returned, remember e s3)

  -- emit_sync with the calls of itself
  unfoldable pub route : (RuntimeEvent → Topology → Out) → RuntimeEvent → Topology → Out
  route emit e s =
      if leb max_propagation_depth s.depth
      then abort_storm emit e s
      else if contains s.seen_ids e.event_id
      then some (returned, s)
      else finally (body emit e (enter e s)) leave

  -- emit_sync, with the number of calls of it that may be open at once
  unfoldable pub emit_sync : ℕ → RuntimeEvent → Topology → Out
  emit_sync zero e s = none
  emit_sync (suc fuel) e s = route (emit_sync fuel) e s

abbrev pub idle : Topology
idle = record {
  trace = [];
  event_log = [];
  depth = 0;
  verifying = false;
  seen_ids = [];
  commits = 0;
  ids = 0;
}
