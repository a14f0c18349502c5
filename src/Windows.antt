-- ===== src/Windows.antt =====
-- core/execution/execution_scheduler.py: the queues of intents, one for each window and one for the
-- rest. A PriorityQueue is the list of its items in the order in which they are taken, equal ones in
-- the order in which they were put, where heapq leaves that open. A target that is not given or falsy
-- is `none`. Times are whole milliseconds and priorities natural numbers. `alive` is the test of the
-- window tracker, `gateway` what `execute_gateway` answers, `none` when it raises. A turn of the loop
-- is one step; there is one thread that takes turns, so no window is active between them, and
-- `_active_hwnds` is left out, with the futures' metrics and the watchdog.
pub mod Delivered
pub mod Lanes
mod Samples
use novamind.Prelude.{
  ℕ, suc, ◌+◌, ◌-◌, String, Bool, false, ◌&&◌, ◌||◌, Option, none, some, List, [], ◌∷◌, ◌++◌, map,
  ltb, eqb, if◌then◌else◌, length,
}
use novamind.Prelude.Dict
use novamind.Prelude.Dict.{Dict}

pub record ScheduledIntent : Type 0 where
  pub priority : ℕ
  pub timestamp : ℕ
  pub intent_id : String

-- The order of the dataclass.
abbrev pub before : ScheduledIntent → ScheduledIntent → Bool
before a b = ltb a.priority b.priority || eqb a.priority b.priority && ltb a.timestamp b.timestamp

-- PriorityQueue.put
unfoldable pub put : ScheduledIntent → List ScheduledIntent → List ScheduledIntent
put x [] = x ∷ []
put x (y ∷ q) = let rest = put x q in if before x y then x ∷ y ∷ q else y ∷ rest

-- The loop that boosts the priority of an item that has waited for more than five seconds.
abbrev pub aged : ℕ → ScheduledIntent → ScheduledIntent
aged now x =
    if ltb 5000 (now - x.timestamp) && ltb 0 x.priority
    then record x { priority = x.priority - 1 }
    else x

-- The loop that puts the items back.
unfoldable pub refill : List ScheduledIntent → List ScheduledIntent → List ScheduledIntent
refill [] q = q
refill (x ∷ xs) q = refill xs (put x q)

unfoldable pub apply_queue_aging : ℕ → List ScheduledIntent → List ScheduledIntent
apply_queue_aging now q = refill (map (aged now) q) []

-- A future that is handed to the verification, and its `dispatch_success`.
pub record Handoff : Type 0 where
  pub intent_id : String
  pub dispatch_success : Bool

pub record ExecutionScheduler : Type 0 where
  pub intent_queue : List ScheduledIntent
  pub hwnd_queues : Dict (List ScheduledIntent)
  pub queued : ℕ
  pub dispatched : ℕ
  pub cancelled_stale_hwnd : ℕ
  pub handed : List Handoff

abbrev pub empty : ExecutionScheduler
empty = record {
  intent_queue = [];
  hwnd_queues = [];
  queued = 0;
  dispatched = 0;
  cancelled_stale_hwnd = 0;
  handed = [];
}

abbrev pub queue_of : Option (List ScheduledIntent) → List ScheduledIntent
queue_of none = []
queue_of (some q) = q

unfoldable pub submit_intent :
    Option String → ScheduledIntent → ExecutionScheduler → ExecutionScheduler
submit_intent none x s = record s { intent_queue = put x s.intent_queue; queued = s.queued + 1 }
submit_intent (some h) x s = record s {
  hwnd_queues = Dict.insert h (put x (queue_of (Dict.lookup h s.hwnd_queues))) s.hwnd_queues;
  queued = s.queued + 1;
}

-- What the loop over the windows leaves, takes and purges.
pub record Scan : Type 0 where
  pub queues : Dict (List ScheduledIntent)
  pub item : Option ScheduledIntent
  pub purged : List ScheduledIntent

-- The loop over the windows, in the order of the dict.
unfoldable pub scan : (String → Bool) → ℕ → Dict (List ScheduledIntent) → Scan
scan alive now [] = record { queues = []; item = none; purged = [] }
scan alive now ((h, []) ∷ d) = scan alive now d
scan alive now ((h, x ∷ q) ∷ d) =
    let rest = scan alive now d in
    if alive h
    then record { queues = (h, apply_queue_aging now q) ∷ d; item = some x; purged = [] }
    else record rest { purged = (x ∷ q) ++ rest.purged }

abbrev pub cancelled : ScheduledIntent → Handoff
cancelled x = record { intent_id = x.intent_id; dispatch_success = false }

-- The scheduler after the loop over the windows.
abbrev pub purge : Scan → ExecutionScheduler → ExecutionScheduler
purge r s = record s {
  hwnd_queues = r.queues;
  cancelled_stale_hwnd = s.cancelled_stale_hwnd + length r.purged;
  handed = s.handed ++ map cancelled r.purged;
}

-- The generic lane.
unfoldable pub take_generic :
    ℕ → List ScheduledIntent → ExecutionScheduler → Option ScheduledIntent × ExecutionScheduler
take_generic now [] s = (none, s)
take_generic now (x ∷ q) s = (some x, record s { intent_queue = apply_queue_aging now q })

unfoldable pub choose :
    ℕ → Option ScheduledIntent → ExecutionScheduler → Option ScheduledIntent × ExecutionScheduler
choose now none s = take_generic now s.intent_queue s
choose now (some x) s = (some x, s)

unfoldable pub select_next_intent :
    (String → Bool) → ℕ → ExecutionScheduler → Option ScheduledIntent × ExecutionScheduler
select_next_intent alive now s =
    let r = scan alive now s.hwnd_queues in choose now r.item (purge r s)

abbrev pub success_of : Option Bool → Bool
success_of none = false
success_of (some b) = b

unfoldable pub execute :
    (ScheduledIntent → Option Bool)
    → Option ScheduledIntent × ExecutionScheduler
    → ExecutionScheduler
execute gateway (none, s) = s
execute gateway (some x, s) = record s {
  dispatched = s.dispatched + 1;
  handed =
      s.handed
      ++ record { intent_id = x.intent_id; dispatch_success = success_of (gateway x) } ∷ [];
}

-- A turn of `_scheduler_loop`.
unfoldable pub turn :
    (String → Bool) → (ScheduledIntent → Option Bool) → ℕ → ExecutionScheduler → ExecutionScheduler
turn alive gateway now s = execute gateway (select_next_intent alive now s)

-- A call of `submit_intent`, or a turn, with the clock's reading and what the system answers.
pub data Call : Type 0 where
  submits : Option String → ScheduledIntent → Call
  turns : (String → Bool) → (ScheduledIntent → Option Bool) → ℕ → Call

unfoldable pub run : List Call → ExecutionScheduler → ExecutionScheduler
run [] s = s
run (submits h x ∷ cs) s = run cs (submit_intent h x s)
run (turns alive gateway now ∷ cs) s = run cs (turn alive gateway now s)
