-- ===== src/Dispatch/Execute.antt =====
-- core/execution/intent_dispatcher.py: the two lanes in which an intent is executed. What the worker
-- and the adapter do is given as the answers that the dispatcher reads.
use Prim.Native.String.{◌++◌}
use novamind.Prelude.{
  String, Bool, true, false, not, ◌&&◌, Option, none, some, List, [], ◌∷◌, ◌==◌, contains,
  if◌then◌else◌,
}
use novamind.Prelude.Result.{Result, ok, err}
use novamind.Contracts.{ExecutionIntent}
use novamind.Dispatch.Context.{
  FrameType, WorkerFrame, WorkerState, Supervisor, Fault, Config, M, pure, raise, lift, ◌>>=◌, ◌>>◌,
}
use novamind.Dispatch.Context.FrameType.{execute_result}
use novamind.Dispatch.Context.WorkerState.{ready, terminating, dead}
use novamind.Dispatch.Context.Fault.{worker_died, dispatch_timeout, dispatch_error}

unfoldable pub capability_of : ExecutionIntent → String
capability_of i = i.adapter ++ "." ++ i.operation

-- `task_id=f"dispatch-{intent.intent_id}"`
abbrev pub task_id_of : ExecutionIntent → String
task_id_of i = "dispatch-" ++ i.intent_id

is_ready : WorkerState → Bool
is_ready ready = true
is_ready _ = false

is_over : WorkerState → Bool
is_over terminating = true
is_over dead = true
is_over _ = false

is_true : Option Bool → Bool
is_true none = false
is_true (some b) = b

-- _supervisor_alive
unfoldable pub supervisor_alive : Option Supervisor → Bool
unfolding is_over is_true
supervisor_alive none = false
supervisor_alive (some s) = not (is_over s.state) && is_true s.running

-- The supervisor at each turn of a loop that waits, with the frames that came and whether the
-- deadline has passed. The list ends at the deadline at the latest.
pub record Poll : Type 0 where
  pub frames : List WorkerFrame
  pub supervisor : Supervisor
  pub late : Bool

unfoldable pub await_ready : List Poll → Result Fault (Unit {0})
unfolding is_ready
await_ready [] = err dispatch_error
await_ready (p ∷ ps) =
    let rest = await_ready ps in
    if is_ready p.supervisor.state
    then ok tt
    else if not (supervisor_alive (some p.supervisor))
    then err worker_died
    else if p.late
    then err dispatch_error
    else rest

-- What happens outside during a dispatch: the launch of a worker and its boot, the sending of the
-- request, the turns of the wait, and the answer of the adapter.
pub data AdapterResult : Type 0 where
  nothing value : AdapterResult
  -- result.get("success"), whether "error" is in it, and result.get("sha256")
  dict : Option Bool → Bool → Option String → AdapterResult

pub record Answers : Type 0 where
  pub launched : Result Fault Supervisor
  pub boots : List Poll
  pub sent : Result Fault (Unit {0})
  pub waits : List Poll
  pub adapter : Result Fault AdapterResult

-- What the lane returns; of `worker_reported`, its digest.
pub record Outcome : Type 0 where
  pub worker_id : Option String
  pub reported : Option String

unfoldable pub set_supervisor : Supervisor → M Supervisor
set_supervisor s w = (ok s, record w { supervisor = some s })

-- The lookup of the script raises KeyError.
unfoldable pub launch : Config → Answers → M Supervisor
unfolding set_supervisor
launch c a =
    if contains c.worker_lane_scripts "filesystem.write"
    then (lift a.launched >>= set_supervisor)
    else raise (Fault.raised "KeyError")

unfoldable pub reuse : Config → Answers → Option Supervisor → M Supervisor
unfolding launch
reuse c a none = launch c a
reuse c a (some s) = if supervisor_alive (some s) then pure s else launch c a

unfoldable pub ready_worker : Config → Answers → M Supervisor
unfolding reuse
ready_worker c a = do s ← λ w. reuse c a w.supervisor w; lift (await_ready a.boots); pure s

unfoldable pub ensure_worker : Config → Answers → M Supervisor
unfolding ready_worker
ensure_worker c a = if c.kernel_supervisor then ready_worker c a else raise dispatch_error

is_result : FrameType → Bool
is_result execute_result = true
is_result _ = false

-- _on_worker_frame, on the entry that is pending for an intent
unfoldable pub on_worker_frame : String → WorkerFrame → Option WorkerFrame → Option WorkerFrame
unfolding is_result
on_worker_frame id f entry = if is_result f.type && f.correlation_id == id then some f else entry

unfoldable pub deliver : String → List WorkerFrame → Option WorkerFrame → Option WorkerFrame
deliver id [] entry = entry
deliver id (f ∷ fs) entry = deliver id fs (on_worker_frame id f entry)

-- The wait for the correlated result.
unfoldable pub await_result : String → List Poll → Result Fault WorkerFrame
await_result id [] = err dispatch_timeout
await_result id (p ∷ ps) =
    let rest = await_result id ps in
    elim (deliver id p.frames none) [
      | some f ↦ ok f
      | none ↦
          if not (supervisor_alive (some p.supervisor))
          then err worker_died
          else if p.late
          then err dispatch_timeout
          else rest
    ]

unfoldable pub outcome_of_frame : Supervisor → WorkerFrame → M Outcome
outcome_of_frame s f =
    if f.success
    then pure (record { worker_id = some s.worker_id; reported = f.sha256 })
    else raise dispatch_error

unfoldable pub execute_in_worker : Config → Answers → String → M Outcome
unfolding outcome_of_frame
execute_in_worker c a id = do
  s ← ensure_worker c a
  lift a.sent
  f ← lift (await_result id a.waits)
  outcome_of_frame s f

-- _adapter_result_ok
unfoldable pub adapter_result_ok : AdapterResult → Bool
adapter_result_ok AdapterResult.nothing = false
adapter_result_ok AdapterResult.value = true
adapter_result_ok (AdapterResult.dict (some false) error digest) = false
adapter_result_ok (AdapterResult.dict (some true) error digest) = not error
adapter_result_ok (AdapterResult.dict none error digest) = not error

digest_of : AdapterResult → Option String
digest_of (AdapterResult.dict s e digest) = digest
digest_of _ = none

unfoldable pub outcome_of_adapter : AdapterResult → M Outcome
unfolding digest_of
outcome_of_adapter r =
    if adapter_result_ok r
    then pure (record { worker_id = none; reported = digest_of r })
    else raise dispatch_error

unfoldable pub call_adapter : Answers → M Outcome
unfolding outcome_of_adapter
call_adapter a = do r ← lift a.adapter; outcome_of_adapter r

unfoldable pub execute_in_process : Config → Answers → M Outcome
unfolding call_adapter
execute_in_process c a = if c.adapter_supervisor then call_adapter a else raise dispatch_error
