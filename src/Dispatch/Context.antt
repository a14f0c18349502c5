-- ===== src/Dispatch/Context.antt =====
-- core/execution/intent_dispatcher.py: what a dispatch knows and changes, and its three effects. A
-- method is a state and error monad; the state comes back after a raise too. `works` says of each
-- write of the journal and each event, by its number, how it ends. The texts of errors are
-- left out.
use novamind.Prelude.{ℕ, ◌+◌, String, Bool, Option, none, some, List, [], ◌∷◌, ◌++◌, if◌then◌else◌}
use novamind.Prelude.Dict
use novamind.Prelude.Result.{Result, ok, err}
use novamind.Intent.{State, Machine}
use novamind.Lease.{Broker}
use novamind.Contracts.{Value, ExecutionIntent, Refusal, Contracts}
use novamind.Journal.{
  Write, is_stored, Contract, Line, Kernel, TransitionError, machine_of, transition_logged, move,
}

pub data FrameType : Type 0 where
  handshake_syn handshake_ack heartbeat execute_request execute_result : FrameType
  lease_invalid resource_limit_exceeded worker_panic terminate : FrameType

-- A frame of the worker; of its payload, `success` and the digest of the result.
pub record WorkerFrame : Type 0 where
  pub type : FrameType
  pub correlation_id : String
  pub success : Bool
  pub sha256 : Option String

pub data WorkerState : Type 0 where
  booting ready executing degraded tainted terminating dead : WorkerState

-- `running` is `process.poll() is None`, if there is a process.
pub record Supervisor : Type 0 where
  pub worker_id : String
  pub state : WorkerState
  pub running : Option Bool

pub data ExecutionState : Type 0 where
  dispatched mutated observed verified invalidated : ExecutionState

pub data Event : Type 0 where
  execution : String → ExecutionState → Event
  -- success, divergence_detected
  verification : String → Bool → Bool → Event

pub data Fault : Type 0 where
  -- ValueError and NotImplementedError of the checks, and PermissionError
  refused : Refusal → Fault
  value_error permission_error : Fault
  -- IntentStateError, or an OSError of the journal
  transition_error : TransitionError → Fault
  emit_error worker_died dispatch_timeout dispatch_error : Fault
  -- any other exception
  raised : String → Fault

pub record Store : Type 0 where
  pub kernel : Kernel
  pub broker : Broker
  pub supervisor : Option Supervisor
  pub events : List Event
  pub calls : ℕ

-- The authorities that a dispatcher was constructed with; a lane's scripts by their capabilities.
pub record Config : Type 0 where
  pub governance : Bool
  pub kernel_supervisor : Bool
  pub adapter_supervisor : Bool
  pub worker_lane_capabilities : List String
  pub worker_lane_scripts : List String
  pub contracts : Contracts

pub data Lane : Type 0 where
  worker in_process : Lane

pub record DispatchContext : Type 0 where
  pub intent : ExecutionIntent
  pub capability : String
  pub lane : Lane
  pub expected_sha256 : Option String
  pub lease_id : Option String

abbrev pub M : Type 0 → Type 0
M A = Store → Result Fault A × Store

module _ {A : Type 0} where
  abbrev pub pure : A → M A
  pure a w = (ok a, w)

  abbrev pub raise : Fault → M A
  raise e w = (err e, w)

  abbrev pub lift : Result Fault A → M A
  lift r w = (r, w)

abbrev pub bind_result :
    {A B : Type 0} → Result Fault A × Store → (A → M B) → Result Fault B × Store
bind_result (ok a, w) f = f a w
bind_result (err e, w) f = (err e, w)

infixl 5 ◌>>=◌ ◌>>◌
abbrev pub ◌>>=◌ : {A B : Type 0} → M A → (A → M B) → M B
◌>>=◌ m f w = bind_result (m w) f

abbrev pub ◌>>◌ : {A B : Type 0} → M A → M B → M B
m >> k = m >>= λ _. k

-- A value of the payload that is not a text counts as none.
abbrev pub text_of : Option Value → Option String
text_of (some (Value.text s)) = some s
text_of _ = none

abbrev pub path_of : ExecutionIntent → Option String
path_of i = text_of (Dict.lookup "path" i.payload)

-- `DispatchContext(..., state=IntentStateMachine(intent_id))`: the machine of the intent is new.
unfoldable pub new_context : String → M (Unit {0})
new_context id w =
    (ok tt, record w { kernel = record w.kernel { machines = Dict.remove id w.kernel.machines } })

module _ (works : ℕ → Write) where
  abbrev pub outcome_of : Result TransitionError (Machine × List Line) → Result Fault (Unit {0})
  outcome_of (ok _) = ok tt
  outcome_of (err e) = err (transition_error e)

  -- `_transition`; what it does to the machine and the file is `move`
  unfoldable pub transition : String → State → Contract → M (Unit {0})
  transition id s p w = (
    outcome_of
        (transition_logged (machine_of id w.kernel.machines) s p (works w.calls) w.kernel.lines),
    record w {
      kernel = move (record { id = id; to = s; payload = p; durable = works w.calls }) w.kernel;
      calls = w.calls + 1;
    },
  )

  -- `_emit`
  unfoldable pub emit : Event → M (Unit {0})
  emit e w =
      if is_stored (works w.calls)
      then (ok tt, record w { events = w.events ++ e ∷ []; calls = w.calls + 1 })
      else (err emit_error, record w { calls = w.calls + 1 })
