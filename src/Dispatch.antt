-- ===== src/Dispatch.antt =====
-- core/execution/intent_dispatcher.py: `dispatch_sync`, which prepares an intent, executes it in its
-- lane and verifies the outcome, and what it does when one of these raises. The parameters are those
-- of the parts, and `a` is what happens outside.
pub mod Context
pub mod Execute
pub mod Prepare
pub mod Verify
pub mod Lanes
pub mod Refines
pub mod Returns
pub mod Faithful
pub mod Many
pub mod Triple
pub mod Success
pub mod Ends
pub mod Prepared
pub mod Settles
pub mod Durable
mod Samples
use novamind.Prelude.{
  ℕ, String, Bool, true, false, not, ◌&&◌, ◌||◌, Option, none, some, List, [], ◌∷◌, ◌==◌, contains,
  if◌then◌else◌,
}
use novamind.Prelude.Dict
use novamind.Prelude.Result.{Result, ok, err}
use novamind.Intent.{State, terminal_states, mem}
use novamind.Intent.State.{
  queued, dispatched, running, verifying, completed, failed, rejected, orphaned, aborted,
}
use novamind.Lease.{Capability, Request, request_lease}
use novamind.Registry
use novamind.Registry.{CapabilityDefinition, Unregistered}
use novamind.Contracts.{Value, ExecutionIntent, Refusal, validate_intent, govern}
use novamind.Journal.{Write, Contract, machine_of, TransitionError}
use novamind.Journal.Recovery.{no_contract}
use novamind.Dispatch.Context.{
  ExecutionState, Event, Fault, Store, Config, Lane, DispatchContext, M, pure, raise, lift, ◌>>=◌,
  ◌>>◌, bind_result, path_of, new_context, transition, emit,
}
use novamind.Dispatch.Context.Lane.{worker, in_process}
use novamind.Dispatch.Execute.{
  capability_of, task_id_of, Answers, Outcome, execute_in_worker, execute_in_process,
}
use Prepare.{prepare, contract_of}
use Verify.{IntentResult, failure, verify_and_complete}

module _ (works : ℕ → Write) where
  unfoldable pub mark : String → State → M (Unit {0})
  mark id s = do transition works id s no_contract; emit works (Event.verification id false true)

  unfoldable pub failure_of : State → State
  failure_of queued = aborted
  failure_of _ = failed

  unfoldable pub mark_failed_from : String → State → M (Unit {0})
  unfolding mark failure_of
  mark_failed_from id s = if mem s terminal_states then pure tt else mark id (failure_of s)

  unfoldable pub mark_failed : DispatchContext → M (Unit {0})
  mark_failed ctx w =
      mark_failed_from ctx.intent.intent_id
        (machine_of ctx.intent.intent_id w.kernel.machines).state w

  unfoldable pub mark_orphaned_from : DispatchContext → State → M (Unit {0})
  mark_orphaned_from ctx running = do
    transition works ctx.intent.intent_id orphaned (contract_of ctx)
    emit works (Event.execution ctx.intent.intent_id ExecutionState.invalidated)
  mark_orphaned_from ctx s =
      raise (Fault.transition_error (TransitionError.illegal (record { from = s; to = orphaned })))

  unfoldable pub mark_orphaned : DispatchContext → M (Unit {0})
  unfolding mark_orphaned_from
  mark_orphaned ctx w =
      mark_orphaned_from ctx (machine_of ctx.intent.intent_id w.kernel.machines).state w

module _ (works : ℕ → Write) (c : Config) (sha256 : String → Option Value → Result Fault String)
    (read : String → Result Fault (Option String)) (now : ℕ) (lease_id : String) (a : Answers) where
  unfoldable pub execute : DispatchContext → Lane → M Outcome
  execute ctx worker = execute_in_worker c a ctx.intent.intent_id
  execute ctx in_process = execute_in_process c a

  -- The exceptions that `dispatch_sync` catches around `prepare`.
  abbrev pub is_rejection : Fault → Bool
  is_rejection (Fault.refused _) = true
  is_rejection Fault.value_error = true
  is_rejection Fault.permission_error = true
  is_rejection _ = false

  unfoldable pub after_failure : DispatchContext → Fault → M IntentResult
  after_failure ctx Fault.worker_died = do
    mark_orphaned works ctx
    pure (failure ctx.intent.intent_id "orphaned")
  after_failure ctx _ = do mark_failed works ctx; pure (failure ctx.intent.intent_id "execution")

  unfoldable pub after_verify :
      DispatchContext → Result Fault IntentResult × Store → Result Fault IntentResult × Store
  after_verify ctx (ok r, w) = (ok r, w)
  after_verify ctx (err e, w) =
      (mark_failed works ctx >> pure (failure ctx.intent.intent_id "verification")) w

  unfoldable pub after_execute :
      DispatchContext → Result Fault Outcome × Store → Result Fault IntentResult × Store
  unfolding after_failure after_verify
  after_execute ctx (ok o, w) = after_verify ctx (verify_and_complete works read ctx o w)
  after_execute ctx (err e, w) = after_failure ctx e w

  unfoldable pub after_prepare :
      ExecutionIntent → Result Fault DispatchContext × Store → Result Fault IntentResult × Store
  unfolding after_execute
  after_prepare i (ok ctx, w) = after_execute ctx (execute ctx ctx.lane w)
  after_prepare i (err e, w) =
      (if is_rejection e then ok (failure i.intent_id "rejected") else err e, w)

  unfoldable pub dispatch_sync : ExecutionIntent → M IntentResult
  unfolding after_prepare
  dispatch_sync i w = after_prepare i (prepare works c sha256 now lease_id i w)
