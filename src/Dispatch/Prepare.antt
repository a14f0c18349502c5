-- ===== src/Dispatch/Prepare.antt =====
-- core/execution/intent_dispatcher.py: `prepare`, which checks an intent, acquires its lease and
-- journals its start. `sha256` is the digest of a text in an encoding, which may raise; `now` and
-- `lease_id` are the clock's reading and the new id of the request for a lease.
use novamind.Prelude.{
  ℕ, String, Bool, true, false, Option, none, some, List, [], ◌∷◌, ◌==◌, contains, if◌then◌else◌,
}
use novamind.Prelude.Dict
use novamind.Prelude.Result.{Result, ok, err}
use novamind.Intent.State.{queued, dispatched, running, rejected}
use novamind.Lease.{Capability, Request, request_lease}
use novamind.Registry
use novamind.Registry.{CapabilityDefinition, Unregistered}
use novamind.Contracts.{Value, ExecutionIntent, Refusal, validate_intent, govern}
use novamind.Journal.{Write, Contract}
use novamind.Journal.Recovery.{no_contract}
use novamind.Dispatch.Context.{
  ExecutionState, Event, Fault, Config, Lane, DispatchContext, M, pure, raise, lift, ◌>>=◌, ◌>>◌,
  path_of, new_context, transition, emit,
}
use novamind.Dispatch.Context.Lane.{worker, in_process}
use novamind.Dispatch.Execute.{capability_of, task_id_of}

abbrev pub contract_of : DispatchContext → Contract
contract_of ctx = record { path = path_of ctx.intent; content_sha256 = ctx.expected_sha256 }

-- The first `try` of `prepare`.
unfoldable pub lane_of : Config → ExecutionIntent → Lane
lane_of c i = if contains c.worker_lane_capabilities (capability_of i) then worker else in_process

abbrev pub refused_as : Result Refusal (Unit {0}) → Result Fault (Unit {0})
refused_as (ok _) = ok tt
refused_as (err e) = err (Fault.refused e)

abbrev pub registered : Result Unregistered CapabilityDefinition → Result Fault (Unit {0})
registered (ok _) = ok tt
registered (err e) = err Fault.permission_error

abbrev pub permit : Bool → Result Fault (Unit {0})
permit true = ok tt
permit false = err Fault.permission_error

abbrev pub then_check : Result Fault (Unit {0}) → Result Fault (Unit {0}) → Result Fault (Unit {0})
then_check (ok _) r = r
then_check (err e) r = err e

unfoldable pub lane_feasible : Config → String → Lane → Result Fault (Unit {0})
lane_feasible c capability worker =
    then_check (registered (Registry.require capability))
      (then_check (permit c.kernel_supervisor) (permit (contains c.worker_lane_scripts capability)))
lane_feasible c capability in_process = permit c.adapter_supervisor

unfoldable pub check : Config → ExecutionIntent → Result Fault (Unit {0})
check c i =
    then_check
      (refused_as (if c.governance then govern c.contracts i else validate_intent c.contracts i))
      (lane_feasible c (capability_of i) (lane_of c i))

-- `[target_path] if target_path else []`
abbrev pub paths_of : Option String → List String
paths_of none = []
paths_of (some p) = if p == "" then [] else p ∷ []

abbrev or_unknown : Option String → String
or_unknown none = "UNKNOWN"
or_unknown (some p) = p

unfoldable pub lease_request : ExecutionIntent → Request
lease_request i = record {
  task_id = task_id_of i;
  capabilities = if capability_of i == "filesystem.write" then Capability.file_write ∷ [] else [];
  allowed_paths = paths_of (path_of i);
  allowed_commands = [];
  allowed_hosts = [];
  budget = none;
  duration = 60;
  intent_id = some i.intent_id;
  principal = or_unknown i.principal;
  agent_id = i.agent_id;
}

module _ (works : ℕ → Write) where
  -- `_journal_rejection`, which raises nothing
  unfoldable pub journal_rejection : ExecutionIntent → M (Unit {0})
  journal_rejection i w =
      (ok tt, ((new_context i.intent_id >> transition works i.intent_id rejected no_contract) w).1)

  -- The durable preparation of `prepare`.
  unfoldable pub journal_start : DispatchContext → M DispatchContext
  journal_start ctx = do
    transition works ctx.intent.intent_id queued (contract_of ctx)
    transition works ctx.intent.intent_id dispatched no_contract
    emit works (Event.execution ctx.intent.intent_id ExecutionState.dispatched)
    transition works ctx.intent.intent_id running (contract_of ctx)
    pure ctx

  unfoldable pub record_start : DispatchContext → M DispatchContext
  record_start ctx = do new_context ctx.intent.intent_id; journal_start ctx

  module _ (c : Config) (sha256 : String → Option Value → Result Fault String) (now : ℕ)
      (lease_id : String) where
    abbrev pub digest_of_content : Option Value → Option Value → Result Fault (Option String)
    digest_of_content (some (Value.text t)) encoding = elim (sha256 t encoding) [
      | ok d ↦ ok (some d)
      | err e ↦ err e
    ]
    digest_of_content _ encoding = ok none

    -- `_expected_digest`
    unfoldable pub expected_digest : ExecutionIntent → Result Fault (Option String)
    expected_digest i =
        if i.operation == "write"
        then digest_of_content (Dict.lookup "content" i.payload) (Dict.lookup "encoding" i.payload)
        else ok none

    unfoldable pub acquire : ExecutionIntent → Lane → M (Option String)
    acquire i in_process = pure none
    acquire i worker = λ w. (
      ok (some lease_id),
      record w { broker = (request_lease now lease_id (lease_request i) w.broker).1 },
    )

    unfoldable pub start : ExecutionIntent → M DispatchContext
    start i = do
      lid ← acquire i (lane_of c i)
      digest ← lift (expected_digest i)
      record_start (record {
        intent = i;
        capability = capability_of i;
        lane = lane_of c i;
        expected_sha256 = digest;
        lease_id = lid;
      })

    unfoldable pub after_check : ExecutionIntent → Result Fault (Unit {0}) → M DispatchContext
    after_check i (ok _) = start i
    after_check i (err e) = do journal_rejection i; raise e

    unfoldable pub prepare : ExecutionIntent → M DispatchContext
    unfolding after_check
    prepare i = after_check i (check c i)
