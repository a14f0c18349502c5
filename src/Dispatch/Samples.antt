-- ===== src/Dispatch/Samples.antt =====
-- Dispatches of a write by a worker.
use novamind.Prelude.{ℕ, String, ◌≡◌, refl, true, false, Option, none, some, List, [], ◌∷◌}
use novamind.Prelude.Dict
use novamind.Prelude.Result.{Result, ok}
use novamind.Intent.{State, value, mem, legal_transitions, new}
use novamind.Intent.State.{completed, running, rejected, failed, orphaned}
use novamind.Lease.{request_lease}
use novamind.Contracts.{
  Value, ExecutionIntent, govern, validate_intent, filesystem_adapter, register_all, register,
  check_contract, check_payload, check_required, check_provided, same,
}
use novamind.Journal.{
  Write, stored, no_kernel, analyze_lineage, analyze_from, absorb, is_divergence, move,
  transition_logged,
}
use novamind.Journal.Faithful.{IsFaithful}
use novamind.Dispatch.Context.{
  FrameType, WorkerFrame, WorkerState, Supervisor, Fault, Store, Config, Lane, DispatchContext,
  path_of, new_context, transition, emit,
}
use novamind.Dispatch.Execute.{
  Poll, Answers, AdapterResult, execute_in_worker, ensure_worker, ready_worker, reuse, launch,
  set_supervisor, outcome_of_frame, supervisor_alive, await_ready, await_result, deliver,
  on_worker_frame, capability_of,
}
use novamind.Dispatch.Prepare.{
  prepare, after_check, check, lane_of, lane_feasible, lease_request, start, acquire,
  expected_digest, record_start, journal_start,
}
use novamind.Dispatch.Verify.{
  IntentResult, observe_file, complete, judge_digest, compare_digest, verify_outcome,
  verify_and_complete, diverges,
}
use novamind.Dispatch.Refines.{Grows}
use novamind.Dispatch.Faithful.{dispatch_sync-Grows}
use novamind.Dispatch.Many.{Job, dispatch_all, HasDistinctIds, dispatch_all-IsFaithful}
use novamind.Dispatch.Triple.{InState}
use novamind.Dispatch.Success.{dispatch_sync-success}
use novamind.Dispatch.Ends.{Ended}
use novamind.Dispatch.Settles.{dispatch_sync-Ended}
use novamind.Dispatch.Durable.{prepare-IsDurable, IsDurable}
use novamind.Dispatch.{
  dispatch_sync, execute, after_failure, after_verify, after_execute, after_prepare,
}

abbrev write : String → ExecutionIntent
write id = record {
  adapter = "filesystem";
  operation = "write";
  idempotent = false;
  payload = ("path", Value.text "/tmp/a") ∷ ("content", Value.text "hi") ∷ [];
  intent_id = id;
  agent_id = "A";
  authority_origin = "kernel";
  principal = none;
  replay_mode = false;
}

abbrev config : Config
config = record {
  governance = true;
  kernel_supervisor = true;
  adapter_supervisor = true;
  worker_lane_capabilities = "filesystem.write" ∷ [];
  worker_lane_scripts = "filesystem.write" ∷ [];
  contracts = register_all filesystem_adapter [];
}

abbrev sha256 : String → Option Value → Result Fault String
sha256 t encoding = ok "abc"

abbrev disk : String → Result Fault (Option String)
disk p = ok (some "abc")

abbrev always : ℕ → Write
always n = stored

abbrev sup : Supervisor
sup = record { worker_id = "w"; state = WorkerState.ready; running = some true }

abbrev frame : String → WorkerFrame
frame id = record {
  type = FrameType.execute_result;
  correlation_id = id;
  success = true;
  sha256 = some "abc";
}

abbrev poll : List WorkerFrame → Poll
poll fs = record { frames = fs; supervisor = sup; late = false }

abbrev answers : String → Answers
answers id = record {
  launched = ok sup;
  boots = poll [] ∷ [];
  sent = ok tt;
  waits = poll [] ∷ poll (frame id ∷ []) ∷ [];
  adapter = ok AdapterResult.nothing;
}

abbrev idle : Store
idle = record { kernel = no_kernel; broker = []; supervisor = none; events = []; calls = 0 }

abbrev dispatched_once : Result Fault IntentResult × Store
dispatched_once = dispatch_sync always config sha256 disk 100 "L" (answers "i") (write "i") idle

abbrev success : IntentResult
success = record {
  intent_id = "i";
  completed = true;
  success = true;
  stage = none;
  observed_sha256 = some "abc";
}

once : dispatched_once.0 ≡ ok success
unfolding dispatch_sync execute after_failure after_verify after_execute after_prepare prepare
    after_check check lane_of lane_feasible lease_request start acquire expected_digest record_start
    journal_start observe_file complete judge_digest compare_digest verify_outcome
    verify_and_complete diverges execute_in_worker ensure_worker ready_worker reuse launch
    set_supervisor outcome_of_frame supervisor_alive await_ready await_result deliver
    on_worker_frame capability_of new_context transition emit transition_logged legal_transitions
    Dict.lookup Dict.insert Dict.remove Dict.has Dict.keys govern validate_intent register_all
    register filesystem_adapter check_contract check_payload check_required check_provided same
    novamind.Registry.require novamind.Registry.capabilities move new request_lease
    novamind.Intent.transition
once = refl

-- The digest of the intent's content.
digest : expected_digest always config sha256 100 "L" (write "i") ≡ ok (some "abc")
unfolding expected_digest Dict.lookup
digest = refl

dispatch_sync-success_example :
    InState "i" completed dispatched_once.1
    × (observe_file always disk (path_of (write "i")) ≡ ok (some "abc"))
    × (success.observed_sha256 ≡ some "abc")
dispatch_sync-success_example =
    dispatch_sync-success always config sha256 disk 100 "L" (answers "i") (write "i") idle success
      "abc" once refl digest refl

dispatch_sync-Ended_example :
    (x : IntentResult) × (dispatched_once.0 ≡ ok x) × Ended "i" x dispatched_once.1
dispatch_sync-Ended_example =
    dispatch_sync-Ended always config sha256 disk 100 "L" (answers "i") (write "i") (λ n. refl)
      (some "abc") idle digest

no_machine : Dict.has "i" no_kernel.machines ≡ false
unfolding Dict.has
no_machine = refl

dispatch_sync-Grows_example : Grows always "i" no_kernel dispatched_once.1.kernel
dispatch_sync-Grows_example =
    dispatch_sync-Grows always config sha256 100 "L" (write "i") disk (answers "i") idle no_machine

abbrev job : String → Job
job id = record {
  works = always;
  config = config;
  sha256 = sha256;
  read = disk;
  now = 100;
  lease_id = "L";
  answers = answers id;
  intent = write id;
}

jobs-HasDistinctIds : HasDistinctIds (job "i" ∷ job "k" ∷ [])
jobs-HasDistinctIds = (refl, refl, (refl, refl, tt))

dispatch_all-IsFaithful_example : IsFaithful (dispatch_all (job "i" ∷ job "k" ∷ []) idle).kernel
dispatch_all-IsFaithful_example =
    dispatch_all-IsFaithful (job "i" ∷ job "k" ∷ []) idle refl jobs-HasDistinctIds
      ((λ n. refl), ((λ n. refl), tt))

abbrev context : DispatchContext
context = record {
  intent = write "i";
  capability = "filesystem.write";
  lane = Lane.worker;
  expected_sha256 = some "abc";
  lease_id = some "L";
}

in_worker_lane : lane_of config (write "i") ≡ Lane.worker
unfolding lane_of capability_of
in_worker_lane = refl

prepared : (prepare always config sha256 100 "L" (write "i") idle).0 ≡ ok context
unfolding prepare after_check check lane_of lane_feasible lease_request start acquire
    expected_digest record_start journal_start capability_of new_context transition emit
    transition_logged legal_transitions Dict.lookup Dict.insert Dict.remove Dict.has Dict.keys
    govern validate_intent register_all register filesystem_adapter check_contract check_payload
    check_required check_provided same novamind.Registry.require novamind.Registry.capabilities move
    new request_lease novamind.Intent.transition
prepared = refl

prepare-IsDurable_example :
    IsDurable always config sha256 100 "L"
      (write "i")
      idle
      context
      (prepare always config sha256 100 "L" (write "i") idle).1
prepare-IsDurable_example =
    prepare-IsDurable always config sha256 100 "L" (write "i") idle context in_worker_lane prepared

-- Two dispatches of one id: the second's QUEUED follows a COMPLETED.
repeated :
    (analyze_lineage (dispatch_all (job "i" ∷ job "i" ∷ []) idle).kernel.lines).divergences ≡ 1
unfolding dispatch_all dispatch_sync execute after_failure after_verify after_execute after_prepare
    prepare after_check check lane_of lane_feasible lease_request start acquire expected_digest
    record_start journal_start observe_file complete judge_digest compare_digest verify_outcome
    verify_and_complete diverges execute_in_worker ensure_worker ready_worker reuse launch
    set_supervisor outcome_of_frame supervisor_alive await_ready await_result deliver
    on_worker_frame capability_of new_context transition emit transition_logged legal_transitions
    Dict.lookup Dict.insert Dict.remove Dict.has Dict.keys govern validate_intent register_all
    register filesystem_adapter check_contract check_payload check_required check_provided same
    novamind.Registry.require novamind.Registry.capabilities move new request_lease
    novamind.Intent.transition analyze_lineage analyze_from absorb is_divergence
    novamind.Intent.of_value
repeated = refl
