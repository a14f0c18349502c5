-- ===== src/Dispatch/Verify.antt =====
-- core/execution/intent_dispatcher.py: `verify_and_complete`, which compares what is on disk with what
-- the intent was to write. `read` is the digest of the bytes of a file, if there is one.
use novamind.Journal.{Write}
use novamind.Prelude.{
  ℕ, String, Bool, true, false, not, ◌&&◌, ◌||◌, Option, none, some, ◌==◌, if◌then◌else◌,
}
use novamind.Prelude.Result.{Result, err}
use novamind.Intent.State.{verifying, completed, failed}
use novamind.Journal.Recovery.{no_contract}
use novamind.Dispatch.Context.{
  ExecutionState, Event, Fault, DispatchContext, M, pure, lift, ◌>>=◌, ◌>>◌, path_of, transition,
  emit,
}
use novamind.Dispatch.Execute.{Outcome}

pub record IntentResult : Type 0 where
  pub intent_id : String
  -- IntentStatus.COMPLETED or IntentStatus.FAILED
  pub completed : Bool
  pub success : Bool
  -- metrics["stage"], metrics["observed_sha256"]
  pub stage : Option String
  pub observed_sha256 : Option String

abbrev pub failure : String → String → IntentResult
failure id stage = record {
  intent_id = id;
  completed = false;
  success = false;
  stage = some stage;
  observed_sha256 = none;
}

module _ (works : ℕ → Write) (read : String → Result Fault (Option String)) where
  -- observe_file; `open(None)` raises TypeError
  unfoldable pub observe_file : Option String → Result Fault (Option String)
  observe_file none = err (Fault.raised "TypeError")
  observe_file (some p) = read p

  -- Whether there are problems.
  unfoldable pub diverges : String → Option String → Option String → Bool
  diverges expected none reported = true
  diverges expected (some d) reported = not (d == expected) || reported_differs reported
    where
      reported_differs : Option String → Bool
      reported_differs none = false
      reported_differs (some r) = not (r == "") && not (r == expected)

  unfoldable pub complete : DispatchContext → Option String → M IntentResult
  complete ctx seen = do
    emit works (Event.verification ctx.intent.intent_id true false)
    transition works ctx.intent.intent_id completed
        (record { path = none; content_sha256 = ctx.expected_sha256 })
    pure (record {
      intent_id = ctx.intent.intent_id;
      completed = true;
      success = true;
      stage = none;
      observed_sha256 = seen;
    })

  unfoldable pub diverged : DispatchContext → Option String → M IntentResult
  diverged ctx seen = do
    emit works (Event.verification ctx.intent.intent_id false true)
    transition works ctx.intent.intent_id failed no_contract
    pure (record {
      intent_id = ctx.intent.intent_id;
      completed = false;
      success = false;
      stage = none;
      observed_sha256 = seen;
    })

  unfoldable pub judge_digest : DispatchContext → Option String → Bool → M IntentResult
  unfolding complete diverged
  judge_digest ctx seen true = diverged ctx seen
  judge_digest ctx seen false = do
    emit works (Event.execution ctx.intent.intent_id ExecutionState.verified)
    complete ctx seen

  unfoldable pub compare_digest : DispatchContext → String → Outcome → M IntentResult
  unfolding judge_digest
  compare_digest ctx expected o = do
    seen ← lift (observe_file (path_of ctx.intent))
    emit works (Event.execution ctx.intent.intent_id ExecutionState.observed)
    judge_digest ctx seen (diverges expected seen o.reported)

  unfoldable pub verify_outcome : DispatchContext → Outcome → Option String → M IntentResult
  unfolding compare_digest complete
  verify_outcome ctx o none = complete ctx none
  verify_outcome ctx o (some d) = if d == "" then complete ctx none else compare_digest ctx d o

  unfoldable pub verify_and_complete : DispatchContext → Outcome → M IntentResult
  unfolding verify_outcome
  verify_and_complete ctx o = do
    transition works ctx.intent.intent_id verifying no_contract
    emit works (Event.execution ctx.intent.intent_id ExecutionState.mutated)
    verify_outcome ctx o ctx.expected_sha256
