-- ===== src/Dispatch/Settles.antt =====
-- Every dispatch returns, where the journal and the events can be written.
use novamind.Prelude.{ℕ, String, ◌≡◌, refl, ap, ◌∙◌, true, Option}
use mathlib.Core.Path.{subst}
use novamind.Prelude.Result.{Result, ok, err}
use novamind.Intent.State.{running, verifying, failed, rejected, orphaned}
use novamind.Contracts.{Value, ExecutionIntent}
use novamind.Journal.{Write, is_stored, machine_of}
use novamind.Dispatch.Context.{Fault, Store, Config, DispatchContext, pure, ◌>>◌}
use novamind.Dispatch.Execute.{Answers, Outcome}
use novamind.Dispatch.Prepare.{prepare, expected_digest}
use novamind.Dispatch.Verify.{IntentResult, failure, verify_and_complete}
use novamind.Dispatch.Triple.{Leaves, Leaves-bind, InState}
use novamind.Dispatch.Faithful.{execute-Quiet}
use novamind.Dispatch.Ends.{No, Ended, Judged, mark_failed-total, mark_orphaned-total, verify-ends}
use novamind.Dispatch.Prepared.{Prepared, prepare-Prepared}
use novamind.Dispatch.{
  execute, after_failure, after_verify, after_execute, after_prepare, dispatch_sync, mark_failed,
  mark_orphaned,
}

module _ (works : ℕ → Write) (c : Config) (sha256 : String → Option Value → Result Fault String)
    (read : String → Result Fault (Option String)) (now : ℕ) (lease_id : String) (a : Answers)
    (i : ExecutionIntent) (reliable : (n : ℕ) → is_stored (works n) ≡ true) where
  module _ (ctx : DispatchContext) where
    failed-Ended :
        (stage : String) (w : Store)
        → Leaves (λ _ v. InState ctx.intent.intent_id failed v) No (mark_failed works ctx w)
        → Leaves
            (Ended ctx.intent.intent_id)
            No
            ((mark_failed works ctx >> pure (failure ctx.intent.intent_id stage)) w)
    failed-Ended stage w h =
        Leaves-bind (Ended ctx.intent.intent_id) No (mark_failed works ctx w) _ h
          (λ _ v g. (failed, g, refl, refl))

    after_verify-Ended :
        (r : Result Fault IntentResult × Store)
        → Judged works reliable read ctx r
        → Leaves
            (Ended ctx.intent.intent_id)
            No
            (after_verify works c sha256 read now lease_id a ctx r)
    unfolding after_verify
    after_verify-Ended (ok x, w) h = h
    after_verify-Ended (err e, w) h =
        failed-Ended "verification" w (mark_failed-total works reliable ctx verifying w refl h)

    after_failure-Ended :
        (e : Fault) (w : Store)
        → InState ctx.intent.intent_id running w
        → Leaves
            (Ended ctx.intent.intent_id)
            No
            (after_failure works c sha256 read now lease_id a ctx e w)
    unfolding after_failure
    after_failure-Ended Fault.worker_died w h =
        Leaves-bind (Ended ctx.intent.intent_id) No (mark_orphaned works ctx w) _
          (mark_orphaned-total works reliable ctx w h) (λ _ v g. (orphaned, g, refl, refl))
    after_failure-Ended _ w h =
        failed-Ended "execution" w (mark_failed-total works reliable ctx running w refl h)

    after_execute-Ended :
        (r : Result Fault Outcome × Store)
        → InState ctx.intent.intent_id running r.1
        → Leaves
            (Ended ctx.intent.intent_id)
            No
            (after_execute works c sha256 read now lease_id a ctx r)
    unfolding after_execute
    after_execute-Ended (ok o, w) h =
        after_verify-Ended (verify_and_complete works read ctx o w)
          (verify-ends works reliable read ctx o w h)
    after_execute-Ended (err e, w) h = after_failure-Ended e w h

  after_prepare-Ended :
      (r : Result Fault DispatchContext × Store)
      → Prepared works c sha256 read now lease_id a i r
      → Leaves (Ended i.intent_id) No (after_prepare works c sha256 read now lease_id a i r)
  unfolding after_prepare
  after_prepare-Ended (ok ctx, w) (h, same) =
      let r : Result Fault Outcome × Store =
        execute works c sha256 read now lease_id a ctx ctx.lane w in
      let still : r.1.kernel ≡ w.kernel =
        execute-Quiet works c sha256 now lease_id i read a ctx ctx.lane w in
      subst
        (λ x.
          Leaves (Ended x.intent_id) No (after_execute works c sha256 read now lease_id a ctx r))
        same
        (after_execute-Ended ctx r
          (ap (λ k. (machine_of ctx.intent.intent_id k.machines).state) still ∙ h))
  after_prepare-Ended (err e, w) (h, done) = rw h (rejected, done, refl, refl)

  returned :
      (r : Result Fault IntentResult × Store)
      → Leaves (Ended i.intent_id) No r
      → (x : IntentResult) × (r.0 ≡ ok x) × Ended i.intent_id x r.1
  returned (ok x, w) h = (x, refl, h)
  returned (err e, w) h = absurd h

  -- Where no write of the journal and no event fails, and the digest of the intent's content can be
  -- computed, every dispatch returns a result, whatever the checks, the worker, the adapter and the
  -- disk answer; its intent is then REJECTED, COMPLETED, FAILED or ORPHANED, and the result is one of
  -- success exactly if it is COMPLETED.
  pub dispatch_sync-Ended :
      (o : Option String) (w : Store)
      → expected_digest works c sha256 now lease_id i ≡ ok o
      → (x : IntentResult) × ((dispatch_sync works c sha256 read now lease_id a i w).0 ≡ ok x)
        × Ended i.intent_id x (dispatch_sync works c sha256 read now lease_id a i w).1
  unfolding dispatch_sync
  dispatch_sync-Ended o w digest =
      let prepared : Result Fault DispatchContext × Store =
        prepare works c sha256 now lease_id i w in
      returned (after_prepare works c sha256 read now lease_id a i prepared) (
        after_prepare-Ended prepared
          (prepare-Prepared works c sha256 read now lease_id a i reliable o digest w))
