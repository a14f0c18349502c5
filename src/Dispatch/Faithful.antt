-- ===== src/Dispatch/Faithful.antt =====
-- A whole dispatch against the logged transitions, and the journal that dispatches leave.
use novamind.Prelude.{ℕ, String, ◌≡◌, refl, sym, ap, false, Option}
use mathlib.Core.Path.{subst}
use novamind.Prelude.Dict
use novamind.Prelude.Dict.{Dict, remove_of_not_has, has-insert}
use novamind.Prelude.Result.{Result, ok, err}
use novamind.Intent.State.{running, rejected, queued, dispatched}
use novamind.Contracts.{Value, ExecutionIntent}
use novamind.Journal.{Write, Kernel}
use novamind.Journal.Recovery.{no_contract}
use novamind.Dispatch.Context.{
  ExecutionState, Event, Fault, Store, Config, Lane, DispatchContext, M, lift, bind_result,
  new_context, transition,
}
use novamind.Dispatch.Context.Lane.{worker, in_process}
use novamind.Dispatch.Execute.{Answers, Outcome, capability_of}
use novamind.Dispatch.Prepare.{
  contract_of, journal_rejection, journal_start, record_start, start, acquire, after_check, prepare,
  expected_digest, check, lane_of,
}
use novamind.Dispatch.Verify.{IntentResult, verify_and_complete}
use novamind.Dispatch.{
  execute, after_failure, after_verify, after_execute, after_prepare, dispatch_sync, mark_failed,
  mark_orphaned,
}
use novamind.Dispatch.Lanes.{Quiet, execute_in_worker-Quiet, execute_in_process-Quiet}
use novamind.Dispatch.Returns.{IsOf, prepare-intent}
use novamind.Dispatch.Refines.{
  Grows, Grows-refl, Grows-trans, Steps, Grows-bind, transition-Steps, then_move, then_emit,
  mark_failed-Steps, mark_orphaned-Steps, verify_and_complete-Steps, Grows-same,
}

-- A method that has left the kernel alone so far.
Grows-after :
    {A B : Type 0} (works : ℕ → Write) (id : String) (k : Kernel) (r : Result Fault A × Store)
    (f : A → M B)
    → r.1.kernel ≡ k
    → ((a : A) (v : Store) → v.kernel ≡ k → Grows works id k (f a v).1.kernel)
    → Grows works id k (bind_result r f).1.kernel
Grows-after works id k (ok a, v) f e h = h a v e
Grows-after works id k (err x, v) f e h = subst (Grows works id k) (sym e) (Grows-refl works id k)

-- No dispatch has had this id.
abbrev pub IsFresh : String → Kernel → Type 0
IsFresh id k = Dict.has id k.machines ≡ false

new_context-kernel :
    (id : String) (w : Store) → IsFresh id w.kernel → (new_context id w).1.kernel ≡ w.kernel
unfolding new_context
new_context-kernel id w fresh =
    ap (λ m. record w.kernel { machines = m }) (remove_of_not_has id w.kernel.machines fresh)

module _ (works : ℕ → Write) where
  journal_start-Steps :
      (ctx : DispatchContext) → Steps works ctx.intent.intent_id (journal_start works ctx)
  unfolding journal_start
  journal_start-Steps ctx w =
      let id : String = ctx.intent.intent_id in
      then_move works id queued (contract_of ctx) _ w (λ _ v.
        then_move works id dispatched no_contract _ v (λ _ u.
          then_emit works id (Event.execution id ExecutionState.dispatched) _ u (λ _ x.
            then_move works id running (contract_of ctx) _ x
              (λ _ y. Grows-refl works id y.kernel))))

  record_start-Grows :
      (ctx : DispatchContext) (w : Store)
      → IsFresh ctx.intent.intent_id w.kernel
      → Grows works ctx.intent.intent_id w.kernel (record_start works ctx w).1.kernel
  unfolding record_start new_context
  record_start-Grows ctx w fresh =
      let id : String = ctx.intent.intent_id in
      let v : Store = (new_context id w).1 in
      subst (λ k. Grows works id k (journal_start works ctx v).1.kernel)
        (new_context-kernel id w fresh) (journal_start-Steps ctx v)

  journal_rejection-Grows :
      (i : ExecutionIntent) (w : Store)
      → IsFresh i.intent_id w.kernel
      → Grows works i.intent_id w.kernel (journal_rejection works i w).1.kernel
  unfolding journal_rejection new_context
  journal_rejection-Grows i w fresh =
      let v : Store = (new_context i.intent_id w).1 in
      subst
        (λ k.
          Grows works i.intent_id k (transition works i.intent_id rejected no_contract v).1.kernel)
        (new_context-kernel i.intent_id w fresh)
        (transition-Steps works i.intent_id rejected no_contract v)

module _ (works : ℕ → Write) (c : Config) (sha256 : String → Option Value → Result Fault String)
    (now : ℕ) (lease_id : String) (i : ExecutionIntent) where
  acquire-kernel :
      (l : Lane) (w : Store) → (acquire works c sha256 now lease_id i l w).1.kernel ≡ w.kernel
  unfolding acquire
  acquire-kernel worker w = refl
  acquire-kernel in_process w = refl

  module _ (w : Store) (fresh : IsFresh i.intent_id w.kernel) where
    start-Grows : Grows works i.intent_id w.kernel (start works c sha256 now lease_id i w).1.kernel
    unfolding start
    start-Grows =
        Grows-after works i.intent_id w.kernel
          (acquire works c sha256 now lease_id i (lane_of c i) w) _ (acquire-kernel (lane_of c i) w)
          (λ lid v e.
            Grows-after works i.intent_id w.kernel
              (lift (expected_digest works c sha256 now lease_id i) v) _ e
              (λ d u f.
                let ctx : DispatchContext = record {
                  intent = i;
                  capability = capability_of i;
                  lane = lane_of c i;
                  expected_sha256 = d;
                  lease_id = lid;
                } in
                subst (λ k. Grows works i.intent_id k (record_start works ctx u).1.kernel) f
                  (record_start-Grows works ctx u (subst (IsFresh i.intent_id) (sym f) fresh))))

    after_check-Grows :
        (r : Result Fault (Unit {0}))
        → Grows works i.intent_id w.kernel (after_check works c sha256 now lease_id i r w).1.kernel
    unfolding after_check
    after_check-Grows (ok _) = start-Grows
    after_check-Grows (err e) =
        Grows-bind works i.intent_id (journal_rejection works i w) _
          (journal_rejection-Grows works i w fresh) (λ _ v. Grows-refl works i.intent_id v.kernel)

    prepare-Grows :
        Grows works i.intent_id w.kernel (prepare works c sha256 now lease_id i w).1.kernel
    unfolding prepare
    prepare-Grows = after_check-Grows (check c i)

  module _ (read : String → Result Fault (Option String)) (a : Answers) where
    module _ (ctx : DispatchContext) where
      -- The execution journals nothing.
      pub execute-Quiet : (l : Lane) → Quiet (execute works c sha256 read now lease_id a ctx l)
      unfolding execute
      execute-Quiet worker = execute_in_worker-Quiet c a ctx.intent.intent_id
      execute-Quiet in_process = execute_in_process-Quiet c a

      after_failure-Steps :
          (e : Fault)
          → Steps works ctx.intent.intent_id
              (after_failure works c sha256 read now lease_id a ctx e)
      unfolding after_failure
      after_failure-Steps Fault.worker_died w =
          Grows-bind works ctx.intent.intent_id (mark_orphaned works ctx w) _
            (mark_orphaned-Steps works ctx w)
            (λ _ v. Grows-refl works ctx.intent.intent_id v.kernel)
      after_failure-Steps _ w =
          Grows-bind works ctx.intent.intent_id (mark_failed works ctx w) _
            (mark_failed-Steps works ctx w) (λ _ v. Grows-refl works ctx.intent.intent_id v.kernel)

      after_verify-Grows :
          (k : Kernel) (r : Result Fault IntentResult × Store)
          → Grows works ctx.intent.intent_id k r.1.kernel
          → Grows works ctx.intent.intent_id k
              (after_verify works c sha256 read now lease_id a ctx r).1.kernel
      unfolding after_verify
      after_verify-Grows k (ok x, w) g = g
      after_verify-Grows k (err e, w) g = Grows-trans works ctx.intent.intent_id g (
          Grows-bind works ctx.intent.intent_id (mark_failed works ctx w) _
            (mark_failed-Steps works ctx w) (λ _ v. Grows-refl works ctx.intent.intent_id v.kernel))

      after_execute-Grows :
          (k : Kernel) (r : Result Fault Outcome × Store)
          → Grows works ctx.intent.intent_id k r.1.kernel
          → Grows works ctx.intent.intent_id k
              (after_execute works c sha256 read now lease_id a ctx r).1.kernel
      unfolding after_execute
      after_execute-Grows k (ok o, w) g =
          after_verify-Grows k (verify_and_complete works read ctx o w) (
            Grows-trans works ctx.intent.intent_id g (verify_and_complete-Steps works ctx read o w))
      after_execute-Grows k (err e, w) g =
          Grows-trans works ctx.intent.intent_id g (after_failure-Steps e w)

    after_prepare-Grows :
        (k : Kernel) (r : Result Fault DispatchContext × Store)
        → Grows works i.intent_id k r.1.kernel
        → ((ctx : DispatchContext) → r.0 ≡ ok ctx → IsOf works c sha256 now lease_id i ctx)
        → Grows works i.intent_id k (after_prepare works c sha256 read now lease_id a i r).1.kernel
    unfolding after_prepare
    after_prepare-Grows k (err e, w) g h = g
    after_prepare-Grows k (ok ctx, w) g h =
        let id_eq : ctx.intent.intent_id ≡ i.intent_id =
          ap ExecutionIntent.intent_id (h ctx refl).0 in
        subst
          (λ id.
            Grows works id k
              (after_execute works c sha256 read now lease_id a ctx
                (execute works c sha256 read now lease_id a ctx ctx.lane w)).1.kernel)
          id_eq
          (after_execute-Grows ctx k (execute works c sha256 read now lease_id a ctx ctx.lane w) (
            Grows-trans works ctx.intent.intent_id
              (subst (λ id. Grows works id k w.kernel) (sym id_eq) g)
              (Grows-same works ctx.intent.intent_id (execute-Quiet ctx ctx.lane w))))

    -- A dispatch of an intent whose id is new does to the machines and the journal what a sequence of
    -- logged transitions of that intent does, whatever the checks, the worker, the adapter, the disk
    -- and the journal answer; a write that fails is among them, with the line that it may leave.
    pub dispatch_sync-Grows :
        (w : Store)
        → IsFresh i.intent_id w.kernel
        → Grows works i.intent_id w.kernel
            (dispatch_sync works c sha256 read now lease_id a i w).1.kernel
    unfolding dispatch_sync
    dispatch_sync-Grows w fresh =
        after_prepare-Grows w.kernel (prepare works c sha256 now lease_id i w)
          (prepare-Grows w fresh) (λ ctx e. prepare-intent works c sha256 now lease_id i w ctx e)
