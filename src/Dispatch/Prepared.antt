-- ===== src/Dispatch/Prepared.antt =====
-- What `prepare` leaves, where the journal and the events can be written.
use novamind.Prelude.{
  ℕ, String, ◌≡◌, refl, sym, ap, ◌∙◌, Bool, true, false, Option, none, if◌then◌else◌, eq_refl,
}
use novamind.Prelude.Dict
use novamind.Prelude.Dict.{lookup-remove}
use novamind.Prelude.Result.{Result, ok, err}
use novamind.Intent.{legal_transitions, new}
use novamind.Intent.State.{created, queued, dispatched, running, rejected}
use novamind.Registry
use novamind.Registry.{CapabilityDefinition, Unregistered}
use novamind.Contracts.{Value, ExecutionIntent, Refusal}
use novamind.Journal.{Write, is_stored, or_new}
use novamind.Journal.Recovery.{no_contract}
use novamind.Dispatch.Context.{
  ExecutionState, Event, Fault, Store, Config, Lane, DispatchContext, transition, emit, new_context,
}
use novamind.Dispatch.Context.Lane.{worker, in_process}
use novamind.Dispatch.Execute.{Answers, capability_of}
use novamind.Dispatch.Prepare.{
  contract_of, journal_rejection, journal_start, record_start, start, acquire, after_check, prepare,
  expected_digest, check, lane_of, lane_feasible, refused_as, registered, permit, then_check,
}
use novamind.Dispatch.Triple.{Leaves, Leaves-map, Leaves-bind, Leaves-lift, InState}
use novamind.Dispatch.Ends.{No, move-total, emit-total}
use novamind.Dispatch.{is_rejection}

total :
    {A : Type 0} (X : Store → Type 0) (r : Result Fault A × Store)
    → Leaves (λ _ v. X v) No r
    → X r.1
total X (ok a, w) h = h
total X (err e, w) h = absurd h

new_context-created : (id : String) (w : Store) → InState id created (new_context id w).1
unfolding new_context new
new_context-created id w =
    ap (λ o. (or_new id o).state) (lookup-remove id id w.kernel.machines)
    ∙ ap (λ b. (or_new id (if b then none else Dict.lookup id w.kernel.machines)).state)
        (eq_refl id)

module _ (works : ℕ → Write) (c : Config) (sha256 : String → Option Value → Result Fault String)
    (read : String → Result Fault (Option String)) (now : ℕ) (lease_id : String) (a : Answers)
    (i : ExecutionIntent) where
  abbrev pub rejects : Fault → Bool
  rejects e = is_rejection works c sha256 read now lease_id a e

  -- The checks raise only what `dispatch_sync` takes for a rejection.
  abbrev Rejects : Result Fault (Unit {0}) → Type 0
  Rejects r = (e : Fault) → r ≡ err e → rejects e ≡ true

  err-injective :
      {x e : Fault}
      → ◌≡◌ {A = Result Fault (Unit {0})} (err x) (err e)
      → rejects x ≡ true
      → rejects e ≡ true
  err-injective p h = cc (p, h)

  refused_as-Rejects : (r : Result Refusal (Unit {0})) → Rejects (refused_as r)
  refused_as-Rejects (ok _) e h = cc
  refused_as-Rejects (err x) e h = err-injective h refl

  registered-Rejects : (r : Result Unregistered CapabilityDefinition) → Rejects (registered r)
  registered-Rejects (ok _) e h = cc
  registered-Rejects (err x) e h = err-injective h refl

  permit-Rejects : (b : Bool) → Rejects (permit b)
  permit-Rejects true e h = cc
  permit-Rejects false e h = err-injective h refl

  then_check-Rejects :
      (r s : Result Fault (Unit {0})) → Rejects r → Rejects s → Rejects (then_check r s)
  then_check-Rejects (ok _) s h g = g
  then_check-Rejects (err x) s h g = h

  lane_feasible-Rejects : (l : Lane) → Rejects (lane_feasible c (capability_of i) l)
  unfolding lane_feasible
  lane_feasible-Rejects worker =
      then_check-Rejects _ _ (registered-Rejects (Registry.require (capability_of i)))
        (then_check-Rejects _ _ (permit-Rejects c.kernel_supervisor) (permit-Rejects _))
  lane_feasible-Rejects in_process = permit-Rejects c.adapter_supervisor

  check-Rejects : Rejects (check c i)
  unfolding check
  check-Rejects =
      then_check-Rejects _ _ (refused_as-Rejects _) (lane_feasible-Rejects (lane_of c i))

  -- What `prepare` leaves.
  abbrev pub Prepared : Result Fault DispatchContext × Store → Type 0
  Prepared =
      Leaves (λ ctx v. InState ctx.intent.intent_id running v × (ctx.intent ≡ i))
        (λ e v. (rejects e ≡ true) × InState i.intent_id rejected v)

  module _ (reliable : (n : ℕ) → is_stored (works n) ≡ true) where
    journal_start-total :
        (ctx : DispatchContext) (w : Store)
        → InState ctx.intent.intent_id created w
        → Leaves
            (λ x v. InState x.intent.intent_id running v × (x ≡ ctx))
            No
            (journal_start works ctx w)
    unfolding journal_start legal_transitions
    journal_start-total ctx w h =
        let id : String = ctx.intent.intent_id in
        Leaves-bind _ No (transition works id queued (contract_of ctx) w) _
          (move-total works reliable id created queued (contract_of ctx) w refl h)
          (λ _ v g.
            Leaves-bind _ No (transition works id dispatched no_contract v) _
              (move-total works reliable id queued dispatched no_contract v refl g)
              (λ _ u k.
                Leaves-bind _ No (emit works (Event.execution id ExecutionState.dispatched) u) _
                  (emit-total works reliable id dispatched _ u k)
                  (λ _ x l.
                    Leaves-bind _ No (transition works id running (contract_of ctx) x) _
                      (move-total works reliable id dispatched running (contract_of ctx) x refl l)
                      (λ _ y m. (m, refl)))))

    record_start-total :
        (ctx : DispatchContext) (w : Store)
        → Leaves
            (λ x v. InState x.intent.intent_id running v × (x ≡ ctx))
            No
            (record_start works ctx w)
    unfolding record_start new_context
    record_start-total ctx w =
        journal_start-total ctx (new_context ctx.intent.intent_id w).1
          (new_context-created ctx.intent.intent_id w)

    acquire-total :
        (l : Lane) (w : Store)
        → Leaves (λ _ _. Unit {0}) No (acquire works c sha256 now lease_id i l w)
    unfolding acquire
    acquire-total worker w = tt
    acquire-total in_process w = tt

    module _ (o : Option String)
        (digest : expected_digest works c sha256 now lease_id i ≡ ok o) where
      start-total :
          (w : Store)
          → Leaves
              (λ ctx v. InState ctx.intent.intent_id running v × (ctx.intent ≡ i))
              No
              (start works c sha256 now lease_id i w)
      unfolding start
      start-total w =
          Leaves-bind _ No (acquire works c sha256 now lease_id i (lane_of c i) w) _
            (acquire-total (lane_of c i) w)
            (λ lid v _.
              Leaves-lift _ No (expected_digest works c sha256 now lease_id i) _ v
                (λ e f. err_ok (sym f ∙ digest))
                (λ d _.
                  let ctx : DispatchContext = record {
                    intent = i;
                    capability = capability_of i;
                    lane = lane_of c i;
                    expected_sha256 = d;
                    lease_id = lid;
                  } in
                  Leaves-map (record_start works ctx v) (record_start-total ctx v)
                    (λ x u g. (g.0, ap DispatchContext.intent g.1)) (λ _ _ b. b)))
        where
          err_ok : {e : Fault} → ◌≡◌ {A = Result Fault (Option String)} (err e) (ok o) → ⊥
          err_ok p = cc

      after_check-Prepared :
          (r : Result Fault (Unit {0})) (w : Store)
          → r ≡ check c i
          → Prepared (after_check works c sha256 now lease_id i r w)
      unfolding after_check journal_rejection new_context legal_transitions
      after_check-Prepared (ok _) w h =
          Leaves-map (start works c sha256 now lease_id i w) (start-total w) (λ _ _ g. g)
            (λ _ _ b. absurd b)
      after_check-Prepared (err e) w h = (
        check-Rejects e (sym h),
        total (InState i.intent_id rejected)
            (transition works i.intent_id rejected no_contract (new_context i.intent_id w).1)
            (move-total works reliable i.intent_id created rejected no_contract
              (new_context i.intent_id w).1 refl (new_context-created i.intent_id w)),
      )

      pub prepare-Prepared : (w : Store) → Prepared (prepare works c sha256 now lease_id i w)
      unfolding prepare
      prepare-Prepared w = after_check-Prepared (check c i) w refl
