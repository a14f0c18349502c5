-- ===== src/Dispatch/Ends.antt =====
-- The state in which a dispatch leaves its intent.
use novamind.Prelude.{
  ℕ, String, ◌≡◌, refl, sym, ap, ◌∙◌, Bool, true, false, Option, none, some, [], ◌∷◌, ◌==◌,
  Bool-cases, inl, inr,
}
use novamind.Prelude.Result.{Result}
use novamind.Intent.{State, value, mem, legal_transitions, terminal_states}
use novamind.Intent.State.{running, verifying, completed, failed, rejected, orphaned}
use novamind.Journal.{Write, is_stored, Contract, machine_of}
use novamind.Journal.Recovery.{no_contract}
use novamind.Dispatch.Context.{
  ExecutionState, Event, Fault, Store, DispatchContext, M, pure, path_of, transition, emit, ◌>>◌,
  bind_result,
}
use novamind.Dispatch.Execute.{Outcome}
use novamind.Dispatch.Prepare.{contract_of}
use novamind.Dispatch.Verify.{
  IntentResult, observe_file, complete, diverged, judge_digest, compare_digest, verify_outcome,
  verify_and_complete, diverges,
}
use novamind.Dispatch.Triple.{
  Leaves, Leaves-map, Leaves-bind, Leaves-lift, InState, transition-Leaves, emit-Leaves,
}
use novamind.Dispatch.{
  mark, failure_of, mark_failed_from, mark_orphaned_from, mark_failed, mark_orphaned,
}

abbrev pub No : Fault → Store → Type 0
No e w = ⊥

pub bool_absurd : false ≡ true → ⊥
bool_absurd e = cc

-- The intent is rejected, completed, failed or orphaned, and the result is of success if it is
-- completed.
abbrev pub Ended : String → IntentResult → Store → Type 0
Ended id r w =
    (s : State) × InState id s w
    × (mem s (rejected ∷ completed ∷ failed ∷ orphaned ∷ []) ≡ true)
    × (r.success ≡ (value s == "COMPLETED"))

module _ (works : ℕ → Write) (reliable : (n : ℕ) → is_stored (works n) ≡ true) where
  pub move-total :
      (id : String) (s t : State) (p : Contract) (w : Store)
      → mem t (legal_transitions s) ≡ true
      → InState id s w
      → Leaves (λ _ v. InState id t v) No (transition works id t p w)
  move-total id s t p w legal h =
      Leaves-map (transition works id t p w) (transition-Leaves works id t p w) (λ _ _ m. m.0)
        (λ _ v stuck. elim stuck.1 [
          | inl e ↦ bool_absurd (sym e ∙ reliable w.calls)
          | inr e ↦ bool_absurd (sym e ∙ ap (λ x. mem t (legal_transitions x)) h ∙ legal)
        ])

  pub emit-total :
      (id : String) (s : State) (e : Event) (w : Store)
      → InState id s w
      → Leaves (λ _ v. InState id s v) No (emit works e w)
  emit-total id s e w h =
      Leaves-map (emit works e w) (emit-Leaves works id e w)
        (λ _ v q. ap (λ k. (machine_of id k.machines).state) q.0 ∙ h)
        (λ _ v q. bool_absurd (sym q.1 ∙ reliable w.calls))

  mark-total :
      (id : String) (s t : State) (w : Store)
      → mem t (legal_transitions s) ≡ true
      → InState id s w
      → Leaves (λ _ v. InState id t v) No (mark works id t w)
  unfolding mark
  mark-total id s t w legal h =
      Leaves-bind (λ _ v. InState id t v) No (transition works id t no_contract w) _
        (move-total id s t no_contract w legal h) (λ _ v g. emit-total id t _ v g)

  pub mark_failed-total :
      (ctx : DispatchContext) (s : State) (w : Store)
      → mem s (running ∷ verifying ∷ []) ≡ true
      → InState ctx.intent.intent_id s w
      → Leaves (λ _ v. InState ctx.intent.intent_id failed v) No (mark_failed works ctx w)
  unfolding mark_failed mark_failed_from terminal_states legal_transitions failure_of
  mark_failed-total ctx running w e h =
      rw h (mark-total ctx.intent.intent_id running failed w refl h)
  mark_failed-total ctx verifying w e h =
      rw h (mark-total ctx.intent.intent_id verifying failed w refl h)
  mark_failed-total ctx _ w e h = cc e

  pub mark_orphaned-total :
      (ctx : DispatchContext) (w : Store)
      → InState ctx.intent.intent_id running w
      → Leaves (λ _ v. InState ctx.intent.intent_id orphaned v) No (mark_orphaned works ctx w)
  unfolding mark_orphaned mark_orphaned_from legal_transitions
  mark_orphaned-total ctx w h = rw h (
      Leaves-bind (λ _ v. InState ctx.intent.intent_id orphaned v) No
        (transition works ctx.intent.intent_id orphaned (contract_of ctx) w) _
        (move-total ctx.intent.intent_id running orphaned (contract_of ctx) w refl h)
        (λ _ v g. emit-total ctx.intent.intent_id orphaned _ v g))

  module _ (read : String → Result Fault (Option String)) (ctx : DispatchContext) where
    -- What `verify_and_complete` leaves: an ended intent, or one that is still VERIFYING.
    abbrev pub Judged : Result Fault IntentResult × Store → Type 0
    Judged = Leaves (Ended ctx.intent.intent_id) (λ _ v. InState ctx.intent.intent_id verifying v)

    then_event :
        (e : Event) (w : Store)
        → InState ctx.intent.intent_id verifying w
        → (f : Unit {0} → M IntentResult)
        → ((v : Store) → InState ctx.intent.intent_id verifying v → Judged (f tt v))
        → Judged (bind_result (emit works e w) f)
    then_event e w h f g =
        Leaves-bind (Ended ctx.intent.intent_id) (λ _ v. InState ctx.intent.intent_id verifying v)
          (emit works e w) f
          (Leaves-map (emit works e w) (emit-total ctx.intent.intent_id verifying e w h)
            (λ _ _ k. k) (λ _ _ b. absurd b))
          (λ _ v k. g v k)

    closing :
        (e : Event) (t : State) (p : Contract) (r : IntentResult) (w : Store)
        → mem t (legal_transitions verifying) ≡ true
        → mem t (rejected ∷ completed ∷ failed ∷ orphaned ∷ []) ≡ true
        → r.success ≡ (value t == "COMPLETED")
        → InState ctx.intent.intent_id verifying w
        → Judged ((do emit works e; transition works ctx.intent.intent_id t p; pure r) w)
    closing e t p r w legal over shown h =
        let id : String = ctx.intent.intent_id in
        Leaves-bind (Ended id) (λ _ v. InState id verifying v) (emit works e w) _
          (Leaves-map (emit works e w) (emit-total id verifying e w h) (λ _ _ g. g)
            (λ _ _ b. absurd b))
          (λ _ v g.
            Leaves-bind (Ended id) (λ _ u. InState id verifying u) (transition works id t p v) _
              (Leaves-map (transition works id t p v) (move-total id verifying t p v legal g)
                (λ _ _ k. k) (λ _ _ b. absurd b))
              (λ _ u k. (t, k, over, shown)))

    complete-ends :
        (seen : Option String) (w : Store)
        → InState ctx.intent.intent_id verifying w
        → Judged (complete works read ctx seen w)
    unfolding complete legal_transitions
    complete-ends seen w h = closing _ completed _ _ w refl refl refl h

    judge_digest-ends :
        (seen : Option String) (b : Bool) (w : Store)
        → InState ctx.intent.intent_id verifying w
        → Judged (judge_digest works read ctx seen b w)
    unfolding judge_digest diverged legal_transitions
    judge_digest-ends seen true w h = closing _ failed _ _ w refl refl refl h
    judge_digest-ends seen false w h =
        then_event (Event.execution ctx.intent.intent_id ExecutionState.verified) w h _
          (λ v g. complete-ends seen v g)

    compare_digest-ends :
        (d : String) (o : Outcome) (w : Store)
        → InState ctx.intent.intent_id verifying w
        → Judged (compare_digest works read ctx d o w)
    unfolding compare_digest
    compare_digest-ends d o w h =
        Leaves-lift (Ended ctx.intent.intent_id) (λ _ v. InState ctx.intent.intent_id verifying v)
          (observe_file works read (path_of ctx.intent)) _ w (λ _ _. h)
          (λ seen _.
            then_event (Event.execution ctx.intent.intent_id ExecutionState.observed) w h _
              (λ v g. judge_digest-ends seen (diverges works read d seen o.reported) v g))

    verify_outcome-ends :
        (o : Outcome) (s : Option String) (w : Store)
        → InState ctx.intent.intent_id verifying w
        → Judged (verify_outcome works read ctx o s w)
    unfolding verify_outcome
    verify_outcome-ends o none w h = complete-ends none w h
    verify_outcome-ends o (some d) w h = elim (Bool-cases (d == "")) [
      | inr f ↦ rw f (compare_digest-ends d o w h)
      | inl f ↦ rw f (complete-ends none w h)
    ]

    pub verify-ends :
        (o : Outcome) (w : Store)
        → InState ctx.intent.intent_id running w
        → Judged (verify_and_complete works read ctx o w)
    unfolding verify_and_complete legal_transitions
    verify-ends o w h =
        let id : String = ctx.intent.intent_id in
        Leaves-bind (Ended id) (λ _ v. InState id verifying v)
          (transition works id verifying no_contract w) _
          (Leaves-map (transition works id verifying no_contract w)
            (move-total id running verifying no_contract w refl h) (λ _ _ g. g) (λ _ _ b. absurd b))
          (λ _ v g.
            then_event (Event.execution id ExecutionState.mutated) v g _
              (λ u k. verify_outcome-ends o ctx.expected_sha256 u k))
