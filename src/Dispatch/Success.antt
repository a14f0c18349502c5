-- ===== src/Dispatch/Success.antt =====
-- What a dispatch that reports success has verified.
use novamind.Prelude.{
  ℕ, String, ◌≡◌, refl, sym, ap, ◌∙◌, Bool, true, false, Option, none, some, ◌==◌, eq_iff,
  Bool-cases, inl, inr, arith,
}
use mathlib.Core.Path.{subst}
use novamind.Prelude.Result.{Result, ok, err, ok-injective}
use novamind.Intent.State.{completed, verifying, failed}
use novamind.Contracts.{Value, ExecutionIntent}
use novamind.Journal.{Write, Contract}
use novamind.Journal.Recovery.{no_contract}
use novamind.Dispatch.Context.{
  ExecutionState, Event, Fault, Store, Config, DispatchContext, M, path_of, transition, emit,
  bind_result,
}
use novamind.Dispatch.Execute.{Answers, Outcome}
use novamind.Dispatch.Prepare.{prepare, expected_digest}
use novamind.Dispatch.Verify.{
  IntentResult, failure, observe_file, complete, diverged, judge_digest, compare_digest,
  verify_outcome, verify_and_complete, diverges,
}
use novamind.Dispatch.Triple.{
  Leaves, Leaves-map, Leaves-bind, Leaves-lift, InState, transition-Leaves,
}
use novamind.Dispatch.Returns.{IsOf, prepare-intent}
use novamind.Dispatch.{
  after_failure, after_verify, after_execute, after_prepare, is_rejection, dispatch_sync,
  mark_failed, mark_orphaned,
}

abbrev Any : Fault → Store → Type 0
Any e w = Unit

-- What comes before does not matter.
skip :
    {A B : Type 0} (R : B → Store → Type 0) (r : Result Fault A × Store) (f : A → M B)
    → ((a : A) (w : Store) → Leaves R Any (f a w))
    → Leaves R Any (bind_result r f)
skip R (ok a, w) f h = h a w
skip R (err e, w) f h = tt

module _ (works : ℕ → Write) (read : String → Result Fault (Option String))
    (ctx : DispatchContext) where
  -- The digest that the context expects, if there is one, has been observed.
  abbrev pub Observed : Option String → Type 0
  Observed seen =
      (d : String)
      → ctx.expected_sha256 ≡ some d
      → (d == "") ≡ false
      → (seen ≡ some d) × (observe_file works read (path_of ctx.intent) ≡ ok (some d))

  -- A result of success is of a completed intent whose digest has been observed.
  abbrev pub IsChecked : IntentResult → Store → Type 0
  IsChecked r w =
      r.success ≡ true → InState ctx.intent.intent_id completed w × Observed r.observed_sha256

  complete-IsChecked :
      (seen : Option String) (w : Store)
      → Observed seen
      → Leaves IsChecked Any (complete works read ctx seen w)
  unfolding complete
  complete-IsChecked seen w h =
      let id : String = ctx.intent.intent_id in
      let p : Contract = record { path = none; content_sha256 = ctx.expected_sha256 } in
      skip IsChecked (emit works (Event.verification id true false) w) _ (λ _ v.
        Leaves-bind IsChecked Any (transition works id completed p v) _
          (Leaves-map (transition works id completed p v) (transition-Leaves works id completed p v)
            (λ _ u m. m.0) (λ _ _ _. tt))
          (λ _ u e ok_. (e, h)))

  diverged-IsChecked :
      (seen : Option String) (w : Store) → Leaves IsChecked Any (diverged works read ctx seen w)
  unfolding diverged
  diverged-IsChecked seen w =
      let id : String = ctx.intent.intent_id in
      skip IsChecked (emit works (Event.verification id false true) w) _ (λ _ v.
        skip IsChecked (transition works id failed no_contract v) _
          (λ _ u e. absurd (bool_absurd e)))
    where
      bool_absurd : false ≡ true → ⊥
      bool_absurd e = cc

  diverges_none :
      (d : String) (seen rep : Option String)
      → diverges works read d seen rep ≡ false
      → seen ≡ some d
  unfolding diverges
  diverges_none d none rep e = cc
  diverges_none d (some x) rep e = ground (arith, e, eq_iff x d)

  judge_digest-IsChecked :
      (seen : Option String) (b : Bool) (w : Store)
      → (b ≡ false → Observed seen)
      → Leaves IsChecked Any (judge_digest works read ctx seen b w)
  unfolding judge_digest
  judge_digest-IsChecked seen true w h = diverged-IsChecked seen w
  judge_digest-IsChecked seen false w h =
      skip IsChecked (emit works (Event.execution ctx.intent.intent_id ExecutionState.verified) w) _
        (λ _ v. complete-IsChecked seen v (h refl))

  compare_digest-IsChecked :
      (d : String) (o : Outcome) (w : Store)
      → ctx.expected_sha256 ≡ some d
      → Leaves IsChecked Any (compare_digest works read ctx d o w)
  unfolding compare_digest
  compare_digest-IsChecked d o w e =
      Leaves-lift IsChecked Any (observe_file works read (path_of ctx.intent)) _ w (λ _ _. tt)
        (λ seen found.
          skip IsChecked
            (emit works (Event.execution ctx.intent.intent_id ExecutionState.observed) w) _
            (λ _ v.
              judge_digest-IsChecked seen (diverges works read d seen o.reported) v (λ f x g _.
                let same : seen ≡ some d = diverges_none d seen o.reported f in
                let this : some d ≡ some x = sym e ∙ g in
                (same ∙ this, found ∙ ap ok (same ∙ this)))))

  verify_outcome-IsChecked :
      (o : Outcome) (s : Option String) (w : Store)
      → ctx.expected_sha256 ≡ s
      → Leaves IsChecked Any (verify_outcome works read ctx o s w)
  unfolding verify_outcome
  verify_outcome-IsChecked o none w e = complete-IsChecked none w (λ d f _. cc (sym e ∙ f))
  verify_outcome-IsChecked o (some d) w e = elim (Bool-cases (d == "")) [
    | inr f ↦ rw f (compare_digest-IsChecked d o w e)
    | inl f ↦ rw f (complete-IsChecked none w (λ x g h. cc (e, f, g, h)))
  ]

  verify-IsChecked :
      (o : Outcome) (w : Store) → Leaves IsChecked Any (verify_and_complete works read ctx o w)
  unfolding verify_and_complete
  verify-IsChecked o w =
      let id : String = ctx.intent.intent_id in
      skip IsChecked (transition works id verifying no_contract w) _ (λ _ v.
        skip IsChecked (emit works (Event.execution id ExecutionState.mutated) v) _
          (λ _ u. verify_outcome-IsChecked o ctx.expected_sha256 u refl))

Leaves-ok :
    {A : Type 0} (P : A → Store → Type 0) (r : Result Fault A × Store)
    → Leaves P Any r
    → (a : A) → r.0 ≡ ok a
    → P a r.1
Leaves-ok P (ok b, w) h a e = subst (λ x. P x w) (ok-injective e) h
Leaves-ok P (err x, w) h a e = cc

module _ (works : ℕ → Write) (c : Config) (sha256 : String → Option Value → Result Fault String)
    (read : String → Result Fault (Option String)) (now : ℕ) (lease_id : String) (a : Answers)
    (i : ExecutionIntent) where
  -- A result of success is of a completed intent, and the digest of the content that the intent was
  -- to write, if there is one, was observed at its path.
  abbrev pub IsVerified : IntentResult → Store → Type 0
  IsVerified r w =
      r.success ≡ true
      → InState i.intent_id completed w
        × ((d : String)
            → expected_digest works c sha256 now lease_id i ≡ ok (some d)
            → (d == "") ≡ false
            → (r.observed_sha256 ≡ some d) × (observe_file works read (path_of i) ≡ ok (some d)))

  failure-IsVerified : (id stage : String) (w : Store) → IsVerified (failure id stage) w
  failure-IsVerified id stage w e = absurd (bool_absurd e)
    where
      bool_absurd : false ≡ true → ⊥
      bool_absurd e = cc

  of_checked :
      (ctx : DispatchContext)
      → IsOf works c sha256 now lease_id i ctx
      → (r : IntentResult) (w : Store) → IsChecked works read ctx r w
      → IsVerified r w
  of_checked ctx (same, digest, lane) r w h e =
      let (done, seen) = h e in
      (
        subst (λ x. InState x.intent_id completed w) same done,
        λ d f g.
            let this : ctx.expected_sha256 ≡ some d = ok-injective (sym digest ∙ f) in
            let (shown, found) = seen d this g in
            (shown, subst (λ x. observe_file works read (path_of x) ≡ ok (some d)) same found),
      )

  after_verify-IsVerified :
      (ctx : DispatchContext) (r : Result Fault IntentResult × Store)
      → Leaves IsVerified Any r
      → Leaves IsVerified Any (after_verify works c sha256 read now lease_id a ctx r)
  unfolding after_verify
  after_verify-IsVerified ctx (ok x, w) h = h
  after_verify-IsVerified ctx (err e, w) h =
      skip IsVerified (mark_failed works ctx w) _
        (λ _ v. failure-IsVerified ctx.intent.intent_id "verification" v)

  after_failure-IsVerified :
      (ctx : DispatchContext) (e : Fault) (w : Store)
      → Leaves IsVerified Any (after_failure works c sha256 read now lease_id a ctx e w)
  unfolding after_failure
  after_failure-IsVerified ctx Fault.worker_died w =
      skip IsVerified (mark_orphaned works ctx w) _
        (λ _ v. failure-IsVerified ctx.intent.intent_id "orphaned" v)
  after_failure-IsVerified ctx _ w =
      skip IsVerified (mark_failed works ctx w) _
        (λ _ v. failure-IsVerified ctx.intent.intent_id "execution" v)

  after_execute-IsVerified :
      (ctx : DispatchContext) (r : Result Fault Outcome × Store)
      → IsOf works c sha256 now lease_id i ctx
      → Leaves IsVerified Any (after_execute works c sha256 read now lease_id a ctx r)
  unfolding after_execute
  after_execute-IsVerified ctx (ok o, w) h =
      after_verify-IsVerified ctx (verify_and_complete works read ctx o w) (
        Leaves-map (verify_and_complete works read ctx o w) (verify-IsChecked works read ctx o w)
          (of_checked ctx h) (λ _ _ _. tt))
  after_execute-IsVerified ctx (err e, w) h = after_failure-IsVerified ctx e w

  after_prepare-IsVerified :
      (r : Result Fault DispatchContext × Store)
      → ((ctx : DispatchContext) → r.0 ≡ ok ctx → IsOf works c sha256 now lease_id i ctx)
      → Leaves IsVerified Any (after_prepare works c sha256 read now lease_id a i r)
  unfolding after_prepare
  after_prepare-IsVerified (ok ctx, w) h = after_execute-IsVerified ctx _ (h ctx refl)
  after_prepare-IsVerified (err e, w) h =
      elim (Bool-cases (is_rejection works c sha256 read now lease_id a e)) [
        | inl f ↦ rw f (failure-IsVerified i.intent_id "rejected" w)
        | inr f ↦ rw f tt
      ]

  -- If a dispatch returns a result of success, and the digest of the content that its intent was to
  -- write is not empty, then the intent is COMPLETED, the file at its path was observed with just that
  -- digest, and the result shows it. This holds whatever the worker or the adapter reported.
  pub dispatch_sync-success :
      (w : Store) (r : IntentResult) (d : String)
      → (dispatch_sync works c sha256 read now lease_id a i w).0 ≡ ok r
      → r.success ≡ true
      → expected_digest works c sha256 now lease_id i ≡ ok (some d)
      → (d == "") ≡ false
      → InState i.intent_id completed (dispatch_sync works c sha256 read now lease_id a i w).1
        × (observe_file works read (path_of i) ≡ ok (some d))
        × (r.observed_sha256 ≡ some d)
  unfolding dispatch_sync
  dispatch_sync-success w r d e good digest named =
      let prepared : Result Fault DispatchContext × Store =
        prepare works c sha256 now lease_id i w in
      let (done, seen) =
        Leaves-ok IsVerified (after_prepare works c sha256 read now lease_id a i prepared)
          (after_prepare-IsVerified prepared
            (λ ctx f. prepare-intent works c sha256 now lease_id i w ctx f))
          r e good in
      let (shown, found) = seen d digest named in (done, found, shown)
