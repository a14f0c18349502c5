-- ===== src/Dispatch/Refines.antt =====
-- What a dispatch does to the machines and the journal, against the logged transitions of `Journal`.
use novamind.Prelude.{
  ℕ, String, ◌≡◌, refl, sym, ap, ◌∙◌, Bool, true, false, Option, none, some, List, [], ◌∷◌, ◌++◌,
  ◌==◌, if◌then◌else◌, Bool-cases, inl, inr,
}
use mathlib.Core.Path.{subst}
use novamind.Prelude.Result.{Result, ok, err}
use novamind.Intent.{State, mem, terminal_states}
use novamind.Intent.State.{running, verifying, orphaned}
use novamind.Journal.{Write, is_stored, Contract, Kernel, Move, move, moves}
use novamind.Journal.Recovery.{no_contract}
use novamind.Dispatch.Context.{
  ExecutionState, Event, Fault, Store, DispatchContext, M, pure, ◌>>◌, bind_result, path_of,
  transition, emit,
}
use novamind.Dispatch.Execute.{Outcome}
use novamind.Dispatch.Prepare.{contract_of}
use novamind.Dispatch.Verify.{
  IntentResult, observe_file, complete, diverged, judge_digest, compare_digest, verify_outcome,
  verify_and_complete, diverges,
}
use novamind.Dispatch.{
  mark, failure_of, mark_failed_from, mark_failed, mark_orphaned_from, mark_orphaned,
}

-- Each call is on the machine of `id`, and its write ends as `works` says of some write.
abbrev pub Only : (ℕ → Write) → String → List Move → Type 0
Only works id [] = Unit
Only works id (c ∷ l) = (c.id ≡ id) × ((n : ℕ) × (c.durable ≡ works n)) × Only works id l

-- From one kernel to another by logged transitions of one intent.
pub record Grows (works : ℕ → Write) (id : String) (k k' : Kernel) : Type 0 where
  pub calls : List Move
  pub only : Only works id calls
  pub result : k' ≡ moves calls k

Only-append :
    (works : ℕ → Write) (id : String) (l r : List Move)
    → Only works id l
    → Only works id r
    → Only works id (l ++ r)
Only-append works id [] r h g = g
Only-append works id (c ∷ l) r (e, w, h) g = (e, w, Only-append works id l r h g)

moves-append : (l r : List Move) (k : Kernel) → moves (l ++ r) k ≡ moves r (moves l k)
unfolding moves
moves-append [] r k = refl
moves-append (c ∷ l) r k = moves-append l r (move c k)

module _ (works : ℕ → Write) (id : String) where
  pub Grows-refl : (k : Kernel) → Grows works id k k
  unfolding moves
  Grows-refl k = record { calls = []; only = tt; result = refl }

  pub Grows-trans :
      {k k' k'' : Kernel} → Grows works id k k' → Grows works id k' k'' → Grows works id k k''
  Grows-trans {k} g h = record {
    calls = g.calls ++ h.calls;
    only = Only-append works id g.calls h.calls g.only h.only;
    result = h.result ∙ ap (moves h.calls) g.result ∙ sym (moves-append g.calls h.calls k);
  }

  -- A method that does no more than that.
  abbrev pub Steps : {A : Type 0} → M A → Type 0
  Steps m = (w : Store) → Grows works id w.kernel (m w).1.kernel

  pub Grows-bind :
      {A B : Type 0} {k : Kernel} (r : Result Fault A × Store) (f : A → M B)
      → Grows works id k r.1.kernel
      → ((a : A) → Steps (f a))
      → Grows works id k (bind_result r f).1.kernel
  Grows-bind (ok a, w) f g h = Grows-trans g (h a w)
  Grows-bind (err e, w) f g h = g

  pub Grows-same : {k k' : Kernel} → k' ≡ k → Grows works id k k'
  Grows-same {k} e = subst (Grows works id k) (sym e) (Grows-refl k)

  Grows-lift :
      {A B : Type 0} (r : Result Fault A) (f : A → M B) (w : Store)
      → ((a : A) → Steps (f a))
      → Grows works id w.kernel (bind_result (r, w) f).1.kernel
  Grows-lift (ok a) f w h = h a w
  Grows-lift (err e) f w h = Grows-refl w.kernel

  Steps-if : {A : Type 0} (b : Bool) (m n : M A) → Steps m → Steps n → Steps (if b then m else n)
  Steps-if true m n g h = g
  Steps-if false m n g h = h

  pub transition-Steps : (s : State) (p : Contract) → Steps (transition works id s p)
  unfolding transition moves
  transition-Steps s p w = record {
    calls = record { id = id; to = s; payload = p; durable = works w.calls } ∷ [];
    only = (refl, (w.calls, refl), tt);
    result = refl;
  }

  emit-Steps : (e : Event) → Steps (emit works e)
  unfolding emit
  emit-Steps e w = elim (Bool-cases (is_stored (works w.calls))) [
    | inl f ↦ rw f (Grows-refl w.kernel)
    | inr f ↦ rw f (Grows-refl w.kernel)
  ]

  pub then_emit :
      {B : Type 0} (e : Event) (f : Unit {0} → M B) (w : Store)
      → ((a : Unit {0}) → Steps (f a))
      → Grows works id w.kernel (bind_result (emit works e w) f).1.kernel
  then_emit e f w h = Grows-bind (emit works e w) f (emit-Steps e w) h

  pub then_move :
      {B : Type 0} (s : State) (p : Contract) (f : Unit {0} → M B) (w : Store)
      → ((a : Unit {0}) → Steps (f a))
      → Grows works id w.kernel (bind_result (transition works id s p w) f).1.kernel
  then_move s p f w h = Grows-bind (transition works id s p w) f (transition-Steps s p w) h

  mark-Steps : (s : State) → Steps (mark works id s)
  unfolding mark
  mark-Steps s w = then_move s no_contract _ w (λ _. emit-Steps (Event.verification id false true))

  mark_failed_from-Steps : (s : State) → Steps (mark_failed_from works id s)
  unfolding mark_failed_from
  mark_failed_from-Steps s w = elim (Bool-cases (mem s terminal_states)) [
    | inl f ↦ rw f (Grows-refl w.kernel)
    | inr f ↦ rw f (mark-Steps (failure_of works s) w)
  ]

module _ (works : ℕ → Write) (ctx : DispatchContext) where
  abbrev id_of : String
  id_of = ctx.intent.intent_id

  pub mark_failed-Steps : Steps works id_of (mark_failed works ctx)
  unfolding mark_failed
  mark_failed-Steps w = mark_failed_from-Steps works id_of _ w

  mark_orphaned_from-Steps : (s : State) → Steps works id_of (mark_orphaned_from works ctx s)
  unfolding mark_orphaned_from
  mark_orphaned_from-Steps running w =
      then_move works id_of orphaned (contract_of ctx) _ w
        (λ _. emit-Steps works id_of (Event.execution id_of ExecutionState.invalidated))
  mark_orphaned_from-Steps _ w = Grows-refl works id_of w.kernel

  pub mark_orphaned-Steps : Steps works id_of (mark_orphaned works ctx)
  unfolding mark_orphaned
  mark_orphaned-Steps w = mark_orphaned_from-Steps _ w

  module _ (read : String → Result Fault (Option String)) where
    closing-Steps :
        (e : Event) (s : State) (p : Contract) (r : IntentResult)
        → Steps works id_of (do emit works e; transition works id_of s p; pure r)
    closing-Steps e s p r w =
        then_emit works id_of e _ w
          (λ _ v. then_move works id_of s p _ v (λ _ u. Grows-refl works id_of u.kernel))

    complete-Steps : (seen : Option String) → Steps works id_of (complete works read ctx seen)
    unfolding complete
    complete-Steps seen = closing-Steps _ _ _ _

    judge_digest-Steps :
        (seen : Option String) (b : Bool) → Steps works id_of (judge_digest works read ctx seen b)
    unfolding judge_digest diverged
    judge_digest-Steps seen true w = closing-Steps _ _ _ _ w
    judge_digest-Steps seen false w =
        then_emit works id_of (Event.execution id_of ExecutionState.verified) _ w
          (λ _. complete-Steps seen)

    compare_digest-Steps :
        (d : String) (o : Outcome) → Steps works id_of (compare_digest works read ctx d o)
    unfolding compare_digest
    compare_digest-Steps d o w =
        Grows-lift works id_of (observe_file works read (path_of ctx.intent)) _ w (λ seen v.
          then_emit works id_of (Event.execution id_of ExecutionState.observed) _ v
            (λ _. judge_digest-Steps seen (diverges works read d seen o.reported)))

    verify_outcome-Steps :
        (o : Outcome) (d : Option String) → Steps works id_of (verify_outcome works read ctx o d)
    unfolding verify_outcome
    verify_outcome-Steps o none = complete-Steps none
    verify_outcome-Steps o (some d) =
        Steps-if works id_of (d == "") _ _ (complete-Steps none) (compare_digest-Steps d o)

    pub verify_and_complete-Steps :
        (o : Outcome) → Steps works id_of (verify_and_complete works read ctx o)
    unfolding verify_and_complete
    verify_and_complete-Steps o w = then_move works id_of verifying no_contract _ w (λ _ v.
        then_emit works id_of (Event.execution id_of ExecutionState.mutated) _ v
          (λ _. verify_outcome-Steps o ctx.expected_sha256))
