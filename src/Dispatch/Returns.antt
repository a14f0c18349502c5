-- ===== src/Dispatch/Returns.antt =====
-- What the methods of the dispatcher can return; `prepare` returns a context of its own intent.
use novamind.Journal.{Write}
use novamind.Prelude.{ℕ, String, ◌≡◌, refl, Option}
use mathlib.Core.Path.{subst}
use novamind.Prelude.Result.{Result, ok, err, ok-injective}
use novamind.Intent.State.{running, queued, dispatched}
use novamind.Contracts.{Value, ExecutionIntent}
use novamind.Journal.Recovery.{no_contract}
use novamind.Dispatch.Context.{
  ExecutionState, Event, Fault, Store, Config, DispatchContext, M, pure, raise, lift, ◌>>=◌,
  bind_result, new_context, transition, emit,
}
use novamind.Dispatch.Prepare.{
  contract_of, journal_rejection, journal_start, record_start, start, acquire, after_check, prepare,
  expected_digest, check, lane_of,
}

-- A method that returns only values with a property.
abbrev pub Returns : {A : Type 0} → (A → Type 0) → M A → Type 0
Returns {A} P m = (w : Store) (a : A) → (m w).0 ≡ ok a → P a

Returns-bind :
    {A B : Type 0} (P : B → Type 0) (m : M A) (f : A → M B)
    → ((a : A) → Returns P (f a))
    → Returns P (m >>= f)
Returns-bind {A} {B} P m f h w = of (m w)
  where
    of : (r : Result Fault A × Store) (b : B) → (bind_result r f).0 ≡ ok b → P b
    of (ok a, v) b e = h a v b e
    of (err x, v) b e = cc

Returns-lift :
    {A B : Type 0} (P : B → Type 0) (r : Result Fault A) (f : A → M B)
    → ((a : A) → r ≡ ok a → Returns P (f a))
    → Returns P (lift r >>= f)
Returns-lift P (ok a) f h w b e = h a refl w b e
Returns-lift P (err x) f h w b e = cc

Returns-pure : {A : Type 0} (P : A → Type 0) (a : A) → P a → Returns P (pure a)
Returns-pure P a p w b e = subst P (ok-injective e) p

module _ (works : ℕ → Write) (c : Config) (sha256 : String → Option Value → Result Fault String)
    (now : ℕ) (lease_id : String) (i : ExecutionIntent) where
  -- The context is that of the intent.
  abbrev pub IsOf : DispatchContext → Type 0
  IsOf ctx =
      (ctx.intent ≡ i)
      × (expected_digest works c sha256 now lease_id i ≡ ok ctx.expected_sha256)
      × (ctx.lane ≡ lane_of c i)

  journal_start-intent : (ctx : DispatchContext) → IsOf ctx → Returns IsOf (journal_start works ctx)
  unfolding journal_start
  journal_start-intent ctx e =
      let id : String = ctx.intent.intent_id in
      Returns-bind IsOf (transition works id queued (contract_of ctx)) _ (λ _.
        Returns-bind IsOf (transition works id dispatched no_contract) _ (λ _.
          Returns-bind IsOf (emit works (Event.execution id ExecutionState.dispatched)) _ (λ _.
            Returns-bind IsOf (transition works id running (contract_of ctx)) _
              (λ _. Returns-pure IsOf ctx e))))

  start-intent : Returns IsOf (start works c sha256 now lease_id i)
  unfolding start record_start
  start-intent = Returns-bind IsOf (acquire works c sha256 now lease_id i (lane_of c i)) _ (λ lid.
      Returns-lift IsOf (expected_digest works c sha256 now lease_id i) _ (λ d e.
        Returns-bind IsOf (new_context i.intent_id) _
          (λ _. journal_start-intent _ (refl, e, refl))))

  after_check-intent :
      (r : Result Fault (Unit {0})) → Returns IsOf (after_check works c sha256 now lease_id i r)
  unfolding after_check
  after_check-intent (ok _) w a h = start-intent w a h
  after_check-intent (err e) w a h =
      Returns-bind IsOf (journal_rejection works i) (λ _. raise e) (λ _ v b g. cc g) w a h

  -- The context that `prepare` returns is that of its intent.
  pub prepare-intent : Returns IsOf (prepare works c sha256 now lease_id i)
  unfolding prepare
  prepare-intent = after_check-intent (check c i)
