-- ===== src/Dispatch/Lanes.antt =====
-- The lanes write nothing in the journal and change no machine.
use novamind.Prelude.{
  String, ◌≡◌, refl, ◌∙◌, Bool, true, false, Option, none, some, contains, if◌then◌else◌,
}
use novamind.Prelude.Result.{Result, ok, err}
use novamind.Journal.{Kernel}
use novamind.Dispatch.Context.{Supervisor, WorkerFrame, Fault, Store, Config, M, bind_result}
use novamind.Dispatch.Execute.{
  AdapterResult, Answers, execute_in_worker, execute_in_process, ensure_worker, ready_worker, reuse,
  launch, set_supervisor, outcome_of_frame, call_adapter, outcome_of_adapter, supervisor_alive,
  await_ready, await_result, adapter_result_ok,
}

abbrev pub Quiet : {A : Type 0} → M A → Type 0
Quiet m = (w : Store) → (m w).1.kernel ≡ w.kernel

bind-Quiet :
    {A B : Type 0} (k : Kernel) (r : Result Fault A × Store) (f : A → M B)
    → r.1.kernel ≡ k
    → ((a : A) → Quiet (f a))
    → (bind_result r f).1.kernel ≡ k
bind-Quiet k (ok a, w) f e h = h a w ∙ e
bind-Quiet k (err x, w) f e h = e

lift-Quiet :
    {A B : Type 0} (r : Result Fault A) (f : A → M B) (w : Store)
    → ((a : A) → Quiet (f a))
    → (bind_result (r, w) f).1.kernel ≡ w.kernel
lift-Quiet (ok a) f w h = h a w
lift-Quiet (err x) f w h = refl

if-Quiet : {A : Type 0} (b : Bool) (m n : M A) → Quiet m → Quiet n → Quiet (if b then m else n)
if-Quiet true m n g h = g
if-Quiet false m n g h = h

module _ (c : Config) (a : Answers) where
  launch-Quiet : Quiet (launch c a)
  unfolding launch set_supervisor
  launch-Quiet =
      if-Quiet (contains c.worker_lane_scripts "filesystem.write") _ _
        (λ w. lift-Quiet a.launched _ w (λ _ v. refl)) (λ w. refl)

  reuse-Quiet : (s : Option Supervisor) → Quiet (reuse c a s)
  unfolding reuse
  reuse-Quiet none = launch-Quiet
  reuse-Quiet (some s) = if-Quiet (supervisor_alive (some s)) _ _ (λ w. refl) launch-Quiet

  ready_worker-Quiet : Quiet (ready_worker c a)
  unfolding ready_worker
  ready_worker-Quiet w =
      bind-Quiet w.kernel (reuse c a w.supervisor w) _ (reuse-Quiet w.supervisor w)
        (λ s v. lift-Quiet (await_ready a.boots) _ v (λ _ u. refl))

  ensure_worker-Quiet : Quiet (ensure_worker c a)
  unfolding ensure_worker
  ensure_worker-Quiet = if-Quiet c.kernel_supervisor _ _ ready_worker-Quiet (λ w. refl)

  outcome_of_frame-Quiet : (s : Supervisor) (f : WorkerFrame) → Quiet (outcome_of_frame s f)
  unfolding outcome_of_frame
  outcome_of_frame-Quiet s f = if-Quiet f.success _ _ (λ w. refl) (λ w. refl)

  pub execute_in_worker-Quiet : (i : String) → Quiet (execute_in_worker c a i)
  unfolding execute_in_worker
  execute_in_worker-Quiet i w =
      bind-Quiet w.kernel (ensure_worker c a w) _ (ensure_worker-Quiet w) (λ s v.
        lift-Quiet a.sent _ v
          (λ _ u. lift-Quiet (await_result i a.waits) _ u (outcome_of_frame-Quiet s)))

  outcome_of_adapter-Quiet : (r : AdapterResult) → Quiet (outcome_of_adapter r)
  unfolding outcome_of_adapter
  outcome_of_adapter-Quiet r = if-Quiet (adapter_result_ok r) _ _ (λ w. refl) (λ w. refl)

  call_adapter-Quiet : Quiet (call_adapter a)
  unfolding call_adapter
  call_adapter-Quiet w = lift-Quiet a.adapter _ w outcome_of_adapter-Quiet

  pub execute_in_process-Quiet : Quiet (execute_in_process c a)
  unfolding execute_in_process
  execute_in_process-Quiet = if-Quiet c.adapter_supervisor _ _ call_adapter-Quiet (λ w. refl)
