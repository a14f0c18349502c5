-- ===== src/Lifecycle/Shutdown.antt =====
-- How often the callbacks run, and what an ended runtime can still do.
use novamind.Prelude.{
  ℕ, suc, ◌+◌, String, ◌≡◌, refl, Bool, true, false, not, ◌&&◌, ◌==◌, eq_iff, List, [], ◌∷◌, ◌++◌,
  arith, if◌then◌else◌, contains, leb, eqb,
}
use novamind.Lifecycle.{
  LifecycleAuthority, started, Op, step, run, same_state, is_in, transition_to_reconciling,
  transition_to_ready, transition_to_degraded, register_shutdown_callback, trigger_shutdown,
  trigger_panic,
}
use novamind.Lifecycle.RuntimeLifecycleState.{halted, halting, panic}

-- How often a text stands in a list.
abbrev pub count : String → List String → ℕ
count x [] = 0
count x (y ∷ l) = if y == x then suc (count x l) else count x l

count-append : (x : String) (l m : List String) → count x (l ++ m) ≡ count x l + count x m
count-append x [] m = omega arith
count-append x (y ∷ l) m = ground (arith, count-append x l m)

count-absent : (x : String) (l : List String) → contains l x ≡ false → count x l ≡ 0
count-absent x [] h = refl
count-absent x (y ∷ l) h = ground (arith, count-absent x l)

abbrev pub callbacks_ok : String → LifecycleAuthority → Bool
callbacks_ok c a =
    leb (count c a.shutdown_callbacks) 1
    && not (same_state a.state halting)
    && (if same_state a.state panic
        then leb (count c a.calls) 2
        else if same_state a.state halted
        then leb (count c a.calls) 1
        else eqb (count c a.calls) 0)

step-callbacks_ok :
    (c : String) (x : Op) (a : LifecycleAuthority)
    → callbacks_ok c a ≡ true
    → callbacks_ok c (step x a) ≡ true
unfolding step transition_to_reconciling transition_to_ready transition_to_degraded
    register_shutdown_callback trigger_shutdown trigger_panic
step-callbacks_ok c Op.to_reconciling a h = ground arith
step-callbacks_ok c Op.to_ready a h = ground arith
step-callbacks_ok c Op.to_degraded a h = ground arith
step-callbacks_ok c (Op.register d) a h = ground (
  arith,
  count-append c a.shutdown_callbacks (d ∷ []),
  count-absent d a.shutdown_callbacks,
  eq_iff d c,
)
step-callbacks_ok c Op.shutdown a h = ground (arith, count-append c a.calls a.shutdown_callbacks)
step-callbacks_ok c Op.panics a h = ground (arith, count-append c a.calls a.shutdown_callbacks)

run-callbacks_ok :
    (c : String) (l : List Op) (a : LifecycleAuthority)
    → callbacks_ok c a ≡ true
    → callbacks_ok c (run l a) ≡ true
unfolding run
run-callbacks_ok c [] a h = h
run-callbacks_ok c (x ∷ l) a h = run-callbacks_ok c l (step x a) (step-callbacks_ok c x a h)

-- After any operations from the start, a callback was called at most once if the runtime is HALTED, at
-- most twice if it is in PANIC (by a shutdown and then a panic), and not at all in any other state; it
-- is registered at most once, and no operation ends in HALTING.
pub run-callbacks : (c : String) (l : List Op) → callbacks_ok c (run l started) ≡ true
run-callbacks c l = run-callbacks_ok c l started refl

abbrev pub is_over : LifecycleAuthority → Bool
is_over a = is_in a.state (halted ∷ panic ∷ [])

step-is_over : (x : Op) (a : LifecycleAuthority) → is_over a ≡ true → is_over (step x a) ≡ true
unfolding step transition_to_reconciling transition_to_ready transition_to_degraded
    register_shutdown_callback trigger_shutdown trigger_panic
step-is_over Op.to_reconciling a h = ground arith
step-is_over Op.to_ready a h = ground arith
step-is_over Op.to_degraded a h = ground arith
step-is_over (Op.register d) a h = ground arith
step-is_over Op.shutdown a h = ground arith
step-is_over Op.panics a h = ground arith

-- From HALTED or PANIC, no operations lead to another state than these two.
run-is_over : (l : List Op) (a : LifecycleAuthority) → is_over a ≡ true → is_over (run l a) ≡ true
unfolding run
run-is_over [] a h = h
run-is_over (x ∷ l) a h = run-is_over l (step x a) (step-is_over x a h)
