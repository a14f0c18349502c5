-- ===== src/Lifecycle/Samples.antt =====
-- Runs of the lifecycle.
use novamind.Prelude.{◌≡◌, refl, true, List, [], ◌∷◌}
use novamind.Lifecycle.{LifecycleAuthority, started, Op, run, RuntimeLifecycleState}
use novamind.Lifecycle.RuntimeLifecycleState.{halted}
use novamind.Lifecycle.Op.{to_ready, register, shutdown, panics, to_degraded}
use novamind.Lifecycle.Shutdown.{callbacks_ok, run-callbacks, count}

abbrev day : List Op
day = register "save" ∷ to_ready ∷ register "save" ∷ shutdown ∷ panics ∷ []

-- A panic after a shutdown calls the callbacks again.
called_twice : count "save" (run day started).calls ≡ 2
unfolding run novamind.Lifecycle.step novamind.Lifecycle.trigger_panic
    novamind.Lifecycle.trigger_shutdown novamind.Lifecycle.register_shutdown_callback
    novamind.Lifecycle.transition_to_ready
called_twice = refl

run-callbacks_example : callbacks_ok "save" (run day started) ≡ true
run-callbacks_example = run-callbacks "save" day

abbrev stopped : LifecycleAuthority
stopped = record started { state = halted }
