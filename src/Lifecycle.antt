-- ===== src/Lifecycle.antt =====
-- core/runtime/lifecycle_authority.py: the runtime's lifecycle. A callback is known by its name;
-- `calls` are the callbacks that were called, in order. What a callback raises is caught and logged;
-- a callback does not call the authority.
pub mod Shutdown
mod Samples
use novamind.Prelude.{
  String, Bool, true, false, ◌||◌, List, [], ◌∷◌, ◌++◌, any, contains, if◌then◌else◌,
}
use novamind.Prelude.Result.{Result, ok, err}

pub data RuntimeLifecycleState : Type 0 where
  initializing reconciling ready degraded halting halted panic : RuntimeLifecycleState

abbrev pub same_state : RuntimeLifecycleState → RuntimeLifecycleState → Bool
same_state initializing initializing = true
same_state reconciling reconciling = true
same_state ready ready = true
same_state degraded degraded = true
same_state halting halting = true
same_state halted halted = true
same_state panic panic = true
same_state _ _ = false

abbrev pub is_in : RuntimeLifecycleState → List RuntimeLifecycleState → Bool
is_in s l = any (λ t. same_state t s) l

pub record LifecycleAuthority : Type 0 where
  pub state : RuntimeLifecycleState
  pub shutdown_callbacks : List String
  pub calls : List String

abbrev pub started : LifecycleAuthority
started = record { state = initializing; shutdown_callbacks = []; calls = [] }

-- The RuntimeError names the state.
abbrev pub Attempt : Type 0
Attempt = Result RuntimeLifecycleState LifecycleAuthority

abbrev pub guarded : Bool → RuntimeLifecycleState → LifecycleAuthority → Attempt
guarded allowed s a = if allowed then ok (record a { state = s }) else err a.state

unfoldable pub transition_to_reconciling : LifecycleAuthority → Attempt
transition_to_reconciling a = guarded (same_state a.state initializing) reconciling a

unfoldable pub transition_to_ready : LifecycleAuthority → Attempt
transition_to_ready a = guarded (is_in a.state (reconciling ∷ initializing ∷ degraded ∷ [])) ready a

unfoldable pub transition_to_degraded : LifecycleAuthority → Attempt
transition_to_degraded a = guarded (is_in a.state (ready ∷ reconciling ∷ [])) degraded a

unfoldable pub register_shutdown_callback : String → LifecycleAuthority → LifecycleAuthority
register_shutdown_callback callback a =
    if contains a.shutdown_callbacks callback
    then a
    else record a { shutdown_callbacks = a.shutdown_callbacks ++ callback ∷ [] }

unfoldable pub trigger_shutdown : LifecycleAuthority → LifecycleAuthority
trigger_shutdown a =
    if is_in a.state (halting ∷ halted ∷ panic ∷ [])
    then a
    else record a { state = halted; calls = a.calls ++ a.shutdown_callbacks }

unfoldable pub trigger_panic : LifecycleAuthority → LifecycleAuthority
trigger_panic a =
    if same_state a.state panic
    then a
    else record a { state = panic; calls = a.calls ++ a.shutdown_callbacks }

pub data Op : Type 0 where
  to_reconciling to_ready to_degraded shutdown panics : Op
  register : String → Op

abbrev pub kept : LifecycleAuthority → Attempt → LifecycleAuthority
kept a (ok b) = b
kept a (err s) = a

unfoldable pub step : Op → LifecycleAuthority → LifecycleAuthority
step to_reconciling a = kept a (transition_to_reconciling a)
step to_ready a = kept a (transition_to_ready a)
step to_degraded a = kept a (transition_to_degraded a)
step (register c) a = register_shutdown_callback c a
step shutdown a = trigger_shutdown a
step panics a = trigger_panic a

unfoldable pub run : List Op → LifecycleAuthority → LifecycleAuthority
run [] a = a
run (x ∷ l) a = run l (step x a)
