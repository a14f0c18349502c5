-- ===== src/Windows/Samples.antt =====
-- Two windows, of which one dies, and an intent without a window.
use novamind.Prelude.{
  ℕ, String, ◌≡◌, refl, Bool, true, false, Option, none, some, List, [], ◌∷◌, ◌==◌,
}
use novamind.Prelude.Dict
use novamind.Windows.{
  ScheduledIntent, Call, submits, turns, empty, run, submit_intent, put, scan, refill,
  apply_queue_aging, choose, take_generic, select_next_intent, execute, turn,
}
use novamind.Windows.Lanes.{turn-starves}
use novamind.Windows.Delivered.{present, submitted, run-present}

abbrev item : String → ℕ → ℕ → ScheduledIntent
item id priority now = record { priority = priority; timestamp = now; intent_id = id }

abbrev answers : ScheduledIntent → Option Bool
answers x = some true

abbrev calls_before : List Call
calls_before = submits none (item "d" 10 1) ∷ submits (some "w2") (item "b" 10 0) ∷ []

abbrev calls : List Call
calls =
    submits (some "w1") (item "a" 10 0)
    ∷ submits (some "w2") (item "b" 10 0)
    ∷ submits (some "w2") (item "c" 5 1)
    ∷ submits none (item "d" 10 1)
    ∷ turns (λ h. h == "w2") answers 2
    ∷ turns (λ h. h == "w2") answers 3
    ∷ turns (λ h. h == "w2") (λ x. none) 4
    ∷ []

run-present_example : present "a" (run calls empty) ≡ submitted "a" calls
run-present_example = run-present "a" calls

-- The first turn purges "a" and takes "c" before "b"; the last one raises.
delivered :
    (run calls empty).handed
    ≡ record { intent_id = "a"; dispatch_success = false }
      ∷ record { intent_id = "c"; dispatch_success = true }
      ∷ record { intent_id = "b"; dispatch_success = true }
      ∷ record { intent_id = "d"; dispatch_success = false }
      ∷ []
unfolding run submit_intent put scan refill apply_queue_aging choose take_generic select_next_intent
    execute turn Dict.lookup Dict.insert
delivered = refl

-- An item that has waited for more than five seconds.
waited :
    apply_queue_aging 6000 (item "a" 5 900 ∷ item "b" 6 999 ∷ item "c" 6 1000 ∷ [])
    ≡ item "a" 4 900 ∷ item "b" 5 999 ∷ item "c" 6 1000 ∷ []
unfolding apply_queue_aging refill put
waited = refl

-- "w2" is alive, and "b" waits for it.
turn-starves_example :
    (turn (λ h. h == "w2") answers 7000 (run calls_before empty)).intent_queue
    ≡ (run calls_before empty).intent_queue
unfolding run submit_intent put Dict.lookup Dict.insert
turn-starves_example =
    turn-starves (λ h. h == "w2") answers 7000 "w2" (item "b" 10 0) [] (run calls_before empty) refl
      refl
