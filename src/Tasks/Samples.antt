-- ===== src/Tasks/Samples.antt =====
-- A task that recurs twice, and one that waits.
use novamind.Prelude.{ℕ, ◌≡◌, refl, ◌↔◌, true, false, none, some, List, [], ◌∷◌}
use novamind.Prelude.Dict
use novamind.Tasks.{
  Priority, Submission, Call, submits, ticks, runs, empty, run, step, submit, task_of, heappush,
  tick, pop_due, run_task, run_found, settle, again, push_again, cancel,
}
use novamind.Tasks.Held.{occurrences}
use novamind.Tasks.Runs.{HasFreshIds, IsSound, run-IsSound, cancel_iff}

abbrev hourly : Submission
hourly = record {
  id = "h";
  priority = Priority.normal;
  run_at = none;
  delay_secs = 0;
  recur_every = some 60;
  max_runs = 2;
}

abbrev later : Submission
later = record hourly { id = "l"; run_at = some 500; recur_every = none; max_runs = 1 }

abbrev calls : List (ℕ × Call)
calls =
    (10, submits hourly)
    ∷ (11, submits later)
    ∷ (12, ticks)
    ∷ (20, runs "h" true)
    ∷ (80, ticks)
    ∷ (90, runs "h" true)
    ∷ []

calls-HasFreshIds : HasFreshIds calls empty
unfolding step submit Dict.lookup Dict.insert
calls-HasFreshIds = (refl, (refl, tt))

run-IsSound_example : IsSound (run calls empty)
run-IsSound_example = run-IsSound calls calls-HasFreshIds

cancel_iff_example :
    (cancel "l" (run calls empty) ≡ none) ↔ (occurrences "l" (run calls empty).heap ≡ 1)
cancel_iff_example = cancel_iff "l" calls calls-HasFreshIds

-- "l" is waiting: its cancellation never returns. "h" is done.
cancel-run : cancel "l" (run calls empty) ≡ none
unfolding cancel run step submit task_of heappush tick pop_due run_task run_found settle again
    push_again Dict.lookup Dict.insert Dict.modify
cancel-run = refl

cancel_done : cancel "h" (run calls empty) ≡ some false
unfolding cancel run step submit task_of heappush tick pop_due run_task run_found settle again
    push_again Dict.lookup Dict.insert Dict.modify
cancel_done = refl
