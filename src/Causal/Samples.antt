-- ===== src/Causal/Samples.antt =====
-- Tests of `CausalScheduler`, and a run that each theorem about it applies to.
use novamind.Prelude.{
  ℕ, String, ◌≡◌, refl, ◌≤◌, Bool, true, false, not, Option, none, some, List, [], ◌∷◌, ◌++◌, all,
  contains, length, arith,
}
use novamind.Causal.Sort.{IsSorted, clock_sort-IsSorted}
use novamind.Causal.Order.{IsCausal, run_until_empty-IsCausal}
use novamind.Causal.Drain.{run_until_empty-drains}
use novamind.Causal.Dropped.{run_until_empty-fails}
use novamind.Causal.{
  ScheduledEvent, Scheduler, Submission, submit_all, fresh, run_until_empty, get_ready_events,
  clock_sort,
}

abbrev call : String → List String → Submission
call i ps = record { id = i; payload = i; parents = ps; clock = none; epoch = none }

-- The child is submitted first; "d" waits for an event that nobody submits.
abbrev family : List Submission
family = call "c" ("a" ∷ "b" ∷ []) ∷ call "b" ("a" ∷ []) ∷ call "a" [] ∷ call "d" ("x" ∷ []) ∷ []

abbrev at_work : Scheduler
at_work = submit_all family (fresh 7 1)

abbrev never : ScheduledEvent → Option String
never e = none

abbrev always : ScheduledEvent → Option String
always e = some "boom"

abbrev ids : List ScheduledEvent → List String
ids [] = []
ids (e ∷ l) = e.event_id ∷ ids l

order : ids (run_until_empty never 10 at_work).1.calls ≡ "a" ∷ "b" ∷ "c" ∷ []
unfolding run_until_empty submit_all novamind.Causal.cycles novamind.Causal.submit
    novamind.Prelude.Dict.insert novamind.Causal.run_cycle novamind.Causal.dispatch_all
    get_ready_events novamind.Causal.Sort.clock_sort novamind.Causal.dispatch_one
    novamind.Prelude.Dict.remove novamind.Causal.force
order = refl

given_up : ids (run_until_empty always 10 at_work).1.calls ≡ "a" ∷ []
unfolding run_until_empty submit_all novamind.Causal.cycles novamind.Causal.submit
    novamind.Prelude.Dict.insert novamind.Causal.run_cycle novamind.Causal.dispatch_all
    get_ready_events novamind.Causal.Sort.clock_sort novamind.Causal.dispatch_one
    novamind.Prelude.Dict.remove novamind.Causal.force
given_up = refl

run_until_empty-IsCausal_example :
    IsCausal at_work.completed (run_until_empty never 10 at_work).1.calls
unfolding submit_all novamind.Causal.submit
run_until_empty-IsCausal_example = run_until_empty-IsCausal never 10 at_work refl

run_until_empty-drains_example :
    ((run_until_empty always 4 (submit_all family (fresh 7 1))).1.pending ≡ [])
    × (all
          (λ x.
            contains (run_until_empty always 4 (submit_all family (fresh 7 1))).1.completed x.id)
          family
        ≡ true)
run_until_empty-drains_example = run_until_empty-drains always family 7 1 4 (omega arith)

run_until_empty-fails_example :
    (run_until_empty always 10 at_work).1.calls ≡ at_work.calls ++ (get_ready_events at_work).0
run_until_empty-fails_example = run_until_empty-fails always (λ e. ("boom", refl)) 9 at_work

abbrev ev : String → ℕ → ScheduledEvent
ev i c = record { event_id = i; payload = ""; causal_parents = []; logical_clock = c; epoch_id = 0 }
