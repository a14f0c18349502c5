-- ===== src/Tasks/Runs.antt =====
-- How often a task runs, and that none is lost.
use novamind.Prelude.{
  ℕ, ◌+◌, ◌≤◌, ◌<◌, String, ◌≡◌, refl, sym, ap, ◌∙◌, Bool, true, false, not, ◌&&◌, ◌||◌, Option,
  none, some, List, [], ◌∷◌, ◌==◌, eq_iff, leb, ltb, if◌then◌else◌, arith, Bool-cases, Option-cases,
  inl, inr, ◌↔◌,
}
use mathlib.Core.Path.{subst}
use mathlib.Core.Option.{some-injective}
use novamind.Prelude.Dict
use novamind.Prelude.Dict.{Dict, lookup-insert, lookup-modify, map_some}
use novamind.Tasks.{
  ScheduledTask, HeapEntry, TaskScheduler, empty, Submission, task_of, submit, start, pop_due, tick,
  again, settle, is_running, push_again, run_found, run_task, is_cancellable, cancel, Call, submits,
  ticks, runs, step, run,
}
use novamind.Tasks.Status.{done, failed}
use novamind.Tasks.Held.{
  occurrences, expected, Held, submit-Held, run_task-Held, pop_due-Held, modify-Held, first_waits,
}

-- A task has run at most as often as it may, and less often if it waits or runs.
abbrev pub within : ScheduledTask → Bool
within t =
    leb t.runs_done t.max_runs
    && (not (is_cancellable t.status || is_running t.status) || ltb t.runs_done t.max_runs)

abbrev pub Within : Dict ScheduledTask → Type 0
Within d = (id : String) (t : ScheduledTask) → Dict.lookup id d ≡ some t → within t ≡ true

within-start :
    (t : ScheduledTask) → is_cancellable t.status ≡ true → within t ≡ true → within (start t) ≡ true
within-start t h w = ground (arith, h, w)

within-task_of : (now : ℕ) (x : Submission) → within (task_of now x) ≡ true
unfolding task_of
within-task_of now x = ground arith

within_over :
    (success : Bool) (t : ScheduledTask)
    → t.runs_done ≤ t.max_runs
    → within (record t { status = if success then done else failed }) ≡ true
within_over true t h = ground (arith, h)
within_over false t h = ground (arith, h)

within-again :
    (now : ℕ) (success : Bool) (o : Option ℕ) (t : ScheduledTask)
    → t.runs_done < t.max_runs
    → within (again now success o t).0 ≡ true
unfolding again
within-again now success none t h = within_over success t (omega (arith, h))
within-again now success (some k) t h = ground (arith, h)

within-settle :
    (now : ℕ) (success : Bool) (t : ScheduledTask)
    → t.runs_done ≤ t.max_runs
    → within (settle now success t).0 ≡ true
unfolding settle
within-settle now success t h = elim (Bool-cases (leb t.max_runs t.runs_done)) [
  | inl f ↦ rw f (within_over success t h)
  | inr f ↦ rw f (within-again now success t.recur_every t (ground (arith, f)))
]

-- Overwriting a task by one within its runs.
insert-Within :
    (id : String) (t : ScheduledTask) (d : Dict ScheduledTask)
    → within t ≡ true
    → Within d
    → Within (Dict.insert id t d)
insert-Within id t d w h j v e = elim (Bool-cases (id == j)) [
  | inl f ↦
      subst (λ x. within x ≡ true) (some-injective _ _ (rw f at (sym (lookup-insert id j t d) ∙ e)))
        w
  | inr f ↦ h j v (rw f at (sym (lookup-insert id j t d) ∙ e))
]

module _ (now : ℕ) where
  start-Within :
      (id : String) (d : Dict ScheduledTask)
      → 1 ≤ expected (Dict.lookup id d)
      → Within d
      → Within (Dict.modify id start d)
  start-Within id d there h j v e = elim (Bool-cases (id == j)) [
    | inr f ↦ h j v (rw f at (sym (lookup-modify id j start d) ∙ e))
    | inl f ↦ elim (Option-cases (Dict.lookup j d)) [
      | inl g ↦ cc (rw g at (rw f at (sym (lookup-modify id j start d) ∙ e)))
      | inr (t, g) ↦
          let same : start t ≡ v =
            some-injective _ _ (rw g at (rw f at (sym (lookup-modify id j start d) ∙ e))) in
          let waits : 1 ≤ expected (some t) =
            subst (λ o. 1 ≤ expected o) (ap (λ k. Dict.lookup k d) ((eq_iff id j).0 f) ∙ g) there in
          subst (λ x. within x ≡ true) same (within-start t (ground (arith, waits)) (h j t g))
    ]
  ]

  pop_due-Within :
      (h : List HeapEntry) (d : Dict ScheduledTask)
      → Held h d
      → Within d
      → Within (pop_due now h d).tasks
  unfolding pop_due occurrences
  pop_due-Within [] d held w = w
  pop_due-Within (e ∷ h) d held w = elim (Bool-cases (leb e.run_at now)) [
    | inr f ↦ rw f w
    | inl f ↦ rw f (
        pop_due-Within h (Dict.modify e.task_id start d) (modify-Held e h d held)
          (start-Within e.task_id d (first_waits e h d held) w))
  ]

  run_task-Within :
      (id : String) (success : Bool) (s : TaskScheduler)
      → Within s.tasks
      → Within (run_task now id success s).tasks
  unfolding run_task run_found push_again
  run_task-Within id success s w = elim (Option-cases (Dict.lookup id s.tasks)) [
    | inl e ↦ rw e w
    | inr (t, e) ↦ elim (Bool-cases (is_running t.status)) [
      | inr f ↦ rw e (rw f w)
      | inl f ↦ rw e (
          rw f (
            pushed id (settle now success (record t { runs_done = t.runs_done + 1 })) s
              (within-settle now success (record t { runs_done = t.runs_done + 1 })
                (ground (arith, f, w id t e)))
              w))
    ]
  ]
    where
      pushed :
          (id : String) (r : ScheduledTask × Bool) (s : TaskScheduler)
          → within r.0 ≡ true
          → Within s.tasks
          → Within (push_again id r s).tasks
      pushed id (t, true) s h w = insert-Within id t s.tasks h w
      pushed id (t, false) s h w = insert-Within id t s.tasks h w

submit-Within :
    (now : ℕ) (x : Submission) (s : TaskScheduler) → Within s.tasks → Within (submit now x s).tasks
unfolding submit
submit-Within now x s w = insert-Within x.id (task_of now x) s.tasks (within-task_of now x) w

-- The ids of the submissions have not been given out before.
abbrev pub HasFreshIds : List (ℕ × Call) → TaskScheduler → Type 0
HasFreshIds [] s = Unit
HasFreshIds ((now, submits x) ∷ cs) s =
    (Dict.lookup x.id s.tasks ≡ none) × HasFreshIds cs (step now (submits x) s)
HasFreshIds ((now, c) ∷ cs) s = HasFreshIds cs (step now c s)

-- Each task that waits to run is in the heap once and no other task is there, and no task runs more
-- often than it may.
pub record IsSound (s : TaskScheduler) : Type 0 where
  pub held : Held s.heap s.tasks
  pub runs : Within s.tasks

run-IsSound_lem :
    (cs : List (ℕ × Call)) (s : TaskScheduler) → HasFreshIds cs s → IsSound s → IsSound (run cs s)
unfolding run step tick
run-IsSound_lem [] s fresh v = v
run-IsSound_lem ((now, submits x) ∷ cs) s (new, fresh) v =
    run-IsSound_lem cs (submit now x s) fresh
      (record { held = submit-Held now x s new v.held; runs = submit-Within now x s v.runs })
run-IsSound_lem ((now, ticks) ∷ cs) s fresh v = run-IsSound_lem cs (tick now s) fresh (record {
  held = pop_due-Held now s.heap s.tasks v.held;
  runs = pop_due-Within now s.heap s.tasks v.held v.runs;
})
run-IsSound_lem ((now, runs id success) ∷ cs) s fresh v =
    run-IsSound_lem cs (run_task now id success s) fresh (record {
      held = run_task-Held now id success s v.held;
      runs = run_task-Within now id success s v.runs;
    })

-- After any calls of submit, any turns of the dispatch loop and any runs of started tasks, at whatever
-- times and with whatever results, where no id is given out twice: the tasks that are QUEUED, WAITING
-- or RECURRING are in the heap, each once, and no other task is; and no task has run more often than
-- its `max_runs`, and less often if it waits or runs.
pub run-IsSound : (cs : List (ℕ × Call)) → HasFreshIds cs empty → IsSound (run cs empty)
unfolding occurrences Dict.lookup
run-IsSound cs fresh =
    run-IsSound_lem cs empty fresh
      (record { held = λ id. refl; runs = λ id t e. absurd (none_some e) })
  where
    none_some : {t : ScheduledTask} → none ≡ some t → ⊥
    none_some e = cc

-- In such a scheduler, the calls of `cancel` that never return are just those for the tasks that are
-- in the heap, which are the tasks that can be cancelled.
pub cancel_iff :
    (id : String) (cs : List (ℕ × Call))
    → HasFreshIds cs empty
    → (cancel id (run cs empty) ≡ none) ↔ (occurrences id (run cs empty).heap ≡ 1)
unfolding cancel
cancel_iff id cs fresh =
    let s : TaskScheduler = run cs empty in
    let held : occurrences id s.heap ≡ expected (Dict.lookup id s.tasks) =
      (run-IsSound cs fresh).held id in
    elim (Option-cases (Dict.lookup id s.tasks)) [
      | inl e ↦
          let zero_times : occurrences id s.heap ≡ 0 = held ∙ ap expected e in
          rw e ((λ x. cc x), λ x. absurd (omega (arith, x, zero_times)))
      | inr (t, e) ↦ elim (Bool-cases (is_cancellable t.status)) [
        | inl f ↦
            let once : occurrences id s.heap ≡ 1 =
              held ∙ ap expected e ∙ ap (λ b. if b then 1 else 0) f in
            rw e (rw f ((λ x. once), λ x. refl))
        | inr f ↦
            let zero_times : occurrences id s.heap ≡ 0 =
              held ∙ ap expected e ∙ ap (λ b. if b then 1 else 0) f in
            rw e (rw f ((λ x. cc x), λ x. absurd (omega (arith, x, zero_times))))
      ]
    ]
