-- ===== src/Tasks/Held.antt =====
-- Which tasks are in the heap, and how often a task runs.
use novamind.Prelude.{
  ℕ, suc, ◌+◌, ◌≤◌, String, ◌≡◌, refl, ap, ◌∙◌, Bool, true, false, Option, none, some, List, [],
  ◌∷◌, ◌==◌, eq_iff, eq_refl, leb, if◌then◌else◌, arith, Bool-cases, Option-cases, inl, inr,
}
use mathlib.Core.Path.{subst}
use novamind.Prelude.Dict
use novamind.Prelude.Dict.{Dict, lookup-insert, lookup-modify, map_some}
use novamind.Tasks.{
  ScheduledTask, HeapEntry, heappush, TaskScheduler, Submission, task_of, entry_of, submit, start,
  pop_due, again, settle, is_running, push_again, run_found, run_task, is_cancellable,
}
use novamind.Tasks.Status.{done, failed}

-- How often a task is in the heap.
unfoldable pub occurrences : String → List HeapEntry → ℕ
occurrences id [] = 0
occurrences id (e ∷ h) = if e.task_id == id then suc (occurrences id h) else occurrences id h

-- A task that waits to run is to be in the heap once, any other not at all.
abbrev pub expected : Option ScheduledTask → ℕ
expected none = 0
expected (some t) = if is_cancellable t.status then 1 else 0

occurrences-heappush :
    (id : String) (e : HeapEntry) (h : List HeapEntry)
    → occurrences id (heappush e h)
      ≡ (if e.task_id == id then suc (occurrences id h) else occurrences id h)
unfolding occurrences heappush
occurrences-heappush id e [] = refl
occurrences-heappush id e (f ∷ h) = ground (arith, occurrences-heappush id e h)

abbrev pub Held : List HeapEntry → Dict ScheduledTask → Type 0
Held h d = (id : String) → occurrences id h ≡ expected (Dict.lookup id d)

expected-start : (o : Option ScheduledTask) → expected (map_some start o) ≡ 0
expected-start none = refl
expected-start (some t) = ground arith

expected_le : (o : Option ScheduledTask) → expected o ≤ 1
expected_le none = omega arith
expected_le (some t) = ground arith

task_of-waits : (now : ℕ) (x : Submission) → expected (some (task_of now x)) ≡ 1
unfolding task_of
task_of-waits now x = ground arith

-- The first task of the heap is started.
pub modify-Held :
    (e : HeapEntry) (h : List HeapEntry) (d : Dict ScheduledTask)
    → Held (e ∷ h) d
    → Held h (Dict.modify e.task_id start d)
unfolding occurrences
modify-Held e h d held j = elim (Bool-cases (e.task_id == j)) [
  | inl f ↦
      rw (lookup-modify e.task_id j start d, f, expected-start (Dict.lookup j d))
        (omega (arith, rw f at (held j), expected_le (Dict.lookup j d)))
  | inr f ↦ rw (lookup-modify e.task_id j start d, f) (rw f at (held j))
]

-- The first task of the heap waits.
pub first_waits :
    (e : HeapEntry) (h : List HeapEntry) (d : Dict ScheduledTask)
    → Held (e ∷ h) d
    → 1 ≤ expected (Dict.lookup e.task_id d)
unfolding occurrences
first_waits e h d held = omega (arith, rw (eq_refl e.task_id) at (held e.task_id))

module _ (now : ℕ) where
  pub pop_due-Held :
      (h : List HeapEntry) (d : Dict ScheduledTask)
      → Held h d
      → Held (pop_due now h d).heap (pop_due now h d).tasks
  unfolding pop_due occurrences
  pop_due-Held [] d held id = held id
  pop_due-Held (e ∷ h) d held id = elim (Bool-cases (leb e.run_at now)) [
    | inr f ↦ rw f (held id)
    | inl f ↦ rw f (pop_due-Held h (Dict.modify e.task_id start d) (modify-Held e h d held) id)
  ]

  pub submit-Held :
      (x : Submission) (s : TaskScheduler)
      → Dict.lookup x.id s.tasks ≡ none
      → Held s.heap s.tasks
      → Held (submit now x s).heap (submit now x s).tasks
  unfolding submit
  submit-Held x s fresh held j = elim (Bool-cases (x.id == j)) [
    | inl f ↦
        let none_there : Dict.lookup j s.tasks ≡ none =
          subst (λ k. Dict.lookup k s.tasks ≡ none) ((eq_iff x.id j).0 f) fresh in
        let count : occurrences j s.heap ≡ 0 = held j ∙ ap expected none_there in
        rw
          (
            occurrences-heappush j (entry_of x.id (task_of now x)) s.heap,
            lookup-insert x.id j (task_of now x) s.tasks,
            f,
            task_of-waits now x,
          )
          (ap (λ n. suc n) count)
    | inr f ↦
        rw
          (
            occurrences-heappush j (entry_of x.id (task_of now x)) s.heap,
            lookup-insert x.id j (task_of now x) s.tasks,
            f,
          )
          (held j)
  ]

  expected_over :
      (success : Bool) (t : ScheduledTask)
      → expected (some (record t { status = if success then done else failed })) ≡ 0
  expected_over true t = refl
  expected_over false t = refl

  again-expected :
      (success : Bool) (o : Option ℕ) (t : ScheduledTask)
      → expected (some (again now success o t).0) ≡ (if (again now success o t).1 then 1 else 0)
  unfolding again
  again-expected success none t = expected_over success t
  again-expected success (some k) t = refl

  settle-expected :
      (success : Bool) (t : ScheduledTask)
      → expected (some (settle now success t).0) ≡ (if (settle now success t).1 then 1 else 0)
  unfolding settle
  settle-expected success t = elim (Bool-cases (leb t.max_runs t.runs_done)) [
    | inl f ↦ rw f (expected_over success t)
    | inr f ↦ rw f (again-expected success t.recur_every t)
  ]

  push_again-Held :
      (id : String) (r : ScheduledTask × Bool) (s : TaskScheduler)
      → expected (some r.0) ≡ (if r.1 then 1 else 0)
      → expected (Dict.lookup id s.tasks) ≡ 0
      → Held s.heap s.tasks
      → Held (push_again id r s).heap (push_again id r s).tasks
  unfolding push_again
  push_again-Held id (t, true) s e idle held j = elim (Bool-cases (id == j)) [
    | inl f ↦
        let count : occurrences j s.heap ≡ 0 =
          held j ∙ subst (λ k. expected (Dict.lookup k s.tasks) ≡ 0) ((eq_iff id j).0 f) idle in
        rw (occurrences-heappush j (entry_of id t) s.heap, lookup-insert id j t s.tasks, f, e)
          (ap (λ n. suc n) count)
    | inr f ↦
        rw (occurrences-heappush j (entry_of id t) s.heap, lookup-insert id j t s.tasks, f) (held j)
  ]
  push_again-Held id (t, false) s e idle held j = elim (Bool-cases (id == j)) [
    | inl f ↦
        let count : occurrences j s.heap ≡ 0 =
          held j ∙ subst (λ k. expected (Dict.lookup k s.tasks) ≡ 0) ((eq_iff id j).0 f) idle in
        rw (lookup-insert id j t s.tasks, f, e) count
    | inr f ↦ rw (lookup-insert id j t s.tasks, f) (held j)
  ]

  expected_running : (t : ScheduledTask) → is_running t.status ≡ true → expected (some t) ≡ 0
  expected_running t h = ground arith

  pub run_task-Held :
      (id : String) (success : Bool) (s : TaskScheduler)
      → Held s.heap s.tasks
      → Held (run_task now id success s).heap (run_task now id success s).tasks
  unfolding run_task run_found
  run_task-Held id success s held = elim (Option-cases (Dict.lookup id s.tasks)) [
    | inl e ↦ rw e held
    | inr (t, e) ↦ elim (Bool-cases (is_running t.status)) [
      | inr f ↦ rw e (rw f held)
      | inl f ↦ rw e (
          rw f (
            push_again-Held id (settle now success (record t { runs_done = t.runs_done + 1 })) s
              (settle-expected success (record t { runs_done = t.runs_done + 1 }))
              (ap expected e ∙ expected_running t f) held))
    ]
  ]
