-- ===== src/Dag/Runs.antt =====
-- What a call of `execute_dag` returns, and that it returns.
use novamind.Prelude.{
  List-cases, ℕ, zero, suc, ◌+◌, ◌≤◌, String, ◌≡◌, refl, sym, ap, ◌∙◌, true, false, Option, none,
  some, List, [], ◌∷◌, ◌++◌, all, contains, length, eq_iff, arith, Bool-cases, Option-cases, inl,
  inr, ◌==◌,
}
use mathlib.Core.Path.{subst}
use mathlib.Core.Option.{some-injective}
use novamind.Prelude.Dict
use novamind.Prelude.Dict.{
  Dict, Entries, lookup-Entries, lookup-insert, contains-keys, lookup_of_has, nil_of_has,
}
use novamind.Prelude.Distinct.{AreDistinct}
use novamind.Dag.{
  pending, TaskNode, Row, Engine, session_ended, Wait, loop, begin, end, execute_dag, save_rows,
  row_of, is_open, start_ready, finish_all,
}
use novamind.Dag.Step.{is_completed, Local, rebuild, quiet, starts, IsConsistent, Shows, SameTask}
use novamind.Dag.Kept.{IsKept, left, left_of, sum_of, one_done, one_lost}
use novamind.Dag.Rounds.{Keeps, start_ready-Keeps, finish_all-Keeps}
use novamind.Dag.Ends.{Waits, AllSettled, loop-Ends}

-- A task as the planner hands it in.
abbrev pub IsFresh : TaskNode → Type 0
IsFresh n = (n.status ≡ pending) × (n.retry_count ≡ 0)

abbrev pub AreFresh : Dict TaskNode → Type 0
AreFresh d = Entries (λ k n. IsFresh n) d

save_rows_other :
    (k : String) (d : Dict TaskNode) (rows : Dict Row)
    → contains (Dict.keys d) k ≡ false
    → Dict.lookup k (save_rows d rows) ≡ Dict.lookup k rows
unfolding save_rows Dict.keys
save_rows_other k [] rows h = refl
save_rows_other k ((j, n) ∷ d) rows h =
    save_rows_other k d (Dict.insert j (row_of n) rows) (ground (arith, h))
    ∙ ground (arith, lookup-insert j k (row_of n) rows, h)

lookup-save_rows :
    (k : String) (n : TaskNode) (d : Dict TaskNode) (rows : Dict Row)
    → AreDistinct (Dict.keys d)
    → Dict.lookup k d ≡ some n
    → Dict.lookup k (save_rows d rows) ≡ some (row_of n)
unfolding save_rows Dict.keys Dict.lookup
lookup-save_rows k n [] rows u e = cc e
lookup-save_rows k n ((j, m) ∷ d) rows (new, u) e = elim (Bool-cases (j == k)) [
  | inr f ↦ lookup-save_rows k n d (Dict.insert j (row_of m) rows) u (rw f at e)
  | inl f ↦
      let same : m ≡ n = some-injective _ _ (rw f at e) in
      let key : j ≡ k = (eq_iff j k).0 f in
      save_rows_other k d (Dict.insert j (row_of m) rows)
        (subst (λ i. contains (Dict.keys d) i ≡ false) key new)
      ∙ rw f at (lookup-insert j k (row_of m) rows)
      ∙ ap (λ x. some (row_of x)) same
]

sum_of_zero : (f : TaskNode → ℕ) (d : Dict TaskNode) → Entries (λ k n. f n ≡ 0) d → sum_of f d ≡ 0
unfolding sum_of
sum_of_zero f [] h = refl
sum_of_zero f ((k, n) ∷ d) (z, h) = omega (arith, sum_of_zero f d h, z)

none_counted : (d : Dict TaskNode) → AreFresh d → (sum_of one_done d ≡ 0) × (sum_of one_lost d ≡ 0)
unfolding sum_of
none_counted [] h = (refl, refl)
none_counted ((k, n) ∷ d) ((p, c), h) = let (x, y) = none_counted d h in ground (arith, p, x, y)

module _ (d : Dict TaskNode) (distinct : AreDistinct (Dict.keys d)) where
  begin-IsConsistent : (rows : Dict Row) → AreFresh d → IsConsistent d (begin d rows)
  unfolding begin starts
  begin-IsConsistent rows fresh k = elim (Option-cases (Dict.lookup k d)) [
    | inl e ↦ rw e (refl, refl, refl)
    | inr (n, e) ↦
        let (p, c) = lookup-Entries (λ j x. IsFresh x) k d fresh e in
        rebuild d (begin d rows) k (some n) (some (row_of n)) false false false 0 e
          (lookup-save_rows k n d rows distinct e) refl refl refl refl (rw e (ground (arith, p, c)))
  ]

  begin-IsKept : (rows : Dict Row) → AreFresh d → IsKept d (begin d rows)
  unfolding begin
  begin-IsKept rows fresh = record {
    agree = begin-IsConsistent rows fresh;
    due = λ k n e q.
        let (p, c) = lookup-Entries (λ j x. IsFresh x) k d fresh e in absurd (ground (arith, p, q));
    done_count = sym (none_counted d fresh).0;
    lost_count = sym (none_counted d fresh).1;
    same_keys = refl;
  }

  end-IsKept :
      (s : Engine)
      → IsKept d s
      → IsKept d
          (record s { events = s.events ++ session_ended (length s.done) (length s.lost) ∷ [] })
  unfolding starts
  end-IsKept s h = record {
    agree = λ k.
        rebuild d
          (record s { events = s.events ++ session_ended (length s.done) (length s.lost) ∷ [] }) k _
          _ _ _ _ _ refl refl refl refl refl
          (quiet k (session_ended (length s.done) (length s.lost)) refl s.events) (h.agree k);
    due = h.due;
    done_count = h.done_count;
    lost_count = h.lost_count;
    same_keys = h.same_keys;
  }

module _ (agents : List String) (wait : Wait) (d : Dict TaskNode)
    (distinct : AreDistinct (Dict.keys d)) where
  loop-IsKept :
      (fuel i m : ℕ) (s s' : Engine)
      → Keeps d m s
      → loop agents wait fuel i s ≡ some s'
      → IsKept d s'
  unfolding loop
  loop-IsKept zero i m s s' h e = cc e
  loop-IsKept (suc fuel) i m s s' h e =
      let h' : Keeps d m (start_ready s) = start_ready-Keeps d distinct m s h in
      elim (Bool-cases (is_open s)) [
        | inr f ↦ subst (IsKept d) (some-injective _ _ (rw f at e)) h.kept
        | inl f ↦ elim (List-cases (start_ready s).busy) [
          | inl g ↦ subst (IsKept d) (some-injective _ _ (rw g at (rw f at e))) h'.kept
          | inr (x, xs, g) ↦
              loop-IsKept fuel (i + 1) m
                (finish_all agents (wait i (start_ready s).busy) (start_ready s)) s'
                (finish_all-Keeps d agents (wait i (start_ready s).busy) m (start_ready s) h')
                (rw g at (rw f at e))
        ]
      ]

  execute_dag-IsKept :
      (fuel : ℕ) (rows : Dict Row) (s : Engine)
      → AreFresh d
      → execute_dag agents wait fuel d rows ≡ some s
      → IsKept d s
  unfolding execute_dag end begin
  execute_dag-IsKept fuel rows s fresh e =
      elim (Option-cases (loop agents wait fuel 0 (begin d rows))) [
        | inl f ↦ cc (rw f at e)
        | inr (t, f) ↦ subst (IsKept d) (some-injective _ _ (rw f at e)) (
            end-IsKept d distinct t (
              loop-IsKept fuel 0 (left (begin d rows)) (begin d rows) t
                (record { kept = begin-IsKept d distinct rows fresh; within = omega arith }) f))
      ]

-- Of tasks with distinct ids that have not run, `execute_dag` returns when as many rounds are given as
-- the tasks have attempts, each `retry_limit + 1`, and one more: whatever the agents answer and in
-- whatever order, if each wait for running tasks gives one of them. Then each task is COMPLETED and in
-- the set of the completed alone, or FAILED and in that of the failed alone, or still PENDING, in
-- neither, with a task that it depends on not completed. No assumption is made that the dependencies
-- have no cycle or are among the tasks.
pub execute_dag-AllSettled :
    (agents : List String) (wait : Wait) (d : Dict TaskNode) (rows : Dict Row)
    → Waits wait
    → AreDistinct (Dict.keys d)
    → AreFresh d
    → (s : Engine) × (execute_dag agents wait (suc (sum_of left_of d)) d rows ≡ some s)
      × AllSettled s
unfolding execute_dag end begin
execute_dag-AllSettled agents wait d rows waits distinct fresh =
    let (s, ran, kept, all_settled) =
      loop-Ends agents wait waits d distinct (sum_of left_of d) 0 (begin d rows)
        (record { kept = begin-IsKept d distinct rows fresh; within = omega arith }) in
    (
      record s { events = s.events ++ session_ended (length s.done) (length s.lost) ∷ [] },
      ap end ran,
      all_settled,
    )

-- What holds of a task at the end: it is one that was handed in; a task that was completed had all that
-- it depends on completed; it was started once for each attempt at most; and the row in the database
-- shows its status, its result and its retries.
pub record IsReported (d : Dict TaskNode) (s : Engine) (k : String) (n : TaskNode) : Type 0 where
  pub origin :
      (m : TaskNode) × (Dict.lookup k d ≡ some m)
      × (n.depends_on ≡ m.depends_on)
      × (n.retry_limit ≡ m.retry_limit)
  pub due : is_completed n.status ≡ true → all (contains s.done) n.depends_on ≡ true
  pub few : starts k s.events ≤ n.retry_limit + 1
  pub row : Shows n (Dict.lookup k s.rows)

-- However many rounds `execute_dag` takes, and whatever is answered: for each task of the result, it is
-- one of the given, with the same dependencies and limit; if it is COMPLETED then so is all that it
-- depends on; it was started at most `retry_limit + 1` times; and its row has its status (or RETRYING,
-- for a PENDING task that was tried before), its result and its number of retries.
pub execute_dag-IsReported :
    (agents : List String) (wait : Wait) (d : Dict TaskNode) (rows : Dict Row) (fuel : ℕ)
    (s : Engine) (k : String) (n : TaskNode)
    → AreDistinct (Dict.keys d)
    → AreFresh d
    → execute_dag agents wait fuel d rows ≡ some s
    → Dict.lookup k s.nodes ≡ some n
    → IsReported d s k n
execute_dag-IsReported agents wait d rows fuel s k n distinct fresh e found =
    let h : IsKept d s = execute_dag-IsKept agents wait d distinct fuel rows s fresh e in
    let here : Local (Dict.lookup k d) (some n) (Dict.lookup k s.rows) (contains s.done k)
        (contains s.lost k) (contains s.busy k) (starts k s.events) =
      rw found at (h.agree k) in
    record {
      origin = same_task (Dict.lookup k d) here.6;
      due = λ p. h.due k n found (ground (arith, p));
      few = ground (arith, here.3, here.4);
      row = here.5;
    }
  where
    same_task :
        (o : Option TaskNode)
        → SameTask o n
        → (m : TaskNode) × (o ≡ some m)
          × (n.depends_on ≡ m.depends_on)
          × (n.retry_limit ≡ m.retry_limit)
    same_task none x = absurd x
    same_task (some m) x = (m, refl, x.0, x.1)
