-- ===== src/Dag/Ends.antt =====
-- How `execute_dag` ends.
use novamind.Prelude.{
  List-cases, ℕ, zero, suc, ◌+◌, ◌≤◌, ◌<◌, String, ◌≡◌, refl, sym, ap, ◌∙◌, Bool, true, false, ◌||◌,
  Option, none, some, List, [], ◌∷◌, all, any, contains, contains-add, length, eq_iff, eq_refl,
  arith, Bool-cases, inl, inr, ◌⊎◌, ◌==◌,
}
use mathlib.Core.Path.{subst}
use mathlib.Core.Option.{some-injective}
use novamind.Prelude.Dict
use novamind.Prelude.Dict.{Dict, Entries, lookup-Entries, lookup-insert}
use novamind.Prelude.Distinct.{AreDistinct, Entries-lookup}
use novamind.Dag.{
  TaskStatus, pending, running, completed, failed, retrying, TaskNode, Engine, is_pending, is_ready,
  ready, start, start_found, start_all, Answer, start_ready, finish_all, Wait, is_open, loop,
}
use novamind.Dag.Step.{is_running, is_completed, is_failed, is_retrying, Local, starts}
use novamind.Dag.Kept.{IsKept, left, left_of, sum_of, one_done, one_lost}
use novamind.Dag.Rounds.{
  Keeps, finish_all_less, start_ready-Keeps, busy_task, AllCanStart, ready-AllCanStart,
}

-- A task has been completed, or has failed, or waits for one that has not been completed; in the first
-- case it is in the set of the completed tasks alone, in the second in that of the failed alone, in the
-- third in neither.
abbrev pub IsSettled : Engine → String → TaskNode → Type 0
IsSettled s k n =
    ((n.status ≡ completed) × (contains s.done k ≡ true) × (contains s.lost k ≡ false))
    ⊎ (((n.status ≡ failed) × (contains s.done k ≡ false) × (contains s.lost k ≡ true))
        ⊎ ((n.status ≡ pending)
            × (contains s.done k ≡ false)
            × (contains s.lost k ≡ false)
            × (all (contains s.done) n.depends_on ≡ false)))

abbrev pub AllSettled : Engine → Type 0
AllSettled s = (k : String) (n : TaskNode) → Dict.lookup k s.nodes ≡ some n → IsSettled s k n

-- asyncio.wait returns when a task that it was given is done.
abbrev pub Waits : Wait → Type 0
Waits wait =
    (i : ℕ) (x : String) (xs : List String)
    → any (λ (p : String × Answer). contains (x ∷ xs) p.0) (wait i (x ∷ xs)) ≡ true

sum_of-lookup :
    (f : TaskNode → ℕ) (k : String) (n : TaskNode) (d : Dict TaskNode)
    → Dict.lookup k d ≡ some n
    → f n ≤ sum_of f d
unfolding sum_of Dict.lookup
sum_of-lookup f k n [] e = cc e
sum_of-lookup f k n ((j, x) ∷ d) e = elim (Bool-cases (j == k)) [
  | inl g ↦ let same : x ≡ n = some-injective _ _ (rw g at e) in omega (arith, ap f same)
  | inr g ↦ omega (arith, sum_of-lookup f k n d (rw g at e))
]

-- How many tasks the sets can hold.
sum_of_le : (d : Dict TaskNode) → sum_of one_done d + sum_of one_lost d ≤ length d
unfolding sum_of
sum_of_le [] = omega arith
sum_of_le ((k, n) ∷ d) = ground (arith, sum_of_le d)

sum_of_lt :
    (k : String) (n : TaskNode) (d : Dict TaskNode)
    → Dict.lookup k d ≡ some n
    → (is_completed n.status || is_failed n.status) ≡ false
    → sum_of one_done d + sum_of one_lost d < length d
unfolding sum_of Dict.lookup
sum_of_lt k n [] e p = cc e
sum_of_lt k n ((j, x) ∷ d) e p = elim (Bool-cases (j == k)) [
  | inr g ↦ ground (arith, sum_of_lt k n d (rw g at e) p)
  | inl g ↦
      let same : x ≡ n = some-injective _ _ (rw g at e) in
      let q : (is_completed x.status || is_failed x.status) ≡ false = rw same p in
      ground (arith, sum_of_le d, q)
]

settled_of :
    (st : TaskStatus) (x y w : Bool)
    → x ≡ is_completed st
    → y ≡ is_failed st
    → is_running st ≡ false
    → is_retrying st ≡ false
    → (is_pending st ≡ true → w ≡ false)
    → ((st ≡ completed) × (x ≡ true) × (y ≡ false))
      ⊎ (((st ≡ failed) × (x ≡ false) × (y ≡ true))
          ⊎ ((st ≡ pending) × (x ≡ false) × (y ≡ false) × (w ≡ false)))
settled_of completed x y w e f p q c = inl (refl, e, f)
settled_of failed x y w e f p q c = inr (inl (refl, e, f))
settled_of pending x y w e f p q c = inr (inr (refl, e, f, c refl))
settled_of running x y w e f p q c = cc p
settled_of retrying x y w e f p q c = cc q

-- No task is ready.
ready-nil :
    (s : Engine) (k : String) (n : TaskNode) (e : Dict TaskNode)
    → ready s e ≡ []
    → Dict.lookup k e ≡ some n
    → is_ready s k n ≡ false
unfolding ready Dict.lookup
ready-nil s k n [] r e = cc e
ready-nil s k n ((j, x) ∷ d) r e = elim (Bool-cases (is_ready s j x)) [
  | inl f ↦ cc (rw f at r)
  | inr f ↦ elim (Bool-cases (j == k)) [
    | inr g ↦ ready-nil s k n d (rw f at r) (rw g at e)
    | inl g ↦
        let same : x ≡ n = some-injective _ _ (rw g at e) in
        subst (λ i. is_ready s i n ≡ false) ((eq_iff j k).0 g)
          (subst (λ y. is_ready s j y ≡ false) same f)
  ]
]

module _ (d : Dict TaskNode) (s : Engine) (h : IsKept d s) where
  settled :
      (k : String) (n : TaskNode)
      → Dict.lookup k s.nodes ≡ some n
      → is_running n.status ≡ false
      → (is_pending n.status ≡ true → all (contains s.done) n.depends_on ≡ false)
      → IsSettled s k n
  settled k n e q w =
      let here : Local (Dict.lookup k d) (some n) (Dict.lookup k s.rows) (contains s.done k)
          (contains s.lost k) (contains s.busy k) (starts k s.events) =
        rw e at (h.agree k) in
      settled_of n.status (contains s.done k) (contains s.lost k)
        (all (contains s.done) n.depends_on) here.0 here.1 q here.7 w

  -- The loop ends by its test.
  closed-AllSettled : is_open s ≡ false → AllSettled s
  closed-AllSettled f k n e = elim (Bool-cases (is_completed n.status || is_failed n.status)) [
    | inl g ↦ settled k n e (ground (arith, g)) (λ p. absurd (ground (arith, g, p)))
    | inr g ↦ absurd (ground (arith, f, sum_of_lt k n s.nodes e g, h.done_count, h.lost_count))
  ]

  -- The loop ends by `break`.
  idle-AllSettled : s.busy ≡ [] → ready s s.nodes ≡ [] → AllSettled s
  idle-AllSettled b r k n e =
      let here : Local (Dict.lookup k d) (some n) (Dict.lookup k s.rows) (contains s.done k)
          (contains s.lost k) (contains s.busy k) (starts k s.events) =
        rw e at (h.agree k) in
      let not_busy : contains s.busy k ≡ false = ap (λ l. contains l k) b in
      let unready : is_ready s k n ≡ false = ready-nil s k n s.nodes r e in
      settled k n e (sym here.2 ∙ not_busy) (λ p. ground (arith, unready, p, not_busy))

-- Starting tasks ends none.
contains-start_found :
    (j k : String) (o : Option TaskNode) (s : Engine)
    → contains s.busy j ≡ true
    → contains (start_found k o s).busy j ≡ true
unfolding start
contains-start_found j k none s h = h
contains-start_found j k (some n) s h = ground (arith, contains-add k s.busy j, h)

contains-start_all :
    (j : String) (ks : List String) (s : Engine)
    → contains s.busy j ≡ true
    → contains (start_all ks s).busy j ≡ true
unfolding start_all
contains-start_all j [] s h = h
contains-start_all j (k ∷ ks) s h =
    contains-start_all j ks (start_found k (Dict.lookup k s.nodes) s)
      (contains-start_found j k (Dict.lookup k s.nodes) s h)

-- If nothing runs after the ready tasks were started, none was ready.
none_ready :
    (ks : List String) (s : Engine) → AllCanStart s ks → (start_all ks s).busy ≡ [] → ks ≡ []
unfolding start_all start
none_ready [] s c e = refl
none_ready (k ∷ ks) s ((n, found, p, ok), new, c) e =
    let b : contains (start_found k (Dict.lookup k s.nodes) s).busy k ≡ true =
      rw found (ground (arith, contains-add k s.busy k, eq_refl k)) in
    cc (
      sym (contains-start_all k ks (start_found k (Dict.lookup k s.nodes) s) b)
      ∙ ap (λ l. contains l k) e)

idle :
    (s : Engine)
    → AreDistinct (Dict.keys s.nodes)
    → (start_ready s).busy ≡ []
    → ready s s.nodes ≡ []
unfolding start_ready
idle s u e =
    none_ready (ready s s.nodes) s (ready-AllCanStart s s.nodes (Entries-lookup s.nodes u) u) e

start_ready-nil : (s : Engine) → ready s s.nodes ≡ [] → start_ready s ≡ s
unfolding start_ready start_all
start_ready-nil s e = ap (λ l. start_all l s) e

-- A running task has an attempt left.
left_pos :
    (d : Dict TaskNode) (x : String) (s : Engine)
    → IsKept d s
    → contains s.busy x ≡ true
    → 1 ≤ left s
left_pos d x s h b =
    let (n, e, p) = busy_task d x s h b in ground (arith, sum_of-lookup left_of x n s.nodes e, p)

module _ (agents : List String) (wait : Wait) (waits : Waits wait) (d : Dict TaskNode)
    (distinct : AreDistinct (Dict.keys d)) where
  abbrev pub Ends : ℕ → ℕ → Engine → Type 0
  Ends fuel i s =
      (s' : Engine) × (loop agents wait (suc fuel) i s ≡ some s') × IsKept d s' × AllSettled s'

  loop_breaks :
      (fuel i : ℕ) (s : Engine)
      → IsKept d s
      → is_open s ≡ true
      → (start_ready s).busy ≡ []
      → Ends fuel i s
  unfolding loop
  loop_breaks fuel i s h f e =
      let u : AreDistinct (Dict.keys s.nodes) = subst AreDistinct (sym h.same_keys) distinct in
      let r : ready s s.nodes ≡ [] = idle s u e in
      let same : start_ready s ≡ s = start_ready-nil s r in
      (
        s,
        rw f (rw e (ap some same)),
        h,
        idle-AllSettled d s h (ap (λ (t : Engine). t.busy) (sym same) ∙ e) r,
      )

  -- The batch that the running tasks `x` and `xs` give has one of them.
  batch_runs :
      (i : ℕ) (s : Engine) (x : String) (xs : List String)
      → s.busy ≡ x ∷ xs
      → any (λ (p : String × Answer). contains s.busy p.0) (wait i s.busy) ≡ true
  batch_runs i s x xs e =
      subst (λ l. any (λ (p : String × Answer). contains l p.0) (wait i l) ≡ true) (sym e)
        (waits i x xs)

  pub loop-Ends : (fuel i : ℕ) (s : Engine) → Keeps d fuel s → Ends fuel i s
  unfolding loop
  loop-Ends zero i s h = elim (Bool-cases (is_open s)) [
    | inr f ↦ (s, rw f refl, h.kept, closed-AllSettled d s h.kept f)
    | inl f ↦ elim (List-cases (start_ready s).busy) [
      | inl e ↦ loop_breaks zero i s h.kept f e
      | inr (x, xs, e) ↦
          let h' : Keeps d zero (start_ready s) = start_ready-Keeps d distinct zero s h in
          let b : contains (start_ready s).busy x ≡ true =
            ap (λ l. contains l x) e ∙ ground (arith, eq_refl x) in
          absurd (omega (arith, h'.within, left_pos d x (start_ready s) h'.kept b))
    ]
  ]
  loop-Ends (suc fuel) i s h = elim (Bool-cases (is_open s)) [
    | inr f ↦ (s, rw f refl, h.kept, closed-AllSettled d s h.kept f)
    | inl f ↦ elim (List-cases (start_ready s).busy) [
      | inl e ↦ loop_breaks (suc fuel) i s h.kept f e
      | inr (x, xs, e) ↦
          let next : Keeps d fuel
              (finish_all agents (wait i (start_ready s).busy) (start_ready s)) =
            finish_all_less d agents (wait i (start_ready s).busy) fuel (start_ready s)
              (batch_runs i (start_ready s) x xs e) (start_ready-Keeps d distinct (suc fuel) s h) in
          let (s', ran, kept, all_settled) =
            loop-Ends fuel (i + 1) (finish_all agents (wait i (start_ready s).busy) (start_ready s))
              next in
          (s', rw f (rw e ran), kept, all_settled)
    ]
  ]
