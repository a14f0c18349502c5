-- ===== src/Dag/Step.antt =====
-- What holds of each task, and that the operations on one task keep it.
use novamind.Prelude.{
  ℕ, suc, ◌+◌, ◌≤◌, String, ◌≡◌, refl, Bool, true, false, ◌&&◌, ◌||◌, Option, none, some, List, [],
  ◌∷◌, ◌++◌, add, contains, contains-add, contains-keep_if, eq_iff, eq_refl, ltb, if◌then◌else◌,
  arith, Bool-cases, inl, inr, ◌==◌,
}
use mathlib.Core.Path.{subst}
use novamind.Prelude.Dict
use novamind.Prelude.Dict.{Dict, lookup-insert, lookup-modify, map_some}
use novamind.Dag.{
  TaskStatus, pending, running, completed, failed, retrying, Fault, dependency_failed, TaskNode,
  Row, Event, task_started, session_started, task_completed, task_retrying, task_failed,
  session_ended, Engine, updated, is_pending, start, complete, retry, fail, abandon, without,
}

abbrev pub is_completed : TaskStatus → Bool
is_completed completed = true
is_completed _ = false

abbrev pub is_failed : TaskStatus → Bool
is_failed failed = true
is_failed _ = false

abbrev pub is_running : TaskStatus → Bool
is_running running = true
is_running _ = false

-- A status that only a row has.
abbrev pub is_retrying : TaskStatus → Bool
is_retrying retrying = true
is_retrying _ = false

-- How often a task was started.
unfoldable pub starts : String → List Event → ℕ
starts k [] = 0
starts k (task_started j ∷ es) = if j == k then suc (starts k es) else starts k es
starts k (e ∷ es) = starts k es

-- The status that the database shows for a task.
abbrev pub shown : TaskNode → TaskStatus
shown n = if is_pending n.status && ltb 0 n.retry_count then retrying else n.status

abbrev pub Shows : TaskNode → Option Row → Type 0
Shows n none = ⊥
Shows n (some r) = (r.status ≡ shown n) × (r.retry_count ≡ n.retry_count) × (r.outcome ≡ n.outcome)

-- The task `n` is the one that was handed in.
abbrev pub SameTask : Option TaskNode → TaskNode → Type 0
SameTask none n = ⊥
SameTask (some m) n = (n.depends_on ≡ m.depends_on) × (n.retry_limit ≡ m.retry_limit)

-- What holds of a task: the one handed in, the one in the state, its row, whether it is in the sets of
-- the completed, the failed and the running tasks, and how often it was started.
abbrev pub Local : Option TaskNode → Option TaskNode → Option Row → Bool → Bool → Bool → ℕ → Type 0
Local m none r d l b c = (d ≡ false) × (l ≡ false) × (b ≡ false)
Local m (some n) r d l b c =
    (d ≡ is_completed n.status)
    × (l ≡ is_failed n.status)
    × (b ≡ is_running n.status)
    × (n.retry_count ≤ n.retry_limit)
    × (c ≤ n.retry_count + (if is_pending n.status then 0 else 1))
    × Shows n r
    × SameTask m n
    × (is_retrying n.status ≡ false)

abbrev pub LocalAt : Dict TaskNode → Engine → String → Type 0
LocalAt d s k =
    Local (Dict.lookup k d) (Dict.lookup k s.nodes) (Dict.lookup k s.rows) (contains s.done k)
      (contains s.lost k) (contains s.busy k) (starts k s.events)

abbrev pub IsConsistent : Dict TaskNode → Engine → Type 0
IsConsistent d s = (k : String) → LocalAt d s k

starts-append : (k : String) (xs ys : List Event) → starts k (xs ++ ys) ≡ starts k xs + starts k ys
unfolding starts
starts-append k [] ys = omega arith
starts-append k (session_started n ∷ xs) ys = starts-append k xs ys
starts-append k (task_started j ∷ xs) ys = ground (arith, starts-append k xs ys)
starts-append k (task_completed j ∷ xs) ys = starts-append k xs ys
starts-append k (task_retrying j e n ∷ xs) ys = starts-append k xs ys
starts-append k (task_failed j e ∷ xs) ys = starts-append k xs ys
starts-append k (session_ended n m ∷ xs) ys = starts-append k xs ys

pub or_false : (b : Bool) → (b || false) ≡ b
or_false true = refl
or_false false = refl

Local-start :
    (m : Option TaskNode) (n : TaskNode) (r : Option Row) (d l b : Bool) (c : ℕ)
    → is_pending n.status ≡ true
    → Local m (some n) r d l b c
    → Local m
        (some (record n { status = running }))
        (map_some (updated running none none none) r)
        d
        l
        true
        (c + 1)
Local-start m n none d l b c p h = absurd h.5
Local-start none n (some r) d l b c p h = absurd h.6
Local-start (some m) n (some r) d l b c p h = ground (arith, p, h)

Local-complete :
    (m : Option TaskNode) (n : TaskNode) (a : String) (r : Option Row) (d l b : Bool) (c : ℕ)
    → is_running n.status ≡ true
    → Local m (some n) r d l b c
    → Local m
        (some (record n { status = completed; outcome = some a }))
        (map_some (updated completed (some a) none none) r)
        true
        l
        false
        c
Local-complete m n a none d l b c p h = absurd h.5
Local-complete none n a (some r) d l b c p h = absurd h.6
Local-complete (some m) n a (some r) d l b c p h = ground (arith, p, h)

Local-retry :
    (m : Option TaskNode) (n : TaskNode) (e : Fault) (r : Option Row) (d l b : Bool) (c : ℕ)
    → is_running n.status ≡ true
    → ltb n.retry_count n.retry_limit ≡ true
    → Local m (some n) r d l b c
    → Local m
        (some (record n { status = pending; retry_count = n.retry_count + 1; error = some e }))
        (map_some (updated retrying none (some e) (some (n.retry_count + 1))) r)
        d
        l
        false
        c
Local-retry m n e none d l b c p q h = absurd h.5
Local-retry none n e (some r) d l b c p q h = absurd h.6
Local-retry (some m) n e (some r) d l b c p q h = ground (arith, p, q, h)

Local-fail :
    (m : Option TaskNode) (n : TaskNode) (e : Fault) (r : Option Row) (d l b : Bool) (c : ℕ)
    → is_running n.status ≡ true
    → Local m (some n) r d l b c
    → Local m
        (some (record n { status = failed; error = some e }))
        (map_some (updated failed none (some e) none) r)
        d
        true
        false
        c
Local-fail m n e none d l b c p h = absurd h.5
Local-fail none n e (some r) d l b c p h = absurd h.6
Local-fail (some m) n e (some r) d l b c p h = ground (arith, p, h)

Local-abandon :
    (m : Option TaskNode) (n : TaskNode) (r : Option Row) (d l b : Bool) (c : ℕ)
    → is_pending n.status ≡ true
    → Local m (some n) r d l b c
    → Local m
        (some (record n { status = failed }))
        (map_some (updated failed none (some dependency_failed) none) r)
        d
        true
        b
        c
Local-abandon m n none d l b c p h = absurd h.5
Local-abandon none n (some r) d l b c p h = absurd h.6
Local-abandon (some m) n (some r) d l b c p h = ground (arith, p, h)

-- Each field of the state at the key `k` that an operation sets, and at any other key.
module _ (k : String) where
  self_insert {ℓ} : {V : Type ℓ} (v : V) (d : Dict V) → Dict.lookup k (Dict.insert k v d) ≡ some v
  self_insert v d = rw (eq_refl k) at (lookup-insert k k v d)

  self_modify {ℓ} :
      {V : Type ℓ} (f : V → V) (d : Dict V)
      → Dict.lookup k (Dict.modify k f d) ≡ map_some f (Dict.lookup k d)
  self_modify f d = rw (eq_refl k) at (lookup-modify k k f d)

  self_add : (l : List String) → contains (add k l) k ≡ true
  self_add l = ground (arith, contains-add k l k, eq_refl k)

  self_without : (l : List String) → contains (without k l) k ≡ false
  self_without l = ground (arith, contains-keep_if k l k, eq_refl k)

  self_started : (es : List Event) → starts k (es ++ task_started k ∷ []) ≡ starts k es + 1
  unfolding starts
  self_started es = ground (arith, starts-append k es (task_started k ∷ []), eq_refl k)

  module _ (j : String) (f : (k == j) ≡ false) where
    other_insert {ℓ} :
        {V : Type ℓ} (v : V) (d : Dict V) → Dict.lookup j (Dict.insert k v d) ≡ Dict.lookup j d
    other_insert v d = rw f at (lookup-insert k j v d)

    other_modify {ℓ} :
        {V : Type ℓ} (g : V → V) (d : Dict V) → Dict.lookup j (Dict.modify k g d) ≡ Dict.lookup j d
    other_modify g d = rw f at (lookup-modify k j g d)

    other_add : (l : List String) → contains (add k l) j ≡ contains l j
    other_add l = ground (arith, contains-add k l j, f)

    other_without : (l : List String) → contains (without k l) j ≡ contains l j
    other_without l = ground (arith, contains-keep_if k l j, f)

    other_started : (es : List Event) → starts j (es ++ task_started k ∷ []) ≡ starts j es
    unfolding starts
    other_started es = ground (arith, starts-append j es (task_started k ∷ []), f)

-- The other events.
pub quiet :
    (k : String) (e : Event)
    → starts k (e ∷ []) ≡ 0
    → (es : List Event) → starts k (es ++ e ∷ []) ≡ starts k es
quiet k e z es = omega (arith, starts-append k es (e ∷ []))

pub rebuild :
    (d : Dict TaskNode) (s : Engine) (j : String) (o : Option TaskNode) (r : Option Row)
    (x y z : Bool) (c : ℕ)
    → Dict.lookup j s.nodes ≡ o
    → Dict.lookup j s.rows ≡ r
    → contains s.done j ≡ x
    → contains s.lost j ≡ y
    → contains s.busy j ≡ z
    → starts j s.events ≡ c
    → Local (Dict.lookup j d) o r x y z c
    → LocalAt d s j
rebuild d s j o r x y z c e1 e2 e3 e4 e5 e6 h = rw (e1, e2, e3, e4, e5, e6) h

module _ (d : Dict TaskNode) (k : String) (n : TaskNode) (s : Engine) where
  -- An operation on `k` leaves the other tasks alone.
  at_key :
      (s' : Engine)
      → ((j : String) → (k == j) ≡ false → LocalAt d s j → LocalAt d s' j)
      → LocalAt d s' k
      → IsConsistent d s
      → IsConsistent d s'
  at_key s' others here h j = elim (Bool-cases (k == j)) [
    | inl f ↦ subst (LocalAt d s') ((eq_iff k j).0 f) here
    | inr f ↦ others j f (h j)
  ]

  module _ (there : Dict.lookup k s.nodes ≡ some n) where
    pub start-IsConsistent :
        is_pending n.status ≡ true → IsConsistent d s → IsConsistent d (start k n s)
    unfolding start
    start-IsConsistent p h =
        at_key (start k n s)
          (λ j f x.
            rebuild d (start k n s) j _ _ _ _ _ _ (other_insert k j f _ _) (other_modify k j f _ _)
              refl refl (other_add k j f s.busy) (other_started k j f s.events) x)
          (rebuild d (start k n s) k _ _ _ _ _ _ (self_insert k _ _) (self_modify k _ s.rows) refl
            refl (self_add k s.busy) (self_started k s.events)
            (Local-start (Dict.lookup k d) n (Dict.lookup k s.rows) _ _ _ _ p (rw there at (h k))))
          h

    pub complete-IsConsistent :
        (a : String)
        → is_running n.status ≡ true
        → IsConsistent d s
        → IsConsistent d (complete k n a s)
    unfolding complete starts
    complete-IsConsistent a p h =
        at_key (complete k n a s)
          (λ j f x.
            rebuild d (complete k n a s) j _ _ _ _ _ _ (other_insert k j f _ _)
              (other_modify k j f _ _) (other_add k j f s.done) refl (other_without k j f s.busy)
              (quiet j (task_completed k) refl s.events) x)
          (rebuild d (complete k n a s) k _ _ _ _ _ _ (self_insert k _ _) (self_modify k _ s.rows)
            (self_add k s.done) refl (self_without k s.busy)
            (quiet k (task_completed k) refl s.events)
            (Local-complete (Dict.lookup k d) n a (Dict.lookup k s.rows) _ _ _ _ p
              (rw there at (h k))))
          h

    pub retry-IsConsistent :
        (e : Fault)
        → is_running n.status ≡ true
        → ltb n.retry_count n.retry_limit ≡ true
        → IsConsistent d s
        → IsConsistent d (retry k n e s)
    unfolding retry starts
    retry-IsConsistent e p q h =
        let event : Event = task_retrying k e (n.retry_count + 1) in
        at_key (retry k n e s)
          (λ j f x.
            rebuild d (retry k n e s) j _ _ _ _ _ _ (other_insert k j f _ _)
              (other_modify k j f _ _) refl refl (other_without k j f s.busy)
              (quiet j event refl s.events) x)
          (rebuild d (retry k n e s) k _ _ _ _ _ _ (self_insert k _ _) (self_modify k _ s.rows) refl
            refl (self_without k s.busy) (quiet k event refl s.events)
            (Local-retry (Dict.lookup k d) n e (Dict.lookup k s.rows) _ _ _ _ p q
              (rw there at (h k))))
          h

    pub fail-IsConsistent :
        (e : Fault) → is_running n.status ≡ true → IsConsistent d s → IsConsistent d (fail k n e s)
    unfolding fail starts
    fail-IsConsistent e p h =
        at_key (fail k n e s)
          (λ j f x.
            rebuild d (fail k n e s) j _ _ _ _ _ _ (other_insert k j f _ _) (other_modify k j f _ _)
              refl (other_add k j f s.lost) (other_without k j f s.busy)
              (quiet j (task_failed k e) refl s.events) x)
          (rebuild d (fail k n e s) k _ _ _ _ _ _ (self_insert k _ _) (self_modify k _ s.rows) refl
            (self_add k s.lost) (self_without k s.busy) (quiet k (task_failed k e) refl s.events)
            (Local-fail (Dict.lookup k d) n e (Dict.lookup k s.rows) _ _ _ _ p (rw there at (h k))))
          h

    pub abandon-IsConsistent :
        is_pending n.status ≡ true → IsConsistent d s → IsConsistent d (abandon k n s)
    unfolding abandon
    abandon-IsConsistent p h =
        at_key (abandon k n s)
          (λ j f x.
            rebuild d (abandon k n s) j _ _ _ _ _ _ (other_insert k j f _ _)
              (other_modify k j f _ _) refl (other_add k j f s.lost) refl refl x)
          (rebuild d (abandon k n s) k _ _ _ _ _ _ (self_insert k _ _) (self_modify k _ s.rows) refl
            (self_add k s.lost) refl refl
            (Local-abandon (Dict.lookup k d) n (Dict.lookup k s.rows) _ _ _ _ p
              (rw there at (h k))))
          h
