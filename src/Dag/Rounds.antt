-- ===== src/Dag/Rounds.antt =====
-- A round of the loop: it keeps the invariant, and a round that goes on takes one of the attempts.
use novamind.Prelude.{
  ℕ, suc, ◌≤◌, String, ◌≡◌, refl, sym, ◌∙◌, true, false, ◌&&◌, some, List, [], ◌∷◌, all, any,
  contains, eq_iff, ltb, arith, Bool-cases, Option-cases, inl, inr,
}
use mathlib.Core.Path.{subst}
use novamind.Prelude.Dict
use novamind.Prelude.Dict.{Dict, Entries, lookup-insert}
use novamind.Prelude.Distinct.{AreDistinct, Entries-lookup}
use novamind.Dag.{
  running, TaskNode, Engine, is_pending, is_ready, ready, start, start_all, Answer, Outcome, good,
  bad, run_node, fail, abandon, abandon_all, settle, finish_all, start_ready,
}
use novamind.Dag.Step.{is_running}
use novamind.Dag.Kept.{
  IsKept, left, start-IsKept, start-left, complete-IsKept, retry-IsKept, fail-IsKept,
  abandon-IsKept, complete-left, retry-left, fail-left, abandon-left,
}

-- `k` is the key of a task that can start.
abbrev pub CanStart : Engine → String → Type 0
CanStart s k =
    (n : TaskNode) × (Dict.lookup k s.nodes ≡ some n)
    × (is_pending n.status ≡ true)
    × (all (contains s.done) n.depends_on ≡ true)

abbrev pub AllCanStart : Engine → List String → Type 0
AllCanStart s [] = Unit
AllCanStart s (k ∷ ks) = CanStart s k × (contains ks k ≡ false) × AllCanStart s ks

contains-ready :
    (s : Engine) (k : String) (e : Dict TaskNode)
    → contains (Dict.keys e) k ≡ false
    → contains (ready s e) k ≡ false
unfolding ready Dict.keys
contains-ready s k [] h = refl
contains-ready s k ((j, n) ∷ e) h = elim (Bool-cases (is_ready s j n)) [
  | inl f ↦ rw f (ground (arith, h, contains-ready s k e))
  | inr f ↦ rw f (contains-ready s k e (ground (arith, h)))
]

pub ready-AllCanStart :
    (s : Engine) (e : Dict TaskNode)
    → Entries (λ k n. Dict.lookup k s.nodes ≡ some n) e
    → AreDistinct (Dict.keys e)
    → AllCanStart s (ready s e)
unfolding ready Dict.keys
ready-AllCanStart s [] h u = tt
ready-AllCanStart s ((k, n) ∷ e) (found, h) (new, u) = elim (Bool-cases (is_ready s k n)) [
  | inr f ↦ rw f (ready-AllCanStart s e h u)
  | inl f ↦ rw f (
    (n, found, ground (arith, f), ground (arith, f)),
    contains-ready s k e new,
    ready-AllCanStart s e h u,
  )
]

-- Starting a task leaves the others startable.
start-AllCanStart :
    (k : String) (n : TaskNode) (s : Engine) (ks : List String)
    → contains ks k ≡ false
    → AllCanStart s ks
    → AllCanStart (start k n s) ks
unfolding start
start-AllCanStart k n s [] new h = tt
start-AllCanStart k n s (j ∷ js) new ((m, found, p, ok), fresh, h) = (
  (
    m,
    ground (
      arith,
      new,
      found,
      eq_iff j k,
      eq_iff k j,
      lookup-insert k j (record n { status = running }) s.nodes,
    ),
    p,
    ok,
  ),
  fresh,
  start-AllCanStart k n s js (ground (arith, new)) h,
)

-- The invariant, with `m` attempts left at most.
pub record Keeps (d : Dict TaskNode) (m : ℕ) (s : Engine) : Type 0 where
  pub kept : IsKept d s
  pub within : left s ≤ m

module _ (d : Dict TaskNode) where
  start_all-Keeps :
      (ks : List String) (m : ℕ) (s : Engine)
      → AllCanStart s ks
      → Keeps d m s
      → Keeps d m (start_all ks s)
  unfolding start_all
  start_all-Keeps [] m s c h = h
  start_all-Keeps (k ∷ ks) m s ((n, found, p, ok), new, c) h = rw found (
      start_all-Keeps ks m (start k n s) (start-AllCanStart k n s ks new c) (record {
        kept = start-IsKept d k n s found p ok h.kept;
        within = omega (arith, h.within, start-left d k n s found p);
      }))

  abandon_all-Keeps :
      (k : String) (js : List String) (m : ℕ) (s : Engine)
      → Keeps d m s
      → Keeps d m (abandon_all k js s)
  unfolding abandon_all
  abandon_all-Keeps k [] m s h = h
  abandon_all-Keeps k (j ∷ js) m s h = elim (Option-cases (Dict.lookup j s.nodes)) [
    | inl e ↦ rw e (abandon_all-Keeps k js m s h)
    | inr (n, e) ↦ elim (Bool-cases (contains n.depends_on k && is_pending n.status)) [
      | inr f ↦ rw e (rw f (abandon_all-Keeps k js m s h))
      | inl f ↦ rw e (
          rw f (
            abandon_all-Keeps k js m (abandon j n s) (record {
              kept = abandon-IsKept d j n s e h.kept (ground (arith, f));
              within = omega (arith, h.within, abandon-left d j n s e);
            })))
    ]
  ]

  -- A task that ran is settled, which takes an attempt.
  settle-Keeps :
      (k : String) (n : TaskNode) (o : Outcome) (m : ℕ) (s : Engine)
      → Dict.lookup k s.nodes ≡ some n
      → is_running n.status ≡ true
      → Keeps d (suc m) s
      → Keeps d m (settle k n o s)
  unfolding settle
  settle-Keeps k n (good r) m s found p h = record {
    kept = complete-IsKept d k n s found h.kept r p;
    within = omega (arith, h.within, complete-left d k n s found r p);
  }
  settle-Keeps k n (bad e) m s found p h = elim (Bool-cases (ltb n.retry_count n.retry_limit)) [
    | inl f ↦ rw f (record {
      kept = retry-IsKept d k n s found h.kept e p f;
      within = omega (arith, h.within, retry-left d k n s found e p f);
    })
    | inr f ↦ rw f (
        abandon_all-Keeps k (Dict.keys s.nodes) m (fail k n e s) (record {
          kept = fail-IsKept d k n s found h.kept e p;
          within = omega (arith, h.within, fail-left d k n s found e p);
        }))
  ]

  -- A task among the running ones is in the state, and runs.
  pub busy_task :
      (k : String) (s : Engine)
      → IsKept d s
      → contains s.busy k ≡ true
      → (n : TaskNode) × (Dict.lookup k s.nodes ≡ some n) × (is_running n.status ≡ true)
  busy_task k s h b = elim (Option-cases (Dict.lookup k s.nodes)) [
    | inl e ↦ cc (sym ((rw e at (h.agree k)).2) ∙ b)
    | inr (n, e) ↦ (n, e, sym ((rw e at (h.agree k)).2) ∙ b)
  ]

  weaken : (m : ℕ) (s : Engine) → Keeps d m s → Keeps d (suc m) s
  weaken m s h = record { kept = h.kept; within = omega (arith, h.within) }

  module _ (agents : List String) where
    pub finish_all-Keeps :
        (l : List (String × Answer)) (m : ℕ) (s : Engine)
        → Keeps d m s
        → Keeps d m (finish_all agents l s)
    unfolding finish_all
    finish_all-Keeps [] m s h = h
    finish_all-Keeps ((k, a) ∷ l) m s h = elim (Bool-cases (contains s.busy k)) [
      | inr f ↦ rw f (finish_all-Keeps l m s h)
      | inl f ↦
          let (n, e, p) = busy_task k s h.kept f in
          rw f (
            rw e (
              finish_all-Keeps l m (settle k n (run_node agents n a) s)
                (settle-Keeps k n (run_node agents n a) m s e p (weaken m s h))))
    ]

    -- A batch that has a running task takes an attempt.
    pub finish_all_less :
        (l : List (String × Answer)) (m : ℕ) (s : Engine)
        → any (λ (p : String × Answer). contains s.busy p.0) l ≡ true
        → Keeps d (suc m) s
        → Keeps d m (finish_all agents l s)
    unfolding finish_all
    finish_all_less [] m s x h = cc x
    finish_all_less ((k, a) ∷ l) m s x h = elim (Bool-cases (contains s.busy k)) [
      | inr f ↦ rw f (finish_all_less l m s (rw f at x) h)
      | inl f ↦
          let (n, e, p) = busy_task k s h.kept f in
          rw f (
            rw e (
              finish_all-Keeps l m (settle k n (run_node agents n a) s)
                (settle-Keeps k n (run_node agents n a) m s e p h)))
    ]

  pub start_ready-Keeps :
      AreDistinct (Dict.keys d) → (m : ℕ) (s : Engine) → Keeps d m s → Keeps d m (start_ready s)
  unfolding start_ready
  start_ready-Keeps distinct m s h =
      let u : AreDistinct (Dict.keys s.nodes) = subst AreDistinct (sym h.kept.same_keys) distinct in
      start_all-Keeps (ready s s.nodes) m s
        (ready-AllCanStart s s.nodes (Entries-lookup s.nodes u) u) h
