-- ===== src/Dag/Kept.antt =====
-- What the loops of a round keep: the sizes of the sets, and that a task starts after what it needs.
use novamind.Prelude.{
  ℕ, suc, ◌+◌, ◌-◌, ◌≤◌, ◌<◌, String, ◌≡◌, refl, sym, ap, ◌∙◌, Bool, true, false, ◌||◌, some, List,
  [], ◌∷◌, all, contains, all-contains-add, length-add, length, ltb, if◌then◌else◌, arith,
  Bool-cases, inl, inr, ◌==◌,
}
use mathlib.Core.Path.{subst}
use mathlib.Core.Option.{some-injective}
use novamind.Prelude.Dict
use novamind.Prelude.Dict.{Dict, lookup-insert}
use novamind.Prelude.Distinct.{keys-insert}
use novamind.Dag.{
  pending, running, completed, failed, Fault, TaskNode, Engine, is_pending, start, complete, retry,
  fail, abandon,
}
use novamind.Dag.Step.{
  IsConsistent, is_completed, is_failed, is_running, start-IsConsistent, complete-IsConsistent,
  retry-IsConsistent, fail-IsConsistent, abandon-IsConsistent,
}

unfoldable pub sum_of : (TaskNode → ℕ) → Dict TaskNode → ℕ
sum_of f [] = 0
sum_of f ((k, n) ∷ d) = f n + sum_of f d

sum_of-insert :
    (f : TaskNode → ℕ) (k : String) (n m : TaskNode) (d : Dict TaskNode)
    → Dict.lookup k d ≡ some n
    → sum_of f (Dict.insert k m d) + f n ≡ sum_of f d + f m
unfolding sum_of Dict.lookup Dict.insert
sum_of-insert f k n m [] e = cc e
sum_of-insert f k n m ((j, x) ∷ d) e = elim (Bool-cases (j == k)) [
  | inl g ↦ let same : x ≡ n = some-injective _ _ (rw g at e) in rw g (rw same (omega arith))
  | inr g ↦ rw g (omega (arith, sum_of-insert f k n m d (rw g at e)))
]

abbrev pub one_if : Bool → ℕ
one_if true = 1
one_if false = 0

-- The rounds that a task can still take.
abbrev pub left_of : TaskNode → ℕ
left_of n =
    if is_pending n.status || is_running n.status then suc (n.retry_limit - n.retry_count) else 0

abbrev pub left : Engine → ℕ
left s = sum_of left_of s.nodes

abbrev pub one_done : TaskNode → ℕ
one_done n = one_if (is_completed n.status)

abbrev pub one_lost : TaskNode → ℕ
one_lost n = one_if (is_failed n.status)

-- What a task needs was completed before it started.
abbrev pub AreDue : Engine → Type 0
AreDue s =
    (k : String) (n : TaskNode)
    → Dict.lookup k s.nodes ≡ some n
    → (is_running n.status || is_completed n.status) ≡ true
    → all (contains s.done) n.depends_on ≡ true

pub record IsKept (d : Dict TaskNode) (s : Engine) : Type 0 where
  pub agree : IsConsistent d s
  pub due : AreDue s
  pub done_count : length s.done ≡ sum_of one_done s.nodes
  pub lost_count : length s.lost ≡ sum_of one_lost s.nodes
  pub same_keys : Dict.keys s.nodes ≡ Dict.keys d

-- Overwriting a task by one that needs the same.
insert-AreDue :
    (k : String) (n m : TaskNode) (s s' : Engine)
    → Dict.lookup k s.nodes ≡ some n
    → s'.nodes ≡ Dict.insert k m s.nodes
    → ((ps : List String) → all (contains s.done) ps ≡ true → all (contains s'.done) ps ≡ true)
    → ((is_running m.status || is_completed m.status) ≡ true
        → all (contains s.done) m.depends_on ≡ true)
    → AreDue s
    → AreDue s'
insert-AreDue k n m s s' there new more own due j x e q = elim (Bool-cases (k == j)) [
  | inl f ↦
      let same : m ≡ x =
        some-injective _ _
          (sym (rw f at (lookup-insert k j m s.nodes)) ∙ ap (Dict.lookup j) (sym new) ∙ e) in
      subst (λ (y : TaskNode). all (contains s'.done) y.depends_on ≡ true) same
        (more m.depends_on (own (rw same q)))
  | inr f ↦
      more x.depends_on
        (due j x (sym (rw f at (lookup-insert k j m s.nodes)) ∙ ap (Dict.lookup j) (sym new) ∙ e) q)
]

module _ (d : Dict TaskNode) (k : String) (n : TaskNode) (s : Engine)
    (there : Dict.lookup k s.nodes ≡ some n) where
  counts :
      (f : TaskNode → ℕ) (m : TaskNode)
      → sum_of f (Dict.insert k m s.nodes) + f n ≡ sum_of f s.nodes + f m
  counts f m = sum_of-insert f k n m s.nodes there

  pub start-IsKept :
      is_pending n.status ≡ true
      → all (contains s.done) n.depends_on ≡ true
      → IsKept d s
      → IsKept d (start k n s)
  unfolding start
  start-IsKept p ok h =
      let m : TaskNode = record n { status = running } in
      record {
        agree = start-IsConsistent d k n s there p h.agree;
        due = insert-AreDue k n m s (start k n s) there refl (λ ps x. x) (λ x. ok) h.due;
        done_count = ground (arith, counts one_done m, h.done_count, p);
        lost_count = ground (arith, counts one_lost m, h.lost_count, p);
        same_keys = keys-insert k n m s.nodes there ∙ h.same_keys;
      }

  pub start-left : is_pending n.status ≡ true → left (start k n s) ≡ left s
  unfolding start
  start-left p = ground (arith, counts left_of (record n { status = running }), p)

  module _ (h : IsKept d s) where
    not_done : is_completed n.status ≡ false → contains s.done k ≡ false
    not_done q = (rw there at (h.agree k)).0 ∙ q

    not_lost : is_failed n.status ≡ false → contains s.lost k ≡ false
    not_lost q = (rw there at (h.agree k)).1 ∙ q

    pub complete-IsKept : (a : String) → is_running n.status ≡ true → IsKept d (complete k n a s)
    unfolding complete
    complete-IsKept a p =
        let m : TaskNode = record n { status = completed; outcome = some a } in
        record {
          agree = complete-IsConsistent d k n s there a p h.agree;
          due =
              insert-AreDue k n m s (complete k n a s) there refl
                (λ ps. all-contains-add k s.done ps) (λ x. h.due k n there (ground (arith, p)))
                h.due;
          done_count = ground (
            arith,
            counts one_done m,
            h.done_count,
            p,
            length-add k s.done (not_done (ground (arith, p))),
          );
          lost_count = ground (arith, counts one_lost m, h.lost_count, p);
          same_keys = keys-insert k n m s.nodes there ∙ h.same_keys;
        }

    pub retry-IsKept :
        (e : Fault)
        → is_running n.status ≡ true
        → ltb n.retry_count n.retry_limit ≡ true
        → IsKept d (retry k n e s)
    unfolding retry
    retry-IsKept e p q =
        let m : TaskNode = record n {
          status = pending;
          retry_count = n.retry_count + 1;
          error = some e;
        } in
        record {
          agree = retry-IsConsistent d k n s there e p q h.agree;
          due = insert-AreDue k n m s (retry k n e s) there refl (λ ps x. x) (λ x. cc x) h.due;
          done_count = ground (arith, counts one_done m, h.done_count, p);
          lost_count = ground (arith, counts one_lost m, h.lost_count, p);
          same_keys = keys-insert k n m s.nodes there ∙ h.same_keys;
        }

    pub fail-IsKept : (e : Fault) → is_running n.status ≡ true → IsKept d (fail k n e s)
    unfolding fail
    fail-IsKept e p =
        let m : TaskNode = record n { status = failed; error = some e } in
        record {
          agree = fail-IsConsistent d k n s there e p h.agree;
          due = insert-AreDue k n m s (fail k n e s) there refl (λ ps x. x) (λ x. cc x) h.due;
          done_count = ground (arith, counts one_done m, h.done_count, p);
          lost_count = ground (
            arith,
            counts one_lost m,
            h.lost_count,
            p,
            length-add k s.lost (not_lost (ground (arith, p))),
          );
          same_keys = keys-insert k n m s.nodes there ∙ h.same_keys;
        }

    pub abandon-IsKept : is_pending n.status ≡ true → IsKept d (abandon k n s)
    unfolding abandon
    abandon-IsKept p =
        let m : TaskNode = record n { status = failed } in
        record {
          agree = abandon-IsConsistent d k n s there p h.agree;
          due = insert-AreDue k n m s (abandon k n s) there refl (λ ps x. x) (λ x. cc x) h.due;
          done_count = ground (arith, counts one_done m, h.done_count, p);
          lost_count = ground (
            arith,
            counts one_lost m,
            h.lost_count,
            p,
            length-add k s.lost (not_lost (ground (arith, p))),
          );
          same_keys = keys-insert k n m s.nodes there ∙ h.same_keys;
        }

  pub complete-left : (a : String) → is_running n.status ≡ true → left (complete k n a s) < left s
  unfolding complete
  complete-left a p =
      ground (arith, counts left_of (record n { status = completed; outcome = some a }), p)

  pub retry-left :
      (e : Fault)
      → is_running n.status ≡ true
      → ltb n.retry_count n.retry_limit ≡ true
      → left (retry k n e s) < left s
  unfolding retry
  retry-left e p q =
      let m : TaskNode = record n {
        status = pending;
        retry_count = n.retry_count + 1;
        error = some e;
      } in
      ground (arith, counts left_of m, p, q)

  pub fail-left : (e : Fault) → is_running n.status ≡ true → left (fail k n e s) < left s
  unfolding fail
  fail-left e p = ground (arith, counts left_of (record n { status = failed; error = some e }), p)

  pub abandon-left : left (abandon k n s) ≤ left s
  unfolding abandon
  abandon-left = ground (arith, counts left_of (record n { status = failed }))
