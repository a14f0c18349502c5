-- ===== src/Causal/Order.antt =====
-- The order of the events that `run_until_empty` dispatches, and their causal parents.
use novamind.Prelude.{
  add, all-contains-add, ℕ, zero, suc, ◌+◌, String, ◌≡◌, refl, sym, ◌∙◌, Bool, true, not, ◌&&◌,
  Option, List, [], ◌∷◌, ◌++◌, arith, all, contains, keep_if, eqb, Bool-cases, inl, inr,
}
use mathlib.Core.List.{append-nil, append_assoc}
use mathlib.Core.Path.{subst}
use novamind.Prelude.Dict.{Dict}
use novamind.Causal.Sort.{all-clock_sort}
use novamind.Causal.{
  ScheduledEvent, TraceEntry, Scheduler, clock_sort, scan, get_ready_events, unresolved, is_nil,
  dispatch_one, dispatch_all, run_cycle, force, cycles, run_until_empty,
}

-- Each event of the list has its parents among `done` and the events before it.
abbrev pub IsCausal : List String → List ScheduledEvent → Type 0
IsCausal done [] = Unit
IsCausal done (e ∷ l) =
    (all (contains done) e.causal_parents ≡ true) × IsCausal (add e.event_id done) l

abbrev pub adds : List ScheduledEvent → List String → List String
adds [] done = done
adds (e ∷ l) done = adds l (add e.event_id done)

abbrev settled : List String → ScheduledEvent → Bool
settled done e = all (contains done) e.causal_parents

is_nil-unresolved :
    (done ps : List String)
    → is_nil (keep_if (λ p. not (contains done p)) ps) ≡ all (contains done) ps
is_nil-unresolved done [] = refl
is_nil-unresolved done (p ∷ ps) = ground (arith, is_nil-unresolved done ps)

all-scan :
    (done : List String) (d : Dict ScheduledEvent) (t : List TraceEntry)
    → all (settled done) (scan done d t).0 ≡ true
unfolding scan
all-scan done [] t = refl
all-scan done ((k, e) ∷ d) t = elim (Bool-cases (is_nil (unresolved done e))) [
  | inl free ↦ rw free (ground (arith, is_nil-unresolved done e.causal_parents, all-scan done d t))
  | inr held ↦ rw held (all-scan done d _)
]

settled-add :
    (x : String) (done : List String) (l : List ScheduledEvent)
    → all (settled done) l ≡ true
    → all (settled (add x done)) l ≡ true
settled-add x done [] h = refl
settled-add x done (e ∷ l) h =
    ground (arith, all-contains-add x done e.causal_parents, settled-add x done l)

settled-IsCausal :
    (done : List String) (l : List ScheduledEvent) → all (settled done) l ≡ true → IsCausal done l
settled-IsCausal done [] h = tt
settled-IsCausal done (e ∷ l) h = (
  ground arith,
  settled-IsCausal (add e.event_id done) l (settled-add e.event_id done l (ground arith)),
)

IsCausal-append :
    (done : List String) (xs ys : List ScheduledEvent)
    → IsCausal done xs
    → IsCausal (adds xs done) ys
    → IsCausal done (xs ++ ys)
IsCausal-append done [] ys h k = k
IsCausal-append done (x ∷ xs) ys h k = (h.0, IsCausal-append (add x.event_id done) xs ys h.1 k)

adds-append :
    (xs ys : List ScheduledEvent) (done : List String)
    → adds (xs ++ ys) done ≡ adds ys (adds xs done)
adds-append [] ys done = refl
adds-append (x ∷ xs) ys done = adds-append xs ys (add x.event_id done)

module _ (raises : ScheduledEvent → Option String) where
  dispatch_one_lem :
      (e : ScheduledEvent) (n : ℕ) (s : Scheduler)
      → ((dispatch_one raises e (n, s)).1.calls ≡ s.calls ++ e ∷ [])
        × ((dispatch_one raises e (n, s)).1.completed ≡ add e.event_id s.completed)
  unfolding dispatch_one
  dispatch_one_lem e n s = ground arith

  dispatch_all_lem :
      (es : List ScheduledEvent) (n : ℕ) (s : Scheduler)
      → ((dispatch_all raises es (n, s)).1.calls ≡ s.calls ++ es)
        × ((dispatch_all raises es (n, s)).1.completed ≡ adds es s.completed)
  unfolding dispatch_all
  dispatch_all_lem [] n s = (sym (append-nil s.calls), refl)
  dispatch_all_lem (e ∷ es) n s =
      let (n', s') = dispatch_one raises e (n, s) in
      let (c, d) = dispatch_one_lem e n s in
      let (c', d') = dispatch_all_lem es n' s' in
      (rw (c', c) (append_assoc s.calls (e ∷ []) es), rw (d', d))

  -- What the scheduler has dispatched since the events `done` were completed.
  record Follows (done : List String) (s : Scheduler) : Type 0 where
    causal : IsCausal done s.calls
    same : s.completed ≡ adds s.calls done

  run_cycle-Follows :
      (done : List String) (s : Scheduler) → Follows done s → Follows done (run_cycle raises s).1
  unfolding run_cycle get_ready_events
  run_cycle-Follows done s f =
      let ready : List ScheduledEvent = clock_sort (scan s.completed s.pending s.trace).0 in
      let (c, d) = dispatch_all_lem ready 0 (get_ready_events s).1 in
      let settled_ready : IsCausal s.completed ready = settled-IsCausal s.completed ready (
        all-clock_sort (settled s.completed) (scan s.completed s.pending s.trace).0
        ∙ all-scan s.completed s.pending s.trace) in
      record {
        causal = rw c (
            IsCausal-append done s.calls ready f.causal
              (subst (λ l. IsCausal l ready) f.same settled_ready));
        same = cc (d, c, adds-append s.calls ready done, f.same);
      }

  calls-force : (d : Dict ScheduledEvent) (s : Scheduler) → (force d s).calls ≡ s.calls
  unfolding force
  calls-force [] s = refl
  calls-force ((k, e) ∷ d) s = calls-force d _

  cycles-IsCausal :
      (done : List String) (k total : ℕ) (s : Scheduler)
      → Follows done s
      → IsCausal done (cycles raises k total s).1.calls
  unfolding cycles
  cycles-IsCausal done zero total s f = f.causal
  cycles-IsCausal done (suc k) total s f = elim (Bool-cases (is_nil s.pending)) [
    | inl over ↦ rw (over, cycles) f.causal
    | inr more ↦
        rw (more, cycles)
          (let (n, s') = run_cycle raises s in
            let f' = run_cycle-Follows done s f in
            elim (Bool-cases (eqb n 0 && not (is_nil s'.pending))) [
              | inl stuck ↦ rw stuck (rw (calls-force s'.pending s') f'.causal)
              | inr going ↦ rw going (cycles-IsCausal done k (total + n) s' f')
            ])
  ]

-- Whatever is pending and whatever `dispatch_fn` raises: from a scheduler that has dispatched
-- nothing yet, `run_until_empty` dispatches each event only after each of its causal parents was
-- completed before the run or dispatched earlier in it.
pub run_until_empty-IsCausal :
    (raises : ScheduledEvent → Option String) (max_cycles : ℕ) (s : Scheduler)
    → s.calls ≡ []
    → IsCausal s.completed (run_until_empty raises max_cycles s).1.calls
unfolding run_until_empty
run_until_empty-IsCausal raises k s none_yet =
    cycles-IsCausal raises s.completed k 0 s
      (record { causal = rw none_yet tt; same = rw none_yet })
