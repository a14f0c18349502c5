-- ===== src/Causal/Drain.antt =====
-- How a run of `run_until_empty` ends: what is pending, and what is known.
use novamind.Prelude.{
  add, contains-add, ℕ, zero, suc, ◌+◌, ◌≤◌, ◌<◌, String, ◌≡◌, refl, ◌∙◌, ap, true, false, not,
  ◌&&◌, ◌||◌, Option, List, [], ◌∷◌, arith, eq_refl, all, contains, eqb, length, Bool-cases, inl,
  inr,
}
use mathlib.Core.Path.{subst}
use novamind.Prelude.Dict
use novamind.Prelude.Dict.{
  Dict, Entries, Entries-remove, Entries-insert, length-insert-le, has-remove, has-insert,
  length-remove-le, length-remove-lt, nil_of_has,
}
use novamind.Causal.Sort.{all-clock_sort}
use novamind.Causal.Known.{Keyed, known, submit_all_lem, all_submitted}
use novamind.Causal.{
  ScheduledEvent, TraceEntry, Scheduler, clock_sort, scan, get_ready_events, unresolved, is_nil,
  dispatch_one, dispatch_all, run_cycle, force, force_one, cycles, run_until_empty, Submission,
  submit_all, fresh,
}

all-scan-has :
    (done : List String) (d all_of : Dict ScheduledEvent) (t : List TraceEntry)
    → Keyed d
    → ((j : String) → Dict.has j d ≡ true → Dict.has j all_of ≡ true)
    → all (λ e. Dict.has e.event_id all_of) (scan done d t).0 ≡ true
unfolding scan Dict.has
all-scan-has done [] u t k sub = refl
all-scan-has done ((i, e) ∷ d) u t k sub =
    let rest : (t' : List TraceEntry)
        → all (λ e'. Dict.has e'.event_id u) (scan done d t').0 ≡ true =
      λ t'. all-scan-has done d u t' k.1 (λ j h. sub j (ground (arith, h))) in
    let here : Dict.has e.event_id u ≡ true =
      subst (λ j. Dict.has j u ≡ true) k.0 (sub i (ground (arith, eq_refl i))) in
    elim (Bool-cases (is_nil (unresolved done e))) [
      | inl free ↦ rw free (ground (arith, here, rest t))
      | inr held ↦ rw held (rest _)
    ]

force_lem :
    (j : String) (d : Dict ScheduledEvent) (s : Scheduler)
    → (Dict.has j (force d s).pending ≡ (not (Dict.has j d) && Dict.has j s.pending))
      × (contains (force d s).completed j ≡ (contains s.completed j || Dict.has j d))
unfolding force Dict.has
force_lem j [] s = ground arith
force_lem j ((k, e) ∷ d) s =
    ground (
      arith,
      force_lem j d (force_one k e s),
      has-remove k j s.pending,
      contains-add k s.completed j,
    )

pending-force : (s : Scheduler) → (force s.pending s).pending ≡ []
pending-force s =
    nil_of_has (force s.pending s).pending (λ j. ground (arith, force_lem j s.pending s))

known-force : (j : String) (s : Scheduler) → known j s ≡ true → known j (force s.pending s) ≡ true
known-force j s h = ground (arith, force_lem j s.pending s)

module _ (raises : ScheduledEvent → Option String) where
  -- One dispatch removes the event, whether `dispatch_fn` raises or not.
  dispatch_one_lem :
      (e : ScheduledEvent) (n : ℕ) (s : Scheduler)
      → ((dispatch_one raises e (n, s)).1.pending ≡ Dict.remove e.event_id s.pending)
        × ((dispatch_one raises e (n, s)).0 ≤ n + 1)
        × ((dispatch_one raises e (n, s)).1.completed ≡ add e.event_id s.completed)
  unfolding dispatch_one
  dispatch_one_lem e n s = ground arith

  dispatch_all_lem :
      (es : List ScheduledEvent) (n : ℕ) (s : Scheduler)
      → Keyed s.pending
      → Keyed (dispatch_all raises es (n, s)).1.pending
        × (length (dispatch_all raises es (n, s)).1.pending ≤ length s.pending)
        × ((dispatch_all raises es (n, s)).0 ≤ n + length es)
  unfolding dispatch_all
  dispatch_all_lem [] n s k = (k, omega arith, omega arith)
  dispatch_all_lem (e ∷ es) n s k =
      let (p, le, c) = dispatch_one_lem e n s in
      let (k', le', n') =
        dispatch_all_lem es (dispatch_one raises e (n, s)).0 (dispatch_one raises e (n, s)).1
          (rw p (Entries-remove (λ i f. i ≡ f.event_id) e.event_id s.pending k)) in
      (k', omega (arith, ap length p, length-remove-le e.event_id s.pending), omega arith)

  dispatch_all-known :
      (j : String) (es : List ScheduledEvent) (n : ℕ) (s : Scheduler)
      → known j s ≡ true
      → known j (dispatch_all raises es (n, s)).1 ≡ true
  unfolding dispatch_all
  dispatch_all-known j [] n s h = h
  dispatch_all-known j (e ∷ es) n s h =
      let (p, le, c) = dispatch_one_lem e n s in
      dispatch_all-known j es (dispatch_one raises e (n, s)).0 (dispatch_one raises e (n, s)).1 (
        rw (p, c)
          (ground
            (arith, has-remove e.event_id j s.pending, contains-add e.event_id s.completed j)))

  -- If something is dispatched, less is pending.
  shrinks :
      (es : List ScheduledEvent) (s : Scheduler)
      → Keyed s.pending
      → all (λ e. Dict.has e.event_id s.pending) es ≡ true
      → 0 < length es
      → length (dispatch_all raises es (0, s)).1.pending < length s.pending
  unfolding dispatch_all
  shrinks [] s k h pos = absurd (omega arith)
  shrinks (e ∷ es) s k h pos =
      let (p, le, c) = dispatch_one_lem e 0 s in
      let (k', le', n') =
        dispatch_all_lem es (dispatch_one raises e (0, s)).0 (dispatch_one raises e (0, s)).1
          (rw p (Entries-remove (λ i f. i ≡ f.event_id) e.event_id s.pending k)) in
      let here : Dict.has e.event_id s.pending ≡ true = ground arith in
      omega (arith, ap length p, length-remove-lt e.event_id s.pending here)

  run_cycle_lem :
      (s : Scheduler)
      → Keyed s.pending
      → Keyed (run_cycle raises s).1.pending
        × (length (run_cycle raises s).1.pending ≤ length s.pending)
        × (0 < (run_cycle raises s).0 → length (run_cycle raises s).1.pending < length s.pending)
  unfolding run_cycle get_ready_events
  run_cycle_lem s k =
      let es : List ScheduledEvent = clock_sort (scan s.completed s.pending s.trace).0 in
      let s' : Scheduler = (get_ready_events s).1 in
      let present : all (λ e. Dict.has e.event_id s.pending) es ≡ true =
        all-clock_sort (λ e. Dict.has e.event_id s.pending) (scan s.completed s.pending s.trace).0
        ∙ all-scan-has s.completed s.pending s.pending s.trace k (λ j h. h) in
      let (k', le, n) = dispatch_all_lem es 0 s' k in
      (k', le, λ pos. shrinks es s' k present (omega arith))

  run_cycle-known :
      (j : String) (s : Scheduler) → known j s ≡ true → known j (run_cycle raises s).1 ≡ true
  unfolding run_cycle get_ready_events
  run_cycle-known j s h =
      dispatch_all-known j (clock_sort (scan s.completed s.pending s.trace).0) 0
        (get_ready_events s).1 h

  nil_of_is_nil : {V : Type 0} (l : List V) → is_nil l ≡ true → l ≡ []
  nil_of_is_nil [] h = refl
  nil_of_is_nil (x ∷ l) h = cc

  nil_of_length : {V : Type 0} (l : List V) → length l ≤ 0 → l ≡ []
  nil_of_length [] h = refl
  nil_of_length (x ∷ l) h = absurd (omega arith)

  measure :
      (l : Dict ScheduledEvent) (n p k : ℕ)
      → (0 < n → length l < p)
      → p ≤ suc k
      → (eqb n 0 && not (is_nil l)) ≡ false
      → length l ≤ k
  measure [] n p k less le h = omega arith
  measure (x ∷ l) zero p k less le h = cc
  measure (x ∷ l) (suc n) p k less le h = omega arith

  cycles_lem :
      (j : String) (k total : ℕ) (s : Scheduler)
      → Keyed s.pending
      → length s.pending ≤ k
      → ((cycles raises k total s).1.pending ≡ [])
        × (known j s ≡ true → known j (cycles raises k total s).1 ≡ true)
  unfolding cycles
  cycles_lem j zero total s keyed le = (nil_of_length s.pending le, λ h. h)
  cycles_lem j (suc k) total s keyed le = elim (Bool-cases (is_nil s.pending)) [
    | inl over ↦ rw (over, cycles) (nil_of_is_nil s.pending over, λ h. h)
    | inr more ↦
        rw (more, cycles)
          (let (n, s') = run_cycle raises s in
            let (keyed', le', less) = run_cycle_lem s keyed in
            elim (Bool-cases (eqb n 0 && not (is_nil s'.pending))) [
              | inl stuck ↦
                  rw stuck (pending-force s', λ h. known-force j s' (run_cycle-known j s h))
              | inr going ↦ rw going (
                  let (empty, keeps) =
                    cycles_lem j k (total + n) s' keyed'
                      (measure s'.pending n (length s.pending) k less le going) in
                  (empty, λ h. keeps (run_cycle-known j s h)))
            ])
  ]

-- On a fresh scheduler, if `max_cycles` is at least the number of calls of `submit`, then after
-- those calls `run_until_empty` ends with nothing pending and with every submitted id completed,
-- whatever `dispatch_fn` raises and whatever the parents are (missing or cyclic ones included).
pub run_until_empty-drains :
    (raises : ScheduledEvent → Option String) (l : List Submission) (clock epoch max_cycles : ℕ)
    → length l ≤ max_cycles
    → ((run_until_empty raises max_cycles (submit_all l (fresh clock epoch))).1.pending ≡ [])
      × (all
            (λ x.
              contains
                (run_until_empty raises max_cycles (submit_all l (fresh clock epoch))).1.completed
                x.id)
            l
          ≡ true)
unfolding run_until_empty Dict.has
run_until_empty-drains raises l clock epoch k le =
    let s : Scheduler = fresh clock epoch in
    let ended : (j : String)
        → ((cycles raises k 0 (submit_all l s)).1.pending ≡ [])
          × (known j (submit_all l s) ≡ true
              → known j (cycles raises k 0 (submit_all l s)).1 ≡ true) =
      λ j.
        let (keyed, few, keeps) = submit_all_lem j l s tt in
        cycles_lem raises j k 0 (submit_all l s) keyed (omega arith) in
    let empty : (cycles raises k 0 (submit_all l s)).1.pending ≡ [] = (ended "").0 in
    (
      empty,
      all_submitted (contains (cycles raises k 0 (submit_all l s)).1.completed) l s tt
          (λ j h. rw empty at ((ended j).1 h)),
    )
