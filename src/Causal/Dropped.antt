-- ===== src/Causal/Dropped.antt =====
-- What `run_until_empty` dispatches when `dispatch_fn` raises.
use novamind.Prelude.{
  append_assoc, append-nil, ◌+◌, ℕ, zero, suc, String, ◌≡◌, refl, Bool, true, false, Option, some,
  List, [], ◌∷◌, ◌++◌, arith, sym, ap, ◌∙◌, eqb, not, ◌&&◌, Bool-cases, inl, inr,
}
use novamind.Prelude.Dict
use novamind.Causal.Sort.{clock_sort-nil}
use novamind.Causal.{
  ScheduledEvent, TraceEntry, Scheduler, run_cycle, run_until_empty, cycles, force, force_one,
  is_nil, get_ready_events, scan, clock_sort, dispatch_all, dispatch_one,
}

calls-force : (d : Dict.Dict ScheduledEvent) (s : Scheduler) → (force d s).calls ≡ s.calls
unfolding force
calls-force [] s = refl
calls-force ((k, e) ∷ d) s = calls-force d (force_one k e s)

none_ready :
    (done : List String) (d : Dict.Dict ScheduledEvent) (t : List TraceEntry)
    → is_nil d ≡ true
    → clock_sort (scan done d t).0 ≡ []
unfolding scan
none_ready done [] t h = clock_sort-nil
none_ready done (x ∷ d) t h = cc

all_done : (n : ℕ) (b : Bool) → n ≡ 0 → (eqb n 0 && not b) ≡ false → b ≡ true
all_done n b = ground arith

module _ (raises : ScheduledEvent → Option String)
    (fails : (e : ScheduledEvent) → (m : String) × (raises e ≡ some m)) where
  dispatch_one-fails :
      (e : ScheduledEvent) (n : ℕ) (s : Scheduler)
      → ((dispatch_one raises e (n, s)).0 ≡ n)
        × ((dispatch_one raises e (n, s)).1.calls ≡ s.calls ++ e ∷ [])
  unfolding dispatch_one
  dispatch_one-fails e n s = let (m, raised) = fails e in rw (raised, dispatch_one) (refl, refl)

  dispatch_all-fails :
      (es : List ScheduledEvent) (n : ℕ) (s : Scheduler)
      → ((dispatch_all raises es (n, s)).0 ≡ n)
        × ((dispatch_all raises es (n, s)).1.calls ≡ s.calls ++ es)
  unfolding dispatch_all
  dispatch_all-fails [] n s = (refl, sym (append-nil s.calls))
  dispatch_all-fails (e ∷ es) n s =
      let (same, called) = dispatch_one-fails e n s in
      let (same', called') =
        dispatch_all-fails es (dispatch_one raises e (n, s)).0 (dispatch_one raises e (n, s)).1 in
      (same' ∙ same, called' ∙ ap (λ l. l ++ es) called ∙ append_assoc s.calls (e ∷ []) es)

  calls-cycles_empty :
      (k t : ℕ) (s : Scheduler) → is_nil s.pending ≡ true → (cycles raises k t s).1.calls ≡ s.calls
  unfolding cycles
  calls-cycles_empty zero t s h = refl
  calls-cycles_empty (suc k) t s h = rw (h, cycles) refl

  -- If `dispatch_fn` raises for every event, `run_until_empty` calls it for the events that are ready at
  -- the start and for no other, however many cycles are allowed: all that waits for those is given up.
  pub run_until_empty-fails :
      (k : ℕ) (s : Scheduler)
      → (run_until_empty raises (suc k) s).1.calls ≡ s.calls ++ (get_ready_events s).0
  unfolding run_until_empty cycles run_cycle get_ready_events
  run_until_empty-fails k s =
      let es : List ScheduledEvent = (get_ready_events s).0 in
      let (none_done, called) = dispatch_all-fails es 0 (get_ready_events s).1 in
      let s' : Scheduler = (run_cycle raises s).1 in
      elim (Bool-cases (is_nil s.pending)) [
        | inl empty ↦
            rw (empty, cycles)
              (sym (append-nil s.calls)
                ∙ ap (λ l. s.calls ++ l) (sym (none_ready s.completed s.pending s.trace empty)))
        | inr more ↦
            rw (more, cycles)
              (elim (Bool-cases (eqb (run_cycle raises s).0 0 && not (is_nil s'.pending))) [
                | inl stuck ↦ rw stuck (calls-force s'.pending s' ∙ called)
                | inr going ↦ rw going (
                    calls-cycles_empty k (0 + (run_cycle raises s).0) s'
                      (all_done (run_cycle raises s).0 (is_nil s'.pending) none_done going)
                    ∙ called)
              ])
      ]
