-- ===== src/Topology/Depth.antt =====
-- How deep a propagation goes, and when it ends.
use novamind.Prelude.{
  List-cases, ℕ, zero, suc, ◌+◌, ◌≤◌, ◌≡◌, ◌≢◌, refl, sym, ap, ◌∙◌, Bool, true, false, none, some,
  List, [], ◌∷◌, ◌++◌, contains, leb, if◌then◌else◌, arith, inl, inr,
}
use novamind.Topology.{
  returned, raised, waiting, lock, unlock, dispatch_locked, propagate, verification_event,
  lifecycle_event, execution_event, telemetry_event, runtime_event, Bus, scheduler_event,
  RuntimeEvent, Kind, lifecycle, execution, verification, telemetry, plain, scheduler, committed,
  Topology, Handler, Out, is_telemetry, then_call, finally, caught, emissions, deliver, dispatch,
  enter, leave, remember, commit, commit_unless_telemetry, storm_event, next_id, abort_storm,
  dead_event, enforce, body, route, emit_sync, type_of, max_propagation_depth,
}

-- The depth is `d`, and the verification lock is held or not.
abbrev pub IsAt : ℕ → Bool → Topology → Type 0
IsAt d v s = (s.depth ≡ d) × (s.verifying ≡ v)

-- The call returns or raises, at the depth `d` and with the lock as `v` says.
abbrev pub Back : ℕ → Bool → Out → Type 0
Back d v none = ⊥
Back d v (some (returned, s)) = IsAt d v s
Back d v (some (raised, s)) = IsAt d v s
Back d v (some (waiting, s)) = ⊥

-- The handlers emit nothing.
abbrev pub AreQuiet : List Handler → Type 0
AreQuiet [] = Unit
AreQuiet (h ∷ hs) = ((e : RuntimeEvent) → h e ≡ []) × AreQuiet hs

then_call-Back :
    (d : ℕ) (v : Bool) (o : Out) (f : Topology → Out)
    → Back d v o
    → ((t : Topology) → IsAt d v t → Back d v (f t))
    → Back d v (then_call o f)
then_call-Back d v none f h k = absurd h
then_call-Back d v (some (returned, t)) f h k = k t h
then_call-Back d v (some (raised, t)) f h k = h
then_call-Back d v (some (waiting, t)) f h k = absurd h

caught-Back :
    (d : ℕ) (v : Bool) (o : Out) (f : Topology → Out)
    → Back d v o
    → ((t : Topology) → IsAt d v t → Back d v (f t))
    → Back d v (caught o f)
caught-Back d v none f h k = absurd h
caught-Back d v (some (returned, t)) f h k = k t h
caught-Back d v (some (raised, t)) f h k = k t h
caught-Back d v (some (waiting, t)) f h k = absurd h

leave-Back : (d : ℕ) (v : Bool) (o : Out) → Back (d + 1) v o → Back d v (finally o leave)
leave-Back d v none h = absurd h
leave-Back d v (some (returned, t)) (h, l) = (omega (arith, h), l)
leave-Back d v (some (raised, t)) (h, l) = (omega (arith, h), l)
leave-Back d v (some (waiting, t)) h = absurd h

unlock-Back : (d : ℕ) (o : Out) → Back d true o → Back d false (finally o unlock)
unlock-Back d none h = absurd h
unlock-Back d (some (returned, t)) (h, l) = (h, refl)
unlock-Back d (some (raised, t)) (h, l) = (h, refl)
unlock-Back d (some (waiting, t)) h = absurd h

either :
    (b : Bool) (d : ℕ) (v : Bool) (x y : Out)
    → (b ≡ true → Back d v x)
    → (b ≡ false → Back d v y)
    → Back d v (if b then x else y)
either true d v x y h k = h refl
either false d v x y h k = k refl

dispatch_quiet :
    (call : RuntimeEvent → Topology → Out) (e : RuntimeEvent) (d : ℕ) (v : Bool) (hs : List Handler)
    (s : Topology)
    → AreQuiet hs
    → IsAt d v s
    → Back d v (dispatch call e hs s)
unfolding dispatch emissions
dispatch_quiet call e d v [] s q h = h
dispatch_quiet call e d v (k ∷ hs) s (quiet, q) h =
    rw (quiet e) (dispatch_quiet call e d v hs (deliver e s) q h)

dispatch_locked-Back :
    (call : RuntimeEvent → Topology → Out) (e : RuntimeEvent) (d : ℕ) (hs : List Handler)
    (s : Topology)
    → AreQuiet hs
    → IsAt d false s
    → Back d false (dispatch_locked call e hs s)
unfolding dispatch_locked
dispatch_locked-Back call e d hs s q (h, free) =
    either s.verifying d false (some (waiting, s)) (finally (dispatch call e hs (lock s)) unlock)
      (λ held. absurd (true-false (sym held ∙ free)))
      (λ x.
        unlock-Back d (dispatch call e hs (lock s))
          (dispatch_quiet call e d true hs (lock s) q (h, refl)))
  where
    true-false : true ≡ false → ⊥
    true-false e = cc e

module _ (bus : Bus) where
  commit-Back :
      (e : RuntimeEvent) (d : ℕ) (v : Bool) (s : Topology) → IsAt d v s → Back d v (commit bus e s)
  unfolding commit
  commit-Back e d v s h =
      either (bus.works s.commits) d v
        (some (
          returned,
          record s { commits = s.commits + 1; trace = s.trace ++ committed e.event_id ∷ [] },
        ))
        (some (raised, record s { commits = s.commits + 1 })) (λ x. h) (λ x. h)

  abort_storm-Back :
      (call : RuntimeEvent → Topology → Out) (e : RuntimeEvent) (d : ℕ) (s : Topology)
      → AreQuiet (bus.handlers scheduler_event)
      → IsAt d false s
      → Back d false (abort_storm bus call e s)
  unfolding abort_storm
  abort_storm-Back call e d s q h =
      then_call-Back d false (commit bus (storm_event bus e s) (next_id s))
        (dispatch call (storm_event bus e s) (bus.handlers scheduler_event))
        (commit-Back (storm_event bus e s) d false (next_id s) h)
        (λ t k.
          dispatch_quiet call (storm_event bus e s) d false (bus.handlers scheduler_event) t q k)

  module _ (call : RuntimeEvent → Topology → Out) (d : ℕ)
      (back : (e : RuntimeEvent) (s : Topology) → IsAt d false s → Back d false (call e s)) where
    emissions-Back :
        (es : List RuntimeEvent) (s : Topology)
        → IsAt d false s
        → Back d false (emissions call es s)
    unfolding emissions
    emissions-Back [] s h = h
    emissions-Back (e ∷ es) s h =
        then_call-Back d false (call e s) (emissions call es) (back e s h)
          (λ t k. emissions-Back es t k)

    dispatch-Back :
        (e : RuntimeEvent) (hs : List Handler) (s : Topology)
        → IsAt d false s
        → Back d false (dispatch call e hs s)
    unfolding dispatch
    dispatch-Back e [] s h = h
    dispatch-Back e (k ∷ hs) s h =
        caught-Back d false (emissions call (k e) (deliver e s)) (dispatch call e hs)
          (emissions-Back (k e) (deliver e s) h) (λ t g. dispatch-Back e hs t g)

    propagate-Back :
        (e : RuntimeEvent) (k : Kind) (s : Topology)
        → AreQuiet (bus.handlers verification_event)
        → IsAt d false s
        → Back d false (propagate call e k (bus.handlers (type_of k)) s)
    unfolding propagate
    propagate-Back e verification s q h =
        dispatch_locked-Back call e d (bus.handlers verification_event) s q h
    propagate-Back e (lifecycle b w) s q h = dispatch-Back e (bus.handlers lifecycle_event) s h
    propagate-Back e execution s q h = dispatch-Back e (bus.handlers execution_event) s h
    propagate-Back e telemetry s q h = dispatch-Back e (bus.handlers telemetry_event) s h
    propagate-Back e plain s q h = dispatch-Back e (bus.handlers runtime_event) s h
    propagate-Back e (scheduler a) s q h = dispatch-Back e (bus.handlers scheduler_event) s h

    enforce-Back :
        (e : RuntimeEvent) (k : Kind) (s : Topology)
        → IsAt d false s
        → Back d false (enforce bus call e k s)
    unfolding enforce
    enforce-Back e (lifecycle true hwnd) s h =
        either bus.has_scheduler d false (call (dead_event bus hwnd e s) (next_id s))
          (some (returned, s)) (λ x. back (dead_event bus hwnd e s) (next_id s) h) (λ x. h)
    enforce-Back e (lifecycle false hwnd) s h = h
    enforce-Back e execution s h = h
    enforce-Back e verification s h = h
    enforce-Back e telemetry s h = h
    enforce-Back e plain s h = h
    enforce-Back e (scheduler a) s h = h

    body-Back :
        (e : RuntimeEvent) (s : Topology)
        → AreQuiet (bus.handlers verification_event)
        → IsAt d false s
        → Back d false (body bus call e s)
    unfolding body commit_unless_telemetry remember
    body-Back e s q h =
        then_call-Back d false (commit_unless_telemetry bus e s) _
          (either (is_telemetry e.kind) d false (some (returned, s)) (commit bus e s) (λ x. h)
            (λ x. commit-Back e d false s h))
          (λ s1 h1.
            then_call-Back d false (enforce bus call e e.kind s1) _ (enforce-Back e e.kind s1 h1)
              (λ s2 h2.
                then_call-Back d false (propagate call e e.kind (bus.handlers (type_of e.kind)) s2)
                  _ (propagate-Back e e.kind s2 q h2) (λ s3 h3. h3)))

  module _ (quiet : AreQuiet (bus.handlers scheduler_event))
      (calm : AreQuiet (bus.handlers verification_event)) where
    emit_sync-Back :
        (fuel d : ℕ) (e : RuntimeEvent) (s : Topology)
        → 1 ≤ fuel
        → 6 ≤ fuel + d
        → IsAt d false s
        → Back d false (emit_sync bus fuel e s)
    unfolding emit_sync route
    emit_sync-Back zero d e s pos enough h = absurd (omega (arith, pos))
    emit_sync-Back (suc fuel) d e s pos enough (h, free) =
        let call : RuntimeEvent → Topology → Out = emit_sync bus fuel in
        let inside : Out = finally (body bus call e (enter e s)) leave in
        either (leb max_propagation_depth s.depth) d false (abort_storm bus call e s)
          (if contains s.seen_ids e.event_id then some (returned, s) else inside)
          (λ x. abort_storm-Back call e d s quiet (h, free))
          (λ x.
            either (contains s.seen_ids e.event_id) d false (some (returned, s)) inside
              (λ y. (h, free))
              (λ y. leave-Back d false (body bus call e (enter e s)) (
                body-Back call (d + 1)
                  (λ e' s' h'.
                    emit_sync-Back fuel (d + 1) e' s' (ground (arith, x, enough, h))
                      (omega (arith, enough)) h')
                  e (enter e s) calm (ap (λ n. n + 1) h, free))))

-- If the handlers of scheduler events and those of verification events emit nothing, then `emit_sync`
-- on an event at the depth 0, with the verification lock free, ends whatever the other handlers emit
-- and whichever commits fail: it returns or raises with six calls of it open at most, back at the
-- depth 0 and with the lock free.
pub emit_sync-Back_quiet :
    (bus : Bus) (e : RuntimeEvent) (s : Topology)
    → AreQuiet (bus.handlers scheduler_event)
    → AreQuiet (bus.handlers verification_event)
    → s.depth ≡ 0
    → s.verifying ≡ false
    → Back 0 false (emit_sync bus 6 e s)
emit_sync-Back_quiet bus e s quiet calm h free =
    emit_sync-Back bus quiet calm 6 0 e s (omega arith) (omega arith) (h, free)

module _ (bus : Bus) (k : Handler) (ks : List Handler)
    (first : bus.handlers scheduler_event ≡ k ∷ ks) where
  dispatch_storm :
      (call : RuntimeEvent → Topology → Out) (a e : RuntimeEvent) (es : List RuntimeEvent)
      (s : Topology)
      → k a ≡ e ∷ es
      → ((t : Topology) → t.depth ≡ s.depth → call e t ≡ none)
      → dispatch call a (bus.handlers scheduler_event) s ≡ none
  unfolding dispatch emissions
  dispatch_storm call a e es s emits stuck =
      ap (λ hs. dispatch call a hs s) first
      ∙ ap (λ l. caught (emissions call l (deliver a s)) (dispatch call a ks)) emits
      ∙ ap (λ o. caught (then_call o (emissions call es)) (dispatch call a ks))
          (stuck (deliver a s) refl)

-- If the first handler of scheduler events emits something for every event, and all commits succeed,
-- then `emit_sync` at the greatest depth opens more calls of itself than any number given: the abort of
-- a storm is delivered at that depth, so that what the handler emits meets the guard again, and only the
-- interpreter's limit on open calls, which is not modelled, stops it.
pub emit_sync-storm :
    (bus : Bus) (k : Handler) (ks : List Handler) (fuel : ℕ) (e : RuntimeEvent) (s : Topology)
    → bus.handlers scheduler_event ≡ k ∷ ks
    → ((a : RuntimeEvent) → k a ≢ [])
    → ((n : ℕ) → bus.works n ≡ true)
    → 5 ≤ s.depth
    → emit_sync bus fuel e s ≡ none
unfolding emit_sync route abort_storm commit
emit_sync-storm bus k ks zero e s first emits works deep = refl
emit_sync-storm bus k ks (suc fuel) e s first emits works deep =
    let a : RuntimeEvent = storm_event bus e s in
    elim (List-cases (k a)) [
      | inl nothing ↦ absurd (emits a nothing)
      | inr (x, xs, some_event) ↦
          let stop : leb max_propagation_depth s.depth ≡ true = ground (arith, deep) in
          rw stop (
            rw (works s.commits) (
              dispatch_storm bus k ks first (emit_sync bus fuel) a x xs
                (record (next_id s) {
                  commits = s.commits + 1;
                  trace = s.trace ++ committed a.event_id ∷ [];
                })
                some_event
                (λ t same.
                  emit_sync-storm bus k ks fuel x t first emits works (omega (arith, same, deep)))))
    ]
