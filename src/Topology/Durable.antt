-- ===== src/Topology/Durable.antt =====
-- No event is delivered before it is in the journal.
use novamind.Prelude.{
  ℕ, zero, suc, String, ◌≡◌, refl, ap, ◌∙◌, Bool, true, false, ◌&&◌, ◌||◌, none, some, List, [],
  ◌∷◌, ◌++◌, contains, leb, if◌then◌else◌, ◌==◌, arith, Bool-cases, inl, inr, eq_refl,
}
use mathlib.Core.Path.{subst}
use novamind.Topology.{
  Ending, returned, raised, waiting, lock, unlock, dispatch_locked, propagate, Bus, scheduler_event,
  RuntimeEvent, Kind, lifecycle, execution, verification, telemetry, plain, scheduler, Mark,
  committed, delivered, Topology, Handler, Out, is_telemetry, then_call, finally, caught, emissions,
  deliver, dispatch, enter, leave, remember, commit, commit_unless_telemetry, storm_event, next_id,
  abort_storm, dead_event, enforce, body, route, emit_sync, type_of, max_propagation_depth,
}

-- Each delivered event that is no telemetry was committed before, in the trace or among `done`.
unfoldable pub durable : List String → List Mark → Bool
durable done [] = true
durable done (committed i ∷ t) = durable (i ∷ done) t
durable done (delivered e ∷ t) = (is_telemetry e.kind || contains done e.event_id) && durable done t

unfoldable pub committed_in : String → List Mark → Bool
committed_in i [] = false
committed_in i (committed j ∷ t) = j == i || committed_in i t
committed_in i (delivered e ∷ t) = committed_in i t

durable-committed :
    (done : List String) (t : List Mark) (i : String)
    → durable done (t ++ committed i ∷ []) ≡ durable done t
unfolding durable
durable-committed done [] i = refl
durable-committed done (committed j ∷ t) i = durable-committed (j ∷ done) t i
durable-committed done (delivered e ∷ t) i = rw (durable-committed done t i) refl

durable-delivered :
    (done : List String) (t : List Mark) (e : RuntimeEvent)
    → (is_telemetry e.kind || (contains done e.event_id || committed_in e.event_id t)) ≡ true
    → durable done t ≡ true
    → durable done (t ++ delivered e ∷ []) ≡ true
unfolding durable committed_in
durable-delivered done [] e h d = ground (arith, h)
durable-delivered done (committed j ∷ t) e h d =
    durable-delivered (j ∷ done) t e (ground (arith, h)) d
durable-delivered done (delivered f ∷ t) e h d = ground (arith, d, durable-delivered done t e h)

committed_in-committed :
    (i j : String) (t : List Mark)
    → committed_in i (t ++ committed j ∷ []) ≡ (committed_in i t || j == i)
unfolding committed_in
committed_in-committed i j [] = ground arith
committed_in-committed i j (committed k ∷ t) = ground (arith, committed_in-committed i j t)
committed_in-committed i j (delivered e ∷ t) = committed_in-committed i j t

committed_in-delivered :
    (i : String) (e : RuntimeEvent) (t : List Mark)
    → committed_in i (t ++ delivered e ∷ []) ≡ committed_in i t
unfolding committed_in
committed_in-delivered i e [] = refl
committed_in-delivered i e (committed k ∷ t) = rw (committed_in-delivered i e t) refl
committed_in-delivered i e (delivered f ∷ t) = committed_in-delivered i e t

-- The trace stays durable, and what was committed stays so.
pub record Grows (s s' : Topology) : Type 0 where
  pub keeps : durable [] s.trace ≡ true → durable [] s'.trace ≡ true
  pub stays : (i : String) → committed_in i s.trace ≡ true → committed_in i s'.trace ≡ true

abbrev pub OutGrows : Topology → Out → Type 0
OutGrows s none = Unit
OutGrows s (some (b, s')) = Grows s s'

-- The event may be delivered.
abbrev MayGo : RuntimeEvent → Topology → Type 0
MayGo e s = (is_telemetry e.kind || committed_in e.event_id s.trace) ≡ true

Grows-refl : (s : Topology) → Grows s s
Grows-refl s = record { keeps = λ x. x; stays = λ i x. x }

Grows-trans : (s t u : Topology) → Grows s t → Grows t u → Grows s u
Grows-trans s t u g h = record {
  keeps = λ x. h.keeps (g.keeps x);
  stays = λ i x. h.stays i (g.stays i x);
}

OutGrows-trans : (s t : Topology) (o : Out) → Grows s t → OutGrows t o → OutGrows s o
OutGrows-trans s t none g h = tt
OutGrows-trans s t (some (b, u)) g h = Grows-trans s t u g h

then_call-OutGrows :
    (s : Topology) (o : Out) (f : Topology → Out)
    → OutGrows s o
    → ((t : Topology) → o ≡ some (returned, t) → Grows s t → OutGrows t (f t))
    → OutGrows s (then_call o f)
then_call-OutGrows s none f g h = tt
then_call-OutGrows s (some (returned, t)) f g h = OutGrows-trans s t (f t) g (h t refl g)
then_call-OutGrows s (some (raised, t)) f g h = g
then_call-OutGrows s (some (waiting, t)) f g h = g

caught-OutGrows :
    (s : Topology) (o : Out) (f : Topology → Out)
    → OutGrows s o
    → ((t : Topology) → Grows s t → OutGrows t (f t))
    → OutGrows s (caught o f)
caught-OutGrows s none f g h = tt
caught-OutGrows s (some (returned, t)) f g h = OutGrows-trans s t (f t) g (h t g)
caught-OutGrows s (some (raised, t)) f g h = OutGrows-trans s t (f t) g (h t g)
caught-OutGrows s (some (waiting, t)) f g h = g

-- A change that leaves the trace alone.
finally-OutGrows :
    (s : Topology) (o : Out) (f : Topology → Topology)
    → ((t : Topology) → (f t).trace ≡ t.trace)
    → OutGrows s o
    → OutGrows s (finally o f)
finally-OutGrows s none f same g = tt
finally-OutGrows s (some (returned, t)) f same g = record {
  keeps = λ x. rw (same t) (g.keeps x);
  stays = λ i x. rw (same t) (g.stays i x);
}
finally-OutGrows s (some (raised, t)) f same g = record {
  keeps = λ x. rw (same t) (g.keeps x);
  stays = λ i x. rw (same t) (g.stays i x);
}
finally-OutGrows s (some (waiting, t)) f same g = g

either :
    (b : Bool) (s : Topology) (x y : Out)
    → OutGrows s x
    → OutGrows s y
    → OutGrows s (if b then x else y)
either true s x y g h = g
either false s x y g h = h

deliver-Grows : (e : RuntimeEvent) (s : Topology) → MayGo e s → Grows s (deliver e s)
deliver-Grows e s h = record {
  keeps = λ x. durable-delivered [] s.trace e (ground (arith, h)) x;
  stays = λ i x. committed_in-delivered i e s.trace ∙ x;
}

remember-Grows : (e : RuntimeEvent) (s : Topology) → Grows s (remember e s)
unfolding remember
remember-Grows e s = record { keeps = λ x. x; stays = λ i x. x }

module _ (call : RuntimeEvent → Topology → Out)
    (grows : (e : RuntimeEvent) (s : Topology) → OutGrows s (call e s)) where
  emissions-OutGrows : (es : List RuntimeEvent) (s : Topology) → OutGrows s (emissions call es s)
  unfolding emissions
  emissions-OutGrows [] s = Grows-refl s
  emissions-OutGrows (e ∷ es) s =
      then_call-OutGrows s (call e s) (emissions call es) (grows e s)
        (λ t r g. emissions-OutGrows es t)

  dispatch-OutGrows :
      (e : RuntimeEvent) (hs : List Handler) (s : Topology)
      → MayGo e s
      → OutGrows s (dispatch call e hs s)
  unfolding dispatch
  dispatch-OutGrows e [] s h = Grows-refl s
  dispatch-OutGrows e (k ∷ hs) s h =
      let g : Grows s (deliver e s) = deliver-Grows e s h in
      let o : Out = emissions call (k e) (deliver e s) in
      caught-OutGrows s o (dispatch call e hs)
        (OutGrows-trans s (deliver e s) o g (emissions-OutGrows (k e) (deliver e s)))
        (λ t r. dispatch-OutGrows e hs t (ground (arith, h, r.stays e.event_id)))

  dispatch_locked-OutGrows :
      (e : RuntimeEvent) (hs : List Handler) (s : Topology)
      → MayGo e s
      → OutGrows s (dispatch_locked call e hs s)
  unfolding dispatch_locked
  dispatch_locked-OutGrows e hs s h =
      let inside : Out = dispatch call e hs (lock s) in
      either s.verifying s (some (waiting, s)) (finally inside unlock) (Grows-refl s) (
        finally-OutGrows s inside unlock (λ t. refl)
          (OutGrows-trans s (lock s) inside (record { keeps = λ x. x; stays = λ i x. x })
            (dispatch-OutGrows e hs (lock s) h)))

  propagate-OutGrows :
      (e : RuntimeEvent) (k : Kind) (hs : List Handler) (s : Topology)
      → MayGo e s
      → OutGrows s (propagate call e k hs s)
  unfolding propagate
  propagate-OutGrows e verification hs s h = dispatch_locked-OutGrows e hs s h
  propagate-OutGrows e (lifecycle b w) hs s h = dispatch-OutGrows e hs s h
  propagate-OutGrows e execution hs s h = dispatch-OutGrows e hs s h
  propagate-OutGrows e telemetry hs s h = dispatch-OutGrows e hs s h
  propagate-OutGrows e plain hs s h = dispatch-OutGrows e hs s h
  propagate-OutGrows e (scheduler a) hs s h = dispatch-OutGrows e hs s h

  module _ (bus : Bus) where
    commit-OutGrows : (e : RuntimeEvent) (s : Topology) → OutGrows s (commit bus e s)
    unfolding commit
    commit-OutGrows e s = elim (Bool-cases (bus.works s.commits)) [
      | inl f ↦ rw f (record {
        keeps = λ x. durable-committed [] s.trace e.event_id ∙ x;
        stays = λ i x. ground (arith, committed_in-committed i e.event_id s.trace, x);
      })
      | inr f ↦ rw f (record { keeps = λ x. x; stays = λ i x. x })
    ]

    -- A commit that returns lets its event go.
    commit-MayGo :
        (e : RuntimeEvent) (s t : Topology) → commit bus e s ≡ some (returned, t) → MayGo e t
    unfolding commit
    commit-MayGo e s t h =
        ground (arith, h, committed_in-committed e.event_id e.event_id s.trace, eq_refl e.event_id)

    commit_unless-OutGrows :
        (e : RuntimeEvent) (s : Topology) → OutGrows s (commit_unless_telemetry bus e s)
    unfolding commit_unless_telemetry
    commit_unless-OutGrows e s =
        either (is_telemetry e.kind) s (some (returned, s)) (commit bus e s) (Grows-refl s)
          (commit-OutGrows e s)

    commit_unless-MayGo :
        (e : RuntimeEvent) (s t : Topology)
        → commit_unless_telemetry bus e s ≡ some (returned, t)
        → MayGo e t
    unfolding commit_unless_telemetry
    commit_unless-MayGo e s t h = unless (is_telemetry e.kind) refl h
      where
        unless :
            (b : Bool)
            → is_telemetry e.kind ≡ b
            → (if b then some (returned, s) else commit bus e s) ≡ some (returned, t)
            → MayGo e t
        unless true q x = ap (λ c. c || committed_in e.event_id t.trace) q
        unless false q x = commit-MayGo e s t x

    next_id-Grows : (s : Topology) → Grows s (next_id s)
    next_id-Grows s = record { keeps = λ x. x; stays = λ i x. x }

    abort_storm-OutGrows : (e : RuntimeEvent) (s : Topology) → OutGrows s (abort_storm bus call e s)
    unfolding abort_storm
    abort_storm-OutGrows e s =
        let a : RuntimeEvent = storm_event bus e s in
        let n : Topology = next_id s in
        then_call-OutGrows s (commit bus a n) (dispatch call a (bus.handlers scheduler_event))
          (OutGrows-trans s n (commit bus a n) (next_id-Grows s) (commit-OutGrows a n))
          (λ t r g. dispatch-OutGrows a (bus.handlers scheduler_event) t (commit-MayGo a n t r))

    enforce-OutGrows :
        (e : RuntimeEvent) (k : Kind) (s : Topology) → OutGrows s (enforce bus call e k s)
    unfolding enforce
    enforce-OutGrows e (lifecycle true hwnd) s =
        let next : Out = call (dead_event bus hwnd e s) (next_id s) in
        either bus.has_scheduler s next (some (returned, s))
          (OutGrows-trans s (next_id s) next (next_id-Grows s)
            (grows (dead_event bus hwnd e s) (next_id s)))
          (Grows-refl s)
    enforce-OutGrows e (lifecycle false hwnd) s = Grows-refl s
    enforce-OutGrows e execution s = Grows-refl s
    enforce-OutGrows e verification s = Grows-refl s
    enforce-OutGrows e telemetry s = Grows-refl s
    enforce-OutGrows e plain s = Grows-refl s
    enforce-OutGrows e (scheduler a) s = Grows-refl s

    body-OutGrows : (e : RuntimeEvent) (s : Topology) → OutGrows s (body bus call e s)
    unfolding body
    body-OutGrows e s =
        then_call-OutGrows s (commit_unless_telemetry bus e s) _ (commit_unless-OutGrows e s)
          (λ s1 r1 g1.
            then_call-OutGrows s1 (enforce bus call e e.kind s1) _ (enforce-OutGrows e e.kind s1)
              (λ s2 r2 g2.
                then_call-OutGrows s2 (propagate call e e.kind (bus.handlers (type_of e.kind)) s2) _
                  (propagate-OutGrows e e.kind (bus.handlers (type_of e.kind)) s2
                    (ground (arith, commit_unless-MayGo e s s1 r1, g2.stays e.event_id)))
                  (λ s3 r3 g3. remember-Grows e s3)))

    route-OutGrows : (e : RuntimeEvent) (s : Topology) → OutGrows s (route bus call e s)
    unfolding route
    route-OutGrows e s =
        let inside : Out = finally (body bus call e (enter e s)) leave in
        either (leb max_propagation_depth s.depth) s (abort_storm bus call e s)
          (if contains s.seen_ids e.event_id then some (returned, s) else inside)
          (abort_storm-OutGrows e s)
          (either (contains s.seen_ids e.event_id) s (some (returned, s)) inside (Grows-refl s) (
            finally-OutGrows s (body bus call e (enter e s)) leave (λ t. refl)
              (OutGrows-trans s (enter e s) (body bus call e (enter e s))
                (record { keeps = λ x. x; stays = λ i x. x }) (body-OutGrows e (enter e s)))))

module _ (bus : Bus) where
  pub emit_sync-OutGrows :
      (fuel : ℕ) (e : RuntimeEvent) (s : Topology) → OutGrows s (emit_sync bus fuel e s)
  unfolding emit_sync
  emit_sync-OutGrows zero e s = tt
  emit_sync-OutGrows (suc fuel) e s =
      route-OutGrows (emit_sync bus fuel) (emit_sync-OutGrows fuel) bus e s

-- Whatever the handlers emit, and whichever commits fail, by however many calls: from a state in whose
-- trace each delivered event that is no telemetry was committed before, `emit_sync` leads to such a
-- state, also when it raises or waits for the lock for good.
pub emit_sync-durable :
    (bus : Bus) (fuel : ℕ) (e : RuntimeEvent) (s t : Topology) (b : Ending)
    → durable [] s.trace ≡ true
    → emit_sync bus fuel e s ≡ some (b, t)
    → durable [] t.trace ≡ true
emit_sync-durable bus fuel e s t b d ran =
    (subst (OutGrows s) ran (emit_sync-OutGrows bus fuel e s)).keeps d
