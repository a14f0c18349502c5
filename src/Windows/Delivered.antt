-- ===== src/Windows/Delivered.antt =====
-- No intent is lost, and none is handed over twice.
use novamind.Prelude.{
  ℕ, suc, ◌+◌, String, ◌≡◌, refl, Bool, Option, none, some, List, [], ◌∷◌, ◌++◌, map, ◌==◌,
  if◌then◌else◌, arith, Bool-cases, inl, inr,
}
use novamind.Prelude.Dict
use novamind.Prelude.Dict.{Dict}
use novamind.Windows.{
  ScheduledIntent, put, aged, refill, apply_queue_aging, Handoff, ExecutionScheduler, empty,
  queue_of, submit_intent, Scan, scan, cancelled, purge, take_generic, choose, select_next_intent,
  success_of, execute, turn, Call, submits, turns, run,
}

-- How often an intent is in a queue.
unfoldable pub occurs : String → List ScheduledIntent → ℕ
occurs id [] = 0
occurs id (x ∷ q) = if x.intent_id == id then suc (occurs id q) else occurs id q

-- How often it is in the queues of the windows.
unfoldable pub occurs_in : String → Dict (List ScheduledIntent) → ℕ
occurs_in id [] = 0
occurs_in id ((h, q) ∷ d) = occurs id q + occurs_in id d

-- How often it was handed to the verification.
unfoldable pub occurs_handed : String → List Handoff → ℕ
occurs_handed id [] = 0
occurs_handed id (x ∷ q) =
    if x.intent_id == id then suc (occurs_handed id q) else occurs_handed id q

-- How often it was submitted.
unfoldable pub submitted : String → List Call → ℕ
submitted id [] = 0
submitted id (submits h x ∷ cs) =
    if x.intent_id == id then suc (submitted id cs) else submitted id cs
submitted id (turns alive gateway now ∷ cs) = submitted id cs

-- The places in which an intent is.
abbrev pub present : String → ExecutionScheduler → ℕ
present id s = occurs id s.intent_queue + occurs_in id s.hwnd_queues + occurs_handed id s.handed

-- One more if the intent is the one in question.
abbrev one_if : String → ScheduledIntent → ℕ
one_if id x = if x.intent_id == id then 1 else 0

module _ (id : String) where
  occurs-put :
      (x : ScheduledIntent) (q : List ScheduledIntent)
      → occurs id (put x q) ≡ one_if id x + occurs id q
  unfolding occurs put
  occurs-put x [] = ground arith
  occurs-put x (y ∷ q) = ground (arith, occurs-put x q)

  occurs-refill :
      (xs q : List ScheduledIntent) → occurs id (refill xs q) ≡ occurs id xs + occurs id q
  unfolding occurs refill
  occurs-refill [] q = omega arith
  occurs-refill (x ∷ xs) q = ground (arith, occurs-refill xs (put x q), occurs-put x q)

  aged-intent_id : (now : ℕ) (x : ScheduledIntent) → (aged now x).intent_id ≡ x.intent_id
  aged-intent_id now x = ground arith

  occurs-map-aged :
      (now : ℕ) (q : List ScheduledIntent) → occurs id (map (aged now) q) ≡ occurs id q
  unfolding occurs
  occurs-map-aged now [] = refl
  occurs-map-aged now (x ∷ q) = rw (aged-intent_id now x, occurs-map-aged now q) refl

  occurs-aging :
      (now : ℕ) (q : List ScheduledIntent) → occurs id (apply_queue_aging now q) ≡ occurs id q
  unfolding apply_queue_aging occurs
  occurs-aging now q = omega (arith, occurs-refill (map (aged now) q) [], occurs-map-aged now q)

  occurs-append : (p q : List ScheduledIntent) → occurs id (p ++ q) ≡ occurs id p + occurs id q
  unfolding occurs
  occurs-append [] q = omega arith
  occurs-append (x ∷ p) q = ground (arith, occurs-append p q)

  occurs_handed-append :
      (p q : List Handoff) → occurs_handed id (p ++ q) ≡ occurs_handed id p + occurs_handed id q
  unfolding occurs_handed
  occurs_handed-append [] q = omega arith
  occurs_handed-append (x ∷ p) q = ground (arith, occurs_handed-append p q)

  occurs_handed-cancelled :
      (q : List ScheduledIntent) → occurs_handed id (map cancelled q) ≡ occurs id q
  unfolding occurs_handed occurs
  occurs_handed-cancelled [] = refl
  occurs_handed-cancelled (x ∷ q) = ground (arith, occurs_handed-cancelled q)

  occurs_in-insert :
      (h : String) (p : List ScheduledIntent) (d : Dict (List ScheduledIntent))
      → occurs_in id (Dict.insert h p d) + occurs id (queue_of (Dict.lookup h d))
        ≡ occurs id p + occurs_in id d
  unfolding occurs_in Dict.insert Dict.lookup occurs
  occurs_in-insert h p [] = omega arith
  occurs_in-insert h p ((j, q) ∷ d) = elim (Bool-cases (j == h)) [
    | inl f ↦ rw f (omega arith)
    | inr f ↦ rw f (omega (arith, occurs_in-insert h p d))
  ]

  occurs_item : Option ScheduledIntent → ℕ
  occurs_item none = 0
  occurs_item (some x) = one_if id x

  -- The loop over the windows keeps, takes or purges each item.
  scan_conserves :
      (alive : String → Bool) (now : ℕ) (d : Dict (List ScheduledIntent))
      → occurs_in id (scan alive now d).queues
          + occurs_item (scan alive now d).item
          + occurs id (scan alive now d).purged
        ≡ occurs_in id d
  unfolding scan occurs_in occurs occurs_item
  scan_conserves alive now [] = omega arith
  scan_conserves alive now ((h, []) ∷ d) = omega (arith, scan_conserves alive now d)
  scan_conserves alive now ((h, x ∷ q) ∷ d) = elim (Bool-cases (alive h)) [
    | inl f ↦ rw f (ground (arith, occurs-aging now q))
    | inr f ↦
        rw f (ground (arith, scan_conserves alive now d, occurs-append q (scan alive now d).purged))
  ]

  submit_intent-present :
      (o : Option String) (x : ScheduledIntent) (s : ExecutionScheduler)
      → present id (submit_intent o x s) ≡ one_if id x + present id s
  unfolding submit_intent
  submit_intent-present none x s = omega (arith, occurs-put x s.intent_queue)
  submit_intent-present (some h) x s =
      let q : List ScheduledIntent = queue_of (Dict.lookup h s.hwnd_queues) in
      omega (arith, occurs_in-insert h (put x q) s.hwnd_queues, occurs-put x q)

  take_generic_conserves :
      (now : ℕ) (q : List ScheduledIntent) (s : ExecutionScheduler)
      → occurs id s.intent_queue ≡ occurs id q
      → occurs_item (take_generic now q s).0 + present id (take_generic now q s).1 ≡ present id s
  unfolding take_generic occurs occurs_item
  take_generic_conserves now [] s e = omega arith
  take_generic_conserves now (x ∷ q) s e = ground (arith, e, occurs-aging now q)

  choose_conserves :
      (now : ℕ) (o : Option ScheduledIntent) (s : ExecutionScheduler)
      → occurs_item (choose now o s).0 + present id (choose now o s).1
        ≡ occurs_item o + present id s
  unfolding choose occurs_item
  choose_conserves now (some x) s = refl
  choose_conserves now none s = omega (arith, take_generic_conserves now s.intent_queue s refl)

  execute-present :
      (gateway : ScheduledIntent → Option Bool) (p : Option ScheduledIntent × ExecutionScheduler)
      → present id (execute gateway p) ≡ occurs_item p.0 + present id p.1
  unfolding execute occurs_item occurs_handed
  execute-present gateway (none, s) = omega arith
  execute-present gateway (some x, s) =
      let handoff : Handoff = record {
        intent_id = x.intent_id;
        dispatch_success = success_of (gateway x);
      } in
      omega (arith, occurs_handed-append s.handed (handoff ∷ []))

  turn-present :
      (alive : String → Bool) (gateway : ScheduledIntent → Option Bool) (now : ℕ)
      (s : ExecutionScheduler)
      → present id (turn alive gateway now s) ≡ present id s
  unfolding turn select_next_intent
  turn-present alive gateway now s =
      let r : Scan = scan alive now s.hwnd_queues in
      omega (
        arith,
        execute-present gateway (choose now r.item (purge r s)),
        choose_conserves now r.item (purge r s),
        scan_conserves alive now s.hwnd_queues,
        occurs_handed-append s.handed (map cancelled r.purged),
        occurs_handed-cancelled r.purged,
      )

  run-present_lem :
      (cs : List Call) (s : ExecutionScheduler)
      → present id (run cs s) ≡ submitted id cs + present id s
  unfolding run submitted
  run-present_lem [] s = omega arith
  run-present_lem (submits h x ∷ cs) s =
      ground (arith, run-present_lem cs (submit_intent h x s), submit_intent-present h x s)
  run-present_lem (turns alive gateway now ∷ cs) s =
      omega (arith, run-present_lem cs (turn alive gateway now s), turn-present alive gateway now s)

-- After any calls of submit_intent and any turns of the loop, whatever the clock, the windows and the
-- gateway answer, also when the gateway raises: each intent is in the queues and among the futures
-- handed to the verification, taken together, as often as it was submitted. So none is lost when a
-- window dies or a queue is aged, and none is dispatched or cancelled twice.
pub run-present : (id : String) (cs : List Call) → present id (run cs empty) ≡ submitted id cs
unfolding occurs occurs_in occurs_handed
run-present id cs = omega (arith, run-present_lem id cs empty)
