-- ===== src/Windows/Lanes.antt =====
-- Which lane a turn serves.
use novamind.Prelude.{
  ℕ, String, ◌≡◌, ◌≢◌, refl, ◌∙◌, sym, Bool, true, false, Option, none, some, List, [], ◌∷◌, ◌==◌,
  eq_iff, Bool-cases, inl, inr,
}
use mathlib.Core.Path.{subst}
use novamind.Prelude.Dict
use novamind.Prelude.Dict.{Dict}
use novamind.Windows.{
  ScheduledIntent, ExecutionScheduler, Scan, scan, purge, choose, select_next_intent, execute, turn,
}

module _ (alive : String → Bool) (now : ℕ) (h : String) (live : alive h ≡ true) where
  scan-item :
      (x : ScheduledIntent) (q : List ScheduledIntent) (d : Dict (List ScheduledIntent))
      → Dict.lookup h d ≡ some (x ∷ q)
      → (scan alive now d).item ≢ none
  unfolding scan Dict.lookup
  scan-item x q [] e n = cc e
  scan-item x q ((j, []) ∷ d) e n = elim (Bool-cases (j == h)) [
    | inl f ↦ cc (rw f at e)
    | inr f ↦ scan-item x q d (rw f at e) n
  ]
  scan-item x q ((j, y ∷ p) ∷ d) e n = elim (Bool-cases (alive j)) [
    | inl f ↦ cc (rw f at n)
    | inr f ↦ elim (Bool-cases (j == h)) [
      | inl g ↦ cc (sym (subst (λ k. alive k ≡ false) ((eq_iff j h).0 g) f) ∙ live)
      | inr g ↦ scan-item x q d (rw g at e) (rw f at n)
    ]
  ]

module _ (gateway : ScheduledIntent → Option Bool) (now : ℕ) where
  execute-choose :
      (o : Option ScheduledIntent) (s : ExecutionScheduler)
      → o ≢ none
      → (execute gateway (choose now o s)).intent_queue ≡ s.intent_queue
  unfolding execute choose
  execute-choose none s n = absurd (n refl)
  execute-choose (some x) s n = refl

-- A turn at which the window `h` is alive and an item waits for it leaves the generic lane as it is:
-- nothing is taken from it and none of its items is aged, however long they have waited.
pub turn-starves :
    (alive : String → Bool) (gateway : ScheduledIntent → Option Bool) (now : ℕ) (h : String)
    (x : ScheduledIntent) (q : List ScheduledIntent) (s : ExecutionScheduler)
    → Dict.lookup h s.hwnd_queues ≡ some (x ∷ q)
    → alive h ≡ true
    → (turn alive gateway now s).intent_queue ≡ s.intent_queue
unfolding turn select_next_intent
turn-starves alive gateway now h x q s e live =
    let r : Scan = scan alive now s.hwnd_queues in
    execute-choose gateway now r.item (purge r s) (scan-item alive now h live x q s.hwnd_queues e)
