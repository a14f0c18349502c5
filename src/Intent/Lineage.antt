-- ===== src/Intent/Lineage.antt =====
-- What the history of an intent's machine says about how it came to its state.
use novamind.Prelude.{
  String, ◌≡◌, refl, true, inl, inr, List, [], ◌∷◌, ◌++◌, arith, any-append, Bool-cases, ◌==◌,
}
use novamind.Intent.{
  State, created, queued, dispatched, running, verifying, completed, failed, compensating,
  compensated, aborted, rejected, orphaned, recovering, reconciled, value, mem, legal_transitions,
  Machine, new, transition, after, attempts,
}

-- `h` leads from CREATED to `s` by legal transitions only.
pub data Lineage : List State → State → Type 0 where
  start : Lineage (created ∷ []) created
  next :
      {h : List State} {s : State}
      → Lineage h s
      → (t : State) → mem t (legal_transitions s) ≡ true
      → Lineage (h ++ t ∷ []) t

after-Lineage :
    (m : Machine) (s : State)
    → Lineage m.history m.state
    → Lineage (after m (transition m s)).history (after m (transition m s)).state
unfolding transition
after-Lineage m s l = elim (Bool-cases (mem s (legal_transitions m.state))) [
  | inl e ↦ rw e (next l s e)
  | inr e ↦ rw e l
]

-- After any attempts, refused ones included, on a machine whose history leads from CREATED to its
-- state by legal transitions only, the history still does.
attempts-Lineage :
    (m : Machine) (l : List State)
    → Lineage m.history m.state
    → Lineage (attempts m l).history (attempts m l).state
unfolding attempts
attempts-Lineage m [] h = h
attempts-Lineage m (s ∷ l) h = attempts-Lineage (after m (transition m s)) l (after-Lineage m s h)

-- What a history must hold when its last state is `s`.
abbrev pub Evidence : List State → State → Type 0
Evidence h created = h ≡ created ∷ []
Evidence h running = mem running h ≡ true
Evidence h verifying = (mem running h ≡ true) × (mem verifying h ≡ true)
Evidence h completed = (mem running h ≡ true) × (mem verifying h ≡ true)
Evidence h orphaned = (mem running h ≡ true) × (mem orphaned h ≡ true)
Evidence h recovering = (mem running h ≡ true) × (mem orphaned h ≡ true) × (mem recovering h ≡ true)
Evidence h reconciled = (mem running h ≡ true) × (mem orphaned h ≡ true) × (mem recovering h ≡ true)
Evidence h rejected = h ≡ created ∷ rejected ∷ []
Evidence _ _ = Unit

mem-snoc : (s : State) (h : List State) (t : State) → mem s h ≡ true → mem s (h ++ t ∷ []) ≡ true
mem-snoc s h t e = ground (arith, any-append (λ u. value u == value s) h (t ∷ []))

mem-snoc_self :
    (h : List State) (t : State) → value t == value t ≡ true → mem t (h ++ t ∷ []) ≡ true
mem-snoc_self h t e = ground (arith, any-append (λ u. value u == value t) h (t ∷ []))

-- The states that the table lets into a given state.
module _ (s : State) where
  created_unreachable : mem created (legal_transitions s) ≡ true → ⊥
  unfolding legal_transitions
  created_unreachable e = ground arith

  to_verifying : mem verifying (legal_transitions s) ≡ true → s ≡ running
  unfolding legal_transitions
  to_verifying e = ground arith

  to_completed : mem completed (legal_transitions s) ≡ true → s ≡ verifying
  unfolding legal_transitions
  to_completed e = ground arith

  to_orphaned : mem orphaned (legal_transitions s) ≡ true → s ≡ running
  unfolding legal_transitions
  to_orphaned e = ground arith

  to_recovering : mem recovering (legal_transitions s) ≡ true → s ≡ orphaned
  unfolding legal_transitions
  to_recovering e = ground arith

  to_reconciled : mem reconciled (legal_transitions s) ≡ true → s ≡ recovering
  unfolding legal_transitions
  to_reconciled e = ground arith

  to_rejected : mem rejected (legal_transitions s) ≡ true → s ≡ created
  unfolding legal_transitions
  to_rejected e = ground arith

Evidence-step :
    (h : List State) (s t : State)
    → Evidence h s
    → mem t (legal_transitions s) ≡ true
    → Evidence (h ++ t ∷ []) t
Evidence-step h s created v e = absurd (created_unreachable s e)
Evidence-step h s running v e = mem-snoc_self h running refl
Evidence-step h s verifying v e =
    let w : Evidence h running = rw (to_verifying s e) at v in
    (mem-snoc running h verifying w, mem-snoc_self h verifying refl)
Evidence-step h s completed v e =
    let w : Evidence h verifying = rw (to_completed s e) at v in
    (mem-snoc running h completed w.0, mem-snoc verifying h completed w.1)
Evidence-step h s orphaned v e =
    let w : Evidence h running = rw (to_orphaned s e) at v in
    (mem-snoc running h orphaned w, mem-snoc_self h orphaned refl)
Evidence-step h s recovering v e =
    let w : Evidence h orphaned = rw (to_recovering s e) at v in
    (
      mem-snoc running h recovering w.0,
      mem-snoc orphaned h recovering w.1,
      mem-snoc_self h recovering refl,
    )
Evidence-step h s reconciled v e =
    let w : Evidence h recovering = rw (to_reconciled s e) at v in
    (
      mem-snoc running h reconciled w.0,
      mem-snoc orphaned h reconciled w.1,
      mem-snoc recovering h reconciled w.2,
    )
Evidence-step h s rejected v e = let w : Evidence h created = rw (to_rejected s e) at v in rw w
Evidence-step h s queued v e = tt
Evidence-step h s dispatched v e = tt
Evidence-step h s failed v e = tt
Evidence-step h s compensating v e = tt
Evidence-step h s compensated v e = tt
Evidence-step h s aborted v e = tt

-- A legal history that ends COMPLETED went through RUNNING and VERIFYING; one that ends RECONCILED
-- went through RUNNING, ORPHANED and RECOVERING; one that ends REJECTED is CREATED, REJECTED and
-- nothing else. `Evidence` lists the cases.
Lineage-Evidence : {h : List State} {s : State} → Lineage h s → Evidence h s
Lineage-Evidence start = refl
Lineage-Evidence (next {h} {s} l t e) = Evidence-step h s t (Lineage-Evidence l) e

-- After any attempts on a new machine, refused ones included: if it is COMPLETED, its history holds
-- RUNNING and VERIFYING; if it is RECONCILED, its history holds RUNNING, ORPHANED and RECOVERING; if
-- it is REJECTED, its history is CREATED, REJECTED. `Evidence` lists the cases.
pub attempts-Evidence :
    (id : String) (l : List State)
    → Evidence (attempts (new id) l).history (attempts (new id) l).state
unfolding new
attempts-Evidence id l = Lineage-Evidence (attempts-Lineage (new id) l start)
