-- ===== src/Intent/Progress.antt =====
-- Which states are final, and the ways to them.
use novamind.Prelude.{String, ◌≡◌, refl, ◌↔◌, ◌≤◌, true, false, some, List, [], ◌∷◌, arith, length}
use novamind.Prelude.Result.{err}
use novamind.Intent.{
  State, created, queued, dispatched, running, verifying, completed, failed, compensating,
  compensated, aborted, rejected, orphaned, recovering, reconciled, value, mem, of_value,
  legal_transitions, terminal_states, Machine, transition, is_terminal, attempts,
}

-- IntentExecutionState(s.value) is s, so a journaled state is read back as it was written.
pub of_value-value : (s : State) → of_value (value s) ≡ some s
unfolding of_value
of_value-value created = refl
of_value-value _ = refl

terminal_refuses :
    (s t : State) → mem s terminal_states ≡ true → mem t (legal_transitions s) ≡ false
unfolding terminal_states legal_transitions
terminal_refuses created t h = cc
terminal_refuses completed t h = refl
terminal_refuses compensated t h = refl
terminal_refuses aborted t h = refl
terminal_refuses rejected t h = refl
terminal_refuses reconciled t h = refl
terminal_refuses _ t h = cc

refuses_terminal :
    (s : State) → ((t : State) → mem t (legal_transitions s) ≡ false) → mem s terminal_states ≡ true
unfolding terminal_states legal_transitions
refuses_terminal created h = cc (h queued)
refuses_terminal queued h = cc (h dispatched)
refuses_terminal dispatched h = cc (h running)
refuses_terminal running h = cc (h failed)
refuses_terminal verifying h = cc (h failed)
refuses_terminal failed h = cc (h aborted)
refuses_terminal compensating h = cc (h failed)
refuses_terminal orphaned h = cc (h failed)
refuses_terminal recovering h = cc (h failed)
refuses_terminal completed h = refl
refuses_terminal compensated h = refl
refuses_terminal aborted h = refl
refuses_terminal rejected h = refl
refuses_terminal reconciled h = refl

refused :
    (m : Machine) (t : State)
    → transition m t ≡ err (record { from = m.state; to = t })
    → mem t (legal_transitions m.state) ≡ false
unfolding transition
refused m t h = ground arith

-- `is_terminal` answers true exactly on the machines that refuse every transition, with the error
-- that names the two states.
is_terminal_iff :
    (m : Machine)
    → (is_terminal m ≡ true)
      ↔ ((s : State) → transition m s ≡ err (record { from = m.state; to = s }))
unfolding is_terminal transition
is_terminal_iff m = (
  λ h s. rw (terminal_refuses m.state s h),
  λ h. refuses_terminal m.state (λ t. refused m t (h t)),
)

-- A way from each state to a terminal one.
abbrev pub way_out : State → List State
way_out created = rejected ∷ []
way_out queued = aborted ∷ []
way_out dispatched = aborted ∷ []
way_out running = failed ∷ aborted ∷ []
way_out verifying = failed ∷ aborted ∷ []
way_out failed = aborted ∷ []
way_out compensating = compensated ∷ []
way_out orphaned = failed ∷ aborted ∷ []
way_out recovering = reconciled ∷ []
way_out _ = []

way_out_ends :
    (id : String) (s : State) (h : List State)
    → let m : Machine = record { intent_id = id; state = s; history = h } in
      (is_terminal (attempts m (way_out s)) ≡ true) × (length (way_out s) ≤ 2)
unfolding is_terminal terminal_states attempts transition legal_transitions
way_out_ends id created h = (refl, omega arith)
way_out_ends id _ h = (refl, omega arith)

-- From every state at most two legal transitions lead to a terminal state: no intent is stuck.
attempts-way_out :
    (m : Machine)
    → (is_terminal (attempts m (way_out m.state)) ≡ true) × (length (way_out m.state) ≤ 2)
attempts-way_out m = way_out_ends m.intent_id m.state m.history
