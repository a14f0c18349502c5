-- ===== src/Causal/Known.antt =====
-- Which events a scheduler knows, and what `submit` does to them.
use novamind.Prelude.{
  suc, ◌+◌, ◌≤◌, String, ◌≡◌, refl, Bool, true, ◌||◌, List, [], ◌∷◌, arith, eq_refl, all, contains,
  length, Option-cases, inl, inr,
}
use novamind.Prelude.Dict
use novamind.Prelude.Dict.{
  Dict, Entries, Entries-remove, Entries-insert, length-insert-le, has-remove, has-insert,
  length-remove-le, length-remove-lt, nil_of_has,
}
use novamind.Causal.{
  ScheduledEvent, Scheduler, submit, Submission, submit_all, add_node, submit_one,
}

-- Each entry stands under its own id.
abbrev pub Keyed : Dict ScheduledEvent → Type 0
Keyed = Entries (λ k e. k ≡ e.event_id)

-- The event is pending or completed.
abbrev pub known : String → Scheduler → Bool
known j s = Dict.has j s.pending || contains s.completed j

add_node_lem :
    (j : String) (e : ScheduledEvent) (s : Scheduler)
    → Keyed s.pending
    → Keyed (add_node e s).pending
      × (length (add_node e s).pending ≤ suc (length s.pending))
      × (known j s ≡ true → known j (add_node e s) ≡ true)
      × (known e.event_id (add_node e s) ≡ true)
add_node_lem j e s keyed =
    let same : Dict.has e.event_id (Dict.insert e.event_id e s.pending) ≡ true =
      ground (arith, has-insert e.event_id e.event_id e s.pending, eq_refl e.event_id) in
    (
      Entries-insert (λ k f. k ≡ f.event_id) e.event_id e s.pending refl keyed,
      length-insert-le e.event_id e s.pending,
      λ h. ground (arith, has-insert e.event_id j e s.pending),
      ground (arith, same),
    )

submit_lem :
    (j : String) (x : Submission) (s : Scheduler)
    → Keyed s.pending
    → Keyed (submit_one x s).pending
      × (length (submit_one x s).pending ≤ suc (length s.pending))
      × (known j s ≡ true → known j (submit_one x s) ≡ true)
      × (known x.id (submit_one x s) ≡ true)
unfolding submit
submit_lem j x s keyed = elim (Option-cases x.clock) [
  | inl e ↦ rw e (add_node_lem j _ (record s { clock = s.clock + 1 }) keyed)
  | inr (c, e) ↦ rw e (add_node_lem j _ s keyed)
]

pub submit_all_lem :
    (j : String) (l : List Submission) (s : Scheduler)
    → Keyed s.pending
    → Keyed (submit_all l s).pending
      × (length (submit_all l s).pending ≤ length s.pending + length l)
      × (known j s ≡ true → known j (submit_all l s) ≡ true)
unfolding submit_all
submit_all_lem j [] s keyed = (keyed, omega arith, λ h. h)
submit_all_lem j (x ∷ l) s keyed =
    let (keyed', le, keeps, new) = submit_lem j x s keyed in
    let (keyed'', le', keeps') = submit_all_lem j l (submit_one x s) keyed' in
    (keyed'', omega arith, λ h. keeps' (keeps h))

-- What follows from being known after the calls holds of every id that they submit.
pub all_submitted :
    (holds : String → Bool) (l : List Submission) (s : Scheduler)
    → Keyed s.pending
    → ((j : String) → known j (submit_all l s) ≡ true → holds j ≡ true)
    → all (λ x. holds x.id) l ≡ true
unfolding submit_all
all_submitted holds [] s keyed h = refl
all_submitted holds (x ∷ l) s keyed h =
    let (keyed', le, keeps, new) = submit_lem x.id x s keyed in
    let (keyed'', le', keeps') = submit_all_lem x.id l (submit_one x s) keyed' in
    ground (arith, h x.id (keeps' new), all_submitted holds l (submit_one x s) keyed' h)
