-- ===== src/Lease/Lifetime.antt =====
-- Later answers about a lease that was refused or revoked.
use novamind.Prelude.{
  ℕ, ◌≤◌, String, ◌≡◌, refl, sym, ◌∙◌, ◌⊎◌, inl, inr, true, false, none, List, [], ◌∷◌, arith, ◌==◌,
  Option-cases,
}
use mathlib.Core.Path.{subst}
use novamind.Prelude.Dict
use novamind.Prelude.Dict.{
  AtKey, AtKey-modify, AtKey-modify_self, AtKey-map_values, lookup-insert, dict_laws,
}
use novamind.Lease.{
  ExecutionLease, Broker, Op, request, revokes, terminalizes, sweep, terminalize, revoke, expire,
  issue, revoke_lease, validate_lease, terminalize_lease, step, run,
}

-- No later call can make a spent lease valid at the time `t` or after it.
abbrev pub Spent : ℕ → ExecutionLease → Type 0
Spent t l = (l.revoked ≡ true) ⊎ ((l.lifecycle_state == "ACTIVE") ≡ false) ⊎ (l.expiration ≤ t)

-- The calls do not issue `id` again (it is a fresh uuid) and terminalize no lease as "ACTIVE".
abbrev pub SparesOne : String → Op → Type 0
SparesOne id (request j r) = (j == id) ≡ false
SparesOne id (revokes j) = Unit
SparesOne id (terminalizes j s) = (s == "ACTIVE") ≡ false
SparesOne id sweep = Unit

abbrev pub Spares : String → List (ℕ × Op) → Type 0
Spares id [] = Unit
Spares id ((now, op) ∷ ops) = SparesOne id op × Spares id ops

pub revoke_lease_store :
    (id : String) (b : Broker) → (revoke_lease id b).1 ≡ Dict.modify id revoke b
unfolding revoke_lease
revoke_lease_store id b = ground (arith, Dict.modify_of_not_has id revoke b)

pub terminalize_lease_store :
    (now : ℕ) (id s : String) (b : Broker)
    → (terminalize_lease now id s b).1 ≡ Dict.modify id (terminalize now s) b
unfolding terminalize_lease
terminalize_lease_store now id s b = ground (arith, Dict.modify_of_not_has id (terminalize now s) b)

module _ (t : ℕ) where
  Spent-revoke : (l : ExecutionLease) → Spent t l → Spent t (revoke l)
  Spent-revoke l h = inl refl

  Spent-terminalize :
      (now : ℕ) (s : String) (l : ExecutionLease)
      → (s == "ACTIVE") ≡ false
      → Spent t l
      → Spent t (terminalize now s l)
  unfolding terminalize
  Spent-terminalize now s l e h = inr (inl e)

  Spent-expire : (now : ℕ) (l : ExecutionLease) → Spent t l → Spent t (expire now l)
  Spent-expire now l h = ground arith

  step-Spent :
      (now : ℕ) (id : String) (op : Op) (b : Broker)
      → SparesOne id op
      → AtKey (Spent t) id b
      → AtKey (Spent t) id (step now op b)
  unfolding step
  step-Spent now id (request j r) b e h =
      λ l found. h l (rw e at (sym (lookup-insert j id (issue now j r) b) ∙ found))
  step-Spent now id (revokes j) b e h =
      subst (AtKey (Spent t) id) (sym (revoke_lease_store j b))
        (AtKey-modify id j revoke b Spent-revoke h)
  step-Spent now id (terminalizes j s) b e h =
      subst (AtKey (Spent t) id) (sym (terminalize_lease_store now j s b))
        (AtKey-modify id j (terminalize now s) b (λ l. Spent-terminalize now s l e) h)
  step-Spent now id sweep b e h = AtKey-map_values id (expire now) b (Spent-expire now) h

  run-Spent :
      (id : String) (ops : List (ℕ × Op)) (b : Broker)
      → Spares id ops
      → AtKey (Spent t) id b
      → AtKey (Spent t) id (run ops b)
  unfolding run
  run-Spent id [] b e h = h
  run-Spent id ((now, op) ∷ ops) b e h =
      run-Spent id ops (step now op b) e.1 (step-Spent now id op b e.0 h)

  Spent-refused :
      (now : ℕ) (id : String) (b : Broker)
      → t ≤ now
      → AtKey (Spent t) id b
      → validate_lease now id b ≡ none
  unfolding validate_lease
  Spent-refused now id b le h = elim (Option-cases (Dict.lookup id b)) [
    | inl gone ↦ rw gone
    | inr (l, found) ↦ rw found (ground (arith, h l found))
  ]

  refused-Spent : (id : String) (b : Broker) → validate_lease t id b ≡ none → AtKey (Spent t) id b
  unfolding validate_lease
  refused-Spent id b h l found = ground arith

-- A lease that `validate_lease` has refused at one time is refused at every later time, whatever
-- calls are made on the broker in between, as long as its id is not issued again and no lease is
-- terminalized with the final state "ACTIVE".
pub refused_for_good :
    (t now : ℕ) (id : String) (ops : List (ℕ × Op)) (b : Broker)
    → validate_lease t id b ≡ none
    → Spares id ops
    → t ≤ now
    → validate_lease now id (run ops b) ≡ none
refused_for_good t now id ops b h e le =
    Spent-refused t now id (run ops b) le (run-Spent t id ops b e (refused-Spent t id b h))

revoked-Spent : (id : String) (b : Broker) → AtKey (Spent 0) id (revoke_lease id b).1
revoked-Spent id b =
    subst (AtKey (Spent 0) id) (sym (revoke_lease_store id b))
      (AtKey-modify_self (Spent 0) id revoke b (λ l. inl refl))

-- After `revoke_lease` and any later calls on the broker that neither issue the id again nor
-- terminalize a lease with the final state "ACTIVE", the id validates at no time.
validate-revoke :
    (now : ℕ) (id : String) (ops : List (ℕ × Op)) (b : Broker)
    → Spares id ops
    → validate_lease now id (run ops (revoke_lease id b).1) ≡ none
validate-revoke now id ops b e =
    Spent-refused 0 now id (run ops (revoke_lease id b).1) (omega arith)
      (run-Spent 0 id ops (revoke_lease id b).1 e (revoked-Spent id b))
