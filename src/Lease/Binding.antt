-- ===== src/Lease/Binding.antt =====
-- What `validate_lease` answers after a request and after a sweep.
use mathlib.Core.Path.{subst}
use novamind.Prelude.{
  ℕ, ◌+◌, ◌≤◌, ◌<◌, String, ◌≡◌, sym, ◌∙◌, some, List, [], ◌∷◌, arith, ◌==◌, eq_refl, if◌then◌else◌,
}
use novamind.Prelude.Dict
use novamind.Prelude.Dict.{
  AtKey, AtKey-modify, AtKey-map_values, lookup-insert, lookup-map_values, map_some,
}
use novamind.Lease.{
  ExecutionLease, Request, Broker, Op, request, revokes, terminalizes, sweep, terminalize, revoke,
  expire, issue, request_lease, validate_lease, expire_expired_leases, or_default, step, run,
}
use novamind.Lease.Lifetime.{SparesOne, Spares, revoke_lease_store, terminalize_lease_store}

-- The lease grants what the request at the time `t` asked for, and to whom.
pub record Grants (t : ℕ) (r : Request) (l : ExecutionLease) : Type 0 where
  pub capabilities : l.capabilities ≡ r.capabilities
  pub allowed_paths : l.allowed_paths ≡ r.allowed_paths
  pub allowed_commands : l.allowed_commands ≡ r.allowed_commands
  pub allowed_hosts : l.allowed_hosts ≡ r.allowed_hosts
  pub resource_budget : l.resource_budget ≡ or_default r.budget
  pub intent_id : l.intent_id ≡ r.intent_id
  pub principal : l.principal ≡ r.principal
  pub agent_id : l.agent_id ≡ r.agent_id
  pub expiration : l.expiration ≡ t + r.duration

module _ (t : ℕ) (r : Request) where
  Grants-issue : (id : String) → Grants t r (issue t id r)
  unfolding issue
  Grants-issue id = ground arith

  Grants-terminalize :
      (now : ℕ) (s : String) (l : ExecutionLease) → Grants t r l → Grants t r (terminalize now s l)
  unfolding terminalize
  Grants-terminalize now s l h = ground arith

  Grants-revoke : (l : ExecutionLease) → Grants t r l → Grants t r (revoke l)
  Grants-revoke l h = ground arith

  Grants-expire : (now : ℕ) (l : ExecutionLease) → Grants t r l → Grants t r (expire now l)
  Grants-expire now l h = ground arith

  step-Grants :
      (now : ℕ) (id : String) (op : Op) (b : Broker)
      → SparesOne id op
      → AtKey (Grants t r) id b
      → AtKey (Grants t r) id (step now op b)
  unfolding step
  step-Grants now id (request j q) b e h =
      λ l found. h l (rw e at (sym (lookup-insert j id (issue now j q) b) ∙ found))
  step-Grants now id (revokes j) b e h =
      subst (AtKey (Grants t r) id) (sym (revoke_lease_store j b))
        (AtKey-modify id j revoke b Grants-revoke h)
  step-Grants now id (terminalizes j s) b e h =
      subst (AtKey (Grants t r) id) (sym (terminalize_lease_store now j s b))
        (AtKey-modify id j (terminalize now s) b (Grants-terminalize now s) h)
  step-Grants now id sweep b e h = AtKey-map_values id (expire now) b (Grants-expire now) h

  run-Grants :
      (id : String) (ops : List (ℕ × Op)) (b : Broker)
      → Spares id ops
      → AtKey (Grants t r) id b
      → AtKey (Grants t r) id (run ops b)
  unfolding run
  run-Grants id [] b e h = h
  run-Grants id ((now, op) ∷ ops) b e h =
      run-Grants id ops (step now op b) e.1 (step-Grants now id op b e.0 h)

  Grants-request : (id : String) (b : Broker) → AtKey (Grants t r) id (request_lease t id r b).1
  unfolding request_lease
  Grants-request id b l found =
      let same : some (issue t id r) ≡ some l =
        rw (eq_refl id) at (sym (lookup-insert id id (issue t id r) b) ∙ found) in
      ground (arith, Grants-issue id)

validate-Valid :
    (now : ℕ) (id : String) (b : Broker) (l : ExecutionLease)
    → validate_lease now id b ≡ some l
    → (Dict.lookup id b ≡ some l) × (now < l.expiration)
unfolding validate_lease
validate-Valid now id b l h = ground arith

-- After a request and any calls that spare its id, a lease that `validate_lease` returns for the id
-- grants exactly what was requested, to the same intent, principal and agent, and the clock is
-- before the end of the requested duration.
pub validate-request :
    (t now : ℕ) (id : String) (r : Request) (ops : List (ℕ × Op)) (b : Broker) (l : ExecutionLease)
    → Spares id ops
    → validate_lease now id (run ops (request_lease t id r b).1) ≡ some l
    → Grants t r l × (now < t + r.duration)
validate-request t now id r ops b l e h =
    let (found, alive) = validate-Valid now id (run ops (request_lease t id r b).1) l h in
    let grants =
      run-Grants t r id ops (request_lease t id r b).1 e (Grants-request t r id b) l found in
    (grants, omega arith)

-- The sweep at the time `t` changes no answer of `validate_lease` at `t` or later.
pub validate-expire_expired_leases :
    (t now : ℕ) (id : String) (b : Broker)
    → t ≤ now
    → validate_lease now id (expire_expired_leases t b).1 ≡ validate_lease now id b
unfolding validate_lease expire_expired_leases
validate-expire_expired_leases t now id b le = rw (lookup-map_values id (expire t) b) (ground arith)

-- Right after a request with a positive duration the new id validates to the issued lease, and every
-- other id validates as before.
pub validate-request_now :
    (t : ℕ) (id j : String) (r : Request) (b : Broker)
    → 0 < r.duration
    → validate_lease t j (request_lease t id r b).1
      ≡ (if id == j then some (issue t id r) else validate_lease t j b)
unfolding validate_lease request_lease issue
validate-request_now t id j r b pos = rw (lookup-insert id j (issue t id r) b) (ground arith)
