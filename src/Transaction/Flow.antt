-- ===== src/Transaction/Flow.antt =====
-- The state machine that the manager implements.
use novamind.Prelude.{
  ℕ, String, ◌≡◌, Bool, true, false, not, ◌||◌, Option, none, some, [], arith, eq_iff,
}
use novamind.Prelude.Dict
use novamind.Prelude.Dict.{Dict, lookup-insert, lookup-modify}
use novamind.Lease.{Broker}
use novamind.Transaction.Inv.{IsFresh}
use novamind.Transaction.{
  TransactionType, TransactionState, TransactionRecord, Manager, prepare, journaled, authorized,
  executing, verified, committed, rolled_back, tainted, in_state, is_irreversible, set_state,
  keep_compensation, begin, journal, rollback, authorize, mark_executing, verify, commit, active_tx,
  set_error, Op, begins, journals, authorizes, executes, verifies, commits, rolls_back, step,
}

-- The edges: PREPARE, JOURNAL, AUTHORIZE, EXECUTE, VERIFY, COMMIT in this order; a transaction may be
-- rolled back, but for an irreversible one that is executing, which is tainted. That holds for one in
-- COMMIT too, which is active still where the state manager raised.
abbrev pub edge : TransactionType → TransactionState → TransactionState → Bool
edge k prepare journaled = true
edge k journaled authorized = true
edge k authorized executing = true
edge k executing verified = true
edge k verified committed = true
edge k executing rolled_back = not (is_irreversible k)
edge k executing tainted = is_irreversible k
edge k s rolled_back = true
edge k s t = false

-- A record stays, keeps its type, and stays in its state or takes an edge; a new one is in PREPARE.
abbrev pub Moves : Option TransactionRecord → Option TransactionRecord → Type 0
Moves none none = Unit
Moves none (some u) = in_state u.state prepare ≡ true
Moves (some t) none = ⊥
Moves (some t) (some u) =
    (u.tx_type ≡ t.tx_type) × ((in_state t.state u.state || edge t.tx_type t.state u.state) ≡ true)

abbrev MovesAt : Manager → Manager → String → Type 0
MovesAt m n j = Moves (Dict.lookup j m.txs) (Dict.lookup j n.txs)

module _ (m : Manager) (stored : Bool) (id j : String) where
  journal-Moves : (payload : Dict String) → MovesAt m (journal stored id payload m).1 j
  unfolding journal active_tx
  journal-Moves payload = ground (
    arith,
    lookup-modify id j (λ t. record t { payload = payload; state = journaled }) m.txs,
    eq_iff id j,
  )

  rollback-Moves : MovesAt m (rollback stored id m).1 j
  unfolding rollback active_tx
  rollback-Moves = ground (
    arith,
    lookup-modify id j (set_state tainted) m.txs,
    lookup-modify id j (set_state rolled_back) m.txs,
    eq_iff id j,
  )

  commit-Moves : MovesAt m (commit stored id m).1 j
  unfolding commit active_tx
  commit-Moves = ground (arith, lookup-modify id j (set_state committed) m.txs, eq_iff id j)

  mark_executing-Moves : MovesAt m (mark_executing stored id m).1 j
  unfolding mark_executing active_tx
  mark_executing-Moves = ground (arith, lookup-modify id j (set_state executing) m.txs, eq_iff id j)

  verify-Moves : (d : Dict String) → MovesAt m (verify id d m).1 j
  unfolding verify active_tx
  verify-Moves d = ground (
    arith,
    lookup-modify id j (λ t. keep_compensation d (set_state verified t)) m.txs,
    eq_iff id j,
  )

  begin-Moves :
      (task agent action : String) (k : TransactionType)
      → Dict.lookup id m.txs ≡ none
      → MovesAt m (begin id task agent action k m) j
  unfolding begin
  begin-Moves task agent action k fresh = ground (
    arith,
    lookup-insert id j
        (record {
          tx_id = id;
          task_id = task;
          agent_id = agent;
          action = action;
          tx_type = k;
          state = prepare;
          payload = [];
          compensation_data = [];
          error = none;
        })
        m.txs,
    eq_iff id j,
  )

module _ (m : Manager) (stored : Bool) (id j : String) where
  authorize-Moves :
      (b : Option Broker) (now : ℕ) (lease_id : String)
      → MovesAt m (authorize stored b now id lease_id m).1 j
  unfolding authorize active_tx
  authorize-Moves b now lease_id = ground (
    arith,
    rollback-Moves (set_error id m) stored id j,
    lookup-modify id j (λ t. record t { error = some "Invalid or expired lease" }) m.txs,
    lookup-modify id j (set_state authorized) m.txs,
    eq_iff id j,
  )

-- A call on whatever record, also if it raises, leaves every record with its type, in its state or one
-- edge further; a record that it adds is in PREPARE.
pub step-Moves : (op : Op) (m : Manager) (j : String) → IsFresh op m → MovesAt m (step op m) j
unfolding step
step-Moves (begins id task agent action k) m j f = begin-Moves m true id j task agent action k f
step-Moves (journals stored id payload) m j f = journal-Moves m stored id j payload
step-Moves (authorizes stored broker now id lease_id) m j f =
    authorize-Moves m stored id j broker now lease_id
step-Moves (executes stored id) m j f = mark_executing-Moves m stored id j
step-Moves (verifies id d) m j f = verify-Moves m true id j d
step-Moves (commits stored id) m j f = commit-Moves m stored id j
step-Moves (rolls_back stored id) m j f = rollback-Moves m stored id j
