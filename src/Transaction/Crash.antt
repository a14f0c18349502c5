-- ===== src/Transaction/Crash.antt =====
-- What a rollback and the reconciliation after a crash do with an irreversible transaction.
use novamind.Prelude.{String, ◌≡◌, true, false, some, arith, eq_refl}
use novamind.Prelude.Dict
use novamind.Prelude.Dict.{Dict, lookup-modify}
use novamind.Transaction.{
  TransactionRecord, Manager, executing, tainted, rolled_back, irreversible, set_state, rollback,
  active_tx,
}

-- The first rollback of an irreversible transaction that is executing is refused and taints it. A
-- second rollback of the same transaction is accepted: it ends ROLLBACK, and is no longer active.
pub rollback-rollback_irreversible :
    (m : Manager) (id : String) (t : TransactionRecord)
    → active_tx id m ≡ some t
    → t.state ≡ executing
    → t.tx_type ≡ irreversible
    → ((rollback true id m).0 ≡ some false)
      × (Dict.lookup id (rollback true id m).1.txs ≡ some (set_state tainted t))
      × ((rollback true id (rollback true id m).1).0 ≡ some true)
      × (Dict.lookup id (rollback true id (rollback true id m).1).1.txs
          ≡ some (set_state rolled_back t))
unfolding rollback active_tx
rollback-rollback_irreversible m id t found busy kind = ground (
  arith,
  lookup-modify id id (set_state tainted) m.txs,
  lookup-modify id id (set_state rolled_back) (Dict.modify id (set_state tainted) m.txs),
  eq_refl id,
)
