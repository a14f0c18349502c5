-- ===== src/Transaction/Samples.antt =====
-- Transactions from `begin` to `commit` and to a rollback, and the theorems at concrete inputs.
use novamind.Prelude.{String, ◌≡◌, refl, true, false, none, some, List, [], ◌∷◌}
use novamind.Prelude.Dict
use novamind.Transaction.{
  TransactionRecord, Manager, committed, executing, irreversible, reversible, Op, begins, journals,
  authorizes, executes, verifies, commits, step, run, empty, begin, journal, authorize,
  mark_executing, verify, commit, rollback, active_tx, reconcile_crashes, crashed, reconcile_all,
  reconcile_one,
}
use novamind.Transaction.Inv.{Inv, AreFresh, run-Inv}
use novamind.Transaction.History.{watch, unseen, run-committed}
use novamind.Transaction.Settle.{settled, reconcile_crashes-settled}

program : Unit {0}
unfolding step run begin journal authorize mark_executing verify commit rollback active_tx
    reconcile_crashes crashed reconcile_all reconcile_one Dict.lookup Dict.insert Dict.modify
program = tt

-- A commit of "a" that comes too early is among the calls; "b" is left executing.
abbrev calls : List Op
calls =
    begins "a" "t1" "agent" "write" reversible
    ∷ commits true "a"
    ∷ journals true "a" (("path", "out.txt") ∷ [])
    ∷ begins "b" "t1" "agent" "send_email" irreversible
    ∷ authorizes true none 0 "a" ""
    ∷ executes true "a"
    ∷ journals true "b" []
    ∷ verifies "a" []
    ∷ authorizes true none 0 "b" ""
    ∷ commits true "a"
    ∷ executes true "b"
    ∷ []

abbrev start : Manager
start = empty (some [])

calls-AreFresh : AreFresh calls start
unfolding program
calls-AreFresh = (refl, (tt, (tt, (refl, (tt, (tt, (tt, (tt, (tt, (tt, (tt, tt)))))))))))

start-Inv : Inv start
unfolding program
start-Inv id = refl

run-Inv_example : Inv (run calls start)
run-Inv_example = run-Inv calls start calls-AreFresh refl start-Inv

calls-Inv : Inv (run calls start)
calls-Inv = run-Inv calls start calls-AreFresh refl start-Inv

committed_a :
    (t : TransactionRecord) × (Dict.lookup "a" (run calls start).txs ≡ some t)
    × (t.state ≡ committed)
unfolding program
committed_a = (_, refl, refl)

run-committed_example : watch "a" calls start unseen ≡ record {
  was_journaled = true;
  was_authorized = true;
  was_executing = true;
  was_verified = true;
}
run-committed_example =
    run-committed (some []) calls "a" committed_a.0 calls-AreFresh committed_a.1 committed_a.2

executing_b :
    (t : TransactionRecord) × (active_tx "b" (run calls start) ≡ some t)
    × (t.state ≡ executing)
    × (t.tx_type ≡ irreversible)
unfolding program
executing_b = (_, refl, refl, refl)

crashed_calls : (reconcile_crashes (λ id. true) (run calls start)).0 ≡ some ("b" ∷ [])
unfolding program
crashed_calls = refl

reconcile_crashes-settled_example :
    ((reconcile_crashes (λ id. true) (run calls start)).0
      ≡ some (crashed (run calls start) (run calls start).journal))
    × Inv (reconcile_crashes (λ id. true) (run calls start)).1
    × ((j : String)
        → Dict.lookup j (reconcile_crashes (λ id. true) (run calls start)).1.txs
          ≡ settled (Dict.lookup j (run calls start).txs))
reconcile_crashes-settled_example =
    reconcile_crashes-settled (λ id. true) (run calls start) (λ id. refl) calls-Inv

-- The state manager raises at the commit: the record is committed, and active still.
abbrev unstored : List Op
unstored =
    begins "a" "t1" "agent" "write" reversible
    ∷ journals true "a" []
    ∷ authorizes true none 0 "a" ""
    ∷ executes true "a"
    ∷ verifies "a" []
    ∷ commits false "a"
    ∷ []

unstored_active : (run unstored start).active ≡ "a" ∷ []
unfolding program
unstored_active = refl
