-- ===== src/Transaction/Inv.antt =====
-- Where a transaction's id stands, by its state.
use novamind.Prelude.{
  ℕ, String, ◌≡◌, Bool, true, false, not, ◌&&◌, Option, none, some, List, [], ◌∷◌, arith, eq_iff,
  all, contains, contains-snoc, contains-keep_if, if◌then◌else◌,
}
use novamind.Prelude.Dict
use novamind.Prelude.Dict.{Dict, lookup-insert, lookup-modify}
use novamind.Lease.{Broker}
use novamind.Transaction.{
  TransactionType, TransactionState, TransactionRecord, Manager, prepare, journaled, authorized,
  executing, verified, committed, rolled_back, tainted, set_state, keep_compensation, begin,
  journal, rollback, authorize, mark_executing, verify, commit, active_tx, set_error, Op, begins,
  journals, authorizes, executes, verifies, commits, rolls_back, step, run,
}

-- Not yet committed and not rolled back.
abbrev pub is_open : TransactionState → Bool
is_open committed = false
is_open rolled_back = false
is_open _ = true

-- `journal` has been called.
abbrev pub past_journal : TransactionState → Bool
past_journal prepare = false
past_journal rolled_back = false
past_journal _ = true

-- The record of an id, if there is one, whether the id is active, and whether it is in the journal.
abbrev pub good : Option TransactionRecord → Bool → Bool → Bool
good none a l = not a && not l
good (some t) a l =
    (if a then is_open t.state else not (is_open t.state))
    && (if past_journal t.state then l else true)

abbrev pub Inv : Manager → Type 0
Inv m =
    (id : String)
    → good (Dict.lookup id m.txs) (contains m.active id) (contains m.journal id) ≡ true

module _ (m : Manager) (h : Inv m) (id : String) where
  journal-Inv : (payload : Dict String) → Inv (journal true id payload m).1
  unfolding journal active_tx
  journal-Inv payload j = ground (
    arith,
    lookup-modify id j (λ t. record t { payload = payload; state = journaled }) m.txs,
    contains-snoc m.journal id j,
    eq_iff id j,
    h j,
    h id,
  )

  rollback-Inv : Inv (rollback true id m).1
  unfolding rollback active_tx
  rollback-Inv j = ground (
    arith,
    lookup-modify id j (set_state tainted) m.txs,
    lookup-modify id j (set_state rolled_back) m.txs,
    contains-keep_if id m.active j,
    eq_iff id j,
    h j,
    h id,
  )

  mark_executing-Inv : Inv (mark_executing true id m).1
  unfolding mark_executing active_tx
  mark_executing-Inv j =
      ground (arith, lookup-modify id j (set_state executing) m.txs, eq_iff id j, h j, h id)

  verify-Inv : (d : Dict String) → Inv (verify id d m).1
  unfolding verify active_tx
  verify-Inv d j = ground (
    arith,
    lookup-modify id j (λ t. keep_compensation d (set_state verified t)) m.txs,
    eq_iff id j,
    h j,
    h id,
  )

  commit-Inv : Inv (commit true id m).1
  unfolding commit active_tx
  commit-Inv j = ground (
    arith,
    lookup-modify id j (set_state committed) m.txs,
    contains-keep_if id m.active j,
    eq_iff id j,
    h j,
    h id,
  )

  begin-Inv :
      (task agent action : String) (k : TransactionType)
      → Dict.lookup id m.txs ≡ none
      → Inv (begin id task agent action k m)
  unfolding begin
  begin-Inv task agent action k fresh j = ground (
    arith,
    lookup-insert id j
        (record {
          tx_id = id;
          task_id = task;
          agent_id = agent;
          action = action;
          tx_type = k;
          state = prepare;
          payload = [];
          compensation_data = [];
          error = none;
        })
        m.txs,
    contains-snoc m.active id j,
    eq_iff id j,
    h j,
    h id,
  )

  pub set_error-Inv : Inv (set_error id m)
  set_error-Inv j = ground (
    arith,
    lookup-modify id j (λ t. record t { error = some "Invalid or expired lease" }) m.txs,
    eq_iff id j,
    h j,
  )

module _ (m : Manager) (h : Inv m) (id : String) where
  authorize-Inv :
      (b : Option Broker) (now : ℕ) (lease_id : String) → Inv (authorize true b now id lease_id m).1
  unfolding authorize active_tx
  authorize-Inv b now lease_id j = ground (
    arith,
    rollback-Inv (set_error id m) (set_error-Inv m h id) id j,
    lookup-modify id j (set_state authorized) m.txs,
    eq_iff id j,
    h j,
    h id,
  )

-- A `begin` takes an id that no record has: it is a new uuid.
abbrev pub IsFresh : Op → Manager → Type 0
IsFresh (begins id _ _ _ _) m = Dict.lookup id m.txs ≡ none
IsFresh _ m = Unit

abbrev pub AreFresh : List Op → Manager → Type 0
AreFresh [] m = Unit
AreFresh (op ∷ ops) m = IsFresh op m × AreFresh ops (step op m)

-- Each call of `execute` of the state manager succeeds.
abbrev pub is_stored : Op → Bool
is_stored (begins id task agent action k) = true
is_stored (journals stored id payload) = stored
is_stored (authorizes stored broker now id lease_id) = stored
is_stored (executes stored id) = stored
is_stored (verifies id d) = true
is_stored (commits stored id) = stored
is_stored (rolls_back stored id) = stored

abbrev pub are_stored : List Op → Bool
are_stored ops = all is_stored ops

false-true : false ≡ true → ⊥
false-true e = cc e

pub step-Inv :
    (op : Op) (m : Manager) → IsFresh op m → is_stored op ≡ true → Inv m → Inv (step op m)
unfolding step
step-Inv (begins id task agent action k) m f u h = begin-Inv m h id task agent action k f
step-Inv (journals true id payload) m f u h = journal-Inv m h id payload
step-Inv (authorizes true broker now id lease_id) m f u h = authorize-Inv m h id broker now lease_id
step-Inv (executes true id) m f u h = mark_executing-Inv m h id
step-Inv (verifies id d) m f u h = verify-Inv m h id d
step-Inv (commits true id) m f u h = commit-Inv m h id
step-Inv (rolls_back true id) m f u h = rollback-Inv m h id
step-Inv (journals false id payload) m f u h = absurd (false-true u)
step-Inv (authorizes false broker now id lease_id) m f u h = absurd (false-true u)
step-Inv (executes false id) m f u h = absurd (false-true u)
step-Inv (commits false id) m f u h = absurd (false-true u)
step-Inv (rolls_back false id) m f u h = absurd (false-true u)

-- After any calls on a manager that satisfies the invariant, where each `begin` takes a fresh id and
-- each `execute` of the state manager, if there is one, succeeds: the active ids are exactly those of
-- the records that are neither committed nor rolled back, and each record that is journaled,
-- authorized, executing, verified, committed or tainted is in the journal.
pub run-Inv :
    (ops : List Op) (m : Manager) → AreFresh ops m → are_stored ops ≡ true → Inv m → Inv (run ops m)
unfolding run
run-Inv [] m f u h = h
run-Inv (op ∷ ops) m f u h =
    let here : is_stored op ≡ true = ground arith in
    let there : are_stored ops ≡ true = ground arith in
    run-Inv ops (step op m) f.1 there (step-Inv op m f.0 here h)
