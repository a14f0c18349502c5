-- ===== src/Transaction.antt =====
-- core/transaction/transaction_manager.py. A TransactionRecord is shared by `_active_txs` and
-- `_journal`, so the records stand in a store by their ids, and the two hold ids. `uuid.uuid4()` is
-- the argument `tx_id` of `begin`. The state manager, if there is one, is its table `_tx_journal`;
-- `stored` says whether the call of its `execute` succeeds, and if not, the operation raises there.
pub mod Flow
pub mod History
pub mod Inv
pub mod Crash
pub mod Settle
mod Samples
use novamind.Prelude.{
  ℕ, String, Bool, true, false, not, ◌&&◌, ◌||◌, Option, none, some, List, [], ◌∷◌, ◌++◌, ◌==◌,
  contains, keep_if, if◌then◌else◌,
}
use novamind.Prelude.Dict
use novamind.Prelude.Dict.{Dict}
use novamind.Lease.{Broker, validate_lease}

pub data TransactionType : Type 0 where
  reversible compensatable irreversible observational nondeterministic : TransactionType

pub data TransactionState : Type 0 where
  prepare journaled authorized executing verified committed rolled_back tainted : TransactionState

pub record TransactionRecord : Type 0 where
  pub tx_id : String
  pub task_id : String
  pub agent_id : String
  pub action : String
  pub tx_type : TransactionType
  pub state : TransactionState
  pub payload : Dict String
  pub compensation_data : Dict String
  pub error : Option String

pub record Manager : Type 0 where
  pub txs : Dict TransactionRecord  -- every record that was made
  pub active : List String  -- the keys of _active_txs
  pub journal : List String  -- the ids of _journal
  pub table : Option (Dict TransactionState)  -- _tx_journal of the state manager

abbrev pub in_state : TransactionState → TransactionState → Bool
in_state prepare prepare = true
in_state journaled journaled = true
in_state authorized authorized = true
in_state executing executing = true
in_state verified verified = true
in_state committed committed = true
in_state rolled_back rolled_back = true
in_state tainted tainted = true
in_state _ _ = false

abbrev pub is_irreversible : TransactionType → Bool
is_irreversible irreversible = true
is_irreversible _ = false

-- _active_txs.get(tx_id)
unfoldable pub active_tx : String → Manager → Option TransactionRecord
active_tx id m = if contains m.active id then Dict.lookup id m.txs else none

-- tx.state = s
abbrev pub set_state : TransactionState → TransactionRecord → TransactionRecord
set_state s t = record t { state = s }

abbrev pub assign : String → (TransactionRecord → TransactionRecord) → Manager → Manager
assign id f m = record m { txs = Dict.modify id f m.txs }

-- INSERT INTO _tx_journal, UPDATE _tx_journal SET state = ? WHERE tx_id = ?
abbrev pub insert_row : String → TransactionState → Manager → Manager
insert_row id s m = record m {
  table = elim m.table [ none ↦ none | some rows ↦ some (Dict.insert id s rows) ];
}

abbrev pub update_row : String → TransactionState → Manager → Manager
update_row id s m = record m {
  table = elim m.table [ none ↦ none | some rows ↦ some (Dict.modify id (λ _. s) rows) ];
}

-- `execute` is called and raises.
abbrev pub fails : Bool → Manager → Bool
fails stored m = elim m.table [ none ↦ false | some rows ↦ not stored ]

-- What an operation returns, where `none` is an exception, and the manager that it leaves.
abbrev pub Answer : Type 0
Answer = Option Bool × Manager

-- The call of `execute` for the manager, and what comes after it.
abbrev pub persist : Bool → Manager → Answer → Answer
persist stored m done = if fails stored m then (none, m) else done

-- _active_txs.pop(tx_id, None)
abbrev pub pop_active : String → Manager → Manager
pop_active id m = record m { active = keep_if (λ j. not (j == id)) m.active }

unfoldable pub begin : String → String → String → String → TransactionType → Manager → Manager
begin tx_id task_id agent_id action tx_type m = record m {
  txs =
      Dict.insert tx_id
        (record {
          tx_id = tx_id;
          task_id = task_id;
          agent_id = agent_id;
          action = action;
          tx_type = tx_type;
          state = prepare;
          payload = [];
          compensation_data = [];
          error = none;
        })
        m.txs;
  active = if contains m.active tx_id then m.active else m.active ++ tx_id ∷ [];
}

-- What a call does with `_active_txs.get(tx_id)` when the record must be in the state `s`.
abbrev pub guarded : TransactionState → Manager → Option TransactionRecord → Answer → Answer
guarded s m none done = (some false, m)
guarded s m (some t) done = if in_state t.state s then done else (some false, m)

abbrev pub journal_tx : String → Dict String → Manager → Manager
journal_tx id payload m =
    record (assign id (λ t. record t { payload = payload; state = journaled }) m) {
      journal = m.journal ++ id ∷ [];
    }

unfoldable pub journal : Bool → String → Dict String → Manager → Answer
journal stored id payload m = guarded prepare m (active_tx id m) (
    persist stored (journal_tx id payload m)
      (some true, insert_row id journaled (journal_tx id payload m)))

-- The body of `rollback` for the record that it found.
abbrev pub rollback_found : Bool → String → Manager → TransactionRecord → Answer
rollback_found stored id m t =
    if in_state t.state executing && is_irreversible t.tx_type
    then persist stored (assign id (set_state tainted) m)
        (some false, update_row id tainted (assign id (set_state tainted) m))
    else persist stored (assign id (set_state rolled_back) m)
        (some true, pop_active id (update_row id rolled_back (assign id (set_state rolled_back) m)))

unfoldable pub rollback : Bool → String → Manager → Answer
rollback stored id m = elim (active_tx id m) [
  | none ↦ (some false, m)
  | some t ↦ rollback_found stored id m t
]

-- `not lease`, where the manager has a broker
abbrev pub refuses : Option Broker → ℕ → String → Bool
refuses none now lease_id = false
refuses (some b) now lease_id = elim (validate_lease now lease_id b) [
  | none ↦ true
  | some _ ↦ false
]

-- tx.error = "Invalid or expired lease"
abbrev pub set_error : String → Manager → Manager
set_error id m = assign id (λ t. record t { error = some "Invalid or expired lease" }) m

-- What `authorize` returns after its call of `rollback`; an exception goes up.
abbrev pub refused_after : Answer → Answer
refused_after (none, m) = (none, m)
refused_after (some b, m) = (some false, m)

unfoldable pub authorize : Bool → Option Broker → ℕ → String → String → Manager → Answer
authorize stored broker now id lease_id m = guarded journaled m (active_tx id m) (
    if refuses broker now lease_id
    then refused_after (rollback stored id (set_error id m))
    else (some true, assign id (set_state authorized) m))

unfoldable pub mark_executing : Bool → String → Manager → Answer
mark_executing stored id m = guarded authorized m (active_tx id m) (
    persist stored (assign id (set_state executing) m)
      (some true, update_row id executing (assign id (set_state executing) m)))

-- `compensation_data` is [] where it is None or empty
abbrev pub keep_compensation : Dict String → TransactionRecord → TransactionRecord
keep_compensation [] t = t
keep_compensation (x ∷ d) t = record t { compensation_data = x ∷ d }

unfoldable pub verify : String → Dict String → Manager → Answer
verify id data_given m =
    guarded executing m (active_tx id m)
      (some true, assign id (λ t. keep_compensation data_given (set_state verified t)) m)

unfoldable pub commit : Bool → String → Manager → Answer
commit stored id m = guarded verified m (active_tx id m) (
    persist stored (assign id (set_state committed) m)
      (some true, pop_active id (update_row id committed (assign id (set_state committed) m))))

-- [tx for tx in self._journal if tx.state == EXECUTE]
unfoldable pub crashed : Manager → List String → List String
crashed m [] = []
crashed m (id ∷ ids) =
    let rest = crashed m ids in
    elim (Dict.lookup id m.txs) [
      | none ↦ rest
      | some t ↦ if in_state t.state executing then id ∷ rest else rest
    ]

-- The body of the loop on a record; the answer is that of the rollback.
abbrev pub reconcile_found : Bool → String → Manager → Option TransactionRecord → Answer
reconcile_found stored id m none = (some true, m)
reconcile_found stored id m (some t) =
    if is_irreversible t.tx_type
    then (some true, assign id (set_state tainted) m)
    else rollback stored id m

unfoldable pub reconcile_one : Bool → String → Manager → Answer
reconcile_one stored id m = reconcile_found stored id m (Dict.lookup id m.txs)

-- The next record, unless a call raised.
abbrev pub go_on : Answer → (Manager → Answer) → Answer
go_on (none, m) f = (none, m)
go_on (some b, m) f = f m

-- The loop, where `stored` tells of each record whether its `execute` succeeds.
unfoldable pub reconcile_all : (String → Bool) → List String → Manager → Answer
reconcile_all stored [] m = (some true, m)
reconcile_all stored (id ∷ ids) m =
    go_on (reconcile_one (stored id) id m) (reconcile_all stored ids)

-- The ids of the records that are returned, unless a call raised.
abbrev pub returns : List String → Answer → Option (List String) × Manager
returns ids (none, m) = (none, m)
returns ids (some b, m) = (some ids, m)

unfoldable pub reconcile_crashes : (String → Bool) → Manager → Option (List String) × Manager
reconcile_crashes stored m =
    returns (crashed m m.journal) (reconcile_all stored (crashed m m.journal) m)

-- The calls of a running manager.
pub data Op : Type 0 where
  begins : String → String → String → String → TransactionType → Op
  journals : Bool → String → Dict String → Op
  authorizes : Bool → Option Broker → ℕ → String → String → Op
  executes : Bool → String → Op
  verifies : String → Dict String → Op
  commits : Bool → String → Op
  rolls_back : Bool → String → Op

unfoldable pub step : Op → Manager → Manager
step (begins id task agent action k) m = begin id task agent action k m
step (journals stored id payload) m = (journal stored id payload m).1
step (authorizes stored broker now id lease_id) m = (authorize stored broker now id lease_id m).1
step (executes stored id) m = (mark_executing stored id m).1
step (verifies id d) m = (verify id d m).1
step (commits stored id) m = (commit stored id m).1
step (rolls_back stored id) m = (rollback stored id m).1

unfoldable pub run : List Op → Manager → Manager
run [] m = m
run (op ∷ ops) m = run ops (step op m)

abbrev pub empty : Option (Dict TransactionState) → Manager
empty table = record { txs = []; active = []; journal = []; table = table }
