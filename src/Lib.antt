-- ===== src/Lib.antt =====
-- The execution kernel of Novamind: intents, leases, transactions, their logs, and the scheduling of
-- causally ordered events.
--
-- The parts and how they interact. An intent is what an agent wants done. The dispatcher
-- (core/execution/intent_dispatcher.py, Dispatch) takes it: it is checked against the contracts of
-- core/contracts/intent_contracts.py (Contracts), and its capability against the registry
-- (core/execution/capability_registry.py, Registry), whose verification modes come from
-- core/execution/verification_taxonomy.py (Taxonomy). The dispatcher asks core/runtime/capability_broker.py
-- for a lease (Lease), has the intent executed by a worker or an adapter, and compares the file with the
-- intended content. Meanwhile the intent goes through the states of
-- core/execution/intent_execution_state.py (Intent); each transition is written to the journal before
-- it is committed (core/execution/recovery_journal.py, Journal). After a crash core/replay/replay_coordinator.py
-- analyses the journal (Journal), and core/execution/intent_recovery.py reconciles the orphaned
-- intents by observing the file system (Journal/Recovery). A side effect of an agent is a transaction
-- of core/transaction/transaction_manager.py (Transaction), which asks the broker for the lease; its
-- records are logged by core/transaction/effect_wal.py (Wal) and classified on boot by
-- core/transaction/effect_reconciler.py (Wal/Reconcile). Events are dispatched in causal order by
-- core/orchestration/causal_scheduler.py (Causal), which takes its stamps from
-- core/sync/synchronization.py (Sync), where the barrier between mutations and snapshots stands too.
-- core/orchestration/scheduler.py (Tasks) runs the requests of a user at their times, and
-- core/execution/execution_scheduler.py (Windows) queues intents by the window that they are for.
-- core/orchestration/parallel_engine.py (Dag) runs the steps of a plan by their dependencies and writes
-- each change of a step to the database (core/state/state_manager.py). Events go over the bus of
-- core/orchestration/event_bus.py (Topology), which commits each to the journal of
-- core/replay/event_recorder.py (Recorder) first; core/replay/replay_engine.py (Replay) reads that back.
-- security/command_guard.py (Guard) decides which commands of a user or an agent are allowed.
-- The processes talk in frames (core/ipc/frame_codec.py, frame_writer.py and frame_reader.py, Frame).
-- core/runtime/lifecycle_authority.py (Lifecycle) owns the state of the whole runtime.
--
-- How code becomes definitions. A class is a record of its fields, an Enum a data type, and a method a
-- function of the same name from the state to the result and the new state. A `dict` is the list of
-- its entries in insertion order (Prelude/Dict), a set a list. An exception is a value: Option, Result
-- or a type of the module (Prelude/Result). The clock of the machine, `uuid4`, `dispatch_fn`, the
-- observation of a file, the codecs, the digests, `normpath`, `split` and `lower` are arguments;
-- what a theorem assumes of one is a hypothesis of it. Numbers are ℕ; machine integers, the length
-- prefix of a record of the effect log and the fields of a header of the frame protocol, are bytes.
--
-- The files. X.antt has the definitions of a part, the modules below it its theorems, and X/Samples
-- tests and an application of each theorem. Prelude holds the shared names, the tests on numbers, and
-- the lemmas on lists and dictionaries.
--   Intent: Lineage (histories), Progress (terminal states).
--   Lease: Lifetime (after a refusal), Binding (after a request).
--   Registry: Table (the twelve entries), Consistent.
--   Transaction: Inv (active records and the journal), Flow (the state diagram), History, Crash, Settle.
--   Causal: Sort (the order of the ready events), Order, Known, Drain (how a run ends), Dropped.
--   Wal: Recover (a clean file), Torn (a file cut short), Tampered, Reconcile (the reconciler), Verdict.
--   Journal: Faithful (the file against the machines), Recovery, Orphan.
--   Contracts: Admits (which intents pass).
--   Dispatch: Context (state, faults, the three effects), Execute (the lanes), Prepare and Verify are
--     its definitions. Lanes, Refines, Returns, Faithful and Many are about the journal, Success about
--     what success means, Triple, Ends, Prepared and Settles about how a dispatch ends, Durable about
--     what precedes the effect.
--   Frame: the header; Fields and Codec, Bounds; Stream (the writer
--     and the reader), Reading and Delivery.
--   Sync: Window (the barrier), Clock.
--   Tasks: Held (the heap), Runs (how often a task runs).
--   Windows: Delivered (no intent is lost), Lanes (which lane is served).
--   Dag: Step (one task), Kept and Rounds (the loops of a round), Ends (how the loop ends), Runs.
--   Recorder: Chain. Replay: RoundTrip, Salvage.
--   Topology: Durable (what precedes a delivery), Depth (how a propagation ends).
--   Guard: Rules (the tables of patterns) and Sandbox are definitions; Session (the calls), Origin (what
--     makes a command pass), Approval.
--   Lifecycle: Shutdown.
--
-- Bounds and fuel. `run_until_empty` is recursion on its own `max_cycles`. `_recover` has as much fuel
-- as the file has bytes, which is enough since every turn of its loop reads four bytes or more. A wait
-- of the dispatcher for its worker is a list of turns that ends at the deadline at the latest. Reading
-- `n` bytes has fuel `n`, since every turn that goes on reads a byte, and the search for the magic has
-- as much as there are bytes. The loop of execute_dag has a round for
-- each attempt that its tasks have, and one more, and emit_sync has the number of calls of it that may be
-- open at once, six where the handlers of scheduler and of verification events emit nothing; the limit
-- of the interpreter on open calls is not modelled. The trace of the causal scheduler keeps 2000
-- entries, as in the code.
--
-- Not modelled: logging, wall-clock fields, and the events that the recovery emits; the texts of the
-- dispatcher's errors; the step executor and the telemetry bus; the agents, adapters, workers,
-- transports and the user interface, which are calls of the operating system and of other libraries.
-- The barrier of core/sync/synchronization.py is a step relation, where one step is what runs under its
-- condition variable. The other parts are sequential, as under their locks; that the verification lock
-- of the event bus cannot be taken twice by a thread is modelled. A write of the intents' journal that
-- fails loses its line or leaves it in the file. The `execute`
-- of the state manager may raise. A callback and a `dispatch_fn` do not call back into the object that
-- calls them.
pub mod Prelude
pub mod Intent
pub mod Lease
pub mod Taxonomy
pub mod Recorder
pub mod Guard
pub mod Registry
pub mod Replay
pub mod Topology
pub mod Transaction
pub mod Causal
pub mod Dag
pub mod Wal
pub mod Journal
pub mod Sync
pub mod Lifecycle
pub mod Contracts
pub mod Dispatch
pub mod Frame
pub mod Tasks
pub mod Windows
