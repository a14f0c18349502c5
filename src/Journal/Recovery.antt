-- ===== src/Journal/Recovery.antt =====
-- core/execution/intent_recovery.py: what a restarted kernel does with the intents of its journal.
-- `observe` is `observe_file` of core/execution/side_effect_observation.py: the digest of the file at
-- a path, if there is one. `durable` says of each state how a write of it ends. The events
-- that are emitted are left out.
use Prim.Native.String.{compare}
use Prim.Native.Nat.{Ordering}
use novamind.Prelude.{
  String, Bool, true, false, ◌||◌, Option, none, some, List, [], ◌∷◌, ◌++◌, ◌==◌, eqb,
  if◌then◌else◌,
}
use novamind.Prelude.Dict
use novamind.Prelude.Result.{Result, ok, err}
use novamind.Intent.{State, value, Machine, new}
use novamind.Journal.{
  Contract, Line, Info, Analysis, analyze_lineage, transition_logged, TransitionError, Write,
  lines_after, reconstruct, ReconstructError,
}

pub data RecoveryError : Type 0 where
  integrity : RecoveryError
  no_lineage : RecoveryError
  bad_lineage : ReconstructError → RecoveryError
  not_orphaned : String → RecoveryError
  refused : TransitionError → RecoveryError

-- sorted(texts)
unfoldable pub insert_text : String → List String → List String
insert_text x [] = x ∷ []
insert_text x (y ∷ l) =
    let rest = insert_text x l in elim (compare x y) [ Ordering.gt ↦ y ∷ rest | _ ↦ x ∷ y ∷ l ]

unfoldable pub sorted : List String → List String
sorted [] = []
sorted (x ∷ l) = insert_text x (sorted l)

abbrev pub no_contract : Contract
no_contract = record { path = none; content_sha256 = none }

-- What a call leaves in the file, and its outcome.
abbrev pub Outcome : Type 0 → Type 0
Outcome A = List Line × Result RecoveryError A

abbrev pub after_transition :
    {A : Type 0}
    → List Line
    → Result TransitionError (Machine × List Line)
    → (Machine → List Line → Outcome A)
    → Outcome A
after_transition ls (err e) f = (lines_after e ls, err (refused e))
after_transition ls (ok (m, ls')) f = f m ls'

-- not text
abbrev pub is_falsy : Option String → Bool
is_falsy none = true
is_falsy (some t) = t == ""

-- What of the last record's payload is a contract: the metrics hold the path, if there are metrics.
abbrev pub last_payload : Contract → Contract
last_payload c =
    if is_falsy c.path || is_falsy c.content_sha256
    then no_contract
    else record { path = c.path; content_sha256 = none }

module _ (observe : String → Option String) where
  -- observed.exists and observed.sha256 == expected_sha256
  abbrev pub is_match : String → String → Bool
  is_match path expected = elim (observe path) [ none ↦ false | some digest ↦ digest == expected ]

  -- The state that `reconcile` ends in, by the contract and the observation.
  abbrev pub judge_on : Option String → Option String → State
  judge_on none digest = State.failed
  judge_on (some path) none = State.failed
  judge_on (some path) (some expected) =
      if path == "" || expected == ""
      then State.failed
      else if is_match path expected
      then State.reconciled
      else State.failed

  abbrev pub judge : Contract → State
  judge c = judge_on c.path c.content_sha256

module _ (durable : State → Write) where
  abbrev pub write :
      Machine → State → Contract → List Line → Result TransitionError (Machine × List Line)
  write m s payload ls = transition_logged m s payload (durable s) ls

  -- The body of the loop of `scan_orphaned` for one intent whose machine is rebuilt.
  unfoldable pub scan_one :
      String → Info → Machine → List Line → List String → Outcome (List String)
  scan_one id i m ls pending =
      if i.state == value State.running
      then after_transition ls (write m State.orphaned i.payload ls)
          (λ m' ls'. (ls', ok (pending ++ id ∷ [])))
      else if i.state == value State.orphaned
      then (ls, ok (pending ++ id ∷ []))
      else if i.state == value State.queued || i.state == value State.dispatched
      then after_transition ls (write m State.aborted no_contract ls) (λ m' ls'. (ls', ok pending))
      else (ls, ok pending)

  unfoldable pub scan_loop :
      Analysis → List String → List Line → List String → Outcome (List String)
  scan_loop a [] ls pending = (ls, ok pending)
  scan_loop a (id ∷ ids) ls pending = elim (Dict.lookup id a.intents) [
    | none ↦ (ls, err no_lineage)
    | some i ↦ elim (reconstruct (new id) i.history) [
      | err e ↦ (ls, err (bad_lineage e))
      | ok m ↦
          let (ls', r) = scan_one id i m ls pending in
          elim r [ err e ↦ (ls', err e) | ok pending' ↦ scan_loop a ids ls' pending' ]
    ]
  ]

  unfoldable pub scan_orphaned : List Line → Outcome (List String)
  scan_orphaned ls =
      let a = analyze_lineage ls in
      if eqb a.divergences 0
      then scan_loop a (sorted (Dict.keys a.intents)) ls []
      else (ls, err integrity)

  module _ (observe : String → Option String) where
    -- From the RECOVERING record to the end.
    unfoldable pub settle : Contract → Machine → List Line → Outcome State
    settle c m ls = after_transition ls (write m State.recovering c ls) (λ m' ls'.
        after_transition ls' (write m' (judge observe c) (last_payload c) ls')
          (λ m'' ls''. (ls'', ok (judge observe c))))

    abbrev pub settle_orphaned : Contract → Machine → List Line → Outcome State
    settle_orphaned c m ls =
        if value m.state == value State.orphaned
        then settle c m ls
        else (ls, err (not_orphaned (value m.state)))

    -- `_history`, and the machine from it.
    unfoldable pub rebuild : String → List Line → Result RecoveryError Machine
    rebuild id ls =
        let a = analyze_lineage ls in
        if eqb a.divergences 0
        then elim (Dict.lookup id a.intents) [
          | none ↦ err no_lineage
          | some i ↦ elim (reconstruct (new id) i.history) [
            | err e ↦ err (bad_lineage e)
            | ok m ↦ ok m
          ]
        ]
        else err integrity

    unfoldable pub reconcile : String → List Line → Outcome State
    reconcile id ls =
        let a = analyze_lineage ls in
        if eqb a.divergences 0
        then elim (Dict.lookup id a.intents) [
          | none ↦ (ls, err no_lineage)
          | some i ↦ elim (reconstruct (new id) i.history) [
            | err e ↦ (ls, err (bad_lineage e))
            | ok m ↦
                if i.state == value State.running
                then (let (ls', r) = scan_orphaned ls in
                    elim r [
                      | err e ↦ (ls', err e)
                      | ok pending ↦ elim (rebuild id ls') [
                        | err e ↦ (ls', err e)
                        | ok m' ↦ settle_orphaned i.payload m' ls'
                      ]
                    ])
                else if i.state == value State.orphaned
                then settle_orphaned i.payload m ls
                else (ls, err (not_orphaned i.state))
          ]
        ]
        else (ls, err integrity)
