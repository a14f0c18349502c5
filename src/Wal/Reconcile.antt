-- ===== src/Wal/Reconcile.antt =====
-- core/transaction/effect_reconciler.py: what to do with the transactions that the log leaves open.
use novamind.Prelude.{
  String, Bool, true, false, Option, none, some, List, [], ◌∷◌, any, if◌then◌else◌, ◌||◌,
}
use novamind.Prelude.Dict
use novamind.Prelude.Dict.{Dict, lookup-insert, has-insert, lookup_of_has, map_some}
use novamind.Wal.{WalState, WalRecord}
use novamind.Wal.WalState.{dispatch, execute_begin, execute_end, verify, commit, rollback}

pub data ReconciliationState : Type 0 where
  safe_replay compensate taint manual_intervention unknown_effect_state external_state_diverged
        duplicate_risk compensation_required :
      ReconciliationState

abbrev pub same_state : WalState → WalState → Bool
same_state WalState.prepare WalState.prepare = true
same_state WalState.lease_bind WalState.lease_bind = true
same_state dispatch dispatch = true
same_state execute_begin execute_begin = true
same_state execute_end execute_end = true
same_state verify verify = true
same_state commit commit = true
same_state rollback rollback = true
same_state _ _ = false

-- `s in states`
abbrev pub in_states : WalState → List WalRecord → Bool
in_states s records = any (λ r. same_state r.state s) records

-- The first pass on one transaction: None for one that is finalized.
unfoldable pub first_pass : List WalRecord → Option ReconciliationState
first_pass rs =
    if in_states commit rs || in_states rollback rs
    then none
    else some (
        if in_states verify rs
        then ReconciliationState.safe_replay
        else if in_states execute_end rs
        then ReconciliationState.external_state_diverged
        else if in_states execute_begin rs
        then ReconciliationState.unknown_effect_state
        else if in_states dispatch rs
        then ReconciliationState.duplicate_risk
        else ReconciliationState.safe_replay)

-- The last value of "is_reversible" in the payloads, and `b` if there is none.
unfoldable pub is_reversible : Bool → List WalRecord → Bool
is_reversible b [] = b
is_reversible b (r ∷ rs) = is_reversible (elim r.payload.is_reversible [ none ↦ b | some c ↦ c ]) rs

-- The second pass on one result.
abbrev pub escalate : Bool → ReconciliationState → ReconciliationState
escalate false ReconciliationState.unknown_effect_state = ReconciliationState.manual_intervention
escalate false ReconciliationState.duplicate_risk = ReconciliationState.manual_intervention
escalate false ReconciliationState.external_state_diverged =
    ReconciliationState.compensation_required
escalate _ s = s

abbrev pub add_result :
    String → Option ReconciliationState → Dict ReconciliationState → Dict ReconciliationState
add_result id none results = results
add_result id (some s) results = Dict.insert id s results

abbrev pub or_nil : Option (List WalRecord) → List WalRecord
or_nil none = []
or_nil (some l) = l

-- The first loop of `analyze`, with the results so far.
unfoldable pub classify_all :
    Dict (List WalRecord) → Dict ReconciliationState → Dict ReconciliationState
classify_all [] results = results
classify_all ((id, rs) ∷ d) results = classify_all d (add_result id (first_pass rs) results)

-- The second loop: each result is replaced in its place.
unfoldable pub escalate_all :
    Dict (List WalRecord) → Dict ReconciliationState → Dict ReconciliationState
escalate_all txs [] = []
escalate_all txs ((id, s) ∷ results) =
    (id, escalate (is_reversible true (or_nil (Dict.lookup id txs))) s) ∷ escalate_all txs results

unfoldable pub analyze : Dict (List WalRecord) → Dict ReconciliationState
analyze txs = escalate_all txs (classify_all txs [])

-- Both passes on the records of one transaction.
abbrev pub verdict : List WalRecord → Option ReconciliationState
verdict rs = map_some (escalate (is_reversible true rs)) (first_pass rs)
