-- ===== src/Wal/Verdict.antt =====
-- What `analyze` of the reconciler says of each transaction.
use novamind.Prelude.{
  String, ◌≡◌, inl, inr, refl, sym, ap, ◌∙◌, Bool, true, false, Option, none, some, List, [], ◌∷◌,
  any, arith, length, ltb, if◌then◌else◌, not, ◌&&◌, ◌||◌, ◌==◌, eq_iff, Bool-cases, Option-cases,
}
use novamind.Prelude.Dict
use novamind.Prelude.Dict.{Dict, lookup-insert, has-insert, lookup_of_has, map_some}
use novamind.Wal.{WalState, WalRecord, Bytes, EffectWal, Append, append, append_all, create, made}
use novamind.Wal.WalState.{dispatch, execute_begin, execute_end, verify, commit, rollback}
use novamind.Wal.Reconcile.{
  ReconciliationState, in_states, first_pass, is_reversible, escalate, add_result, or_nil,
  classify_all, escalate_all, analyze, verdict,
}

-- Each key stands once, as in every `dict`.
abbrev pub IsDict {ℓ} : {V : Type ℓ} → Dict V → Type 0
IsDict [] = Unit
IsDict ((k, v) ∷ d) = (Dict.has k d ≡ false) × IsDict d

lookup-escalate_all :
    (id : String) (txs : Dict (List WalRecord)) (results : Dict ReconciliationState)
    → Dict.lookup id (escalate_all txs results)
      ≡ map_some
          (escalate (is_reversible true (or_nil (Dict.lookup id txs))))
          (Dict.lookup id results)
unfolding escalate_all Dict.lookup
lookup-escalate_all id txs [] = refl
lookup-escalate_all id txs ((k, s) ∷ results) = elim (Bool-cases (k == id)) [
  | inl same ↦ rw (same, (eq_iff k id).0 same) refl
  | inr other ↦ rw other (lookup-escalate_all id txs results)
]

abbrev or_else {ℓ} : {A : Type ℓ} → Option A → Option A → Option A
or_else none o = o
or_else (some a) o = some a

abbrev bind_pass : Option (List WalRecord) → Option ReconciliationState
bind_pass none = none
bind_pass (some rs) = first_pass rs

lookup-add_result :
    (k id : String) (o : Option ReconciliationState) (results : Dict ReconciliationState)
    → Dict.lookup id (add_result k o results)
      ≡ (if k == id then or_else o (Dict.lookup id results) else Dict.lookup id results)
lookup-add_result k id none results = ground arith
lookup-add_result k id (some s) results = lookup-insert k id s results

lookup-classify_all :
    (id : String) (d : Dict (List WalRecord)) (results : Dict ReconciliationState)
    → IsDict d
    → Dict.lookup id (classify_all d results)
      ≡ or_else (bind_pass (Dict.lookup id d)) (Dict.lookup id results)
unfolding classify_all Dict.lookup
lookup-classify_all id [] results u = refl
lookup-classify_all id ((k, rs) ∷ d) results (new, u) =
    lookup-classify_all id d (add_result k (first_pass rs) results) u
    ∙ rw (lookup-add_result k id (first_pass rs) results) (elim (Bool-cases (k == id)) [
      | inl same ↦ rw (same, sym ((eq_iff k id).0 same), lookup_of_has k d new) refl
      | inr other ↦ rw other refl
    ])

or_else-none : (o : Option ReconciliationState) → or_else o none ≡ o
or_else-none none = refl
or_else-none (some s) = refl

verdict_lem :
    (o : Option (List WalRecord))
    → map_some (escalate (is_reversible true (or_nil o))) (bind_pass o)
      ≡ elim o as (λ x. Option ReconciliationState) [ none ↦ none | some rs ↦ verdict rs ]
verdict_lem none = refl
verdict_lem (some rs) = refl

lookup-analyze :
    (id : String) (txs : Dict (List WalRecord))
    → IsDict txs
    → Dict.lookup id (analyze txs)
      ≡ elim (Dict.lookup id txs) as (λ o. Option ReconciliationState) [
        | none ↦ none
        | some rs ↦ verdict rs
      ]
unfolding analyze Dict.lookup
lookup-analyze id txs u =
    lookup-escalate_all id txs (classify_all txs [])
    ∙ ap (map_some (escalate (is_reversible true (or_nil (Dict.lookup id txs)))))
        (lookup-classify_all id txs [] u ∙ or_else-none (bind_pass (Dict.lookup id txs)))
    ∙ verdict_lem (Dict.lookup id txs)

abbrev pub is_safe_replay : Option ReconciliationState → Bool
is_safe_replay (some ReconciliationState.safe_replay) = true
is_safe_replay _ = false

-- A transaction is classified SAFE_REPLAY exactly if neither COMMIT nor ROLLBACK is in its records,
-- and VERIFY is or none of DISPATCH, EXECUTE_BEGIN and EXECUTE_END is; its reversibility does not
-- matter.
pub verdict-safe_replay :
    (rs : List WalRecord)
    → is_safe_replay (verdict rs) ≡ (
        not (in_states commit rs || in_states rollback rs)
        && (in_states verify rs
            || not
                (in_states execute_end rs || in_states execute_begin rs || in_states dispatch rs)))
unfolding first_pass
verdict-safe_replay rs = ground arith

-- An irreversible transaction that is open and not verified, and of which DISPATCH, EXECUTE_BEGIN or
-- EXECUTE_END was logged, is left to a person or compensated, and not replayed.
pub verdict-irreversible :
    (rs : List WalRecord)
    → is_reversible true rs ≡ false
    → (in_states commit rs || in_states rollback rs || in_states verify rs) ≡ false
    → (in_states execute_end rs || in_states execute_begin rs || in_states dispatch rs) ≡ true
    → verdict rs
      ≡ some (
          if in_states execute_end rs
          then ReconciliationState.compensation_required
          else ReconciliationState.manual_intervention)
unfolding first_pass
verdict-irreversible rs irreversible unverified active = ground arith

-- The states that finalize a transaction.
abbrev pub is_final : WalState → Bool
is_final commit = true
is_final rollback = true
is_final _ = false

-- The flags in the payloads that have one, and the last of them.
abbrev pub flags : List WalRecord → List Bool
flags [] = []
flags (r ∷ rs) = elim r.payload.is_reversible [ none ↦ flags rs | some c ↦ c ∷ flags rs ]

abbrev pub last_or : Bool → List Bool → Bool
last_or b [] = b
last_or b (c ∷ cs) = last_or c cs

-- What to do by the state that was reached, where the effect may have happened unless nothing was
-- dispatched or the effect was verified.
abbrev pub expected : Bool → Bool → Bool → Bool → Bool → Bool → Option ReconciliationState
expected true verified ended began sent b = none
expected false true ended began sent b = some ReconciliationState.safe_replay
expected false false true began sent true = some ReconciliationState.external_state_diverged
expected false false true began sent false = some ReconciliationState.compensation_required
expected false false false true sent true = some ReconciliationState.unknown_effect_state
expected false false false true sent false = some ReconciliationState.manual_intervention
expected false false false false true true = some ReconciliationState.duplicate_risk
expected false false false false true false = some ReconciliationState.manual_intervention
expected false false false false false b = some ReconciliationState.safe_replay

abbrev pub expected_of : List WalRecord → Option ReconciliationState
expected_of rs =
    expected (any (λ r. is_final r.state) rs) (in_states verify rs) (in_states execute_end rs)
      (in_states execute_begin rs) (in_states dispatch rs) (last_or true (flags rs))

any-is_final :
    (rs : List WalRecord)
    → any (λ r. is_final r.state) rs ≡ (in_states commit rs || in_states rollback rs)
any-is_final [] = refl
any-is_final (r ∷ rs) = ground (arith, any-is_final rs)

is_reversible-last : (b : Bool) (rs : List WalRecord) → is_reversible b rs ≡ last_or b (flags rs)
unfolding is_reversible
is_reversible-last b [] = refl
is_reversible-last b (r ∷ rs) = elim (Option-cases r.payload.is_reversible) [
  | inl e ↦ ground (arith, e, is_reversible-last b rs)
  | inr (c, e) ↦ ground (arith, e, is_reversible-last c rs)
]

verdict-expected : (rs : List WalRecord) → verdict rs ≡ expected_of rs
unfolding first_pass
verdict-expected rs = ground (arith, any-is_final rs, is_reversible-last true rs)

lookup-expected :
    (o : Option (List WalRecord))
    → elim o as (λ x. Option ReconciliationState) [ none ↦ none | some rs ↦ verdict rs ]
      ≡ elim o as (λ x. Option ReconciliationState) [ none ↦ none | some rs ↦ expected_of rs ]
lookup-expected none = refl
lookup-expected (some rs) = verdict-expected rs

IsDict-insert :
    (k : String) (rs : List WalRecord) (d : Dict (List WalRecord))
    → IsDict d
    → IsDict (Dict.insert k rs d)
unfolding Dict.insert Dict.has
IsDict-insert k rs [] h = (refl, tt)
IsDict-insert k rs ((j, v) ∷ d) (new, h) = elim (Bool-cases (j == k)) [
  | inl same ↦ rw same (new, h)
  | inr other ↦
      rw other
        (has-insert k j rs d ∙ ground (arith, eq_iff k j, eq_iff j k), IsDict-insert k rs d h)
]

module _ (dumps : WalRecord → Bytes) (loads : Bytes → Option WalRecord)
    (hexdigest : Bytes → Bytes) where
  append-IsDict :
      (x : Append) (w : EffectWal)
      → IsDict w.index.transactions
      → IsDict (append dumps loads hexdigest x w).1.index.transactions
  unfolding append
  append-IsDict x w h = elim (Bool-cases (ltb (length (dumps (made x w.index))) 4294967296)) [
    | inl fits ↦ rw fits (IsDict-insert x.tx_id _ w.index.transactions h)
    | inr long ↦ rw long h
  ]

  append_all-IsDict :
      (l : List Append) (w : EffectWal)
      → IsDict w.index.transactions
      → IsDict (append_all dumps loads hexdigest l w).index.transactions
  unfolding append_all
  append_all-IsDict [] w h = h
  append_all-IsDict (x ∷ l) w h =
      append_all-IsDict l (append dumps loads hexdigest x w).1 (append-IsDict x w h)

  -- On the transactions of a log after any calls of `append`, `analyze` has no entry for a transaction
  -- without records, or with COMMIT or ROLLBACK among them. Any other has one: SAFE_REPLAY if VERIFY is
  -- among its records, or if none of EXECUTE_END, EXECUTE_BEGIN and DISPATCH is; and otherwise, by the
  -- first of these that is, EXTERNAL_STATE_DIVERGED, UNKNOWN_EFFECT_STATE or DUPLICATE_RISK, where an
  -- irreversible transaction has COMPENSATION_REQUIRED for the first and MANUAL_INTERVENTION for the
  -- others. It is irreversible if the last flag in its payloads says so.
  pub analyze-append_all :
      (id : String) (l : List Append)
      → Dict.lookup id (
          analyze
            (append_all dumps loads hexdigest l (create dumps loads hexdigest)).index.transactions)
        ≡ elim (Dict.lookup id
              (append_all dumps loads hexdigest l
                (create dumps loads hexdigest)).index.transactions)
            as (λ o. Option ReconciliationState) [ none ↦ none | some rs ↦ expected_of rs ]
  analyze-append_all id l =
      lookup-analyze id
        (append_all dumps loads hexdigest l (create dumps loads hexdigest)).index.transactions
        (append_all-IsDict l (create dumps loads hexdigest) tt)
      ∙ lookup-expected (
          Dict.lookup id
            (append_all dumps loads hexdigest l (create dumps loads hexdigest)).index.transactions)
