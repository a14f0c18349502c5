-- ===== src/Wal/Samples.antt =====
-- A codec and a digest that the theorems about the log apply to, and a log.
use novamind.Prelude.{
  ℕ, zero, suc, ◌%◌, ◌≡◌, ◌≢◌, refl, true, false, Option, none, some, List, [], ◌∷◌, ◌++◌, length,
  take, lt→ltb, arith,
}
use novamind.Prelude.Dict
use novamind.Prelude.Result.{ok, err, is_err}
use novamind.Wal.Recover.{IsHash, Fits, recover-append_all}
use novamind.Wal.Tampered.{recover-last_payload}
use novamind.Wal.Torn.{recover-ends, is_err-recover, written, next_frame}
use novamind.Wal.Reconcile.{ReconciliationState, analyze}
use novamind.Wal.Verdict.{expected_of, analyze-append_all}
use novamind.Wal.{
  absorb, frame, Bytes, WalState, WalRecord, WalError, Append, append_all, create, recover, append,
}

abbrev call : WalState → Append
call st = record {
  tx_id = "t1";
  state = st;
  payload = record { is_reversible = some false; body = "{}" };
  worker_id = "w";
}

abbrev saved : ℕ → WalState → WalRecord
saved n st = record {
  global_seq = n;
  tx_id = "t1";
  state = st;
  worker_id = "w";
  payload = record { is_reversible = some false; body = "{}" };
}

-- The sequence number stands for the text of the record.
abbrev dumps : WalRecord → Bytes
dumps r = r.global_seq ∷ []

abbrev loads : Bytes → Option WalRecord
loads (suc zero ∷ []) = some (saved 1 WalState.prepare)
loads (suc (suc zero) ∷ []) = some (saved 2 WalState.dispatch)
loads _ = none

abbrev repeat : ℕ → ℕ → Bytes
repeat zero b = []
repeat (suc n) b = b ∷ repeat n b

abbrev hexdigest : Bytes → Bytes
hexdigest b = repeat 64 (length b % 128)

hexdigest-IsHash : (b : Bytes) → IsHash (hexdigest b)
hexdigest-IsHash b = (refl, rw (lt→ltb (length b % 128) 128 (omega arith)) refl)

abbrev calls : List Append
calls = call WalState.prepare ∷ call WalState.dispatch ∷ []

calls-Fits : Fits dumps loads hexdigest calls (create dumps loads hexdigest)
unfolding append
calls-Fits = (omega arith, refl, refl, (omega arith, refl, refl, tt))

recover-append_all_example :
    recover dumps loads hexdigest
      (append_all dumps loads hexdigest calls (create dumps loads hexdigest)).file
    ≡ ok (append_all dumps loads hexdigest calls (create dumps loads hexdigest)).index
recover-append_all_example =
    recover-append_all dumps loads hexdigest hexdigest-IsHash calls calls-Fits

recover-ends_example :
    recover dumps loads hexdigest (0 ∷ 0 ∷ 0 ∷ 9 ∷ 1 ∷ []) ≢ err WalError.out_of_fuel
recover-ends_example = recover-ends dumps loads hexdigest (0 ∷ 0 ∷ 0 ∷ 9 ∷ 1 ∷ [])

is_err-recover_example :
    is_err (
      recover dumps loads hexdigest (
        (written dumps loads hexdigest hexdigest-IsHash calls).file
        ++ take 5 (next_frame dumps loads hexdigest hexdigest-IsHash calls (call WalState.commit))))
    ≡ true
unfolding append_all append
is_err-recover_example =
    is_err-recover dumps loads hexdigest hexdigest-IsHash calls (call WalState.commit) 5 calls-Fits
      (omega arith) (omega arith) (omega arith)

analyze-append_all_example :
    Dict.lookup "t1" (
      analyze
        (append_all dumps loads hexdigest calls (create dumps loads hexdigest)).index.transactions)
    ≡ elim (Dict.lookup "t1"
          (append_all dumps loads hexdigest calls
            (create dumps loads hexdigest)).index.transactions)
        as (λ o. Option ReconciliationState) [ none ↦ none | some rs ↦ expected_of rs ]
analyze-append_all_example = analyze-append_all dumps loads hexdigest "t1" calls

abbrev log : List WalRecord
log = saved 1 WalState.prepare ∷ saved 2 WalState.dispatch ∷ []

-- The text of the first record again, under a hash of the second.
recover-last_payload_example :
    recover dumps loads hexdigest (
      (append_all dumps loads hexdigest calls (create dumps loads hexdigest)).file
      ++ frame dumps loads hexdigest
          (1 ∷ [])
          (append_all dumps loads hexdigest calls (create dumps loads hexdigest)).index.last_hash)
    ≡ ok (
        absorb dumps loads hexdigest
          (1 ∷ [])
          (saved 1 WalState.prepare)
          (append_all dumps loads hexdigest calls (create dumps loads hexdigest)).index)
recover-last_payload_example =
    recover-last_payload dumps loads hexdigest hexdigest-IsHash calls (1 ∷ [])
      (saved 1 WalState.prepare) calls-Fits (omega arith) refl
