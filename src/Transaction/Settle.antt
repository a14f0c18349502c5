-- ===== src/Transaction/Settle.antt =====
-- What `reconcile_crashes` leaves.
use novamind.Prelude.{
  String, ◌≡◌, refl, sym, ap, ◌∙◌, Bool, true, false, ◌&&◌, ◌||◌, ◌==◌, Option, none, some, List,
  [], ◌∷◌, arith, eq_iff, all, contains, contains-keep_if, if◌then◌else◌, Option-cases, inl, inr,
}
use mathlib.Core.Path.{subst}
use novamind.Prelude.Dict
use novamind.Prelude.Dict.{lookup-modify}
use novamind.Transaction.Inv.{Inv}
use novamind.Transaction.{
  TransactionState, TransactionRecord, Manager, executing, rolled_back, tainted, in_state,
  is_irreversible, set_state, active_tx, rollback, crashed, reconcile_one, reconcile_all,
  reconcile_crashes, Answer, go_on, returns,
}

-- The record after the reconciliation of a crash.
abbrev pub settled : Option TransactionRecord → Option TransactionRecord
settled none = none
settled (some t) =
    if in_state t.state executing
    then some (set_state (if is_irreversible t.tx_type then tainted else rolled_back) t)
    else some t

-- Executing, or settled before.
abbrev ready : Option TransactionRecord → Bool
ready none = true
ready (some t) =
    in_state t.state executing
    || (if is_irreversible t.tx_type
        then in_state t.state tainted
        else in_state t.state rolled_back)

tainted_same : (t : TransactionRecord) → in_state t.state tainted ≡ true → set_state tainted t ≡ t
tainted_same t h = ap (λ s. set_state s t) (tainted_of t.state h)
  where
    tainted_of : (s : TransactionState) → in_state s tainted ≡ true → tainted ≡ s
    tainted_of tainted h = refl
    tainted_of TransactionState.prepare h = cc
    tainted_of TransactionState.journaled h = cc
    tainted_of TransactionState.authorized h = cc
    tainted_of executing h = cc
    tainted_of TransactionState.verified h = cc
    tainted_of TransactionState.committed h = cc
    tainted_of rolled_back h = cc

module _ (m : Manager) (h : Inv m) (id : String) (ok : ready (Dict.lookup id m.txs) ≡ true) where
  lookup-reconcile_one :
      (j : String)
      → Dict.lookup j (reconcile_one true id m).1.txs
        ≡ (if id == j then settled (Dict.lookup j m.txs) else Dict.lookup j m.txs)
  unfolding reconcile_one rollback active_tx
  lookup-reconcile_one j = elim (Option-cases (Dict.lookup id m.txs)) [
    | inl e ↦ ground (arith, e, eq_iff id j)
    | inr (t, e) ↦ ground (
      arith,
      e,
      lookup-modify id j (set_state tainted) m.txs,
      lookup-modify id j (set_state rolled_back) m.txs,
      eq_iff id j,
      h id,
      tainted_same t,
    )
  ]

  reconcile_one-Inv : Inv (reconcile_one true id m).1
  unfolding reconcile_one rollback active_tx
  reconcile_one-Inv j = ground (
    arith,
    lookup-modify id j (set_state tainted) m.txs,
    lookup-modify id j (set_state rolled_back) m.txs,
    contains-keep_if id m.active j,
    eq_iff id j,
    h j,
    h id,
  )

abbrev all_ready : List String → Manager → Bool
all_ready ids m = all (λ i. ready (Dict.lookup i m.txs)) ids

ready-settled : (o : Option TransactionRecord) → ready o ≡ true → ready (settled o) ≡ true
ready-settled none h = refl
ready-settled (some t) h = ground arith

settled-settled : (o : Option TransactionRecord) → settled (settled o) ≡ settled o
settled-settled none = refl
settled-settled (some t) = ground arith

ready-reconcile_one :
    (m : Manager) (id : String) (ids : List String)
    → Inv m
    → ready (Dict.lookup id m.txs) ≡ true
    → all_ready ids m ≡ true
    → all_ready ids (reconcile_one true id m).1 ≡ true
ready-reconcile_one m id [] h ok all_ok = refl
ready-reconcile_one m id (i ∷ ids) h ok all_ok = ground (
  arith,
  lookup-reconcile_one m h id ok i,
  ready-settled (Dict.lookup i m.txs),
  ready-reconcile_one m id ids h ok,
)

abbrev returned : Answer → Bool
returned (none, m) = false
returned (some b, m) = true

go_on-returned : (a : Answer) (f : Manager → Answer) → returned a ≡ true → go_on a f ≡ f a.1
go_on-returned (none, m) f h = cc h
go_on-returned (some b, m) f h = refl

reconcile_one-returned : (m : Manager) (id : String) → returned (reconcile_one true id m) ≡ true
unfolding reconcile_one rollback
reconcile_one-returned m id = ground arith

module _ (stored : String → Bool) (each : (id : String) → stored id ≡ true) where
  reconcile_all-next :
      (id : String) (ids : List String) (m : Manager)
      → reconcile_all stored (id ∷ ids) m ≡ reconcile_all stored ids (reconcile_one true id m).1
  unfolding reconcile_all
  reconcile_all-next id ids m =
      ap (λ b. go_on (reconcile_one b id m) (reconcile_all stored ids)) (each id)
      ∙ go_on-returned (reconcile_one true id m) (reconcile_all stored ids)
          (reconcile_one-returned m id)

  -- What the loop leaves of a record.
  abbrev Done : List String → Manager → String → Answer → Type 0
  Done ids m j a =
      Inv a.1
      × (Dict.lookup j a.1.txs
          ≡ (if contains ids j then settled (Dict.lookup j m.txs) else Dict.lookup j m.txs))
      × (returned a ≡ true)

  reconcile_all-Done :
      (ids : List String) (m : Manager) (j : String)
      → Inv m
      → all_ready ids m ≡ true
      → Done ids m j (reconcile_all stored ids m)
  unfolding reconcile_all
  reconcile_all-Done [] m j h ok = (h, refl, refl)
  reconcile_all-Done (id ∷ ids) m j h ok =
      let here : ready (Dict.lookup id m.txs) ≡ true = ground arith in
      let there : all_ready ids m ≡ true = ground arith in
      let (h', found, back) =
        reconcile_all-Done ids (reconcile_one true id m).1 j (reconcile_one-Inv m h id here)
          (ready-reconcile_one m id ids h here there) in
      subst (Done (id ∷ ids) m j) (sym (reconcile_all-next id ids m)) (
        h',
        found
            ∙ ground
                (arith, lookup-reconcile_one m h id here j, settled-settled (Dict.lookup j m.txs)),
        back,
      )

contains-crashed :
    (m : Manager) (ids : List String) (j : String)
    → contains (crashed m ids) j ≡ (
        contains ids j && elim (Dict.lookup j m.txs) as (λ o. Bool) [
          | none ↦ false
          | some t ↦ in_state t.state executing
        ])
unfolding crashed
contains-crashed m [] j = refl
contains-crashed m (id ∷ ids) j = ground (arith, eq_iff id j, contains-crashed m ids j)

all_ready-crashed : (m : Manager) (ids : List String) → all_ready (crashed m ids) m ≡ true
unfolding crashed
all_ready-crashed m [] = refl
all_ready-crashed m (id ∷ ids) = elim (Option-cases (Dict.lookup id m.txs)) [
  | inl e ↦ ground (arith, e, all_ready-crashed m ids)
  | inr (t, e) ↦ ground (arith, e, all_ready-crashed m ids)
]

returns-returned :
    (ids : List String) (a : Answer) → returned a ≡ true → returns ids a ≡ (some ids, a.1)
returns-returned ids (none, m) h = cc h
returns-returned ids (some b, m) h = refl

abbrev Settled : Manager → Option (List String) × Manager → Type 0
Settled m r =
    (r.0 ≡ some (crashed m m.journal))
    × Inv r.1
    × ((j : String) → Dict.lookup j r.1.txs ≡ settled (Dict.lookup j m.txs))

-- `reconcile_crashes` on a manager that satisfies the invariant, where each `execute` of the state
-- manager, if there is one, succeeds: it returns, keeps the invariant, and leaves every record as it
-- is, but for those in EXECUTE: of these, an irreversible one ends TAINTED, and any other ROLLBACK.
pub reconcile_crashes-settled :
    (stored : String → Bool) (m : Manager)
    → ((id : String) → stored id ≡ true)
    → Inv m
    → ((reconcile_crashes stored m).0 ≡ some (crashed m m.journal))
      × Inv (reconcile_crashes stored m).1
      × ((j : String)
          → Dict.lookup j (reconcile_crashes stored m).1.txs ≡ settled (Dict.lookup j m.txs))
unfolding reconcile_crashes
reconcile_crashes-settled stored m each h =
    let ids : List String = crashed m m.journal in
    let ok : all_ready ids m ≡ true = all_ready-crashed m m.journal in
    let a : Answer = reconcile_all stored ids m in
    let done : Done stored each ids m "" a = reconcile_all-Done stored each ids m "" h ok in
    subst (Settled m) (sym (returns-returned ids a done.2)) (
      refl,
      done.0,
      λ j.
          (reconcile_all-Done stored each ids m j h ok).1
          ∙ ground (arith, contains-crashed m m.journal j, h j),
    )
