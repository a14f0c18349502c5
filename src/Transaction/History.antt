-- ===== src/Transaction/History.antt =====
-- Through which states a transaction has come.
use novamind.Prelude.{
  String, ◌≡◌, refl, Bool, true, false, ◌&&◌, ◌||◌, Option, none, some, List, [], ◌∷◌, arith,
}
use novamind.Prelude.Dict
use novamind.Prelude.Dict.{Dict}
use novamind.Transaction.Inv.{AreFresh}
use novamind.Transaction.Flow.{Moves, step-Moves}
use novamind.Transaction.{
  TransactionState, TransactionRecord, Manager, prepare, journaled, authorized, executing, verified,
  committed, rolled_back, tainted, in_state, Op, step, run, empty,
}

-- The states in which a record has been seen.
pub record Past : Type 0 where
  pub was_journaled : Bool
  pub was_authorized : Bool
  pub was_executing : Bool
  pub was_verified : Bool

abbrev pub unseen : Past
unseen = record {
  was_journaled = false;
  was_authorized = false;
  was_executing = false;
  was_verified = false;
}

abbrev pub note : Option TransactionRecord → Past → Past
note none p = p
note (some t) p = record {
  was_journaled = p.was_journaled || in_state t.state journaled;
  was_authorized = p.was_authorized || in_state t.state authorized;
  was_executing = p.was_executing || in_state t.state executing;
  was_verified = p.was_verified || in_state t.state verified;
}

-- What is seen of the record `j` after each call.
unfoldable pub watch : String → List Op → Manager → Past → Past
watch j [] m p = p
watch j (op ∷ ops) m p = watch j ops (step op m) (note (Dict.lookup j (step op m).txs) p)

-- What must have been seen of a record in the state `s`.
abbrev pub needs : TransactionState → Past → Bool
needs prepare p = true
needs journaled p = p.was_journaled
needs authorized p = p.was_journaled && p.was_authorized
needs executing p = p.was_journaled && (p.was_authorized && p.was_executing)
needs tainted p = p.was_journaled && (p.was_authorized && p.was_executing)
needs verified p = p.was_journaled && (p.was_authorized && (p.was_executing && p.was_verified))
needs committed p = p.was_journaled && (p.was_authorized && (p.was_executing && p.was_verified))
needs rolled_back p = true

abbrev needs_of : Option TransactionRecord → Past → Bool
needs_of none p = true
needs_of (some t) p = needs t.state p

note-needs :
    (o n : Option TransactionRecord) (p : Past)
    → Moves o n
    → needs_of o p ≡ true
    → needs_of n (note n p) ≡ true
note-needs none none p mv h = refl
note-needs none (some u) p mv h = ground arith
note-needs (some t) none p mv h = absurd mv
note-needs (some t) (some u) p mv h = ground arith

watch-needs :
    (j : String) (ops : List Op) (m : Manager) (p : Past)
    → AreFresh ops m
    → needs_of (Dict.lookup j m.txs) p ≡ true
    → needs_of (Dict.lookup j (run ops m).txs) (watch j ops m p) ≡ true
unfolding watch run
watch-needs j [] m p f g = g
watch-needs j (op ∷ ops) m p f g =
    watch-needs j ops (step op m) (note (Dict.lookup j (step op m).txs) p) f.1
      (note-needs (Dict.lookup j m.txs) (Dict.lookup j (step op m).txs) p (step-Moves op m j f.0) g)

-- From an empty manager, whatever is called and in whatever order, and whichever calls of the state
-- manager raise: a transaction that ends committed
-- has been seen journaled, authorized, executing and verified on its way.
pub run-committed :
    (table : Option (Dict TransactionState)) (ops : List Op) (j : String) (t : TransactionRecord)
    → AreFresh ops (empty table)
    → Dict.lookup j (run ops (empty table)).txs ≡ some t
    → t.state ≡ committed
    → watch j ops (empty table) unseen ≡ record {
      was_journaled = true;
      was_authorized = true;
      was_executing = true;
      was_verified = true;
    }
unfolding Dict.lookup
run-committed table ops j t f found done =
    ground (arith, watch-needs j ops (empty table) unseen f refl)
