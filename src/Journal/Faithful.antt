-- ===== src/Journal/Faithful.antt =====
-- The journal that `_transition` writes, against the machines of the intents.
use novamind.Prelude.{
  String, ◌≡◌, refl, sym, ap, ◌∙◌, Bool, true, false, Option, none, some, List, [], ◌∷◌, ◌++◌, ◌==◌,
  eq_iff, eq_refl, if◌then◌else◌, Bool-cases, ◌⊎◌, Option-cases, inl, inr, arith,
}
use mathlib.Core.Path.{subst}
use novamind.Prelude.Dict
use novamind.Prelude.Dict.{Dict, lookup-insert}
use novamind.Prelude.Result.{ok, err, ◌>>=◌, Result-cases}
use novamind.Intent.{State, value, mem, of_value, legal_transitions, Machine, new, transition}
use novamind.Intent.Progress.{of_value-value}
use novamind.Journal.TransitionError.{wal_failed, illegal}
use novamind.Journal.{
  Contract, Entry, Line, entry, Info, Analysis, absorb, analyze_from, analyze_lineage, no_lines,
  is_divergence, no_kernel, TransitionError, Kernel, machine_of, or_new, Move, move, moves,
  transition_logged, Write, is_stored, is_left, left_lines, lines_after, reconstruct, count,
}

analyze_from-snoc :
    (ls : List Line) (l : Line) (a : Analysis)
    → analyze_from (ls ++ l ∷ []) a ≡ absorb l (analyze_from ls a)
unfolding analyze_from
analyze_from-snoc [] l a = refl
analyze_from-snoc (x ∷ ls) l a = analyze_from-snoc ls l (absorb x a)

abbrev pub stepped : Machine → State → Machine
stepped m s = record m { state = s; history = m.history ++ s ∷ [] }

reconstruct-append :
    (m : Machine) (l r : List Entry)
    → reconstruct m (l ++ r) ≡ (reconstruct m l >>= λ m'. reconstruct m' r)
unfolding reconstruct
reconstruct-append m [] r = refl
reconstruct-append m (x ∷ l) r = elim (Option-cases (of_value x.state)) [
  | inl e ↦ rw (e, reconstruct) refl
  | inr (t, e) ↦
      rw (e, reconstruct)
        (elim (Result-cases (transition m t)) [
          | inl (m', f) ↦ rw f (reconstruct-append m' l r)
          | inr (x, f) ↦ rw f refl
        ])
]

abbrev pub made : String → State → Contract → Entry
made id s p = record { intent_id = id; state = value s; payload = p }

reconstruct-one :
    (m : Machine) (id : String) (s : State) (p : Contract)
    → mem s (legal_transitions m.state) ≡ true
    → reconstruct m (made id s p ∷ []) ≡ ok (stepped m s)
unfolding reconstruct transition
reconstruct-one m id s p legal = rw (of_value-value s, reconstruct) (rw (legal, transition) refl)

reconstruct-snoc :
    (m m' : Machine) (l : List Entry) (id : String) (s : State) (p : Contract)
    → reconstruct m l ≡ ok m'
    → mem s (legal_transitions m'.state) ≡ true
    → reconstruct m (l ++ made id s p ∷ []) ≡ ok (stepped m' s)
reconstruct-snoc m m' l id s p h legal =
    reconstruct-append m l (made id s p ∷ []) ∙ rw h (reconstruct-one m' id s p legal)

named_value : (s : State) → (value s == "") ≡ false
named_value State.created = refl
named_value _ = refl

is_divergence_lem :
    (first : Bool) (s t : State)
    → mem t (legal_transitions s) ≡ true
    → is_divergence first (value s) (value t) ≡ false
unfolding is_divergence
is_divergence_lem first s t legal =
    rw (named_value s, named_value t, of_value-value s, of_value-value t, legal) (ground arith)

is_divergence_first : (s : State) → is_divergence true (value s) (value s) ≡ false
unfolding is_divergence
is_divergence_first s =
    rw (named_value s) (rw (of_value-value s) (rw (named_value s) (rw (of_value-value s) refl)))

-- What the analysis says of an intent, and what its machine says.
abbrev pub Matches : String → Machine → Option Info → Type 0
Matches id m none = m ≡ new id
Matches id m (some i) = (i.state ≡ value m.state) × (reconstruct (new id) i.history ≡ ok m)

abbrev pub Agrees : String → Machine → Analysis → Type 0
Agrees id m a = (m.intent_id ≡ id) × Matches id m (Dict.lookup id a.intents)

absorb_lem :
    (id : String) (m : Machine) (s : State) (p : Contract) (a : Analysis)
    → id == "" ≡ false
    → mem s (legal_transitions m.state) ≡ true
    → Matches id m (Dict.lookup id a.intents)
    → ((absorb (entry (made id s p)) a).divergences ≡ a.divergences)
      × Matches id (stepped m s) (Dict.lookup id (absorb (entry (made id s p)) a).intents)
      × ((j : String)
          → id == j ≡ false
          → Dict.lookup j (absorb (entry (made id s p)) a).intents ≡ Dict.lookup j a.intents)
unfolding absorb
absorb_lem id m s p a named legal agrees = elim (Option-cases (Dict.lookup id a.intents)) [
  | inl e ↦
      let q : m ≡ new id = rw e at agrees in
      rw (named, e)
        (
          ap (λ b. count b a.divergences) (is_divergence_first s),
          rw (lookup-insert id id _ a.intents, eq_refl id)
              (refl, rw (sym q) (reconstruct-one m id s p legal)),
          λ j other. lookup-insert id j _ a.intents ∙ rw other refl,
        )
  | inr (i, e) ↦
      let (same, built) : Matches id m (some i) = rw e at agrees in
      rw (named, e)
        (
          rw same (ap (λ b. count b a.divergences) (is_divergence_lem false m.state s legal)),
          rw (lookup-insert id id _ a.intents, eq_refl id)
              (refl, reconstruct-snoc (new id) m i.history id s p built legal),
          λ j other. lookup-insert id j _ a.intents ∙ rw other refl,
        )
]

pub transition_lem :
    (m : Machine) (s : State)
    → mem s (legal_transitions m.state) ≡ true
    → transition m s ≡ ok (stepped m s)
unfolding transition
transition_lem m s e = rw e refl

transition_logged-cases :
    (m : Machine) (s : State) (p : Contract) (durable : Write) (ls : List Line)
    → ((x : TransitionError) × (transition_logged m s p durable ls ≡ err x)
        × (is_left durable ≡ false → lines_after x ls ≡ ls))
      ⊎ ((mem s (legal_transitions m.state) ≡ true)
          × (transition_logged m s p durable ls
              ≡ ok (stepped m s, ls ++ entry (made m.intent_id s p) ∷ [])))
unfolding transition_logged
transition_logged-cases m s p durable ls = elim (Bool-cases (mem s (legal_transitions m.state))) [
  | inr e ↦
      inl (illegal (record { from = m.state; to = s }), rw (e, transition_logged) refl, λ x. refl)
  | inl e ↦ elim (Bool-cases (is_stored durable)) [
    | inr f ↦ inl (
      wal_failed (left_lines (is_left durable) (entry (made m.intent_id s p)) ls),
      rw (e, f, transition_logged) refl,
      λ x. rw x refl,
    )
    | inl f ↦ inr (e, rw (e, f, transition_logged) (rw (transition_lem m s e) refl))
  ]
]

-- A call of `_transition` leaves the machines, and the file too unless it left a line there, or it is
-- legal and logged.
pub move-cases :
    (c : Move) (k : Kernel)
    → ((ls : List Line) × (move c k ≡ record { machines = k.machines; lines = ls })
        × (is_left c.durable ≡ false → ls ≡ k.lines))
      ⊎ ((mem c.to (legal_transitions (machine_of c.id k.machines).state) ≡ true)
          × (move c k ≡ record {
            machines = Dict.insert c.id (stepped (machine_of c.id k.machines) c.to) k.machines;
            lines =
                k.lines ++ entry (made (machine_of c.id k.machines).intent_id c.to c.payload) ∷ [];
          }))
unfolding move
move-cases c k =
    elim (transition_logged-cases (machine_of c.id k.machines) c.to c.payload c.durable k.lines) [
      | inl (x, e, same) ↦ inl (lines_after x k.lines, rw (e, move) refl, same)
      | inr (legal, e) ↦ inr (legal, rw (e, move) refl)
    ]

-- The ids of the calls are not empty, and no write that failed left its line in the file.
abbrev pub Named : List Move → Type 0
Named [] = Unit
Named (c ∷ l) = ((c.id == "") ≡ false) × (is_left c.durable ≡ false) × Named l

-- The analysis of the file shows no divergence, and agrees with each machine.
abbrev pub IsFaithful : Kernel → Type 0
IsFaithful k =
    ((analyze_lineage k.lines).divergences ≡ 0)
    × ((id : String) → Agrees id (machine_of id k.machines) (analyze_lineage k.lines))

pub machine_of-insert :
    (id j : String) (m : Machine) (d : Dict Machine)
    → machine_of j (Dict.insert id m d) ≡ (if id == j then m else machine_of j d)
machine_of-insert id j m d = ap (or_new j) (lookup-insert id j m d) ∙ pushed (id == j)
  where
    pushed :
        (b : Bool)
        → or_new j (if b then some m else Dict.lookup j d) ≡ (if b then m else machine_of j d)
    pushed true = refl
    pushed false = refl

Agrees-eq :
    (id : String) (m n : Machine) (a b : Analysis)
    → m ≡ n
    → Dict.lookup id a.intents ≡ Dict.lookup id b.intents
    → Agrees id m a
    → Agrees id n b
Agrees-eq id m n a b e f h =
    subst (λ x. (x.intent_id ≡ id) × Matches id x (Dict.lookup id b.intents)) e
      (h.0, subst (Matches id m) f h.1)

pub move-IsFaithful :
    (c : Move) (k : Kernel)
    → (c.id == "") ≡ false
    → is_left c.durable ≡ false
    → IsFaithful k
    → IsFaithful (move c k)
unfolding analyze_lineage
move-IsFaithful c k named unleft (clean, agrees) = elim (move-cases c k) [
  | inl (ls, same, kept) ↦ rw same (
      subst (λ l. IsFaithful (record { machines = k.machines; lines = l })) (sym (kept unleft))
        (clean, agrees))
  | inr (legal, moved) ↦
      let m : Machine = machine_of c.id k.machines in
      let a : Analysis = analyze_lineage k.lines in
      let ms : Dict Machine = Dict.insert c.id (stepped m c.to) k.machines in
      let here : m.intent_id ≡ c.id = (agrees c.id).0 in
      let (div, match, rest) = absorb_lem c.id m c.to c.payload a named legal (agrees c.id).1 in
      let next : Analysis = absorb (entry (made c.id c.to c.payload)) a in
      let read : analyze_lineage (k.lines ++ entry (made m.intent_id c.to c.payload) ∷ []) ≡ next =
        analyze_from-snoc k.lines (entry (made m.intent_id c.to c.payload)) no_lines
        ∙ ap (λ i. absorb (entry (made i c.to c.payload)) a) here in
      let own : Agrees c.id (machine_of c.id ms) next =
        Agrees-eq c.id (stepped m c.to) (machine_of c.id ms) next next
          (sym (
            machine_of-insert c.id c.id (stepped m c.to) k.machines
            ∙ ap (λ b. if b then stepped m c.to else m) (eq_refl c.id)))
          refl (here, match) in
      let others : (j : String) → Agrees j (machine_of j ms) next = λ j.
        elim (Bool-cases (c.id == j)) [
          | inl same ↦ subst (λ i. Agrees i (machine_of i ms) next) ((eq_iff c.id j).0 same) own
          | inr other ↦
              Agrees-eq j (machine_of j k.machines) (machine_of j ms) a next
                (sym (
                  machine_of-insert c.id j (stepped m c.to) k.machines
                  ∙ ap (λ b. if b then stepped m c.to else machine_of j k.machines) other))
                (sym (rest j other)) (agrees j)
        ] in
      subst IsFaithful (sym moved) (
        ap Analysis.divergences read ∙ div ∙ clean,
        λ j. subst (Agrees j (machine_of j ms)) (sym read) (others j),
      )
]

moves_lem : (l : List Move) (k : Kernel) → Named l → IsFaithful k → IsFaithful (moves l k)
unfolding moves
moves_lem [] k named h = h
moves_lem (c ∷ l) k (n, clean, named) h =
    moves_lem l (move c k) named (move-IsFaithful c k n clean h)

-- After any calls of `_transition` from an empty file, refused ones and failed writes included, the
-- analysis of the file has no divergence, and for each intent it has the state of its machine and a
-- history from which `_reconstruct` rebuilds that machine; an intent without an entry has a new
-- machine. No intent's id is empty, and no write that fails leaves anything in the file.
pub moves-IsFaithful : (l : List Move) → Named l → IsFaithful (moves l no_kernel)
unfolding analyze_lineage Dict.lookup new analyze_from
moves-IsFaithful l named = moves_lem l no_kernel named (refl, λ id. (refl, refl))
