-- ===== src/Journal/Samples.antt =====
-- A journal of two intents, one of which its worker did not survive.
use novamind.Prelude.{String, ◌≡◌, refl, Option, none, some, List, [], ◌∷◌, ◌++◌}
use novamind.Prelude.Dict
use novamind.Prelude.Result.{ok}
use novamind.Intent.{State, value, of_value, new, legal_transitions, transition}
use novamind.Intent.State.{
  queued, dispatched, running, verifying, completed, orphaned, recovering, reconciled, failed,
}
use novamind.Journal.Faithful.{IsFaithful, Named, moves-IsFaithful, made}
use novamind.Journal.Recovery.{RecoveryError, reconcile}
use novamind.Journal.Orphan.{always, reconcile-reconciled}
use novamind.Journal.{
  Contract, Line, entry, Info, analyze_lineage, Move, move, moves, no_kernel, machine_of,
  transition_logged, stored, lost, left, analyze_from, absorb, is_divergence,
}

abbrev contract : Contract
contract = record { path = some "/tmp/a"; content_sha256 = some "abc" }

abbrev call : String → State → Move
call i s = record { id = i; to = s; payload = contract; durable = stored }

-- "i" is orphaned; of "k", an illegal call and a lost write leave nothing.
abbrev calls : List Move
calls =
    call "i" queued
    ∷ call "k" queued
    ∷ call "i" dispatched
    ∷ call "k" completed
    ∷ call "i" running
    ∷ record (call "k" dispatched) { durable = lost }
    ∷ call "i" orphaned
    ∷ []

calls-Named : Named calls
calls-Named = (
  refl,
  refl,
  (refl, refl, (refl, refl, (refl, refl, (refl, refl, (refl, refl, (refl, refl, tt)))))),
)

abbrev disk : String → Option String
disk path = some "abc"

moves-IsFaithful_example : IsFaithful (moves calls no_kernel)
moves-IsFaithful_example = moves-IsFaithful calls calls-Named

calls_orphaned : (machine_of "i" (moves calls no_kernel).machines).state ≡ orphaned
unfolding moves move transition_logged transition legal_transitions Dict.lookup Dict.insert new
calls_orphaned = refl

calls_queued : (machine_of "k" (moves calls no_kernel).machines).state ≡ queued
unfolding moves move transition_logged transition legal_transitions Dict.lookup Dict.insert new
calls_queued = refl

abbrev after : List Line
after =
    (moves calls no_kernel).lines
    ++ entry (made "i" recovering contract)
      ∷ entry (made "i" reconciled (record { path = some "/tmp/a"; content_sha256 = none }))
      ∷ []

reconcile_run : reconcile always disk "i" (moves calls no_kernel).lines ≡ (after, ok reconciled)
unfolding reconcile analyze_lineage novamind.Journal.analyze_from moves move transition_logged
    legal_transitions Dict.lookup new transition Dict.insert novamind.Journal.absorb
    novamind.Journal.is_divergence novamind.Intent.of_value novamind.Journal.reconstruct
    novamind.Journal.Recovery.settle
reconcile_run = refl

reconcile-reconciled_example :
    (i : Info) × (path : String) × (Dict.lookup "i"
        (analyze_lineage (moves calls no_kernel).lines).intents
      ≡ some i)
    × (i.payload.path ≡ some path)
    × (disk path ≡ i.payload.content_sha256)
reconcile-reconciled_example =
    reconcile-reconciled disk calls "i" after calls-Named calls_orphaned reconcile_run

-- A failing fsync leaves COMPLETED in the file, and then FAILED is logged from the machine's state.
left_behind :
    (analyze_lineage
      (moves
        (call "i" queued
          ∷ call "i" dispatched
          ∷ call "i" running
          ∷ call "i" verifying
          ∷ record (call "i" completed) { durable = left }
          ∷ call "i" failed
          ∷ [])
        no_kernel).lines).divergences
    ≡ 1
unfolding moves move transition_logged transition legal_transitions Dict.lookup Dict.insert new
    analyze_lineage analyze_from absorb is_divergence of_value
left_behind = refl
