-- ===== src/Intent/Samples.antt =====
-- Runs of the machine, and the theorems at concrete inputs.
use novamind.Prelude.{◌≡◌, refl, List, [], ◌∷◌}
use novamind.Intent.{
  State, created, queued, dispatched, running, verifying, completed, failed, new, transition,
  attempts, legal_transitions,
}
use novamind.Intent.Lineage.{Evidence, attempts-Evidence}

-- A refused attempt, QUEUED to RUNNING, stands among those that succeed.
abbrev normal_run : List State
normal_run = queued ∷ running ∷ dispatched ∷ running ∷ verifying ∷ completed ∷ failed ∷ []

attempts-normal_run :
    (attempts (new "i1") normal_run).history
    ≡ created ∷ queued ∷ dispatched ∷ running ∷ verifying ∷ completed ∷ []
unfolding attempts transition new legal_transitions
attempts-normal_run = refl

attempts-Evidence_example :
    Evidence (attempts (new "i1") normal_run).history (attempts (new "i1") normal_run).state
attempts-Evidence_example = attempts-Evidence "i1" normal_run
