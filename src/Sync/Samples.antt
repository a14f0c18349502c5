-- ===== src/Sync/Samples.antt =====
-- Runs of the barrier and of the clock.
use novamind.Prelude.{◌<◌, true, false, ◌≡◌, refl, List, [], ◌∷◌}
use novamind.Sync.{World, LogicalClock, idle, Reachable, request_freeze}
use novamind.Sync.Step.{snapshot_requests, snapshot_enters}
use novamind.Sync.Reachable.{at_start, step_to}
use novamind.Sync.Window.{Reachable-alone}
use novamind.Sync.Clock.{Event}
use novamind.Sync.Clock.Event.{local, receive}

abbrev one_inside : World
one_inside = record idle { barrier = request_freeze idle.barrier; sealing = 1 }

abbrev two_inside : World
two_inside = record idle { barrier = request_freeze (request_freeze idle.barrier); sealing = 2 }

one_inside-Reachable : Reachable true one_inside
unfolding request_freeze
one_inside-Reachable =
    step_to (step_to at_start (snapshot_requests (λ e. refl))) (snapshot_enters refl refl)

two_inside-Reachable : Reachable false two_inside
unfolding request_freeze
two_inside-Reachable =
    step_to
      (step_to
        (step_to (step_to at_start (snapshot_requests (λ e. absurd (false_true e))))
          (snapshot_requests (λ e. absurd (false_true e))))
        (snapshot_enters refl refl))
      (snapshot_enters refl refl)
  where
    false_true : false ≡ true → ⊥
    false_true e = cc

Reachable-alone_example :
    (0 < one_inside.sealing → one_inside.mutating ≡ 0)
    × (one_inside.barrier.mutation_count ≡ one_inside.mutating)
Reachable-alone_example = Reachable-alone one_inside-Reachable

abbrev events : List Event
events = local ∷ receive 9 ∷ receive 3 ∷ []

abbrev clock : LogicalClock
clock = record { clock = 4 }
