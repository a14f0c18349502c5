-- ===== src/Sync/Clock.antt =====
-- The Lamport rule over a run of one clock.
use novamind.Prelude.{ℕ, Bool, true, ◌≡◌, refl, List, [], ◌∷◌, arith, ltb, ◌&&◌}
use novamind.Sync.{LogicalClock, tick, update}

-- A local event, or the receipt of a message with a stamp.
pub data Event : Type 0 where
  local : Event
  receive : ℕ → Event

abbrev pub on_event : Event → LogicalClock → ℕ × LogicalClock
on_event local c = tick c
on_event (receive n) c = update n c

-- The stamps of the events, in order.
abbrev pub stamps : List Event → LogicalClock → List ℕ
stamps [] c = []
stamps (x ∷ l) c = (on_event x c).0 ∷ stamps l (on_event x c).1

-- The stamp of each receipt is later than the stamp received.
abbrev pub later : List Event → List ℕ → Bool
later (receive n ∷ l) (t ∷ ts) = ltb n t && later l ts
later (local ∷ l) (t ∷ ts) = later l ts
later _ _ = true

-- The stamps rise, from above `n` on.
abbrev pub rising : ℕ → List ℕ → Bool
rising n [] = true
rising n (t ∷ ts) = ltb n t && rising t ts

-- The stamps that a clock gives rise strictly from its value on, and each receipt is stamped later
-- than what it received.
stamps-rising :
    (l : List Event) (c : LogicalClock)
    → (rising c.clock (stamps l c) && later l (stamps l c)) ≡ true
unfolding tick update
stamps-rising [] c = refl
stamps-rising (local ∷ l) c = ground (arith, stamps-rising l (tick c).1)
stamps-rising (receive n ∷ l) c = ground (arith, stamps-rising l (update n c).1)
