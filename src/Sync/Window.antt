-- ===== src/Sync/Window.antt =====
-- Which tasks the barrier lets in together.
use novamind.Prelude.{
  ℕ, ◌+◌, ◌-◌, ◌≤◌, ◌<◌, Bool, true, false, ◌≡◌, refl, arith, length, List, [], ◌∷◌, ◌++◌,
  length-append,
}
use novamind.Sync.{
  EpochManager, SealedEpoch, World, Step, Reachable, enter_mutation, exit_mutation, request_freeze,
  exit_snapshot, advance,
}
use novamind.Sync.Step.{
  mutation_enters, mutation_exits, snapshot_requests, drain_cancelled, snapshot_enters,
  snapshot_exits,
}
use novamind.Sync.Reachable.{at_start, step_to}

-- With one snapshot at a time.
pub record IsIsolated (w : World) : Type 0 where
  pub counted : w.barrier.mutation_count ≡ w.mutating
  pub one : w.draining + w.sealing ≤ 1
  pub frozen : 0 < w.draining + w.sealing → w.barrier.freeze_requested ≡ true
  pub alone : 0 < w.sealing → w.mutating ≡ 0

Step-IsIsolated : {w v : World} → Step true w v → IsIsolated w → IsIsolated v
unfolding enter_mutation exit_mutation request_freeze exit_snapshot
Step-IsIsolated (mutation_enters {w} free) i = record {
  counted = omega (arith, i.counted);
  one = i.one;
  frozen = i.frozen;
  alone = λ h. ground (arith, free, i.frozen (omega arith));
}
Step-IsIsolated (mutation_exits {w} {n} e) i = record {
  counted = omega (arith, i.counted);
  one = i.one;
  frozen = i.frozen;
  alone = λ h. omega (arith, i.alone h);
}
Step-IsIsolated (snapshot_requests {w} first) i = record {
  counted = i.counted;
  one = omega (arith, first refl);
  frozen = λ h. refl;
  alone = i.alone;
}
Step-IsIsolated (drain_cancelled {w} {n} e) i = record {
  counted = i.counted;
  one = omega (arith, i.one);
  frozen = λ h. i.frozen (omega arith);
  alone = i.alone;
}
Step-IsIsolated (snapshot_enters {w} {n} e free) i = record {
  counted = i.counted;
  one = omega (arith, i.one);
  frozen = λ h. i.frozen (omega arith);
  alone = λ h. ground (arith, free, i.counted);
}
Step-IsIsolated (snapshot_exits {w} {n} e failed) i = record {
  counted = i.counted;
  one = omega (arith, i.one);
  frozen = λ h. absurd (omega (arith, i.one));
  alone = λ h. i.alone (omega arith);
}

pub Reachable-IsIsolated : {w : World} → Reachable true w → IsIsolated w
Reachable-IsIsolated at_start = record {
  counted = refl;
  one = omega arith;
  frozen = λ h. absurd (omega arith);
  alone = λ h. refl;
}
Reachable-IsIsolated (step_to r s) = Step-IsIsolated s (Reachable-IsIsolated r)

-- In every state that the tasks can reach while a snapshot is requested only when no other is in use,
-- no mutation is inside while a snapshot is, and the barrier's count is the number of mutations inside.
pub Reachable-alone :
    {w : World}
    → Reachable true w
    → (0 < w.sealing → w.mutating ≡ 0) × (w.barrier.mutation_count ≡ w.mutating)
Reachable-alone r = let i = Reachable-IsIsolated r in (i.alone, i.counted)

-- Without that condition, from every reachable state with two snapshots inside, one of them can leave
-- and a mutation can enter while the other is still inside.
pub Reachable-overlap :
    {w : World}
    → Reachable false w
    → 1 < w.sealing
    → (v : World) × Reachable false v × (0 < v.sealing) × (0 < v.mutating)
unfolding exit_snapshot
Reachable-overlap {w} r two =
    let n : ℕ = w.sealing - 1 in
    let left : World = record w { barrier = exit_snapshot false w.barrier; sealing = n } in
    (
      record left { barrier = enter_mutation left.barrier; mutating = left.mutating + 1 },
      step_to (step_to r (snapshot_exits (omega arith) false)) (mutation_enters refl),
      omega arith,
      omega arith,
    )

-- Each sealed epoch is the one before the next, from 0 on.
abbrev pub Consecutive : ℕ → List SealedEpoch → Type 0
Consecutive n [] = Unit
Consecutive n (x ∷ l) = (x.sealed_epoch ≡ n) × (x.new_epoch ≡ n + 1) × Consecutive (n + 1) l

Consecutive-snoc :
    (n : ℕ) (l : List SealedEpoch)
    → Consecutive n l
    → (x : SealedEpoch) → x.sealed_epoch ≡ n + length l
    → x.new_epoch ≡ n + length l + 1
    → Consecutive n (l ++ x ∷ [])
Consecutive-snoc n [] h x e f = (omega arith, omega arith, tt)
Consecutive-snoc n (y ∷ l) (a, b, h) x e f =
    (a, b, Consecutive-snoc (n + 1) l h x (omega arith) (omega arith))

abbrev pub IsLedger : EpochManager → Type 0
IsLedger m = (m.epoch ≡ length m.sealed_epochs) × Consecutive 0 m.sealed_epochs

Step-IsLedger :
    {x : Bool} {w v : World} → Step x w v → IsLedger w.barrier.epochs → IsLedger v.barrier.epochs
unfolding enter_mutation exit_mutation request_freeze exit_snapshot advance
Step-IsLedger (mutation_enters free) h = h
Step-IsLedger (mutation_exits e) h = h
Step-IsLedger (snapshot_requests first) h = h
Step-IsLedger (drain_cancelled e) h = h
Step-IsLedger (snapshot_enters e free) h = h
Step-IsLedger (snapshot_exits e true) h = h
Step-IsLedger (snapshot_exits {w} e false) (n, h) =
    let m : EpochManager = w.barrier.epochs in
    (
      omega (
        arith,
        length-append m.sealed_epochs
            (record { sealed_epoch = m.epoch; new_epoch = m.epoch + 1 } ∷ []),
      ),
      Consecutive-snoc 0 m.sealed_epochs h _ (omega arith) (omega arith),
    )

-- In every reachable state, with overlapping snapshots too, the audit trail seals the epochs 0, 1, 2
-- and so on in order without a gap, and the current epoch is their number.
pub Reachable-IsLedger : {x : Bool} {w : World} → Reachable x w → IsLedger w.barrier.epochs
Reachable-IsLedger at_start = (refl, tt)
Reachable-IsLedger (step_to r s) = Step-IsLedger s (Reachable-IsLedger r)
