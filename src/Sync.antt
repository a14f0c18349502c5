-- ===== src/Sync.antt =====
-- core/sync/synchronization.py: the Lamport clock, the epochs, and the barrier between mutations and
-- snapshots. The barrier's waits are steps that are taken only when their condition holds; each
-- step is what runs under the shared condition variable. Wall-clock times are left out.
pub mod Window
pub mod Clock
mod Samples
use novamind.Prelude.{
  ℕ, ◌+◌, ◌-◌, max, Bool, true, false, not, ◌≡◌, Option, none, some, List, [], ◌∷◌, ◌++◌, eqb,
  if◌then◌else◌,
}

-- LogicalClock
pub record LogicalClock : Type 0 where
  pub clock : ℕ

unfoldable pub tick : LogicalClock → ℕ × LogicalClock
tick c = (c.clock + 1, record { clock = c.clock + 1 })

unfoldable pub update : ℕ → LogicalClock → ℕ × LogicalClock
update received c = (max c.clock received + 1, record { clock = max c.clock received + 1 })

-- EpochManager
pub record SealedEpoch : Type 0 where
  pub sealed_epoch : ℕ
  pub new_epoch : ℕ

pub record EpochManager : Type 0 where
  pub epoch : ℕ
  pub sealed_epochs : List SealedEpoch

abbrev pub first_epoch : EpochManager
first_epoch = record { epoch = 0; sealed_epochs = [] }

unfoldable pub advance : EpochManager → ℕ × EpochManager
advance m = (
  m.epoch + 1,
  record {
    epoch = m.epoch + 1;
    sealed_epochs =
        m.sealed_epochs ++ record { sealed_epoch = m.epoch; new_epoch = m.epoch + 1 } ∷ [];
  },
)

-- SnapshotBarrier, with the epoch manager that its snapshots are given.
pub record SnapshotBarrier : Type 0 where
  pub mutation_count : ℕ
  pub freeze_requested : Bool
  pub epochs : EpochManager

abbrev pub open_barrier : SnapshotBarrier
open_barrier = record { mutation_count = 0; freeze_requested = false; epochs = first_epoch }

-- _MutationContext.__aenter__: what it waits for, and what it does then.
abbrev pub may_mutate : SnapshotBarrier → Bool
may_mutate b = not b.freeze_requested

unfoldable pub enter_mutation : SnapshotBarrier → SnapshotBarrier
enter_mutation b = record b { mutation_count = b.mutation_count + 1 }

-- _MutationContext.__aexit__, of a mutation that is inside
unfoldable pub exit_mutation : SnapshotBarrier → SnapshotBarrier
exit_mutation b = record b { mutation_count = b.mutation_count - 1 }

-- _SnapshotContext.__aenter__: the request, and what it waits for.
unfoldable pub request_freeze : SnapshotBarrier → SnapshotBarrier
request_freeze b = record b { freeze_requested = true }

abbrev pub may_seal : SnapshotBarrier → Bool
may_seal b = eqb b.mutation_count 0

-- _SnapshotContext.__aexit__, where `failed` says whether the body raised
unfoldable pub exit_snapshot : Bool → SnapshotBarrier → SnapshotBarrier
unfolding advance
exit_snapshot failed b = record b {
  freeze_requested = false;
  epochs = if failed then b.epochs else (advance b.epochs).1;
}

-- The barrier and the contexts that are in use: mutations inside, snapshots that drain, snapshots
-- inside.
pub record World : Type 0 where
  pub barrier : SnapshotBarrier
  pub mutating : ℕ
  pub draining : ℕ
  pub sealing : ℕ

abbrev pub idle : World
idle = record { barrier = open_barrier; mutating = 0; draining = 0; sealing = 0 }

-- One step of the tasks that share the barrier; a task that is cancelled while it drains leaves the
-- request as it is. `exclusive` says whether a snapshot is requested only
-- while no other is in use.
pub data Step (exclusive : Bool) : World → World → Type 0 where
  mutation_enters :
      {w : World}
      → may_mutate w.barrier ≡ true
      → Step exclusive w
          (record w { barrier = enter_mutation w.barrier; mutating = w.mutating + 1 })
  mutation_exits :
      {w : World} {n : ℕ}
      → w.mutating ≡ n + 1
      → Step exclusive w (record w { barrier = exit_mutation w.barrier; mutating = n })
  snapshot_requests :
      {w : World}
      → (exclusive ≡ true → w.draining + w.sealing ≡ 0)
      → Step exclusive w
          (record w { barrier = request_freeze w.barrier; draining = w.draining + 1 })
  drain_cancelled :
      {w : World} {n : ℕ} → w.draining ≡ n + 1 → Step exclusive w (record w { draining = n })
  snapshot_enters :
      {w : World} {n : ℕ}
      → w.draining ≡ n + 1
      → may_seal w.barrier ≡ true
      → Step exclusive w (record w { draining = n; sealing = w.sealing + 1 })
  snapshot_exits :
      {w : World} {n : ℕ}
      → w.sealing ≡ n + 1
      → (failed : Bool)
      → Step exclusive w (record w { barrier = exit_snapshot failed w.barrier; sealing = n })

pub data Reachable (exclusive : Bool) : World → Type 0 where
  at_start : Reachable exclusive idle
  step_to : {w v : World} → Reachable exclusive w → Step exclusive w v → Reachable exclusive v
