-- ===== src/Causal/Sort.antt =====
-- `ScheduledEvent` and `sorted` over its `__lt__`: Python's sort is stable, and so is this one.
use novamind.Prelude.{
  ℕ, suc, ◌≤◌, String, ◌≡◌, refl, Bool, true, ◌&&◌, ◌||◌, List, [], ◌∷◌, length, any, all, ltb,
  arith, if◌then◌else◌, leb,
}

pub record ScheduledEvent : Type 0 where
  pub event_id : String
  pub payload : String
  pub causal_parents : List String
  pub logical_clock : ℕ
  pub epoch_id : ℕ

-- Before the first event that is later than `e`, or later than or equal to it if `e` came first.
unfoldable pub insert_before : ScheduledEvent → List ScheduledEvent → List ScheduledEvent
insert_before e [] = e ∷ []
insert_before e (f ∷ l) =
    if ltb f.logical_clock e.logical_clock then f ∷ insert_before e l else e ∷ f ∷ l

unfoldable pub clock_sort : List ScheduledEvent → List ScheduledEvent
unfolding insert_before
clock_sort [] = []
clock_sort (e ∷ l) = insert_before e (clock_sort l)

-- Ascending in the logical clock.
abbrev pub IsSorted : List ScheduledEvent → Type 0
IsSorted [] = Unit
IsSorted (e ∷ l) = (all (λ f. leb e.logical_clock f.logical_clock) l ≡ true) × IsSorted l

module _ (p : ScheduledEvent → Bool) where
  all-insert_before :
      (e : ScheduledEvent) (l : List ScheduledEvent) → all p (insert_before e l) ≡ (p e && all p l)
  unfolding insert_before
  all-insert_before e [] = refl
  all-insert_before e (f ∷ l) = ground (arith, all-insert_before e l)

  pub all-clock_sort : (l : List ScheduledEvent) → all p (clock_sort l) ≡ all p l
  unfolding clock_sort
  all-clock_sort [] = refl
  all-clock_sort (e ∷ l) = ground (arith, all-insert_before e (clock_sort l), all-clock_sort l)

  any-insert_before :
      (e : ScheduledEvent) (l : List ScheduledEvent) → any p (insert_before e l) ≡ (p e || any p l)
  unfolding insert_before
  any-insert_before e [] = refl
  any-insert_before e (f ∷ l) = ground (arith, any-insert_before e l)

  any-clock_sort : (l : List ScheduledEvent) → any p (clock_sort l) ≡ any p l
  unfolding clock_sort
  any-clock_sort [] = refl
  any-clock_sort (e ∷ l) = ground (arith, any-insert_before e (clock_sort l), any-clock_sort l)

length-insert_before :
    (e : ScheduledEvent) (l : List ScheduledEvent) → length (insert_before e l) ≡ suc (length l)
unfolding insert_before
length-insert_before e [] = refl
length-insert_before e (f ∷ l) = ground (arith, length-insert_before e l)

length-clock_sort : (l : List ScheduledEvent) → length (clock_sort l) ≡ length l
unfolding clock_sort
length-clock_sort [] = refl
length-clock_sort (e ∷ l) =
    ground (arith, length-insert_before e (clock_sort l), length-clock_sort l)

all_trans :
    (a b : ℕ) (l : List ScheduledEvent)
    → a ≤ b
    → all (λ f. leb b f.logical_clock) l ≡ true
    → all (λ f. leb a f.logical_clock) l ≡ true
all_trans a b [] h k = refl
all_trans a b (f ∷ l) h k = ground (arith, all_trans a b l)

insert_before-IsSorted :
    (e : ScheduledEvent) (l : List ScheduledEvent) → IsSorted l → IsSorted (insert_before e l)
unfolding insert_before
insert_before-IsSorted e [] h = (refl, tt)
insert_before-IsSorted e (f ∷ l) h = ground (
  arith,
  insert_before-IsSorted e l,
  all-insert_before (λ g. leb f.logical_clock g.logical_clock) e l,
  all_trans e.logical_clock f.logical_clock l,
)

-- The ready events are dispatched in ascending order of the logical clock.
pub clock_sort-IsSorted : (l : List ScheduledEvent) → IsSorted (clock_sort l)
unfolding clock_sort
clock_sort-IsSorted [] = tt
clock_sort-IsSorted (e ∷ l) = insert_before-IsSorted e (clock_sort l) (clock_sort-IsSorted l)

pub clock_sort-nil : clock_sort [] ≡ []
unfolding clock_sort
clock_sort-nil = refl
