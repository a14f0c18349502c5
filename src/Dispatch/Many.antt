-- ===== src/Dispatch/Many.antt =====
-- The journal that a list of dispatches leaves.
use novamind.Prelude.{
  ℕ, String, ◌≡◌, refl, sym, ap, ◌∙◌, false, Option, List, [], ◌∷◌, ◌==◌, contains, eq_iff, map,
  inl, inr, arith,
}
use mathlib.Core.Path.{subst}
use novamind.Prelude.Dict
use novamind.Prelude.Dict.{has-insert}
use novamind.Prelude.Result.{Result}
use novamind.Contracts.{Value, ExecutionIntent}
use novamind.Journal.{Write, is_left, Kernel, Move, move, moves, no_kernel}
use novamind.Journal.Faithful.{IsFaithful, move-IsFaithful, move-cases, moves-IsFaithful}
use novamind.Dispatch.Context.{Fault, Store, Config}
use novamind.Dispatch.Execute.{Answers}
use novamind.Dispatch.Refines.{Only, Grows}
use novamind.Dispatch.Faithful.{IsFresh, dispatch_sync-Grows}
use novamind.Dispatch.{dispatch_sync}

-- A call of `dispatch_sync`, with what happens outside during it.
pub record Job : Type 0 where
  pub works : ℕ → Write
  pub config : Config
  pub sha256 : String → Option Value → Result Fault String
  pub read : String → Result Fault (Option String)
  pub now : ℕ
  pub lease_id : String
  pub answers : Answers
  pub intent : ExecutionIntent

unfoldable pub dispatch_all : List Job → Store → Store
dispatch_all [] w = w
dispatch_all (j ∷ js) w =
    dispatch_all js
      (dispatch_sync j.works j.config j.sha256 j.read j.now j.lease_id j.answers j.intent w).1

abbrev pub id_of : Job → String
id_of j = j.intent.intent_id

-- No id is empty, and no two are equal.
abbrev pub HasDistinctIds : List Job → Type 0
HasDistinctIds [] = Unit
HasDistinctIds (j ∷ js) =
    ((id_of j == "") ≡ false) × (contains (map id_of js) (id_of j) ≡ false) × HasDistinctIds js

-- No write that fails leaves anything in the file.
abbrev pub LeaveNothing : List Job → Type 0
LeaveNothing [] = Unit
LeaveNothing (j ∷ js) = ((n : ℕ) → is_left (j.works n) ≡ false) × LeaveNothing js

-- None of the ids has been dispatched.
AllFresh : List Job → Kernel → Type 0
AllFresh [] k = Unit
AllFresh (j ∷ js) k = IsFresh (id_of j) k × AllFresh js k

move-IsFresh :
    (c : Move) (j : String) (k : Kernel) → (c.id == j) ≡ false → IsFresh j k → IsFresh j (move c k)
move-IsFresh c j k other h = elim (move-cases c k) [
  | inl (ls, e, kept) ↦ rw e h
  | inr (legal, e) ↦ rw e (has-insert c.id j _ k.machines ∙ rw (other, h) refl)
]

moves-IsFresh :
    (works : ℕ → Write) (id j : String) (l : List Move) (k : Kernel)
    → Only works id l
    → (id == j) ≡ false
    → IsFresh j k
    → IsFresh j (moves l k)
unfolding moves
moves-IsFresh works id j [] k only other h = h
moves-IsFresh works id j (c ∷ l) k (e, some_write, only) other h =
    moves-IsFresh works id j l (move c k) only other (move-IsFresh c j k (rw e other) h)

Only-IsFaithful :
    (works : ℕ → Write) (id : String) (l : List Move) (k : Kernel)
    → ((n : ℕ) → is_left (works n) ≡ false)
    → Only works id l
    → (id == "") ≡ false
    → IsFaithful k
    → IsFaithful (moves l k)
unfolding moves
Only-IsFaithful works id [] k clean only named h = h
Only-IsFaithful works id (c ∷ l) k clean (e, (n, write), only) named h =
    Only-IsFaithful works id l (move c k) clean only named
      (move-IsFaithful c k (rw e named) (ap is_left write ∙ clean n) h)

module _ (works : ℕ → Write) (id : String) (k k' : Kernel) (g : Grows works id k k') where
  Grows-AllFresh :
      (js : List Job) → contains (map id_of js) id ≡ false → AllFresh js k → AllFresh js k'
  unfolding AllFresh
  Grows-AllFresh [] other h = tt
  Grows-AllFresh (j ∷ js) other (h, hs) = (
    subst (IsFresh (id_of j)) (sym g.result) (
        moves-IsFresh works id (id_of j) g.calls k g.only
          (ground (arith, other, eq_iff (id_of j) id, eq_iff id (id_of j))) h),
    Grows-AllFresh js (ground (arith, other)) hs,
  )

dispatch_all-lem :
    (js : List Job) (w : Store)
    → HasDistinctIds js
    → LeaveNothing js
    → AllFresh js w.kernel
    → IsFaithful w.kernel
    → IsFaithful (dispatch_all js w).kernel
unfolding dispatch_all AllFresh
dispatch_all-lem [] w named clean fresh h = h
dispatch_all-lem (j ∷ js) w (named, other, rest) (clean, cleans) (here, fresh) h =
    let w' : Store =
      (dispatch_sync j.works j.config j.sha256 j.read j.now j.lease_id j.answers j.intent w).1 in
    let g : Grows j.works (id_of j) w.kernel w'.kernel =
      dispatch_sync-Grows j.works j.config j.sha256 j.now j.lease_id j.intent j.read j.answers w
        here in
    dispatch_all-lem js w' rest cleans
      (Grows-AllFresh j.works (id_of j) w.kernel w'.kernel g js other fresh)
      (subst IsFaithful (sym g.result)
        (Only-IsFaithful j.works (id_of j) g.calls w.kernel clean g.only named h))

AllFresh-none : (js : List Job) (k : Kernel) → k.machines ≡ [] → AllFresh js k
unfolding Dict.has AllFresh
AllFresh-none [] k e = tt
AllFresh-none (j ∷ js) k e = (rw e refl, AllFresh-none js k e)

-- After any dispatches of intents whose ids are neither empty nor equal, from a kernel that has
-- dispatched nothing, the analysis of the journal has no divergence and agrees with the machine of
-- every intent, whatever the checks, workers, adapters and disks do and whichever writes of the
-- journal fail, as long as none that fails leaves anything in the file.
pub dispatch_all-IsFaithful :
    (js : List Job) (w : Store)
    → w.kernel ≡ no_kernel
    → HasDistinctIds js
    → LeaveNothing js
    → IsFaithful (dispatch_all js w).kernel
unfolding moves
dispatch_all-IsFaithful js w e named clean =
    dispatch_all-lem js w named clean (AllFresh-none js w.kernel (ap Kernel.machines e))
      (subst IsFaithful (sym e) (moves-IsFaithful [] tt))
