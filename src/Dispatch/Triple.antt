-- ===== src/Dispatch/Triple.antt =====
-- What a method of the dispatcher leaves when it returns and when it raises.
use novamind.Prelude.{
  ℕ, String, ◌≡◌, refl, ap, ◌∙◌, false, [], ◌∷◌, ◌++◌, eq_refl, if◌then◌else◌, Bool-cases, ◌⊎◌, inl,
  inr,
}
use novamind.Prelude.Dict
use novamind.Prelude.Dict.{Dict}
use novamind.Prelude.Result.{Result, ok, err}
use novamind.Intent.{State, mem, legal_transitions, Machine}
use novamind.Journal.{Write, is_stored, Contract, entry, machine_of, transition_logged, move}
use novamind.Journal.Faithful.{machine_of-insert, transition_lem, made, stepped}
use novamind.Dispatch.Context.{Event, Fault, Store, M, bind_result, transition, emit}

module _ {A : Type 0} where
  -- `P` holds of what is returned, `Q` after a raise.
  abbrev pub Leaves :
      (A → Store → Type 0) → (Fault → Store → Type 0) → Result Fault A × Store → Type 0
  Leaves P Q (ok a, w) = P a w
  Leaves P Q (err e, w) = Q e w

  pub Leaves-map :
      {P P' : A → Store → Type 0} {Q Q' : Fault → Store → Type 0} (r : Result Fault A × Store)
      → Leaves P Q r
      → ((a : A) (w : Store) → P a w → P' a w)
      → ((e : Fault) (w : Store) → Q e w → Q' e w)
      → Leaves P' Q' r
  Leaves-map (ok a, w) h f g = f a w h
  Leaves-map (err e, w) h f g = g e w h

pub Leaves-bind :
    {A B : Type 0} {P : A → Store → Type 0} (R : B → Store → Type 0) (Q : Fault → Store → Type 0)
    (r : Result Fault A × Store) (f : A → M B)
    → Leaves P Q r
    → ((a : A) (w : Store) → P a w → Leaves R Q (f a w))
    → Leaves R Q (bind_result r f)
Leaves-bind R Q (ok a, w) f h g = g a w h
Leaves-bind R Q (err e, w) f h g = h

pub Leaves-lift :
    {A B : Type 0} (R : B → Store → Type 0) (Q : Fault → Store → Type 0) (r : Result Fault A)
    (f : A → M B) (w : Store)
    → ((e : Fault) → r ≡ err e → Q e w)
    → ((a : A) → r ≡ ok a → Leaves R Q (f a w))
    → Leaves R Q (bind_result (r, w) f)
Leaves-lift R Q (ok a) f w h g = g a refl
Leaves-lift R Q (err e) f w h g = h e refl

abbrev pub InState : String → State → Store → Type 0
InState id s w = (machine_of id w.kernel.machines).state ≡ s

module _ (works : ℕ → Write) (id : String) where
  -- A transition that returns was legal, wrote its record and is taken; one that raises was illegal
  -- or its write failed, and changes no machine.
  abbrev pub Moved : State → Contract → Store → Store → Type 0
  Moved t p w v =
      InState id t v
      × (v.kernel.lines
          ≡ w.kernel.lines ++ entry (made (machine_of id w.kernel.machines).intent_id t p) ∷ [])
      × (v.broker ≡ w.broker)
      × ((machine_of id v.kernel.machines).intent_id ≡ (machine_of id w.kernel.machines).intent_id)

  abbrev pub Stuck : State → Store → Store → Type 0
  Stuck t w v =
      (v.kernel.machines ≡ w.kernel.machines)
      × ((is_stored (works w.calls) ≡ false)
          ⊎ (mem t (legal_transitions (machine_of id w.kernel.machines).state) ≡ false))

  pub transition-Leaves :
      (t : State) (p : Contract) (w : Store)
      → Leaves (λ _. Moved t p w) (λ _. Stuck t w) (transition works id t p w)
  unfolding transition move transition_logged
  transition-Leaves t p w =
      let m : Machine = machine_of id w.kernel.machines in
      let ms : Dict Machine = Dict.insert id (stepped m t) w.kernel.machines in
      let now : machine_of id ms ≡ stepped m t =
        machine_of-insert id id (stepped m t) w.kernel.machines
        ∙ ap (λ b. if b then stepped m t else m) (eq_refl id) in
      elim (Bool-cases (mem t (legal_transitions m.state))) [
        | inr e ↦ rw (e, transition_logged, move) (refl, inr e)
        | inl e ↦ elim (Bool-cases (is_stored (works w.calls))) [
          | inr f ↦ rw (e, f, transition_logged, move) (refl, inl f)
          | inl f ↦
              rw (e, f, transition_logged, move)
                (rw (transition_lem m t e)
                  (ap Machine.state now, refl, refl, ap Machine.intent_id now))
        ]
      ]

  pub emit-Leaves :
      (e : Event) (w : Store)
      → Leaves
          (λ _ v. v.kernel ≡ w.kernel × v.broker ≡ w.broker)
          (λ _ v. v.kernel ≡ w.kernel × is_stored (works w.calls) ≡ false)
          (emit works e w)
  unfolding emit
  emit-Leaves e w = elim (Bool-cases (is_stored (works w.calls))) [
    | inl f ↦ rw f (refl, refl)
    | inr f ↦ rw f (refl, refl)
  ]
