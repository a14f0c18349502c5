-- ===== src/Prelude/Distinct.antt =====
-- Dictionaries whose keys are all different, and overwriting an entry.
use Prim.Native.String.{String}
use mathlib.Core.Path.{◌≡◌, refl, ap}
use mathlib.Core.Logic.{inl, inr}
use mathlib.Core.Bool.{false}
use mathlib.Core.Option.{some}
use mathlib.Core.List.{List, [], ◌∷◌}
use native.Mathlib.Omega.{arith}
use text.Mathlib.Text.{◌==◌}
use text.Mathlib.TextEquality.{eq_iff}
use text.Mathlib.TextPositions.{eq_refl}
use novamind.Prelude.Tests.{Bool-cases}
use novamind.Prelude.Lists.{contains}
use novamind.Prelude.Dict
use novamind.Prelude.Dict.{Dict, Entries, contains-keys, has_of_lookup, lookup_of_has}

abbrev pub AreDistinct : List String → Type 0
AreDistinct [] = Unit
AreDistinct (k ∷ ks) = (contains ks k ≡ false) × AreDistinct ks

module _ {ℓ} {V : Type ℓ} where
  pub keys-insert :
      (k : String) (v w : V) (d : Dict V)
      → Dict.lookup k d ≡ some v
      → Dict.keys (Dict.insert k w d) ≡ Dict.keys d
  unfolding Dict.keys Dict.insert Dict.lookup
  keys-insert k v w [] e = cc e
  keys-insert k v w ((j, x) ∷ d) e = elim (Bool-cases (j == k)) [
    | inl same ↦ rw same refl
    | inr other ↦ rw other (ap (λ ks. j ∷ ks) (keys-insert k v w d (rw other at e)))
  ]

  -- Each entry is what `get` finds at its key.
  pub Entries-lookup :
      (d : Dict V) → AreDistinct (Dict.keys d) → Entries (λ k v. Dict.lookup k d ≡ some v) d
  unfolding Dict.keys Dict.lookup
  Entries-lookup [] u = tt
  Entries-lookup ((k, v) ∷ d) (new, u) =
      (rw (eq_refl k) refl, weaken k v d d new (Entries-lookup d u))
    where
      weaken :
          (k : String) (v : V) (d e : Dict V)
          → contains (Dict.keys e) k ≡ false
          → Entries (λ j w. Dict.lookup j d ≡ some w) e
          → Entries (λ j w. Dict.lookup j ((k, v) ∷ d) ≡ some w) e
      weaken k v d [] new h = tt
      weaken k v d ((j, w) ∷ e) new h = (
        ground (arith, h.0, new, eq_iff j k, eq_iff k j),
        weaken k v d e (ground (arith, new)) h.1,
      )
