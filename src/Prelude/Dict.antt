-- ===== src/Prelude/Dict.antt =====
-- Python's `dict` with text keys, as the list of its entries in insertion order: a write to a key
-- that is there keeps its place, and a new key goes to the end.
use Prim.Native.Nat.{suc, ◌≤◌, ◌<◌}
use Prim.Native.String.{String}
use mathlib.Core.Path.{◌≡◌, refl, sym, ◌∙◌, subst}
use mathlib.Core.Logic.{inl, inr}
use mathlib.Core.Bool.{Bool, true, false, not, ◌&&◌, ◌||◌}
use mathlib.Core.Option.{Option, none, some, some-injective}
use mathlib.Core.List.{List, [], ◌∷◌}
use native.Mathlib.Omega.{arith}
use text.Mathlib.Text.{◌==◌}
use text.Mathlib.TextEquality.{eq_iff}
use text.Mathlib.TextPositions.{eq_refl}
use novamind.Prelude.Lists.{contains, length}
use novamind.Prelude.Tests.{if◌then◌else◌, Bool-cases}

abbrev pub Dict {ℓ} : Type ℓ → Type ℓ
Dict V = List (String × V)

module _ {ℓ} {V : Type ℓ} where
  -- d.get(k)
  unfoldable pub lookup : String → Dict V → Option V
  lookup k [] = none
  lookup k ((j, v) ∷ d) = if j == k then some v else lookup k d

  -- d[k] = v
  unfoldable pub insert : String → V → Dict V → Dict V
  insert k v [] = (k, v) ∷ []
  insert k v ((j, w) ∷ d) = if j == k then (j, v) ∷ d else (j, w) ∷ insert k v d

  -- d.pop(k, None)
  unfoldable pub remove : String → Dict V → Dict V
  remove k [] = []
  remove k ((j, v) ∷ d) = let rest = remove k d in if j == k then rest else (j, v) ∷ rest

  -- k in d
  unfoldable pub has : String → Dict V → Bool
  has k [] = false
  has k ((j, v) ∷ d) = j == k || has k d

  unfoldable pub keys : Dict V → List String
  keys [] = []
  keys ((j, v) ∷ d) = j ∷ keys d

  -- An assignment to a field of the object d[k], where k is in d.
  unfoldable pub modify : String → (V → V) → Dict V → Dict V
  modify k f [] = []
  modify k f ((j, v) ∷ d) =
      let rest = modify k f d in if j == k then (j, f v) ∷ rest else (j, v) ∷ rest

  -- An assignment to a field of each object in d.values().
  unfoldable pub map_values : (V → V) → Dict V → Dict V
  map_values f [] = []
  map_values f ((j, v) ∷ d) = (j, f v) ∷ map_values f d

  pub lookup-insert :
      (k j : String) (v : V) (d : Dict V)
      → lookup j (insert k v d) ≡ (if k == j then some v else lookup j d)
  unfolding lookup insert
  lookup-insert k j v [] = refl
  lookup-insert k j v ((i, w) ∷ d) =
      ground (arith, eq_iff k j, eq_iff i k, eq_iff i j, lookup-insert k j v d)

  pub lookup-remove :
      (k j : String) (d : Dict V) → lookup j (remove k d) ≡ (if k == j then none else lookup j d)
  unfolding lookup remove
  lookup-remove k j [] = ground arith
  lookup-remove k j ((i, w) ∷ d) =
      ground (arith, eq_iff k j, eq_iff i k, eq_iff i j, lookup-remove k j d)

  pub has-insert : (k j : String) (v : V) (d : Dict V) → has j (insert k v d) ≡ (k == j || has j d)
  unfolding has insert
  has-insert k j v [] = refl
  has-insert k j v ((i, w) ∷ d) =
      ground (arith, eq_iff k j, eq_iff i k, eq_iff i j, has-insert k j v d)

module _ {ℓ} {V : Type ℓ} where
  abbrev pub map_some : (V → V) → Option V → Option V
  map_some f none = none
  map_some f (some v) = some (f v)

  pub lookup-modify :
      (k j : String) (f : V → V) (d : Dict V)
      → lookup j (modify k f d) ≡ (if k == j then map_some f (lookup j d) else lookup j d)
  unfolding lookup modify
  lookup-modify k j f [] = ground arith
  lookup-modify k j f ((i, w) ∷ d) =
      ground (arith, eq_iff k j, eq_iff i k, eq_iff i j, lookup-modify k j f d)

  pub lookup-map_values :
      (j : String) (f : V → V) (d : Dict V) → lookup j (map_values f d) ≡ map_some f (lookup j d)
  unfolding lookup map_values
  lookup-map_values j f [] = refl
  lookup-map_values j f ((i, w) ∷ d) = ground (arith, lookup-map_values j f d)

  pub has-modify : (k j : String) (f : V → V) (d : Dict V) → has j (modify k f d) ≡ has j d
  unfolding has modify
  has-modify k j f [] = refl
  has-modify k j f ((i, w) ∷ d) = ground (arith, has-modify k j f d)

  -- What holds of the value at a key, if the key is there.
  abbrev pub AtKey {κ} : (V → Type κ) → String → Dict V → Type (ℓ ⊔ κ)
  AtKey P k d = (v : V) → lookup k d ≡ some v → P v

  some_of_map_some :
      (f : V → V) (o : Option V) (v : V)
      → map_some f o ≡ some v
      → (w : V) × (o ≡ some w) × (f w ≡ v)
  some_of_map_some f (some w) v e = (w, refl, some-injective _ _ e)
  some_of_map_some f none v e = cc

  pub AtKey-map_values {κ} :
      {P : V → Type κ} (k : String) (f : V → V) (d : Dict V)
      → ((v : V) → P v → P (f v))
      → AtKey P k d
      → AtKey P k (map_values f d)
  AtKey-map_values {P} k f d keep h v e =
      let (w, found, same) =
        some_of_map_some f (lookup k d) v (sym (lookup-map_values k f d) ∙ e) in
      subst P same (keep w (h w found))

  pub AtKey-modify {κ} :
      {P : V → Type κ} (k j : String) (f : V → V) (d : Dict V)
      → ((v : V) → P v → P (f v))
      → AtKey P k d
      → AtKey P k (modify j f d)
  AtKey-modify {P} k j f d keep h v e = elim (Bool-cases (j == k)) [
    | inl same ↦
        let (w, found, eq) =
          some_of_map_some f (lookup k d) v (rw same at (sym (lookup-modify j k f d) ∙ e)) in
        subst P eq (keep w (h w found))
    | inr other ↦ h v (rw other at (sym (lookup-modify j k f d) ∙ e))
  ]

  pub AtKey-modify_self {κ} :
      (P : V → Type κ) (k : String) (f : V → V) (d : Dict V)
      → ((v : V) → P (f v))
      → AtKey P k (modify k f d)
  AtKey-modify_self P k f d made v e =
      let (w, found, eq) =
        some_of_map_some f (lookup k d) v (rw eq_refl at (sym (lookup-modify k k f d) ∙ e)) in
      subst P eq (made w)

  pub lookup_of_has : (k : String) (d : Dict V) → has k d ≡ false → lookup k d ≡ none
  unfolding has lookup
  lookup_of_has k [] h = refl
  lookup_of_has k ((i, w) ∷ d) h = ground (arith, lookup_of_has k d)

  pub has_of_lookup : (k : String) (v : V) (d : Dict V) → lookup k d ≡ some v → has k d ≡ true
  unfolding has lookup
  has_of_lookup k v [] h = cc
  has_of_lookup k v ((i, w) ∷ d) h = ground (arith, has_of_lookup k v d)

  pub modify_of_not_has : (k : String) (f : V → V) (d : Dict V) → has k d ≡ false → modify k f d ≡ d
  unfolding has modify
  modify_of_not_has k f [] h = refl
  modify_of_not_has k f ((i, w) ∷ d) h = ground (arith, modify_of_not_has k f d)

  pub not_has_of_lookup : (k : String) (d : Dict V) → lookup k d ≡ none → has k d ≡ false
  unfolding has lookup
  not_has_of_lookup k [] h = refl
  not_has_of_lookup k ((i, w) ∷ d) h = ground (arith, not_has_of_lookup k d)

  pub contains-keys : (k : String) (d : Dict V) → contains (keys d) k ≡ has k d
  unfolding keys has
  contains-keys k [] = refl
  contains-keys k ((i, w) ∷ d) = ground (arith, contains-keys k d)

  -- `P` holds of every entry.
  abbrev pub Entries {κ} : (String → V → Type κ) → Dict V → Type κ
  Entries P [] = Unit
  Entries P ((k, v) ∷ d) = P k v × Entries P d

  pub lookup-Entries {κ} :
      (P : String → V → Type κ) (k : String) (d : Dict V) {v : V}
      → Entries P d
      → lookup k d ≡ some v
      → P k v
  unfolding lookup
  lookup-Entries P k [] h e = absurd (none_some e)
    where
      none_some : {v : V} → none ≡ some v → ⊥
      none_some e = cc
  lookup-Entries P k ((j, w) ∷ d) {v} h e = elim (Bool-cases (j == k)) [
    | inl same ↦
        subst (λ i. P i v) ((eq_iff j k).0 same)
          (subst (P j) (some-injective _ _ (rw same at e)) h.0)
    | inr other ↦ lookup-Entries P k d h.1 (rw other at e)
  ]

  pub has-remove : (k j : String) (d : Dict V) → has j (remove k d) ≡ (not (k == j) && has j d)
  unfolding has remove
  has-remove k j [] = ground arith
  has-remove k j ((i, w) ∷ d) = ground (arith, eq_iff k j, eq_iff i k, eq_iff i j, has-remove k j d)

  pub remove_of_not_has : (k : String) (d : Dict V) → has k d ≡ false → remove k d ≡ d
  unfolding has remove
  remove_of_not_has k [] h = refl
  remove_of_not_has k ((i, w) ∷ d) h = ground (arith, remove_of_not_has k d)

  pub length-remove-le : (k : String) (d : Dict V) → length (remove k d) ≤ length d
  unfolding remove
  length-remove-le k [] = omega arith
  length-remove-le k ((i, w) ∷ d) = ground (arith, length-remove-le k d)

  pub length-remove-lt : (k : String) (d : Dict V) → has k d ≡ true → length (remove k d) < length d
  unfolding remove has
  length-remove-lt k [] h = cc
  length-remove-lt k ((i, w) ∷ d) h = ground (arith, length-remove-lt k d, length-remove-le k d)

  pub Entries-remove {κ} :
      (P : String → V → Type κ) (k : String) (d : Dict V) → Entries P d → Entries P (remove k d)
  unfolding remove
  Entries-remove P k [] h = tt
  Entries-remove P k ((i, w) ∷ d) h = elim (Bool-cases (i == k)) [
    | inl same ↦ rw same (Entries-remove P k d h.1)
    | inr other ↦ rw other (h.0, Entries-remove P k d h.1)
  ]

  pub Entries-insert {κ} :
      (P : String → V → Type κ) (k : String) (v : V) (d : Dict V)
      → P k v
      → Entries P d
      → Entries P (insert k v d)
  unfolding insert
  Entries-insert P k v [] p h = (p, tt)
  Entries-insert P k v ((i, w) ∷ d) p h = elim (Bool-cases (i == k)) [
    | inl same ↦ rw same (subst (λ j. P j v) (sym ((eq_iff i k).0 same)) p, h.1)
    | inr other ↦ rw other (h.0, Entries-insert P k v d p h.1)
  ]

  pub length-insert-le : (k : String) (v : V) (d : Dict V) → length (insert k v d) ≤ suc (length d)
  unfolding insert
  length-insert-le k v [] = omega arith
  length-insert-le k v ((i, w) ∷ d) = ground (arith, length-insert-le k v d)

  pub nil_of_has : (d : Dict V) → ((j : String) → has j d ≡ false) → d ≡ []
  unfolding has
  nil_of_has [] h = refl
  nil_of_has ((i, w) ∷ d) h = ground (arith, h i, eq_refl i)

pub ruleset dict_laws =
    (lookup-insert, lookup-remove, has-insert, lookup-modify, lookup-map_values, has-modify)
