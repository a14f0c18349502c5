-- ===== src/Prelude/Lists.antt =====
-- Lists over the native numbers, and the Boolean searches that Python writes `in`, `any`, `all`.
use Prim.Native.Nat.{ℕ, zero, suc, ◌+◌, ◌-◌, ◌≤◌}
use Prim.Native.String.{String}
use mathlib.Core.Path.{◌≡◌, refl, sym}
use mathlib.Core.Bool.{Bool, true, false, not, ◌&&◌, ◌||◌}
use mathlib.Core.List.{List, [], ◌∷◌, ◌++◌}
use mathlib.Core.Option.{Option, none, some}
use native.Mathlib.Omega.{arith}
use text.Mathlib.Text.{◌==◌}
use text.Mathlib.TextEquality.{eq_iff}
use mathlib.Core.Logic.{◌⊎◌, inl, inr}
use novamind.Prelude.Tests.{if◌then◌else◌, Bool-cases}

module _ {ℓ} {A : Type ℓ} where
  abbrev pub length : List A → ℕ
  length [] = 0
  length (x ∷ xs) = suc (length xs)

  abbrev pub get_elem? : List A → ℕ → Option A
  get_elem? [] i = none
  get_elem? (x ∷ xs) zero = some x
  get_elem? (x ∷ xs) (suc i) = get_elem? xs i

  abbrev pub take : ℕ → List A → List A
  take zero xs = []
  take (suc n) [] = []
  take (suc n) (x ∷ xs) = x ∷ take n xs

  abbrev pub drop : ℕ → List A → List A
  drop zero xs = xs
  drop (suc n) [] = []
  drop (suc n) (x ∷ xs) = drop n xs

  abbrev pub any : (A → Bool) → List A → Bool
  any p [] = false
  any p (x ∷ xs) = p x || any p xs

  abbrev pub all : (A → Bool) → List A → Bool
  all p [] = true
  all p (x ∷ xs) = p x && all p xs

  abbrev pub keep_if : (A → Bool) → List A → List A
  keep_if p [] = []
  keep_if p (x ∷ xs) = let rest = keep_if p xs in if p x then x ∷ rest else rest

  pub length-append : (xs ys : List A) → length (xs ++ ys) ≡ length xs + length ys
  length-append [] ys = omega arith
  length-append (x ∷ xs) ys = omega (arith, length-append xs ys)

  pub any-append : (p : A → Bool) (xs ys : List A) → any p (xs ++ ys) ≡ (any p xs || any p ys)
  any-append p [] ys = refl
  any-append p (x ∷ xs) ys = ground (arith, any-append p xs ys)

  pub all-append : (p : A → Bool) (xs ys : List A) → all p (xs ++ ys) ≡ (all p xs && all p ys)
  all-append p [] ys = refl
  all-append p (x ∷ xs) ys = ground (arith, all-append p xs ys)

  pub append_assoc : (xs ys zs : List A) → (xs ++ ys) ++ zs ≡ xs ++ (ys ++ zs)
  append_assoc [] ys zs = refl
  append_assoc (x ∷ xs) ys zs = rw (append_assoc xs ys zs) refl

  pub append-nil : (xs : List A) → xs ++ [] ≡ xs
  append-nil [] = refl
  append-nil (x ∷ xs) = rw (append-nil xs) refl

  pub take-append : (xs ys : List A) → take (length xs) (xs ++ ys) ≡ xs
  take-append [] ys = refl
  take-append (x ∷ xs) ys = rw (take-append xs ys) refl

  pub drop-append : (xs ys : List A) → drop (length xs) (xs ++ ys) ≡ ys
  drop-append [] ys = refl
  drop-append (x ∷ xs) ys = drop-append xs ys

  pub take-append_of : (n : ℕ) (xs ys : List A) → length xs ≡ n → take n (xs ++ ys) ≡ xs
  take-append_of n xs ys e = rw (sym e) (take-append xs ys)

  pub drop-append_of : (n : ℕ) (xs ys : List A) → length xs ≡ n → drop n (xs ++ ys) ≡ ys
  drop-append_of n xs ys e = rw (sym e) (drop-append xs ys)

  pub length-drop_le : (n : ℕ) (xs : List A) → length (drop n xs) ≤ length xs
  length-drop_le zero xs = omega arith
  length-drop_le (suc n) [] = omega arith
  length-drop_le (suc n) (x ∷ xs) = omega (arith, length-drop_le n xs)

  pub length-take_le : (n : ℕ) (xs : List A) → length (take n xs) ≤ length xs
  length-take_le zero xs = omega arith
  length-take_le (suc n) [] = omega arith
  length-take_le (suc n) (x ∷ xs) = omega (arith, length-take_le n xs)

  pub length-drop : (n : ℕ) (xs : List A) → length (drop n xs) ≡ length xs - n
  length-drop zero xs = omega arith
  length-drop (suc n) [] = omega arith
  length-drop (suc n) (x ∷ xs) = omega (arith, length-drop n xs)

pub List-cases {ℓ} : {A : Type ℓ} (l : List A) → (l ≡ []) ⊎ ((x : A) × (xs : List A) × (l ≡ x ∷ xs))
List-cases [] = inl refl
List-cases (x ∷ xs) = inr (x, xs, refl)

-- The lists one after the other.
abbrev pub flat {ℓ} : {A : Type ℓ} → List (List A) → List A
flat [] = []
flat (xs ∷ xss) = xs ++ flat xss

pub flat-snoc {ℓ} :
    {A : Type ℓ} (xss : List (List A)) (xs : List A) → flat (xss ++ xs ∷ []) ≡ flat xss ++ xs
flat-snoc [] xs = append-nil xs
flat-snoc (ys ∷ xss) xs = rw (flat-snoc xss xs) (sym (append_assoc ys (flat xss) xs))

pub take-length {ℓ} : {A : Type ℓ} (xs : List A) → take (length xs) xs ≡ xs
take-length [] = refl
take-length (x ∷ xs) = rw (take-length xs) refl

-- `x in xs` for texts.
abbrev pub contains : List String → String → Bool
contains xs a = any (λ x. x == a) xs

pub contains-snoc :
    (xs : List String) (x a : String) → contains (xs ++ x ∷ []) a ≡ (contains xs a || x == a)
contains-snoc [] x a = ground arith
contains-snoc (y ∷ xs) x a = ground (arith, contains-snoc xs x a)

-- `[x for x in xs if x != k]`
pub contains-keep_if :
    (k : String) (xs : List String) (a : String)
    → contains (keep_if (λ j. not (j == k)) xs) a ≡ (not (k == a) && contains xs a)
contains-keep_if k [] a = ground arith
contains-keep_if k (x ∷ xs) a =
    ground (arith, contains-keep_if k xs a, eq_iff x k, eq_iff k a, eq_iff x a)

-- s.add(x), on a set
abbrev pub add : String → List String → List String
add x l = if contains l x then l else l ++ x ∷ []

pub contains-add :
    (x : String) (l : List String) (a : String) → contains (add x l) a ≡ (contains l a || x == a)
contains-add x l a = elim (Bool-cases (contains l x)) [
  | inl old ↦ rw old (same_of old)
  | inr new ↦ rw new (contains-snoc l x a)
]
  where
    same_of : contains l x ≡ true → contains l a ≡ (contains l a || x == a)
    same_of old = ground (arith, eq_iff x a)

pub length-add :
    (x : String) (l : List String) → contains l x ≡ false → length (add x l) ≡ suc (length l)
length-add x l new = rw new (omega (arith, length-append l (x ∷ [])))

pub all-contains-add :
    (x : String) (done ps : List String)
    → all (contains done) ps ≡ true
    → all (contains (add x done)) ps ≡ true
all-contains-add x done [] h = refl
all-contains-add x done (p ∷ ps) h =
    ground (arith, contains-add x done p, all-contains-add x done ps)
