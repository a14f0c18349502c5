-- ===== src/Frame/Reading.antt =====
-- The turns of a wire, and the bytes that they cut off.
use novamind.Prelude.{
  ℕ, zero, suc, ◌+◌, ◌≤◌, ◌≡◌, refl, ap, Bool, true, false, List, [], ◌∷◌, ◌++◌, length, take, drop,
  arith, all,
}
use novamind.Wal.{Bytes}
use novamind.Frame.Stream.{Turn, late, gives, next_grant, rest_of, is_late, is_empty}

abbrev pub not_late : Turn → Bool
not_late late = false
not_late (gives k) = true

-- The time is never over.
abbrev pub IsPunctual : List Turn → Type 0
IsPunctual ts = all not_late ts ≡ true

-- A call returns one byte at least and as many as were asked for at most.
pub next_grant_le :
    (ts : List Turn) (n : ℕ)
    → IsPunctual ts
    → (is_late ts ≡ false)
      × (1 ≤ next_grant ts n)
      × (next_grant ts n ≤ suc n)
      × IsPunctual (rest_of ts)
next_grant_le [] n h = (refl, omega arith, omega arith, refl)
next_grant_le (late ∷ ts) n h = cc h
next_grant_le (gives k ∷ ts) n h = (refl, ground arith, ground arith, h)

pub length-take_of : (w : ℕ) (xs : Bytes) → w ≤ length xs → length (take w xs) ≡ w
length-take_of zero xs h = refl
length-take_of (suc w) [] h = omega (arith, h)
length-take_of (suc w) (x ∷ xs) h = omega (arith, length-take_of w xs (omega (arith, h)))

take-nil : (m : ℕ) → take {A = ℕ} m [] ≡ []
take-nil zero = refl
take-nil (suc m) = refl

drop-nil : (m : ℕ) → drop {A = ℕ} m [] ≡ []
drop-nil zero = refl
drop-nil (suc m) = refl

pub take-drop : (g m n : ℕ) (xs : Bytes) → g + m ≡ n → take g xs ++ take m (drop g xs) ≡ take n xs
take-drop zero m n xs e = ap (λ k. take k xs) (omega (arith, e))
take-drop (suc g) m zero xs e = absurd (omega (arith, e))
take-drop (suc g) m (suc n) [] e = take-nil m
take-drop (suc g) m (suc n) (x ∷ xs) e = ap (λ l. x ∷ l) (take-drop g m n xs (omega (arith, e)))

pub drop-drop : (g m n : ℕ) (xs : Bytes) → g + m ≡ n → drop m (drop g xs) ≡ drop n xs
drop-drop zero m n xs e = ap (λ k. drop k xs) (omega (arith, e))
drop-drop (suc g) m zero xs e = absurd (omega (arith, e))
drop-drop (suc g) m (suc n) [] e = drop-nil m
drop-drop (suc g) m (suc n) (x ∷ xs) e = drop-drop g m n xs (omega (arith, e))

pub not_empty : (bs : Bytes) → 1 ≤ length bs → is_empty bs ≡ false
unfolding is_empty
not_empty [] h = absurd (omega (arith, h))
not_empty (b ∷ bs) h = refl
