-- ===== src/Prelude/Texts.antt =====
-- Python's `in` on texts, and their concatenation.
use Prim.Native.Nat.{ℕ}
use Prim.Native.Char.{code}
use Prim.Native.String.find
use Prim.Native.String.{String, [], ◌∷◌, ◌++◌, len, find, begins}
use mathlib.Core.Path.{◌≡◌, refl, ◌∙◌}
use mathlib.Core.Bool.{Bool, true}
use text.Mathlib.TextPositions.{compare_self}
use native.Mathlib.Omega.{arith}
use novamind.Prelude.Tests.{leb}

-- p in s
unfoldable pub is_in : String → String → Bool
is_in p s = leb (find s p) (len s)

begins_refl : (s : String) (y n : ℕ) → begins s s y n ≡ y
begins_refl [] y n = refl
begins_refl (c ∷ s) y n = rw (compare_self (code c)) (begins_refl s y n)

find_refl : (s : String) → find s s ≡ 0
find_refl [] = find.nil [] ∙ begins_refl [] 0 1
find_refl (c ∷ s) = find.cons c s (c ∷ s) ∙ begins_refl (c ∷ s) 0 _

pub is_in_refl : (s : String) → is_in s s ≡ true
unfolding is_in
is_in_refl s = rw (find_refl s) ground arith

-- The two texts, one after the other.
abbrev pub concat : String → String → String
concat s t = s ++ t
