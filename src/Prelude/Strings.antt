-- ===== src/Prelude/Strings.antt =====
-- Go strings and byte slices: lists of bytes, with one Boolean equality.
use Prim.Native.Nat.{ℕ}
use Prim.Native.Char.{code}
use Prim.Native.String.{String}
use mathlib.Core.Path.{◌≡◌, refl}
use mathlib.Core.Bool.{Bool, true, false, ◌&&◌, ◌||◌}
use mathlib.Core.List.{List, [], ◌∷◌}
use native.Mathlib.Omega.{arith}
use crawlerv.Prelude.Tests.{◌==◌}

abbrev pub Bytes : Type 0
Bytes = List ℕ

-- A Go string literal, as its bytes.
abbrev pub codes : String → Bytes
codes String.[] = []
codes (String.◌∷◌ c s) = code c ∷ codes s

unfoldable pub bytes_eq : Bytes → Bytes → Bool
bytes_eq [] [] = true
bytes_eq [] (b ∷ bs) = false
bytes_eq (a ∷ xs) [] = false
bytes_eq (a ∷ xs) (b ∷ bs) = a == b && bytes_eq xs bs

pub bytes_eq-eq : (a b : Bytes) → bytes_eq a b ≡ true → a ≡ b
unfolding bytes_eq
bytes_eq-eq [] [] h = refl
bytes_eq-eq [] (b ∷ bs) h = ground arith
bytes_eq-eq (a ∷ xs) [] h = ground arith
bytes_eq-eq (a ∷ xs) (b ∷ bs) h = ground (arith, bytes_eq-eq xs bs)

pub bytes_eq_refl : (a : Bytes) → bytes_eq a a ≡ true
unfolding bytes_eq
bytes_eq_refl [] = refl
bytes_eq_refl (a ∷ xs) = ground (arith, bytes_eq_refl xs)

-- Whether a text is among others, as `col IN (…)` and the loop of `Worker.Can` test it.
unfoldable pub contains : List Bytes → Bytes → Bool
contains [] a = false
contains (x ∷ xs) a = bytes_eq x a || contains xs a
