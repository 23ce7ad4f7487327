-- ===== src/Base/Strings.antt =====
-- What the code does with texts: the case of Latin-1 characters, decimal digits, `partition`, `in`.
use Prim.Native.Nat.{ℕ, zero, suc, ◌+◌, ◌/◌, ◌%◌}
use mathlib.Core.Bool.{Bool, true, false, not, ◌&&◌, ◌||◌}
use mathlib.Core.List.{List, [], ◌∷◌, ◌++◌}
use adaptive_admission_contr.Base.Tests.{ltb, leb, eqb, if◌then◌else◌}
use adaptive_admission_contr.Base.Codes.{Text, ◌==◌}

-- `str.lower` on the Latin-1 characters that a header name may have.
lower_char : ℕ → ℕ
lower_char c =
    if leb 65 c && leb c 90
    then c + 32
    else if leb 192 c && leb c 222 && not (eqb c 215)
    then c + 32
    else c

unfoldable pub lower : Text → Text
unfolding lower_char
lower [] = []
lower (c ∷ s) = lower_char c ∷ lower s

-- The decimal digits of a number.
digits_of : (fuel : ℕ) → ℕ → Text
digits_of zero n = []
digits_of (suc fuel) n =
    let rest = digits_of fuel (n / 10) in
    if ltb n 10 then (48 + n) ∷ [] else rest ++ (48 + n % 10) ∷ []

-- `str(n)`
unfoldable pub decimal : ℕ → Text
unfolding digits_of
decimal n = digits_of (suc n) n

cons_first : ℕ → Text × Text → Text × Text
cons_first c (s, t) = (c ∷ s, t)

-- The first and the last part of `s.partition(c)`: what stands before and after the first `c`.
unfoldable pub partition : ℕ → Text → Text × Text
unfolding cons_first
partition c [] = ([], [])
partition c (d ∷ s) = let rest = partition c s in if eqb d c then ([], s) else cons_first d rest

unfoldable pub starts_with : Text → Text → Bool
starts_with s [] = true
starts_with [] (d ∷ p) = false
starts_with (c ∷ s) (d ∷ p) = eqb c d && starts_with s p

-- `p in s`
unfoldable pub in_text : Text → Text → Bool
unfolding starts_with
in_text p [] = starts_with [] p
in_text p (c ∷ s) = starts_with (c ∷ s) p || in_text p s

-- `x in xs`, of a list of texts.
unfoldable pub in_list : Text → List Text → Bool
in_list x [] = false
in_list x (y ∷ ys) = x == y || in_list x ys
