-- ===== src/Common/Decimal.antt =====
-- `{}` of integers: decimal digits.
use tlapix.Common.{ℕ, zero, suc, ◌+◌, ◌/◌, ◌%◌, [], ◌∷◌, ◌++◌, ltb, if◌then◌else◌, ◌≡◌, refl}
use tlapix.Common.Int.{ℤ, pos, negsuc}
use tlapix.Common.Text.{Text, text}

-- A number has fewer digits than its successor is large, so the fuel does not run out.
unfoldable pub show_digits : ℕ → ℕ → Text
show_digits zero n = []
show_digits (suc fuel) n =
    let rest = show_digits fuel (n / 10) in
    if ltb n 10 then (48 + n) ∷ [] else rest ++ (48 + n % 10) ∷ []

unfoldable pub show : ℕ → Text
unfolding show_digits
show n = show_digits (suc n) n

unfoldable pub show_ℤ : ℤ → Text
unfolding show
show_ℤ (pos n) = show n
show_ℤ (negsuc n) = b'-' ∷ show (suc n)

show_400 : show_ℤ (negsuc 397) ≡ text "-398"
unfolding show_ℤ
show_400 = refl
