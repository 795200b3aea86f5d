-- ===== src/Decimal.antt =====
-- `std::to_string` and `operator<<` of an integer: its decimal digits.
pub mod Reading
use cpp_social_network_clien.Common.{
  ℕ, zero, suc, ◌+◌, ◌/◌, ◌%◌, ◌<◌, ◌≡◌, List, [], ◌∷◌, ◌++◌, ℤ, pos, negsuc, Text, arith, ltb,
  if◌then◌else◌,
}

-- The digits of `n`, with fuel above `n`.
unfoldable pub digits : ℕ → ℕ → Text
digits zero n = []
digits (suc fuel) n =
    let rest = digits fuel (n / 10) ++ (n % 10 + 48) ∷ [] in
    if ltb n 10 then (n + 48) ∷ [] else rest

unfoldable pub to_string : ℕ → Text
unfolding digits
to_string n = digits (suc n) n

unfoldable pub int_to_string : ℤ → Text
unfolding to_string
int_to_string (pos n) = to_string n
int_to_string (negsuc n) = 45 ∷ to_string (suc n)
