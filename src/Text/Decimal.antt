-- ===== src/Text/Decimal.antt =====
-- `u64::to_string` and `u16::to_string`: a number in decimal digits.
pub mod RoundTrip
use shadowstep.Prelude.{ℕ, zero, suc, ◌+◌, ◌/◌, ◌%◌, true, false, [], ◌∷◌, ltb}
use shadowstep.Text.{Text}

-- The digits of `n`, on fuel, in front of those that follow. A number of `n` needs `n` rounds at most.
pub digits : ℕ → ℕ → Text → Text
digits zero n rest = (b'0' + n % 10) ∷ rest
digits (suc fuel) n rest = elim (ltb n 10) [
  | true ↦ (b'0' + n % 10) ∷ rest
  | false ↦ digits fuel (n / 10) ((b'0' + n % 10) ∷ rest)
]

unfoldable pub to_string : ℕ → Text
unfolding digits
to_string n = digits n n []
