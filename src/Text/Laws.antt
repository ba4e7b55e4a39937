-- ===== src/Text/Laws.antt =====
-- Laws of the string functions.
use shadowstep.Prelude.{◌≡◌, ◌↔◌, true, [], ◌∷◌, arith}
use shadowstep.Text.{Text, eqb}

pub eqb_iff : (a b : Text) → (eqb a b ≡ true) ↔ (a ≡ b)
unfolding eqb
eqb_iff [] [] = ground arith
eqb_iff [] (y ∷ ys) = ground arith
eqb_iff (x ∷ xs) [] = ground arith
eqb_iff (x ∷ xs) (y ∷ ys) = ground (arith, eqb_iff xs ys)
