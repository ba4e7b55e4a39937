-- ===== src/Text/Decimal/RoundTrip.antt =====
-- Printing a number and parsing it again.
use shadowstep.Prelude.{
  ℕ, zero, suc, ◌+◌, ◌*◌, ◌-◌, ◌/◌, ◌%◌, ◌≡◌, ◌≤◌, refl, true, false, Bool, [], ◌∷◌, ltb, arith,
  Option, none, some, Bool-cases, if◌then◌else◌, inl, inr, ◌∙◌,
}
use shadowstep.Text.{Text, parse_digits, parse_u64, u64_max, is_ascii_digit}
use shadowstep.Text.Decimal.{digits, to_string}

parse_digits-step :
    (m c n : ℕ) (rest : Text)
    → is_ascii_digit c ≡ true
    → m * 10 + (c - b'0') ≡ n
    → n ≤ u64_max
    → parse_digits m (c ∷ rest) ≡ parse_digits n rest
unfolding parse_digits
parse_digits-step m c n rest digit e fits =
    rw (digit, e) (if_neg_lem (ltb u64_max n) (parse_digits n rest) (ground arith))
  where
    if_neg_lem : (b : Bool) (x : Option ℕ) → b ≡ false → (if b then none else x) ≡ x
    if_neg_lem b x h = ground arith

parse_digits-last :
    (m n : ℕ) (rest : Text)
    → m ≡ n / 10
    → n ≤ u64_max
    → parse_digits m ((b'0' + n % 10) ∷ rest) ≡ parse_digits n rest
unfolding is_ascii_digit
parse_digits-last m n rest e fits =
    parse_digits-step m (b'0' + n % 10) n rest (ground arith) (omega arith) fits

-- Parsing the digits of `n` in front of others goes on from `n`.
parse_digits-digits :
    (fuel n : ℕ) (rest : Text)
    → n ≤ fuel
    → n ≤ u64_max
    → parse_digits 0 (digits fuel n rest) ≡ parse_digits n rest
unfolding digits
parse_digits-digits zero n rest enough fits = parse_digits-last 0 n rest (omega arith) fits
parse_digits-digits (suc fuel) n rest enough fits = elim (Bool-cases (ltb n 10)) [
  | inl small ↦ rw (small, digits) (parse_digits-last 0 n rest (ground arith) fits)
  | inr large ↦
      let before =
        parse_digits-digits fuel (n / 10) ((b'0' + n % 10) ∷ rest) (ground arith) (omega arith) in
      rw (large, digits) (before ∙ parse_digits-last (n / 10) n rest refl fits)
]

first_digit :
    (fuel n : ℕ) (rest : Text) → (c : ℕ) × (s : Text) × (digits fuel n rest ≡ c ∷ s) × (b'0' ≤ c)
unfolding digits
first_digit zero n rest = (b'0' + n % 10, rest, refl, omega arith)
first_digit (suc fuel) n rest = elim (Bool-cases (ltb n 10)) [
  | inl small ↦ (b'0' + n % 10, rest, rw (small, digits) refl, omega arith)
  | inr large ↦
      let (c, s, e, h) = first_digit fuel (n / 10) ((b'0' + n % 10) ∷ rest) in
      (c, s, rw (large, digits) e, h)
]

parse_u64-digit : (c : ℕ) (s : Text) → b'0' ≤ c → parse_u64 (c ∷ s) ≡ parse_digits 0 (c ∷ s)
unfolding parse_u64
parse_u64-digit c [] h = refl
parse_u64-digit c (d ∷ s) h = ground arith

-- A number that is printed reads back as the same number, up to `u64::MAX`: the fuel of `digits`
-- is enough.
parse_u64-to_string : (n : ℕ) → n ≤ u64_max → parse_u64 (to_string n) ≡ some n
unfolding to_string parse_digits
parse_u64-to_string n fits =
    let (c, s, e, h) = first_digit n n [] in
    rw e (parse_u64-digit c s h ∙ rw e at (parse_digits-digits n n [] (omega arith) fits))
