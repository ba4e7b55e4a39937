-- ===== src/Cache/Directives/Seconds.antt =====
-- What `seconds` and `has` read from a list of directives.
use shadowstep.Prelude.{
  ℕ, ◌+◌, ◌-◌, ◌*◌, ◌≤◌, ◌<◌, ◌≡◌, refl, Bool, true, false, List, [], ◌∷◌, ◌++◌, Option, none, some,
  arith, ◌⊎◌, ap, if◌then◌else◌, is_some, min, all, any, find, unwrap_or, ◌>>=◌, All, inl,
}
use shadowstep.Text.{Text, eqb, is_ascii_digit, parse_digits, parse_u64, u64_max}
use shadowstep.Text.Laws.{eqb_iff}
use shadowstep.Time.{from_secs}
use shadowstep.Cache.Directives.{Directives, has, seconds, delta_seconds}

-- The number that digits spell behind `n`, with no bound.
abbrev pub spelled : ℕ → Text → ℕ
spelled n [] = n
spelled n (c ∷ s) = spelled (n * 10 + (c - b'0')) s

le-spelled : (n : ℕ) (s : Text) → n ≤ spelled n s
le-spelled n [] = omega arith
le-spelled n (c ∷ s) = omega (arith, le-spelled (n * 10 + (c - b'0')) s)

-- On digits the parse gives the number that they spell, or fails because that is over `u64::MAX`.
parse_digits_lem :
    (n : ℕ) (s : Text)
    → all is_ascii_digit s ≡ true
    → n ≤ u64_max
    → ((parse_digits n s ≡ some (spelled n s)) × (spelled n s ≤ u64_max))
      ⊎ ((parse_digits n s ≡ none) × (u64_max < spelled n s))
unfolding parse_digits
parse_digits_lem n [] h fits = inl (refl, fits)
parse_digits_lem n (c ∷ s) h fits =
    let m = n * 10 + (c - b'0') in ground (arith, parse_digits_lem m s, le-spelled m s)

-- Delta-seconds without a machine integer: the number that one or more digits spell, capped, and
-- 0 for anything else.
abbrev pub delta_value : Option Text → ℕ
delta_value none = 0
delta_value (some []) = 0
delta_value (some (c ∷ s)) =
    if all is_ascii_digit (c ∷ s) then min (spelled 0 (c ∷ s)) u64_max else 0

delta_seconds-value :
    (argument : Option Text) → delta_seconds (unwrap_or argument []) ≡ delta_value argument
unfolding delta_seconds parse_u64 is_ascii_digit
delta_seconds-value none = refl
delta_seconds-value (some []) = refl
delta_seconds-value (some (c ∷ [])) = ground (arith, parse_digits_lem 0 (c ∷ []))
delta_seconds-value (some (c ∷ e ∷ s)) = ground (arith, parse_digits_lem 0 (c ∷ e ∷ s))

-- No directive of the list is called `name`.
abbrev pub Lacks : Text → List (Text × Option Text) → Type 0
Lacks name = All (λ e. eqb e.0 name ≡ false)

find-append :
    (name : Text) (before : List (Text × Option Text)) (argument : Option Text)
    (after : List (Text × Option Text))
    → Lacks name before
    → find (λ e. eqb e.0 name) (before ++ (name, argument) ∷ after) ≡ some (name, argument)
find-append name [] argument after h = ground (arith, eqb_iff name name)
find-append name (e ∷ before) argument after (h, hs) =
    ground (arith, find-append name before argument after hs)

-- The first directive called `name` decides, whatever stands behind it: one or more digits give
-- the number that they spell, in seconds and no more than `u64::MAX` of them, and a missing, an
-- empty or any other argument gives 0.
pub seconds_first :
    (name : Text) (before after : List (Text × Option Text)) (argument : Option Text)
    (malformed : Bool)
    → Lacks name before
    → seconds (record { list = before ++ (name, argument) ∷ after; malformed = malformed }) name
      ≡ some (from_secs (delta_value argument))
unfolding seconds
seconds_first name before after argument malformed h =
    rw (find-append name before argument after h)
      (ap (λ n. some (from_secs n)) (delta_seconds-value argument))

-- A directive has a number of seconds exactly when it occurs, with an argument or without.
pub is_some-seconds : (d : Directives) (name : Text) → is_some (seconds d name) ≡ has d name
unfolding seconds has
is_some-seconds d name = go d.list
  where
    go :
        (l : List (Text × Option Text))
        → is_some (
            find (λ e. eqb e.0 name) l >>= λ e. some (from_secs (delta_seconds (unwrap_or e.1 []))))
          ≡ any (λ e. eqb e.0 name) l
    go [] = refl
    go (e ∷ l) = ground (arith, go l)
