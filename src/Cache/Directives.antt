-- ===== src/Cache/Directives.antt =====
-- src/cache.rs, `Directives` and `split_outside_quotes`: reading `Cache-Control`.
pub mod Quotes
pub mod Seconds
use shadowstep.Prelude.{
  ℕ, ◌≡◌, refl, Bool, true, false, ◌&&◌, ◌||◌, not, List, [], ◌∷◌, ◌++◌, Option, none, some, ◌==◌,
  if◌then◌else◌, ◌>>=◌, is_empty, any, all, find, or_else, unwrap_or,
}
use shadowstep.Text.{
  Text, codes, eqb, extend_first, trim, split_once, strip_prefix, strip_suffix, to_ascii_lowercase,
  is_ascii_digit, parse_u64, u64_max,
}
use shadowstep.Time.{Duration, from_secs}
use shadowstep.Http.{Http, HeaderValue}

abbrev pub quote : ℕ
quote = b'"'

abbrev pub backslash : ℕ
backslash = b'\\'

-- One round of the loop of `split_outside_quotes`, for a character: whether it ends a part, and
-- the next values of `quoted` and `escaped`. The arms stand in the order of the `match`.
pub scan_char : Bool → Bool → ℕ → record { cut : Bool; quoted : Bool; escaped : Bool }
scan_char quoted true c = record { cut = false; quoted = quoted; escaped = false }
scan_char quoted false c =
    if c == backslash && quoted
    then record { cut = false; quoted = quoted; escaped = true }
    else if c == quote
    then record { cut = false; quoted = not quoted; escaped = false }
    else if c == b',' && not quoted
    then record { cut = true; quoted = quoted; escaped = false }
    else record { cut = false; quoted = quoted; escaped = false }

-- The parts of what is left of the value.
pub split_from : Bool → Bool → Text → List Text
unfolding scan_char
split_from quoted escaped [] = [] ∷ []
split_from quoted escaped (c ∷ s) =
    let next = scan_char quoted escaped c in
    let rest = split_from next.quoted next.escaped s in
    if next.cut then [] ∷ rest else extend_first c rest

unfoldable pub split_outside_quotes : Text → List Text
unfolding split_from
split_outside_quotes value = split_from false false value

pub record Directives : Type 0 where
  pub list : List (Text × Option Text)
  pub malformed : Bool

abbrev pub default : Directives
default = record { list = []; malformed = false }

-- An argument without its double quotes, when it has both.
pub unquote : Text → Text
unquote argument = unwrap_or (do a ← strip_prefix quote argument; strip_suffix quote a) argument

-- The name and the argument of one part.
pub read_part : Text → Text × Option Text
unfolding unquote
read_part part = elim (split_once b'=' part) [
  | some (name, argument) ↦ (name, some (unquote (trim argument)))
  | none ↦ (part, none)
]

pub push_part : Directives → Text → Directives
unfolding read_part
push_part d part =
    let (raw, argument) = read_part part in
    let name = to_ascii_lowercase (trim raw) in
    if is_empty name then d else record d { list = d.list ++ (name, argument) ∷ [] }

pub push_parts : Directives → List Text → Directives
unfolding push_part
push_parts d [] = d
push_parts d (part ∷ parts) = push_parts (push_part d part) parts

module _ ⦃http : Http⦄ where
  open http use {to_str}

  pub push_value : Directives → HeaderValue → Directives
  unfolding push_parts split_outside_quotes
  push_value d value = elim (to_str value) [
    | none ↦ record d { malformed = true }
    | some text ↦ push_parts d (split_outside_quotes text)
  ]

  pub push_values : Directives → List HeaderValue → Directives
  unfolding push_value
  push_values d [] = d
  push_values d (value ∷ values) = push_values (push_value d value) values

  unfoldable pub parse : List HeaderValue → Directives
  unfolding push_values
  parse values = push_values default values

unfoldable pub has : Directives → Text → Bool
has d name = any (λ e. eqb e.0 name) d.list

-- The value of one argument, in whole seconds: 0 for an invalid one, and at most `u64::MAX`.
unfoldable pub delta_seconds : Text → ℕ
delta_seconds argument =
    if is_empty argument || not (all is_ascii_digit argument)
    then 0
    else unwrap_or (parse_u64 argument) u64_max

unfoldable pub seconds : Directives → Text → Option Duration
unfolding delta_seconds
seconds d name = do
  (_, argument) ← find (λ e. eqb e.0 name) d.list
  some (from_secs (delta_seconds (unwrap_or argument [])))
