-- ===== src/Text.antt =====
-- Strings as lists of code points, with the functions of Rust's `str` that the program calls:
-- `trim`, `split`, `split_once`, `strip_prefix`, `strip_suffix`, `to_ascii_lowercase`,
-- `parse::<u64>` and `String::from_utf8_lossy`. The proofs are in the modules below.
pub mod Laws
pub mod Utf8
pub mod Decimal
use Prim.Native.Char.{code}
use Prim.Native.String.{String}
use shadowstep.Prelude.{
  ℕ, zero, suc, ◌+◌, ◌-◌, ◌*◌, ◌^◌, Bool, true, false, ◌&&◌, ◌||◌, not, List, [], ◌∷◌, ◌++◌, map,
  Option, none, some, ltb, leb, ◌==◌, if◌then◌else◌, is_empty, all,
}

-- The code points of a `str`.
abbrev pub Text : Type 0
Text = List ℕ

-- The bytes of a header value.
abbrev pub Bytes : Type 0
Bytes = List ℕ

abbrev pub codes : String → Text
codes String.[] = []
codes (String.◌∷◌ c s) = code c ∷ codes s

unfoldable pub eqb : Text → Text → Bool
eqb [] [] = true
eqb [] (y ∷ ys) = false
eqb (x ∷ xs) [] = false
eqb (x ∷ xs) (y ∷ ys) = x == y && eqb xs ys

-- `char::len_utf8`.
char_len : ℕ → ℕ
char_len c = if ltb c 0x80 then 1 else if ltb c 0x800 then 2 else if ltb c 0x10000 then 3 else 4

-- `str::len`, in bytes of UTF-8.
unfoldable pub len : Text → ℕ
unfolding char_len
len [] = 0
len (c ∷ s) = char_len c + len s

-- `char::is_whitespace`, the Unicode property White_Space.
unfoldable pub is_whitespace : ℕ → Bool
is_whitespace c =
    (leb 9 c && leb c 13)
    || c == 32
    || c == 0x85
    || c == 0xa0
    || c == 0x1680
    || (leb 0x2000 c && leb c 0x200a)
    || c == 0x2028
    || c == 0x2029
    || c == 0x202f
    || c == 0x205f
    || c == 0x3000

unfoldable pub trim_start : Text → Text
trim_start [] = []
trim_start (c ∷ s) = if is_whitespace c then trim_start s else c ∷ s

-- A character is kept when it or a later one is no white space.
unfoldable pub trim_end : Text → Text
trim_end [] = []
trim_end (c ∷ s) =
    let rest = trim_end s in if is_whitespace c && is_empty rest then [] else c ∷ rest

unfoldable pub trim : Text → Text
unfolding trim_start trim_end is_whitespace
trim s = trim_end (trim_start s)

ascii_lower : ℕ → ℕ
ascii_lower c = if leb b'A' c && leb c b'Z' then c + 32 else c

unfoldable pub to_ascii_lowercase : Text → Text
unfolding ascii_lower
to_ascii_lowercase = map ascii_lower

-- Puts a character in front of the first part.
abbrev pub extend_first : ℕ → List Text → List Text
extend_first c [] = (c ∷ []) ∷ []
extend_first c (p ∷ ps) = (c ∷ p) ∷ ps

-- `str::split(char)`. There is always a part.
unfoldable pub split : ℕ → Text → List Text
split sep [] = [] ∷ []
split sep (c ∷ s) = let rest = split sep s in if c == sep then [] ∷ rest else extend_first c rest

abbrev extend_name : ℕ → Option (Text × Text) → Option (Text × Text)
extend_name c none = none
extend_name c (some (name, argument)) = some (c ∷ name, argument)

-- `str::split_once(char)`: the text before and after the first occurrence.
unfoldable pub split_once : ℕ → Text → Option (Text × Text)
split_once sep [] = none
split_once sep (c ∷ s) =
    let later = extend_name c (split_once sep s) in if c == sep then some ([], s) else later

-- `str::strip_prefix(char)`.
unfoldable pub strip_prefix : ℕ → Text → Option Text
strip_prefix p [] = none
strip_prefix p (c ∷ s) = if c == p then some s else none

abbrev extend_stripped : ℕ → Option Text → Option Text
extend_stripped c none = none
extend_stripped c (some s) = some (c ∷ s)

-- `str::strip_suffix(char)`.
unfoldable pub strip_suffix : ℕ → Text → Option Text
strip_suffix p [] = none
strip_suffix p (c ∷ s) =
    let later = extend_stripped c (strip_suffix p s) in
    if is_empty s && c == p then some [] else later

unfoldable pub is_ascii_digit : ℕ → Bool
is_ascii_digit c = leb b'0' c && leb c b'9'

abbrev pub u64_max : ℕ
u64_max = 2 ^ 64 - 1

-- The loop of `parse::<u64>`, which fails on a character that is no digit and on overflow.
unfoldable pub parse_digits : ℕ → Text → Option ℕ
unfolding is_ascii_digit
parse_digits n [] = some n
parse_digits n (c ∷ s) =
    let m = n * 10 + (c - b'0') in
    if not (is_ascii_digit c) then none else if ltb u64_max m then none else parse_digits m s

-- `str::parse::<u64>`: one leading `+` is allowed, and at least one digit is needed.
unfoldable pub parse_u64 : Text → Option ℕ
unfolding parse_digits
parse_u64 [] = none
parse_u64 (c ∷ []) = parse_digits 0 (c ∷ [])
parse_u64 (c ∷ d ∷ s) = if c == b'+' then parse_digits 0 (d ∷ s) else parse_digits 0 (c ∷ d ∷ s)

-- `[T]::join(", ")`.
unfoldable pub join_comma : List Text → Text
join_comma [] = []
join_comma (p ∷ []) = p
join_comma (p ∷ q ∷ ps) = p ++ (b',' ∷ b' ' ∷ join_comma (q ∷ ps))
