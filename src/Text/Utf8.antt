-- ===== src/Text/Utf8.antt =====
-- `String::from_utf8_lossy`: each longest invalid sequence of bytes reads as U+FFFD.
use shadowstep.Prelude.{
  ℕ, zero, suc, ◌+◌, ◌-◌, ◌*◌, ◌≡◌, refl, ◌&&◌, List, [], ◌∷◌, ltb, leb, ◌==◌, if◌then◌else◌,
}
use shadowstep.Text.{Text, Bytes}

-- A sequence that is being read: the continuation bytes it still needs, the range of the next
-- one, and the code point so far.
record Pending : Type 0 where
  needed : ℕ
  lower : ℕ
  upper : ℕ
  point : ℕ

abbrev replacement : ℕ
replacement = 0xfffd

abbrev idle : Pending
idle = record { needed = 0; lower = 0x80; upper = 0xbf; point = 0 }

abbrev started : ℕ → ℕ → ℕ → ℕ → Pending
started n lo hi p = record { needed = n; lower = lo; upper = hi; point = p }

-- What a first byte emits, and the sequence that it starts.
start : ℕ → List ℕ × Pending
start b =
    if ltb b 0x80
    then (b ∷ [], idle)
    else if leb 0xc2 b && leb b 0xdf
    then ([], started 1 0x80 0xbf (b - 0xc0))
    else if leb 0xe0 b && leb b 0xef
    then (
      [],
      started 2 (if b == 0xe0 then 0xa0 else 0x80) (if b == 0xed then 0x9f else 0xbf) (b - 0xe0),
    )
    else if leb 0xf0 b && leb b 0xf4
    then (
      [],
      started 3 (if b == 0xf0 then 0x90 else 0x80) (if b == 0xf4 then 0x8f else 0xbf) (b - 0xf0),
    )
    else (replacement ∷ [], idle)

restart : List ℕ × Pending → List ℕ × Pending
restart (out, p) = (replacement ∷ out, p)

-- The last byte of a sequence emits its code point.
continue_with : ℕ → ℕ → List ℕ × Pending
continue_with (suc (suc n)) point = ([], started (suc n) 0x80 0xbf point)
continue_with n point = (point ∷ [], idle)

-- A byte that does not go on with the sequence is read again as a first byte.
step : ℕ → ℕ → Pending → List ℕ × Pending
step b zero p = start b
step b (suc n) p =
    if leb p.lower b && leb b p.upper
    then continue_with (suc n) (p.point * 64 + (b - 0x80))
    else restart (start b)

abbrev emit : List ℕ → Text → Text
emit [] rest = rest
emit (c ∷ cs) rest = c ∷ emit cs rest

read : Pending → Bytes → Text
read p [] = if p.needed == 0 then [] else replacement ∷ []
read p (b ∷ bs) = let (out, p') = step b p.needed p in emit out (read p' bs)

unfoldable pub from_utf8_lossy : Bytes → Text
unfolding read step start restart continue_with
from_utf8_lossy = read idle

two_byte_sequence : from_utf8_lossy (0x63 ∷ 0xc3 ∷ 0xa9 ∷ []) ≡ 0x63 ∷ 0xe9 ∷ []
unfolding from_utf8_lossy
two_byte_sequence = refl

cut_sequence : from_utf8_lossy (0xe2 ∷ 0x82 ∷ 0x41 ∷ 0xff ∷ []) ≡ 0xfffd ∷ 0x41 ∷ 0xfffd ∷ []
unfolding from_utf8_lossy
cut_sequence = refl
