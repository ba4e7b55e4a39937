-- ===== src/Time.antt =====
-- `std::time`: a `Duration` is its nanoseconds, and an `Instant` or a `SystemTime` the
-- nanoseconds since an origin.
use shadowstep.Prelude.{
  ℕ, ◌+◌, ◌-◌, ◌*◌, ◌/◌, Bool, Option, none, some, min, ltb, ◌==◌, if◌then◌else◌,
}
use shadowstep.Text.{u64_max}
use shadowstep.Run.{Run, done, panic}

abbrev pub Duration : Type 0
Duration = ℕ

abbrev pub Instant : Type 0
Instant = ℕ

abbrev pub SystemTime : Type 0
SystemTime = ℕ

abbrev pub nanos_per_sec : ℕ
nanos_per_sec = 1000000000

-- `Duration::MAX`.
abbrev pub duration_max : Duration
duration_max = u64_max * nanos_per_sec + 999999999

abbrev pub from_secs : ℕ → Duration
from_secs s = s * nanos_per_sec

abbrev pub as_secs : Duration → ℕ
as_secs d = d / nanos_per_sec

abbrev pub is_zero : Duration → Bool
is_zero d = d == 0

-- `a + b`, which panics on overflow.
abbrev pub add_or_panic : Duration → Duration → Run Duration
add_or_panic a b = if ltb duration_max (a + b) then panic else done (a + b)

abbrev pub saturating_add : Duration → Duration → Duration
saturating_add a b = min (a + b) duration_max

abbrev pub saturating_mul : Duration → ℕ → Duration
saturating_mul a n = min (a * n) duration_max

-- `checked_sub`: `none` when the result would be negative.
abbrev pub checked_sub : Duration → Duration → Option Duration
checked_sub a b = if ltb a b then none else some (a - b)

-- `later.duration_since(earlier)`, which is zero when `earlier` is the later of the two.
abbrev pub elapsed : Instant → Instant → Duration
elapsed earlier later = later - earlier
