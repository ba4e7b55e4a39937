-- ===== src/Proxy/Idle/Laws.antt =====
-- When a body is given up.
use shadowstep.Prelude.{
  ◌+◌, ◌≤◌, ◌≡◌, refl, Bool, true, false, List, [], ◌∷◌, arith, ◌↔◌, if◌then◌else◌,
}
use shadowstep.Time.{Duration, Instant}
use shadowstep.Proxy.Idle.{IdleTimeout, timed_out, origin_body, start_waiting, poll_next, polled}

-- The times of the latest polls that found no item, the latest first.
abbrev pub silent : List (Instant × Bool) → List Instant
silent [] = []
silent ((now, true) ∷ ps) = []
silent ((now, false) ∷ ps) = now ∷ silent ps

-- The first of those.
abbrev pub since : Instant → List Instant → Instant
since now [] = now
since now (t ∷ ts) = since t ts

record Inv (idle : Duration) (ps : List (Instant × Bool)) (s : IdleTimeout) : Type 0 where
  idle_kept : s.idle ≡ idle
  counted : s.timeouts ≡ (if s.expired then 1 else 0)
  heard :
      (now : Instant)
      → s.expired ≡ false
      → (start_waiting now s).deadline ≡ since now (silent ps) + idle

poll_next-Inv :
    (idle : Duration) (ps : List (Instant × Bool)) (s : IdleTimeout) (now : Instant) (ready : Bool)
    → Inv idle ps s
    → Inv idle ((now, ready) ∷ ps) (poll_next now ready s).1
unfolding poll_next start_waiting
poll_next-Inv idle ps s now true v = record {
  idle_kept = ground (arith, v.idle_kept);
  counted = ground (arith, v.counted);
  heard = λ later e. ground (arith, v.idle_kept, v.heard now);
}
poll_next-Inv idle ps s now false v = record {
  idle_kept = ground (arith, v.idle_kept);
  counted = ground (arith, v.counted);
  heard = λ later e. ground (arith, v.idle_kept, v.heard now);
}

polled-Inv :
    (start : Instant) (idle : Duration) (ps : List (Instant × Bool))
    → Inv idle ps (polled (origin_body start idle) ps)
unfolding polled origin_body start_waiting
polled-Inv start idle [] = record { idle_kept = refl; counted = refl; heard = λ now e. refl }
polled-Inv start idle ((now, ready) ∷ ps) =
    poll_next-Inv idle ps (polled (origin_body start idle) ps) now ready (polled-Inv start idle ps)

-- A poll gives the body up exactly when the body was not given up before, no item is there, and
-- the first of the polls that have found none in a row, this one included, was made at least
-- `idle` before. So the time that the client takes between an item and the next poll never counts.
pub poll_next-timed_out_iff :
    (start : Instant) (idle : Duration) (ps : List (Instant × Bool)) (now : Instant) (ready : Bool)
    → ((poll_next now ready (polled (origin_body start idle) ps)).0 ≡ timed_out) ↔ (
        ((polled (origin_body start idle) ps).expired ≡ false)
        × (ready ≡ false)
        × (since now (silent ps) + idle ≤ now))
unfolding poll_next
poll_next-timed_out_iff start idle ps now ready =
    let v = polled-Inv start idle ps in
    (λ h. ground (arith, v.heard now), λ h. ground (arith, v.heard now))

-- However often a body is polled, it is counted as given up once at most, and exactly once when
-- it was.
pub timeouts-polled :
    (start : Instant) (idle : Duration) (ps : List (Instant × Bool))
    → (polled (origin_body start idle) ps).timeouts
      ≡ (if (polled (origin_body start idle) ps).expired then 1 else 0)
timeouts-polled start idle ps = (polled-Inv start idle ps).counted
