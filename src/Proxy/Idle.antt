-- ===== src/Proxy/Idle.antt =====
-- src/proxy.rs, `IdleTimeout`: a body stream that ends with an error when the origin stays silent.
pub mod Laws
use shadowstep.Prelude.{
  ℕ, suc, ◌+◌, Bool, true, false, not, List, [], ◌∷◌, Option, none, some, leb, if◌then◌else◌,
}
use shadowstep.Time.{Duration, Instant}

-- `deadline` is the sleep's, and `timeouts` the count of bodies given up. What an item of the
-- inner stream is does not matter.
pub record IdleTimeout : Type 0 where
  pub idle : Duration
  pub deadline : Instant
  pub waiting : Bool
  pub expired : Bool
  pub timeouts : ℕ

-- What a poll returns: the inner stream's item, nothing yet, the error, or the end after it.
pub data Outcome : Type 0 where
  passed : Outcome
  pending : Outcome
  timed_out : Outcome
  over : Outcome

-- `origin_body`, called at `now`.
unfoldable pub origin_body : Instant → Duration → IdleTimeout
origin_body now idle = record {
  idle = idle;
  deadline = now + idle;
  waiting = false;
  expired = false;
  timeouts = 0;
}

-- The reset of the sleep on the first poll after an item. The sum does not overflow here: the
-- source's `Instant` has a last value, past which it panics.
unfoldable pub start_waiting : Instant → IdleTimeout → IdleTimeout
start_waiting now s = if s.waiting then s else record s { deadline = now + s.idle; waiting = true }

-- `poll_next` at `now`, when the inner stream has an item or has none yet. The sleep is over from
-- its deadline on.
unfoldable pub poll_next : Instant → Bool → IdleTimeout → Outcome × IdleTimeout
unfolding start_waiting
poll_next now ready s =
    let waiting = start_waiting now s in
    if s.expired
    then (over, s)
    else if ready
    then (passed, record waiting { waiting = false })
    else if leb waiting.deadline now
    then (timed_out, record waiting { expired = true; timeouts = suc waiting.timeouts })
    else (pending, waiting)

-- A sequence of polls, the latest first, each with its time and whether an item was there.
unfoldable pub polled : IdleTimeout → List (Instant × Bool) → IdleTimeout
unfolding poll_next
polled s [] = s
polled s ((now, ready) ∷ ps) = (poll_next now ready (polled s ps)).1
