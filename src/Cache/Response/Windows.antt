-- ===== src/Cache/Response/Windows.antt =====
-- When a stored response may answer a request, as its age grows.
use shadowstep.Prelude.{◌+◌, ◌≤◌, ◌<◌, ◌≡◌, true, false, ◌↔◌, arith}
use shadowstep.Time.{Instant, Duration, elapsed}
use shadowstep.Cache.Response.{StoredResponse, stale_within}

-- A response is used stale only from the end of its freshness lifetime to the end of the window,
-- and never when it must be revalidated.
pub stale_within_iff :
    (now : Instant) (r : StoredResponse) (window : Duration)
    → (stale_within now r window ≡ true) ↔ (
        (r.stale.must_revalidate ≡ false)
        × (r.ttl ≤ elapsed r.stored_at now)
        × (elapsed r.stored_at now < r.ttl + window))
unfolding stale_within
stale_within_iff now r window = ground arith
