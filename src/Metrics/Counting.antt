-- ===== src/Metrics/Counting.antt =====
-- What the counters count, over any sequence of the events that the proxy records.
use shadowstep.Prelude.{ℕ, suc, ◌+◌, ◌≡◌, List, [], ◌∷◌, arith}
use shadowstep.Text.{Text}
use shadowstep.Time.{Duration}
use shadowstep.Http.{StatusCode}
use shadowstep.Prometheus.{Prometheus, labels_eqb}
use shadowstep.Metrics.{
  Route, proxy, asset, OriginKind, OriginFailure, Metrics, new, observe, origin_responded,
  origin_failed, body_idle_timeout, revalidation, background_refresh, cache_counts, total, hit,
  miss, revalidated, stale, coalesced, bypass,
}

-- The labels that the handlers pass to `observe`.
pub data CacheLabel : Type 0 where
  hits misses revalidations stales coalesces bypasses : CacheLabel

abbrev pub label_text : CacheLabel → Text
label_text hits = hit
label_text misses = miss
label_text revalidations = revalidated
label_text stales = stale
label_text coalesces = coalesced
label_text bypasses = bypass

pub data Event : Type 0 where
  observed : Route → CacheLabel → StatusCode → Event
  responded : OriginKind → StatusCode → Duration → Event
  failed : OriginKind → OriginFailure → Event
  went_idle : OriginKind → Event
  got_304 : Event
  refreshing : Event

-- Responses that a 304 made fresh again, and requests for a missing asset.
abbrev pub is_revalidated : Event → ℕ
is_revalidated (observed route revalidations status) = 1
is_revalidated _ = 0

abbrev pub is_missing_asset : Event → ℕ
is_missing_asset (observed asset bypasses status) = 1
is_missing_asset _ = 0

abbrev pub is_response : Event → ℕ
is_response (observed route cache status) = 1
is_response _ = 0

abbrev pub is_304 : Event → ℕ
is_304 got_304 = 1
is_304 _ = 0

abbrev pub is_answer : Event → ℕ
is_answer (responded kind status elapsed) = 1
is_answer _ = 0

abbrev pub count : (Event → ℕ) → List Event → ℕ
count f [] = 0
count f (e ∷ es) = f e + count f es

module _ ⦃prometheus : Prometheus⦄ where
  open prometheus use {get, get-inc, sample_count, sample_count-observe}

  unfoldable pub record_event : Metrics → Event → Metrics
  record_event m (observed route cache status) = observe m route (label_text cache) status
  record_event m (responded kind status elapsed) = origin_responded m kind status elapsed
  record_event m (failed kind failure) = origin_failed m kind failure
  record_event m (went_idle kind) = body_idle_timeout m kind
  record_event m got_304 = revalidation m
  record_event m refreshing = background_refresh m

  -- The latest event stands first.
  unfoldable pub record_events : Metrics → List Event → Metrics
  unfolding record_event
  record_events m [] = m
  record_events m (e ∷ es) = record_event (record_events m es) e

  observe-total :
      (m : Metrics) (route : Route) (cache : CacheLabel) (status : StatusCode)
      → total (cache_counts (observe m route (label_text cache) status))
          + is_revalidated (observed route cache status)
          + is_missing_asset (observed route cache status)
        ≡ suc (total (cache_counts m))
  unfolding total cache_counts observe labels_eqb
  observe-total m proxy hits status = simp get-inc (omega arith)
  observe-total m asset hits status = simp get-inc (omega arith)
  observe-total m route cache status = simp get-inc (omega arith)

  -- The responses that an event adds to the total, against those that it stands for.
  record_event-total :
      (m : Metrics) (e : Event)
      → total (cache_counts (record_event m e)) + is_revalidated e + is_missing_asset e
        ≡ total (cache_counts m) + is_response e + is_304 e
  unfolding record_event
  record_event-total m (observed route cache status) =
      omega (arith, observe-total m route cache status)
  record_event-total m (responded kind status elapsed) =
      unfold total cache_counts origin_responded in omega arith
  record_event-total m (failed kind failure) =
      unfold total cache_counts origin_failed in omega arith
  record_event-total m (went_idle kind) = unfold total cache_counts body_idle_timeout in omega arith
  record_event-total m got_304 = unfold total cache_counts revalidation in omega arith
  record_event-total m refreshing = unfold total cache_counts background_refresh in omega arith

  new-total : total (cache_counts new) ≡ 0
  unfolding total cache_counts new
  new-total = simp (prometheus.get-with_labels, prometheus.get-new_vec)

  -- The total that `/health` divides by, after any events: the responses to proxied and asset
  -- requests, less those marked `REVALIDATED` and the requests for a missing asset, plus every 304
  -- that freshened a stored response. So it is the number of the other responses only while each
  -- 304 has a `REVALIDATED` response, and a 304 in the background counts beside the stale response
  -- that started it.
  pub total-record_events :
      (es : List Event)
      → total (cache_counts (record_events new es))
          + count is_revalidated es
          + count is_missing_asset es
        ≡ count is_response es + count is_304 es
  unfolding record_events
  total-record_events [] = omega (arith, new-total)
  total-record_events (e ∷ es) =
      omega (arith, total-record_events es, record_event-total (record_events new es) e)
