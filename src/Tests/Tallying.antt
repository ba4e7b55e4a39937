-- ===== src/Tests/Tallying.antt =====
-- Tests of the counters.
use shadowstep.Prelude.{◌+◌, ◌≡◌, List, [], ◌∷◌}
use shadowstep.Metrics.{foreground, background, proxy, new, cache_counts, total}
use shadowstep.Metrics.Counting.{
  Event, observed, responded, got_304, refreshing, stales, record_events, count, is_revalidated,
  is_missing_asset, is_response, is_304, total-record_events,
}
use shadowstep.Metrics.Histogram.{answered, sample_count-record_events}
use shadowstep.Tests.Fixtures.{tallied_prometheus}

-- A stale response, and the 304 of the refresh that it started.
abbrev events : List Event
events = got_304 ∷ responded background 304 5 ∷ refreshing ∷ observed proxy stales 200 ∷ []

total-record_events_example :
    total (cache_counts (record_events new events))
      + count is_revalidated events
      + count is_missing_asset events
    ≡ count is_response events + count is_304 events
total-record_events_example = total-record_events events

sample_count-record_events_example :
    tallied_prometheus.sample_count (record_events new events).origin_response_seconds
    ≡ answered (record_events new events) foreground
      + answered (record_events new events) background
sample_count-record_events_example = sample_count-record_events events
