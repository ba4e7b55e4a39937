-- ===== src/Tests/Leading.antt =====
-- Tests of the part that a request takes in a flight.
use shadowstep.Prelude.{◌≡◌, refl, true, [], none, some}
use shadowstep.Run.{done}
use shadowstep.Coalesce.{default, join}
use shadowstep.Metrics
use shadowstep.Cache.Policy.{may_lead, may_coalesce}
use shadowstep.Cache.Store.{lookup, flight_key, new}
use shadowstep.Proxy.Serving.{World, FlightKey-discrete, from_cache, join_flight}
use shadowstep.Proxy.Waiting.{Progress, settled, origin, serve_from_cache}
use shadowstep.Proxy.Waiting.Laws.{serve_from_cache-lead}
use shadowstep.Tests.Fixtures.{
  listed_http, timed_caches, tallied_prometheus, opened_watch, at, home, plain_get,
}
use shadowstep.Tests.Caching.{empty}
use shadowstep.Tests.Proxying.{asks, upstream}

abbrev pub idle : World
idle = record {
  cache = empty;
  metrics = Metrics.new;
  flights = default FlightKey-discrete;
  refreshes = [];
}

abbrev pub led : World
led = (join_flight (at 20) idle asks home plain_get).1

abbrev pub leading : Progress
leading = settled (
    origin (record {
      stale = none;
      flight = some (record { key = record { primary = home; vary = [] }; sender = 0 });
    }))

-- The first request for a URI that is not stored leads.
pub first_leads : serve_from_cache (at 20) idle asks upstream home plain_get ≡ done (leading, led)
unfolding serve_from_cache from_cache join_flight lookup flight_key new join may_coalesce may_lead
    shadowstep.Coalesce.lookup
first_leads = refl

serve_from_cache-lead_example : may_lead plain_get ≡ true
serve_from_cache-lead_example =
    serve_from_cache-lead (at 20) idle led asks upstream home plain_get leading first_leads refl
