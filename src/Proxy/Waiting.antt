-- ===== src/Proxy/Waiting.antt =====
-- src/proxy.rs, `serve_from_cache`: the lookup, the part in a flight, and the second lookup. The
-- wait for a leader stands between two steps, and ends when the leader's guard drops or when the
-- upstream timeout runs out.
pub mod Laws
use shadowstep.Prelude.{ℕ, Option, none, some}
use shadowstep.Run.{Run, done, panic, map_run, ◌>>=◌}
use shadowstep.Http.{Http}
use shadowstep.Prometheus.{Prometheus}
use shadowstep.Watch.{Watch}
use shadowstep.Coalesce.{FlightGuard, Join, lead, follow, alone, drop_guard, drop_sender}
use shadowstep.Forwarded.{Request}
use shadowstep.Cache.Policy.{RequestPolicy}
use shadowstep.Cache.Response.{FlightKey, PrimaryKey}
use shadowstep.Cache.Store.{Clock, Caches, StaleEntry}
use shadowstep.Proxy.Headers.{Upstream}
use shadowstep.Proxy.Answer.{Response}
use shadowstep.Proxy.Serving.{
  World, Cached, answer, revalidate, nothing, own_hit, after_leader, from_cache, join_flight,
  FlightKey-discrete,
}

module _ ⦃http : Http⦄ ⦃caches : Caches⦄ ⦃prometheus : Prometheus⦄ ⦃watch : Watch⦄ where
  -- What a request takes to the origin.
  pub record ToOrigin : Type 0 where
    pub stale : Option StaleEntry
    pub flight : Option (FlightGuard FlightKey)

  pub data Before : Type 0 where
    answered : Response → Before
    origin : ToOrigin → Before

  -- The drop of a flight's guard: its key goes, and then its sender.
  unfoldable pub drop_flight : World → Option (FlightGuard FlightKey) → World
  drop_flight w none = w
  drop_flight w (some guard) = record w {
    flights = drop_sender FlightKey-discrete (drop_guard FlightKey-discrete w.flights guard) guard;
  }

  -- `Cached::or`, which drops the flight when the cache answers.
  unfoldable pub or_origin : Cached × World → Option (FlightGuard FlightKey) → Before × World
  unfolding drop_flight
  or_origin (answer response, w) flight = (answered response, drop_flight w flight)
  or_origin (revalidate entry, w) flight =
      (origin (record { stale = some entry; flight = flight }), w)
  or_origin (nothing, w) flight = (origin (record { stale = none; flight = flight }), w)

  -- `serve_from_cache` up to its wait: it is over, or it waits for a flight.
  pub data Progress : Type 0 where
    settled : Before → Progress
    waiting : ℕ → Progress

  -- The second lookup of a leader.
  unfoldable pub lead_on :
      Clock
      → World
      → Request
      → Upstream
      → PrimaryKey
      → RequestPolicy
      → FlightGuard FlightKey
      → Run (Progress × World)
  unfolding or_origin
  lead_on clock w req upstream cache_key policy guard =
      map_run (λ c. let b = or_origin c (some guard) in (settled b.0, b.1))
        (from_cache clock w req upstream cache_key policy own_hit)

  unfoldable pub take_part :
      Clock
      → World
      → Request
      → Upstream
      → PrimaryKey
      → RequestPolicy
      → Before
      → Join FlightKey × World
      → Run (Progress × World)
  unfolding lead_on
  take_part clock w req upstream cache_key policy before (alone, w') = done (settled before, w')
  take_part clock w req upstream cache_key policy before (lead guard, w') =
      lead_on clock w' req upstream cache_key policy guard
  take_part clock w req upstream cache_key policy before (follow waiter, w') =
      done (waiting waiter, w')

  unfoldable pub after_lookup :
      Clock
      → Request
      → Upstream
      → PrimaryKey
      → RequestPolicy
      → Cached × World
      → Run (Progress × World)
  unfolding take_part
  after_lookup clock req upstream cache_key policy (answer response, w) =
      done (settled (answered response), w)
  after_lookup clock req upstream cache_key policy (revalidate entry, w) =
      take_part clock w req upstream cache_key policy (or_origin (revalidate entry, w) none).0
        (join_flight clock w req cache_key policy)
  after_lookup clock req upstream cache_key policy (nothing, w) =
      take_part clock w req upstream cache_key policy (or_origin (nothing, w) none).0
        (join_flight clock w req cache_key policy)

  unfoldable pub serve_from_cache :
      Clock → World → Request → Upstream → PrimaryKey → RequestPolicy → Run (Progress × World)
  unfolding after_lookup
  serve_from_cache clock w req upstream cache_key policy =
      from_cache clock w req upstream cache_key policy own_hit >>= λ c.
      after_lookup clock req upstream cache_key policy c

  -- The rest of `serve_from_cache` after the wait of a follower, at the time and with the state
  -- that it finds then.
  unfoldable pub after_wait :
      Clock → World → Request → Upstream → PrimaryKey → RequestPolicy → Run (Before × World)
  unfolding or_origin
  after_wait clock w req upstream cache_key policy =
      map_run (λ c. or_origin c none)
        (from_cache clock w req upstream cache_key policy after_leader)
