-- ===== src/Proxy/Serving.antt =====
-- src/proxy.rs, what the cache does for a request before it goes to the origin, and the
-- background refresh of a stale response. A task that was spawned is an entry of `refreshes`.
pub mod Laws
pub mod Quiet
use shadowstep.Prelude.{
  ℕ, Bool, true, false, ◌&&◌, ◌||◌, not, List, [], ◌∷◌, Option, none, some, leb, ◌==◌,
  if◌then◌else◌, any, retain, length,
}
use native.Mathlib.Decide.{ℕ_discrete}
use shadowstep.Text.{Text, Bytes, codes, eqb}
use shadowstep.Run.{Run, done, panic, map_run, ◌>>=◌}
use shadowstep.Time.{Instant}
use shadowstep.Http.{Http, StatusCode}
use shadowstep.Prometheus.{Prometheus}
use shadowstep.Watch.{Watch}
use shadowstep.Coalesce.{Flights, FlightGuard, Join, alone, join}
use shadowstep.Metrics.{Metrics, hit, stale, coalesced, revalidation, background_refresh}
use shadowstep.Forwarded.{Request, from_request, path_and_query}
use shadowstep.Cache.Names
use shadowstep.Cache.Policy.{RequestPolicy, may_serve_stale, may_coalesce, may_lead}
use shadowstep.Cache.Policy as Policy
use shadowstep.Cache.Response.{
  FlightKey, PrimaryKey, ResponseKey, StoredResponse, may_serve_while_revalidating,
}
use shadowstep.Cache.Store.{
  Clock, Caches, Store, StaleEntry, Lookup, lookup, flight_key, start_refresh, drop_refresh,
  freshen,
}
use shadowstep.Proxy.Headers.{
  Upstream, Builder, Head, upstream_request, with_validators, forwardable_fields, stored_fields,
  contains,
}
use shadowstep.Proxy.Answer.{Response, Storing, cached_response, store_plan, finish}

unfoldable pub FlightKey-discrete : Discrete FlightKey
FlightKey-discrete = hlevel ℕ_discrete

pub data FreshUse : Type 0 where
  own_hit after_leader : FreshUse

-- `FreshUse::cache_status`.
abbrev pub use_label : FreshUse → Text
use_label own_hit = hit
use_label after_leader = coalesced

-- The client's preconditions do not go with a background revalidation.
unfoldable pub without_preconditions : Builder → Builder
unfolding contains
without_preconditions builder = record builder {
  headers = retain (λ f. not (contains Names.precondition_headers f.0)) builder.headers;
}

module _ ⦃http : Http⦄ ⦃caches : Caches⦄ ⦃prometheus : Prometheus⦄ ⦃watch : Watch⦄ where
  pub data Cached : Type 0 where
    answer : Response → Cached
    revalidate : StaleEntry → Cached
    nothing : Cached

  -- A background task: the guard's key, the entry, and the request that goes to the origin.
  pub record Refresh : Type 0 where
    pub guard : ResponseKey
    pub entry : StaleEntry
    pub cache_key : PrimaryKey
    pub request : Builder

  pub record World : Type 0 where
    pub cache : Store
    pub metrics : Metrics
    pub flights : Flights FlightKey
    pub refreshes : List Refresh

  unfoldable pub refresh_in_background :
      World → Request → Upstream → PrimaryKey → StaleEntry → World
  unfolding without_preconditions
  refresh_in_background w req upstream cache_key entry =
      let (started, cache) = start_refresh w.cache entry in
      elim started [
        | none ↦ w
        | some guard ↦
            elim (upstream_request req upstream (from_request req) (path_and_query req)) [
              | none ↦ record w { cache = drop_refresh cache guard }
              | some builder ↦ record w {
                cache = cache;
                metrics = background_refresh w.metrics;
                refreshes =
                    record {
                      guard = guard;
                      entry = entry;
                      cache_key = cache_key;
                      request =
                          with_validators (without_preconditions builder) entry.response.value;
                    }
                    ∷ w.refreshes;
              }
            ]
      ]

  unfoldable pub while_revalidating :
      Instant
      → World
      → Request
      → Upstream
      → PrimaryKey
      → RequestPolicy
      → StaleEntry
      → Run (Cached × World)
  unfolding refresh_in_background
  while_revalidating now w req upstream cache_key policy entry =
      if not (may_serve_stale policy) || not (may_serve_while_revalidating now entry.response.value)
      then done (revalidate entry, w)
      else map_run (λ r. (answer r, refresh_in_background w req upstream cache_key entry))
          (cached_response now entry.response.value stale)

  -- What `from_cache` makes of a lookup's result.
  unfoldable pub use_found :
      Instant
      → World
      → Request
      → Upstream
      → PrimaryKey
      → RequestPolicy
      → FreshUse
      → Option Lookup
      → Run (Cached × World)
  unfolding while_revalidating
  use_found now w req upstream cache_key policy fresh_use none = done (nothing, w)
  use_found now w req upstream cache_key policy fresh_use (some (Lookup.fresh stored)) =
      map_run (λ r. (answer r, w)) (cached_response now stored.value (use_label fresh_use))
  use_found now w req upstream cache_key policy fresh_use (some (Lookup.stale entry)) =
      if eqb req.method Names.get
      then while_revalidating now w req upstream cache_key policy entry
      else done (nothing, w)

  unfoldable pub from_cache :
      Clock
      → World
      → Request
      → Upstream
      → PrimaryKey
      → RequestPolicy
      → FreshUse
      → Run (Cached × World)
  unfolding use_found
  from_cache clock w req upstream cache_key policy fresh_use =
      if not policy.may_serve
      then done (nothing, w)
      else lookup clock w.cache cache_key req.headers policy.max_age >>= λ found.
          use_found clock.instant w req upstream cache_key policy fresh_use found

  -- `join_flight`.
  unfoldable pub join_flight :
      Clock → World → Request → PrimaryKey → RequestPolicy → Join FlightKey × World
  join_flight clock w req cache_key policy =
      if not (may_coalesce policy)
      then (alone, w)
      else elim (flight_key clock w.cache cache_key req.headers) [
        | none ↦ (alone, w)
        | some key ↦
            let (j, flights) = join FlightKey-discrete w.flights key (may_lead policy) in
            (j, record w { flights = flights })
      ]

  -- A background task that waits for the origin's body, and still holds the guard.
  pub record Collecting : Type 0 where
    pub task : Refresh
    pub plan : Storing
    pub head : Head

  -- `refresh` up to its wait for the body. The guard drops with the task, at the `return`s.
  unfoldable pub refresh :
      Clock → World → Request → Refresh → RequestPolicy → Head → Option Collecting × World
  refresh clock w req task policy head =
      if head.status == 304
      then (let (_, cache) =
            freshen clock w.cache task.entry policy req.headers
              (stored_fields (forwardable_fields head)) (http.get head.map (codes "age")) in
          (
            none,
            record w { cache = drop_refresh cache task.guard; metrics = revalidation w.metrics },
          ))
      else (let (plan, cache) = store_plan clock w.cache req task.cache_key policy head in
          elim plan [
            | none ↦ (none, record w { cache = drop_refresh cache task.guard })
            | some store ↦ (
              some (record { task = task; plan = store; head = head }),
              record w { cache = cache },
            )
          ])

  -- What the store keeps of a body: one that came whole and is not over the limit.
  unfoldable pub keep_collected : Clock → Store → Collecting → Option Bytes → Store
  keep_collected clock s c none = s
  keep_collected clock s c (some bytes) =
      if leb (length bytes) c.plan.limit
      then finish clock s c.plan c.head.status (stored_fields (forwardable_fields c.head)) bytes
      else s

  -- `refresh` after its wait: `body` is the origin's body, if it came whole. Then the guard drops.
  unfoldable pub collected : Clock → World → Collecting → Option Bytes → World
  unfolding keep_collected
  collected clock w c body = record w {
    cache = drop_refresh (keep_collected clock w.cache c body) c.task.guard;
  }
