-- ===== src/Proxy/Forward.antt =====
-- src/proxy.rs, `forward_to_upstream` and `forward`: from what the cache did for a request to the
-- client's response, with the flight that the request may lead. The HTTP client is outside: what
-- comes back from the origin is an argument, and so is the stream of the client's response.
pub mod Labels
pub mod Filed
use shadowstep.Prelude.{Bool, not, Option, none, some, inl, inr, if◌then◌else◌, is_some, unwrap_or}
use shadowstep.Text.{Text, Bytes}
use shadowstep.Run.{Run}
use shadowstep.Time.{Duration}
use shadowstep.Http.{Http, StatusCode}
use shadowstep.Prometheus.{Prometheus}
use shadowstep.Watch.{Watch}
use shadowstep.Coalesce.{FlightGuard}
use shadowstep.Metrics.{
  Metrics, OriginKind, foreground, background, OriginFailure, origin_responded, origin_failed,
  observe, proxy, bypass, miss, cache_label,
}
use shadowstep.Forwarded.{Request, from_request, path_and_query}
use shadowstep.Cache.Policy.{RequestPolicy, bypasses_cache}
use shadowstep.Cache.Policy as Policy
use shadowstep.Cache.Response.{Fields, FlightKey, PrimaryKey}
use shadowstep.Cache.Store.{Clock, Caches, StaleEntry, drop_refresh}
use shadowstep.Proxy.Headers.{
  Upstream, Builder, Head, from_upstream, upstream_request, with_validators,
}
use shadowstep.Proxy.Answer.{Response, Storing, error_response}
use shadowstep.Proxy.Exchange.{State, Exchange}
use shadowstep.Proxy.Exchange
use shadowstep.Proxy.Serving.{World, Refresh, Collecting, refresh}
use shadowstep.Proxy.Waiting.{ToOrigin, drop_flight}
use shadowstep.Proxy.Streaming.{Streaming, start_stream}
use shadowstep.Proxy.Payload.{Payload, UpstreamBody, origin_request}

-- What the timeout around the HTTP client's request gives: the origin's status and fields, an
-- error, or no response headers in time.
pub data Reply : Type 0 where
  responded : StatusCode → Fields → Reply
  broken : Reply
  late : Reply

module _ ⦃prometheus : Prometheus⦄ where
  -- `send_to_origin`, which counts what came back after the time that it took.
  unfoldable pub send_to_origin : Metrics → OriginKind → Duration → Reply → Metrics
  send_to_origin m kind elapsed (responded status fields) = origin_responded m kind status elapsed
  send_to_origin m kind elapsed broken = origin_failed m kind OriginFailure.error
  send_to_origin m kind elapsed late = origin_failed m kind OriginFailure.timeout

module _ ⦃http : Http⦄ ⦃caches : Caches⦄ ⦃prometheus : Prometheus⦄ ⦃watch : Watch⦄ where
  -- A request that the origin is asked: the exchange, the flight that it leads, and what is sent.
  pub record Sending : Type 0 where
    pub exchange : Exchange
    pub flight : Option (FlightGuard FlightKey)
    pub request : Builder
    pub body : UpstreamBody

  pub data Departure : Type 0 where
    refused : Response → Departure
    sent : Sending → Departure

  -- The stale response that the origin request revalidates.
  unfoldable pub revalidated_entry : RequestPolicy → Option StaleEntry → Option StaleEntry
  revalidated_entry policy none = none
  revalidated_entry policy (some entry) = if not policy.conditional then some entry else none

  unfoldable pub validated : Builder → Option StaleEntry → Builder
  validated builder none = builder
  validated builder (some entry) = with_validators builder entry.response.value

  -- `forward`, from what `serve_from_cache` left for the origin to the sending of the request.
  unfoldable pub depart :
      (Builder → Bool)
      → World
      → Request
      → Upstream
      → PrimaryKey
      → RequestPolicy
      → ToOrigin
      → Payload
      → Departure × World
  unfolding validated revalidated_entry drop_flight
  depart builds w req upstream cache_key policy to_origin payload =
      elim (upstream_request req upstream (from_request req) (path_and_query req)) [
        | none ↦ (refused (error_response 500), drop_flight w to_origin.flight)
        | some builder ↦
            let revalidating = revalidated_entry policy to_origin.stale in
            elim (origin_request builds (validated builder revalidating) payload) [
              | inl status ↦ (refused (error_response status), drop_flight w to_origin.flight)
              | inr (request, body) ↦ (
                sent (record {
                  exchange = record {
                    req = req;
                    cache_key = cache_key;
                    request_policy = policy;
                    stale = to_origin.stale;
                    revalidating = is_some revalidating;
                  };
                  flight = to_origin.flight;
                  request = request;
                  body = body;
                }),
                w,
              )
            ]
      ]

  -- The rest of `answered`: a response that is to be stored streams with its copy, and the flight
  -- drops with any other.
  unfoldable pub respond :
      Clock
      → World
      → Option (FlightGuard FlightKey)
      → Head
      → Run Response × Option Storing × State
      → Run Response × Option Streaming × World
  unfolding start_stream drop_flight
  respond clock w flight head (response, none, s) =
      (response, none, drop_flight (record w { cache = s.cache; metrics = s.metrics }) flight)
  respond clock w flight head (response, some store, s) =
      let (stream, w') =
        start_stream clock (record w { cache = s.cache; metrics = s.metrics }) head store flight in
      (response, some stream, w')

  -- The end of `forward` once the origin has answered or failed.
  unfoldable pub came_back :
      Clock → World → Sending → Duration → Reply → Run Response × Option Streaming × World
  unfolding send_to_origin respond drop_flight
  came_back clock w sending elapsed (responded status fields) =
      let m = send_to_origin w.metrics foreground elapsed (responded status fields) in
      let head = from_upstream status fields in
      respond clock w sending.flight head
        (Exchange.answered clock (record { cache = w.cache; metrics = m }) sending.exchange head)
  came_back clock w sending elapsed broken =
      let m = send_to_origin w.metrics foreground elapsed broken in
      (
        Exchange.failed clock.instant sending.exchange 502,
        none,
        drop_flight (record w { metrics = m }) sending.flight,
      )
  came_back clock w sending elapsed late =
      let m = send_to_origin w.metrics foreground elapsed late in
      (
        Exchange.failed clock.instant sending.exchange 504,
        none,
        drop_flight (record w { metrics = m }) sending.flight,
      )

  -- The label that a request counts under.
  unfoldable pub counted_label : RequestPolicy → Response → Text
  counted_label policy response =
      if bypasses_cache policy then bypass else unwrap_or (cache_label response.headers) miss

  -- The end of `forward_to_upstream`.
  unfoldable pub observed : World → RequestPolicy → Response → World
  unfolding counted_label
  observed w policy response = record w {
    metrics = observe w.metrics proxy (counted_label policy response) response.status;
  }

  -- The task of a background revalidation, once the origin has answered or failed. Unless it goes
  -- on to wait for the body, its guard drops.
  unfoldable pub refresh_came_back :
      Clock → World → Request → Refresh → Duration → Reply → Option Collecting × World
  unfolding send_to_origin
  refresh_came_back clock w req task elapsed (responded status fields) =
      let m = send_to_origin w.metrics background elapsed (responded status fields) in
      refresh clock (record w { metrics = m }) req task (Policy.new req.method req.headers)
        (from_upstream status fields)
  refresh_came_back clock w req task elapsed broken =
      let m = send_to_origin w.metrics background elapsed broken in
      (none, record w { metrics = m; cache = drop_refresh w.cache task.guard })
  refresh_came_back clock w req task elapsed late =
      let m = send_to_origin w.metrics background elapsed late in
      (none, record w { metrics = m; cache = drop_refresh w.cache task.guard })
