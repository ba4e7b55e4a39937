-- ===== src/Proxy/Exchange/Laws.antt =====
-- When a stale response stands in for the origin's, and what a 304 gives the client.
use shadowstep.Prelude.{
  ◌+◌, ◌≤◌, ◌<◌, ◌≡◌, refl, true, false, ◌&&◌, none, some, arith, ◌==◌, if◌then◌else◌, ◌↔◌,
}
use shadowstep.Run.{done}
use shadowstep.Time.{Instant, elapsed}
use shadowstep.Http.{Http, StatusCode}
use shadowstep.Prometheus.{Prometheus}
use shadowstep.Cache.Policy.{may_serve_stale}
use shadowstep.Cache.Response.{StoredResponse, must_revalidate, stale_within}
use shadowstep.Cache.Response as Stored
use shadowstep.Cache.Store.{Clock, Caches, StaleEntry}
use shadowstep.Proxy.Headers.{Head}
use shadowstep.Proxy.Answer.{error_response}
use shadowstep.Proxy.Exchange.{
  State, Exchange, may_serve_on_error, revalidated, passed_on, answered_stale, answered, failed,
}

module _ ⦃http : Http⦄ ⦃caches : Caches⦄ ⦃prometheus : Prometheus⦄ where
  -- A stale response stands in for an origin that failed exactly when the request named no maximum
  -- age, the response need not be revalidated, and its freshness ended less than its
  -- stale-if-error window ago.
  pub may_serve_on_error_iff :
      (now : Instant) (x : Exchange) (entry : StaleEntry)
      → (may_serve_on_error now x entry ≡ true) ↔ (
          (x.request_policy.max_age ≡ none)
          × (entry.response.value.stale.must_revalidate ≡ false)
          × (entry.response.value.ttl ≤ elapsed entry.response.value.stored_at now)
          × (elapsed entry.response.value.stored_at now
              < entry.response.value.ttl + entry.response.value.stale.if_error))
  unfolding may_serve_on_error may_serve_stale Stored.may_serve_on_error stale_within
      Stored.staleness
  may_serve_on_error_iff now x entry = ground arith

  must_revalidate-never :
      (now : Instant) (x : Exchange) (entry : StaleEntry)
      → must_revalidate entry.response.value ≡ true
      → may_serve_on_error now x entry ≡ false
  unfolding may_serve_on_error Stored.may_serve_on_error stale_within
  must_revalidate-never now x entry must = ground arith

  -- A response that must be revalidated is never served stale: when the origin fails, the client
  -- gets a 504, whatever the failure, and when the origin answers, the client gets that answer,
  -- or the freshened response if the answer is a 304 to a revalidation.
  pub must_revalidate-answered :
      (clock : Clock) (s : State) (x : Exchange) (entry : StaleEntry) (head : Head)
      (status : StatusCode)
      → x.stale ≡ some entry
      → must_revalidate entry.response.value ≡ true
      → (failed clock.instant x status ≡ done (error_response 504))
        × (answered clock s x head ≡ (
            if x.revalidating && head.status == 304
            then ((revalidated clock s x entry head).0, none, (revalidated clock s x entry head).1)
            else passed_on clock s x head))
  unfolding failed answered answered_stale
  must_revalidate-answered clock s x entry head status e must =
      let never = must_revalidate-never clock.instant x entry must in
      (rw (e, failed, never, must) refl, rw (e, answered, answered_stale, never) (ground arith))
