-- ===== src/Proxy/Exchange.antt =====
-- src/proxy.rs, `Exchange`: what the client gets once the origin has answered or failed.
pub mod Laws
use shadowstep.Prelude.{
  ℕ, Bool, true, false, ◌&&◌, List, [], ◌∷◌, Option, none, some, ◌==◌, if◌then◌else◌, any,
}
use shadowstep.Text.{Bytes, codes}
use shadowstep.Run.{Run, done, panic, map_run}
use shadowstep.Time.{Instant}
use shadowstep.Http.{Http, StatusCode}
use shadowstep.Prometheus.{Prometheus}
use shadowstep.Metrics.{Metrics, revalidation, stale, revalidated as revalidated_label}
use shadowstep.Forwarded.{Request}
use shadowstep.Cache.Policy.{RequestPolicy, may_serve_stale}
use shadowstep.Cache.Response.{PrimaryKey, Arc, StoredResponse, must_revalidate}
use shadowstep.Cache.Response as Stored
use shadowstep.Cache.Store.{Clock, Caches, Store, StaleEntry, freshen}
use shadowstep.Proxy.Headers.{Head, forwardable_fields, stored_fields}
use shadowstep.Proxy.Answer.{
  Response, Storing, cached_response, error_response, client_response, store_plan,
}

-- `ERROR_STATUSES`.
abbrev pub error_statuses : List StatusCode
error_statuses = 500 ∷ 502 ∷ 503 ∷ 504 ∷ []

module _ ⦃http : Http⦄ ⦃caches : Caches⦄ ⦃prometheus : Prometheus⦄ where
  -- The store and the counters that the exchange changes.
  pub record State : Type 0 where
    pub cache : Store
    pub metrics : Metrics

  -- The flight that the request leads belongs to `coalesce.rs`, and is left out here.
  pub record Exchange : Type 0 where
    pub req : Request
    pub cache_key : PrimaryKey
    pub request_policy : RequestPolicy
    pub stale : Option StaleEntry
    pub revalidating : Bool

  unfoldable pub may_serve_on_error : Instant → Exchange → StaleEntry → Bool
  may_serve_on_error now x entry =
      may_serve_stale x.request_policy && Stored.may_serve_on_error now entry.response.value

  unfoldable pub serve_stale : Instant → StaleEntry → Run Response
  serve_stale now entry = cached_response now entry.response.value stale

  unfoldable pub revalidated : Clock → State → Exchange → StaleEntry → Head → Run Response × State
  revalidated clock s x entry head =
      let (fresh, cache) =
        freshen clock s.cache entry x.request_policy x.req.headers
          (stored_fields (forwardable_fields head)) (http.get head.map (codes "age")) in
      (
        cached_response clock.instant fresh.value revalidated_label,
        record { cache = cache; metrics = revalidation s.metrics },
      )

  -- The origin's own response, and how it is stored.
  unfoldable pub passed_on : Clock → State → Exchange → Head → Run Response × Option Storing × State
  passed_on clock s x head =
      let (plan, cache) = store_plan clock s.cache x.req x.cache_key x.request_policy head in
      (done (client_response head plan), plan, record s { cache = cache })

  -- `answered` when there is a stored response to revalidate.
  unfoldable pub answered_stale :
      Clock → State → Exchange → StaleEntry → Head → Run Response × Option Storing × State
  unfolding may_serve_on_error serve_stale revalidated passed_on
  answered_stale clock s x entry head =
      if x.revalidating && head.status == 304
      then (let (response, s') = revalidated clock s x entry head in (response, none, s'))
      else if any (λ e. e == head.status) error_statuses && may_serve_on_error clock.instant x entry
      then (serve_stale clock.instant entry, none, s)
      else passed_on clock s x head

  unfoldable pub answered : Clock → State → Exchange → Head → Run Response × Option Storing × State
  unfolding answered_stale passed_on
  answered clock s x head = elim x.stale [
    | none ↦ passed_on clock s x head
    | some entry ↦ answered_stale clock s x entry head
  ]

  unfoldable pub failed : Instant → Exchange → StatusCode → Run Response
  unfolding may_serve_on_error serve_stale
  failed now x status = elim x.stale [
    | none ↦ done (error_response status)
    | some entry ↦
        if may_serve_on_error now x entry
        then serve_stale now entry
        else if must_revalidate entry.response.value
        then done (error_response 504)
        else done (error_response status)
  ]
