-- ===== src/Metrics.antt =====
-- src/metrics.rs: the counters of `/metrics`, and the counts that `/health` reports from them
-- (`health_check` of src/lib.rs). The text exposition is the crate's, and is not modelled.
pub mod Counting
pub mod Histogram
use shadowstep.Prelude.{
  ℕ, zero, suc, ◌+◌, ◌-◌, ◌*◌, ◌/◌, ◌^◌, Bool, List, [], ◌∷◌, ◌++◌, Option, none, some, ltb, ◌==◌,
  if◌then◌else◌, find, ◌>>=◌,
}
use shadowstep.Text.{Text, Bytes, codes, eqb}
use shadowstep.Time.{Duration}
use shadowstep.Http.{Http, HeaderName, HeaderValue, StatusCode}
use shadowstep.Prometheus.{Prometheus}

abbrev pub hit : Text
hit = codes "HIT"

abbrev pub miss : Text
miss = codes "MISS"

abbrev pub revalidated : Text
revalidated = codes "REVALIDATED"

abbrev pub stale : Text
stale = codes "STALE"

abbrev pub coalesced : Text
coalesced = codes "COALESCED"

abbrev pub bypass : Text
bypass = codes "BYPASS"

abbrev pub cache_labels : List Text
cache_labels = hit ∷ miss ∷ revalidated ∷ stale ∷ coalesced ∷ bypass ∷ []

abbrev pub asset_cache_labels : List Text
asset_cache_labels = hit ∷ miss ∷ bypass ∷ []

abbrev pub status_classes : List Text
status_classes = codes "1xx" ∷ codes "2xx" ∷ codes "3xx" ∷ codes "4xx" ∷ codes "5xx" ∷ []

pub data Route : Type 0 where
  proxy asset : Route

abbrev pub route_label : Route → Text
route_label proxy = codes "proxy"
route_label asset = codes "asset"

pub data OriginKind : Type 0 where
  foreground background : OriginKind

abbrev pub kind_label : OriginKind → Text
kind_label foreground = codes "foreground"
kind_label background = codes "background"

pub data OriginFailure : Type 0 where
  error timeout : OriginFailure

abbrev pub failure_label : OriginFailure → Text
failure_label error = codes "error"
failure_label timeout = codes "timeout"

pub record CacheCounts : Type 0 where
  pub hits : ℕ
  pub misses : ℕ
  pub revalidations : ℕ
  pub stale : ℕ
  pub coalesced : ℕ
  pub background_refreshes : ℕ

unfoldable pub status_class : StatusCode → Text
status_class status =
    let class = status / 100 in
    if class == 1
    then codes "1xx"
    else if class == 2
    then codes "2xx"
    else if class == 3
    then codes "3xx"
    else if class == 4
    then codes "4xx"
    else if class == 5
    then codes "5xx"
    else codes "other"

abbrev pub i64_max : ℕ
i64_max = 2 ^ 63 - 1

unfoldable pub gauge_value : ℕ → ℕ
gauge_value value = if ltb i64_max value then i64_max else value

module _ ⦃http : Http⦄ where
  -- `cache_label`, of a response's fields: its `X-Shadowstep-Cache`, when it is one that the proxy
  -- sets.
  unfoldable pub cache_label : http.HeaderMap → Option Text
  cache_label headers = do
    value ← http.get headers (codes "x-shadowstep-cache")
    find (λ label. eqb value label) cache_labels

module _ ⦃prometheus : Prometheus⦄ where
  open prometheus use {CounterVec, Histogram, new_vec, with_labels, inc, get, observe as sample}

  -- `revalidations` and `background_refreshes` are single counters.
  pub record Metrics : Type 0 where
    pub requests : CounterVec
    pub responses : CounterVec
    pub origin_requests : CounterVec
    pub origin_response_seconds : Histogram
    pub origin_body_idle_timeouts : CounterVec
    pub revalidations : ℕ
    pub background_refreshes : ℕ
    pub cache_bytes : ℕ
    pub cache_entries : ℕ

  with_each : CounterVec → Text → List Text → CounterVec
  with_each c first [] = c
  with_each c first (l ∷ ls) = with_each (with_labels c (first ∷ l ∷ [])) first ls

  origin_outcomes : List Text
  origin_outcomes = status_classes ++ failure_label error ∷ failure_label timeout ∷ []

  -- `Metrics::new`, with `initialise_series`.
  unfoldable pub new : Metrics
  unfolding with_each origin_outcomes
  new = record {
    requests =
        with_each (with_each new_vec (route_label proxy) cache_labels) (route_label asset)
          asset_cache_labels;
    responses =
        with_each (with_each new_vec (route_label proxy) status_classes) (route_label asset)
          status_classes;
    origin_requests =
        with_each (with_each new_vec (kind_label foreground) origin_outcomes)
          (kind_label background) origin_outcomes;
    origin_response_seconds = prometheus.new_histogram;
    origin_body_idle_timeouts =
        with_labels (with_labels new_vec (kind_label foreground ∷ [])) (kind_label background ∷ []);
    revalidations = 0;
    background_refreshes = 0;
    cache_bytes = 0;
    cache_entries = 0;
  }

  -- `Metrics::observe`.
  unfoldable pub observe : Metrics → Route → Text → StatusCode → Metrics
  observe m route cache status = record m {
    requests = inc m.requests (route_label route ∷ cache ∷ []);
    responses = inc m.responses (route_label route ∷ status_class status ∷ []);
  }

  unfoldable pub origin_responded : Metrics → OriginKind → StatusCode → Duration → Metrics
  origin_responded m kind status elapsed = record m {
    origin_requests = inc m.origin_requests (kind_label kind ∷ status_class status ∷ []);
    origin_response_seconds = sample m.origin_response_seconds elapsed;
  }

  unfoldable pub origin_failed : Metrics → OriginKind → OriginFailure → Metrics
  origin_failed m kind failure = record m {
    origin_requests = inc m.origin_requests (kind_label kind ∷ failure_label failure ∷ []);
  }

  -- `body_idle_timeouts(kind).inc()`.
  unfoldable pub body_idle_timeout : Metrics → OriginKind → Metrics
  body_idle_timeout m kind = record m {
    origin_body_idle_timeouts = inc m.origin_body_idle_timeouts (kind_label kind ∷ []);
  }

  unfoldable pub revalidation : Metrics → Metrics
  revalidation m = record m { revalidations = suc m.revalidations }

  unfoldable pub background_refresh : Metrics → Metrics
  background_refresh m = record m { background_refreshes = suc m.background_refreshes }

  unfoldable pub requests_count : Metrics → Route → Text → ℕ
  requests_count m route cache = get m.requests (route_label route ∷ cache ∷ [])

  unfoldable pub both_routes : Metrics → Text → ℕ
  unfolding requests_count
  both_routes m cache = requests_count m proxy cache + requests_count m asset cache

  unfoldable pub cache_counts : Metrics → CacheCounts
  unfolding both_routes
  cache_counts m = record {
    hits = both_routes m hit;
    misses = both_routes m miss + requests_count m proxy bypass;
    revalidations = m.revalidations;
    stale = both_routes m stale;
    coalesced = both_routes m coalesced;
    background_refreshes = m.background_refreshes;
  }

  -- The gauges that `encode` sets, from the cache's size and number of entries.
  unfoldable pub set_gauges : Metrics → ℕ → ℕ → Metrics
  set_gauges m weighted_size entry_count = record m {
    cache_bytes = gauge_value weighted_size;
    cache_entries = gauge_value entry_count;
  }

-- `from_cache` and `total` of `health_check`: the hit ratio is their quotient, or 0.
unfoldable pub from_cache : CacheCounts → ℕ
from_cache counts = counts.hits + counts.revalidations + counts.stale + counts.coalesced

unfoldable pub total : CacheCounts → ℕ
unfolding from_cache
total counts = from_cache counts + counts.misses
