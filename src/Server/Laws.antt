-- ===== src/Server/Laws.antt =====
-- What a program that started serves, and on which listener.
use shadowstep.Prelude.{
  ℕ, ◌≡◌, ◌⊎◌, inl, inr, refl, subst, sym, ◌∙◌, ap, ◌+◌, ◌≤◌, ◌<◌, arith, Bool, true, false, ltb,
  Option, none, some, is_none, Option-cases, Bool-cases, [],
}
use shadowstep.Text.{Text, codes, eqb}
use shadowstep.Io.{ok, bind-ok}
use shadowstep.Http.{Http}
use shadowstep.Prometheus.{Prometheus}
use shadowstep.Watch.{Watch}
use shadowstep.Metrics.{CacheCounts, from_cache, total, cache_counts}
use shadowstep.Metrics
use shadowstep.Time.{from_secs}
use shadowstep.Coalesce.{default}
use shadowstep.Proxy.Serving.{FlightKey-discrete}
use shadowstep.Cache.Store.{new}
use shadowstep.Cache.Names
use shadowstep.Cache.Store.{Clock, Caches}
use shadowstep.Proxy.Headers.{Builder}
use shadowstep.Proxy.System.{Reached, started}
use shadowstep.Config.{Config}
use shadowstep.Tls.{Host, bind_listeners}
use shadowstep.Server.{
  metrics_endpoint, forward_to_upstream, app, metrics_app, Setup, AppState, build_state,
  parse_origin, hit_ratio, check_health, Running, bind_metrics, main,
}

module _ ⦃http : Http⦄ ⦃caches : Caches⦄ ⦃prometheus : Prometheus⦄ ⦃watch : Watch⦄
    ⦃setup : Setup⦄ where
  -- The hit ratio of `/health` is a share: the number of responses that came from the cache
  -- divided by a total that is positive and no less, or zero when nothing was counted.
  pub check_health-hit_ratio :
      (clock : Clock) (state : AppState)
      → ((total (cache_counts state.metrics) ≡ 0)
          × ((check_health clock state).0.hit_ratio ≡ setup.zero))
        ⊎ ((part : ℕ) × (whole : ℕ) × ((check_health clock state).0.hit_ratio
              ≡ setup.divided part whole)
            × (part ≡ from_cache (cache_counts state.metrics))
            × (whole ≡ part + (cache_counts state.metrics).misses)
            × (0 < whole)
            × (part ≤ whole))
  unfolding check_health hit_ratio total
  check_health-hit_ratio clock state =
      let counts = cache_counts state.metrics in
      elim (Bool-cases (ltb 0 (from_cache counts + counts.misses))) [
        | inl e ↦ inr (
          from_cache counts,
          from_cache counts + counts.misses,
          rw (e, check_health, hit_ratio) refl,
          refl,
          refl,
          ground arith,
          omega arith,
        )
        | inr e ↦ inl (ground arith, rw (e, check_health, hit_ratio) refl)
      ]

  metrics_here :
      (here : Bool) → here ≡ true → app here Names.get (codes "/metrics") ≡ metrics_endpoint
  unfolding app eqb
  metrics_here here e = rw (e, app) refl

  metrics_elsewhere :
      (here : Bool) → here ≡ false → app here Names.get (codes "/metrics") ≡ forward_to_upstream
  unfolding app eqb
  metrics_elsewhere here e = rw (e, app) refl

  metrics_alone : metrics_app Names.get (codes "/metrics") ≡ metrics_endpoint
  unfolding metrics_app eqb
  metrics_alone = refl

  build_state-here :
      (config : Config) (state : AppState)
      → build_state config ≡ ok state
      → state.metrics_on_proxy_listeners ≡ is_none config.metrics_addr
  unfolding build_state
  build_state-here config state h =
      let (made, a, h1) = bind-ok (setup.create_dir_all config.asset_path) _ state h in
      let (connector, b, h2) = bind-ok setup.native_roots _ state h1 in
      let (upstream, c, h3) = bind-ok (parse_origin config.origin_url) _ state h2 in cc

  module _ ⦃host : Host⦄ where
    open host use {Listener}

    bind_metrics-some :
        (o : Option Text) (address : Text) (metrics : Option Listener)
        → o ≡ some address
        → bind_metrics o ≡ ok metrics
        → (listener : Listener) × (host.bind address ≡ ok listener) × (metrics ≡ some listener)
    unfolding bind_metrics
    bind_metrics-some none address metrics e h = cc
    bind_metrics-some (some a) address metrics e h =
        let (listener, b, same) = bind-ok (host.bind a) _ metrics h in
        let here : a ≡ address = cc in (listener, ap host.bind (sym here) ∙ b, cc)

    -- The metrics are served in one place. When the program has started and its settings name an
    -- address for them, a listener on that address is bound, the application that it runs answers
    -- `GET /metrics` with them, and the proxy's listeners pass `GET /metrics` on to the origin;
    -- otherwise the proxy's listeners serve them and there is no other listener.
    pub main-metrics :
        (config : Config) (running : Running)
        → main config ≡ ok running
        → ((config.metrics_addr ≡ none)
            × (running.metrics ≡ none)
            × (app running.state.metrics_on_proxy_listeners Names.get (codes "/metrics")
                ≡ metrics_endpoint))
          ⊎ ((address : Text) × (listener : Listener) × (config.metrics_addr ≡ some address)
              × (host.bind address ≡ ok listener)
              × (running.metrics ≡ some listener)
              × (metrics_app Names.get (codes "/metrics") ≡ metrics_endpoint)
              × (app running.state.metrics_on_proxy_listeners Names.get (codes "/metrics")
                  ≡ forward_to_upstream))
    unfolding main bind_metrics
    main-metrics config running h =
        let (state, a, h1) = bind-ok (build_state config) _ running h in
        let (bound, b, h2) = bind-ok (bind_listeners config) _ running h1 in
        let (metrics, c, h3) = bind-ok (bind_metrics config.metrics_addr) _ running h2 in
        let same_state : running.state ≡ state = cc in
        let here : running.state.metrics_on_proxy_listeners ≡ is_none config.metrics_addr =
          ap (λ (s : AppState). s.metrics_on_proxy_listeners) same_state
          ∙ build_state-here config state a in
        let same : metrics ≡ running.metrics = cc in
        elim (Option-cases config.metrics_addr) [
          | inl e ↦ inl (e, sym same ∙ cc, metrics_here _ (here ∙ ap is_none e))
          | inr (address, e) ↦
              let (listener, d, f) = bind_metrics-some config.metrics_addr address metrics e c in
              inr (
                address,
                listener,
                e,
                d,
                sym same ∙ f,
                metrics_alone,
                metrics_elsewhere _ (here ∙ ap is_none e),
              )
        ]

  -- The proxy starts as the relation of its steps does.
  pub build_state-Reached :
      (builds : Builder → Bool) (config : Config) (state : AppState)
      → build_state config ≡ ok state
      → Reached state.upstream builds
          (record {
            cache = state.cache;
            metrics = state.metrics;
            flights = state.flights;
            refreshes = [];
          })
          []
  unfolding build_state
  build_state-Reached builds config state h =
      let (made, a, h1) = bind-ok (setup.create_dir_all config.asset_path) _ state h in
      let (connector, b, h2) = bind-ok setup.native_roots _ state h1 in
      let (upstream, c, h3) = bind-ok (parse_origin config.origin_url) _ state h2 in
      let initial : AppState = record {
        metrics = Metrics.new;
        metrics_on_proxy_listeners = is_none config.metrics_addr;
        cache = new config.cache_size_mb (from_secs config.cache_ttl_seconds);
        flights = default FlightKey-discrete;
        upstream = upstream;
        asset_path = config.asset_path;
        upstream_timeout = from_secs config.upstream_timeout_seconds;
      } in
      let same : initial ≡ state = cc in
      subst
        (λ (s : AppState).
          Reached s.upstream builds
            (record { cache = s.cache; metrics = s.metrics; flights = s.flights; refreshes = [] })
            [])
        same (started config.cache_size_mb (from_secs config.cache_ttl_seconds))
