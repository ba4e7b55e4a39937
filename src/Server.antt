-- ===== src/Server.antt =====
-- src/lib.rs and src/main.rs: the state that the handlers share, the routes, the endpoints
-- `/health` and `/metrics`, and the start of the program. The crates `url`, `hyper-rustls` and
-- `serde_json` are outside, and of actix-web that services are tried in their order and that one
-- takes a request whose method and path it was made for.
pub mod Laws
use shadowstep.Prelude.{
  ℕ, Bool, true, false, ◌&&◌, List, [], ◌∷◌, Option, none, some, ltb, if◌then◌else◌, ◌⊎◌, inl, inr,
  is_none, ◌++◌,
}
use shadowstep.Text.{Text, codes, eqb}
use shadowstep.Io.{Io, ok, fails, invalid_input, ◌>>=◌}
use shadowstep.Time.{Duration, from_secs}
use shadowstep.Http.{Http, Method}
use shadowstep.Prometheus.{Prometheus}
use shadowstep.Watch.{Watch}
use shadowstep.Coalesce.{Flights, default}
use shadowstep.Metrics.{Metrics, CacheCounts, cache_counts, from_cache, total, set_gauges}
use shadowstep.Metrics
use shadowstep.Cache.Names
use shadowstep.Cache.Response.{FilePath, FlightKey}
use shadowstep.Cache.Store.{Clock, Caches, Store, new, entry_count, weighted_size}
use shadowstep.Proxy.Headers.{Upstream}
use shadowstep.Proxy.Serving.{FlightKey-discrete}
use shadowstep.Config.{Config}
use shadowstep.Tls.{Host, bind_listeners}

-- The handlers, that for assets with the rest of the path.
pub data Handler : Type 0 where
  health_check metrics_endpoint forward_to_upstream not_found : Handler
  serve_asset : Text → Handler

-- The rest of a text behind a prefix.
unfoldable pub behind : Text → Text → Option Text
behind [] text = some text
behind (c ∷ prefix) [] = none
behind (c ∷ prefix) (d ∷ text) =
    let rest = behind prefix text in if eqb (c ∷ []) (d ∷ []) then rest else none

-- `#[get(path)]`.
unfoldable pub is_get : Method → Text → Text → Bool
is_get method path wanted = eqb method Names.get && eqb path wanted

-- `app`: the services in order, where `metrics_here` says whether `/metrics` is one.
unfoldable pub app : Bool → Method → Text → Handler
unfolding is_get behind
app metrics_here method path =
    if is_get method path (codes "/health")
    then health_check
    else if metrics_here && is_get method path (codes "/metrics")
    then metrics_endpoint
    else if eqb method Names.get
    then elim (behind (codes "/assets/") path) [
      | some filename ↦ serve_asset filename
      | none ↦ forward_to_upstream
    ]
    else forward_to_upstream

-- The application of `run_metrics`.
unfoldable pub metrics_app : Method → Text → Handler
unfolding is_get
metrics_app method path =
    if is_get method path (codes "/metrics") then metrics_endpoint else not_found

-- What the program asks of other crates at its start, and of floating-point numbers.
pub record Setup : Type 1 where
  -- `create_dir_all`, and the HTTPS connector with the system's roots
  pub create_dir_all : FilePath → Io {0} Unit
  pub native_roots : Io {0} Unit
  -- `Url::parse`, or the message of its error
  pub parse_url : Text → Text ⊎ Upstream
  pub Float : Type 0
  pub zero : Float
  -- the quotient of two counts
  pub divided : ℕ → ℕ → Float

module _ ⦃http : Http⦄ ⦃caches : Caches⦄ ⦃prometheus : Prometheus⦄ ⦃watch : Watch⦄
    ⦃setup : Setup⦄ where
  pub record AppState : Type 0 where
    pub metrics : Metrics
    pub metrics_on_proxy_listeners : Bool
    pub cache : Store
    pub flights : Flights FlightKey
    pub upstream : Upstream
    pub asset_path : FilePath
    pub upstream_timeout : Duration

  parse_origin : Text → Io Upstream
  parse_origin url = elim (setup.parse_url url) [
    | inl message ↦
        fails (invalid_input (codes "Failed to parse ORIGIN_URL from config: " ++ message))
    | inr upstream ↦ ok upstream
  ]

  -- `build_state`.
  unfoldable pub build_state : Config → Io AppState
  unfolding parse_origin
  build_state config = setup.create_dir_all config.asset_path >>= λ made.
      setup.native_roots >>= λ connector. parse_origin config.origin_url >>= λ upstream.
      ok (record {
        metrics = Metrics.new;
        metrics_on_proxy_listeners = is_none config.metrics_addr;
        cache = new config.cache_size_mb (from_secs config.cache_ttl_seconds);
        flights = default FlightKey-discrete;
        upstream = upstream;
        asset_path = config.asset_path;
        upstream_timeout = from_secs config.upstream_timeout_seconds;
      })

  -- The body of `/health`.
  pub record Health : Type 0 where
    pub counts : CacheCounts
    pub items : ℕ
    pub bytes : ℕ
    pub hit_ratio : setup.Float

  unfoldable pub hit_ratio : CacheCounts → setup.Float
  hit_ratio counts =
      if ltb 0 (total counts) then setup.divided (from_cache counts) (total counts) else setup.zero

  -- `health_check`.
  unfoldable pub check_health : Clock → AppState → Health × AppState
  unfolding hit_ratio
  check_health clock state =
      let counts = cache_counts state.metrics in
      let (items, s) = entry_count clock state.cache in
      let (bytes, s') = weighted_size clock s in
      (
        record { counts = counts; items = items; bytes = bytes; hit_ratio = hit_ratio counts },
        record state { cache = s' },
      )

  -- `Metrics::encode`, up to the text: the gauges are read from the store first.
  unfoldable pub encode : Clock → AppState → AppState
  encode clock state =
      let (bytes, s) = weighted_size clock state.cache in
      let (items, s') = entry_count clock s in
      record state { metrics = set_gauges state.metrics bytes items; cache = s' }

  module _ ⦃host : Host⦄ where
    open host use {Listener, ServerConfig}

    -- What `main` runs: the proxy on its listeners, and the metrics on a listener of their own.
    pub record Running : Type 0 where
      pub state : AppState
      pub proxy : Listener
      pub tls : Option (Listener × ServerConfig)
      pub metrics : Option Listener

    bind_metrics : Option Text → Io (Option Listener)
    bind_metrics none = ok none
    bind_metrics (some address) = host.bind address >>= λ listener. ok (some listener)

    -- `main`.
    unfoldable pub main : Config → Io Running
    unfolding build_state bind_metrics
    main config = build_state config >>= λ state. bind_listeners config >>= λ bound.
        bind_metrics config.metrics_addr >>= λ metrics.
        ok (record { state = state; proxy = bound.0; tls = bound.1; metrics = metrics })
