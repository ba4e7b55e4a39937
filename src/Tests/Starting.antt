-- ===== src/Tests/Starting.antt =====
-- Tests of the program's start and of its routes.
use shadowstep.Prelude.{
  ℕ, ◌≡◌, ◌⊎◌, inr, refl, true, false, List, [], ◌∷◌, Option, none, some, is_some,
}
use shadowstep.Text.{Text, Bytes, codes, eqb}
use shadowstep.Io.{ok}
use shadowstep.Metrics.{cache_counts, from_cache, total}
use shadowstep.Metrics
use shadowstep.Time.{from_secs}
use shadowstep.Coalesce.{default}
use shadowstep.Proxy.Serving.{FlightKey-discrete}
use shadowstep.Cache.Store.{new}
use shadowstep.Cache.Names
use shadowstep.Config.{Config, is_tls_enabled}
use shadowstep.Tls.{Host, found, bind_listeners}
use shadowstep.Tls.Laws.{Asked, bind_listeners-Asked}
use shadowstep.Server.{
  Setup, AppState, Running, app, metrics_app, metrics_endpoint, forward_to_upstream, serve_asset,
  main,
}
use shadowstep.Server.Laws.{main-metrics}
use shadowstep.Tests.Fixtures.{listed_http, timed_caches, tallied_prometheus, opened_watch}
use shadowstep.Tests.Proxying.{upstream}

-- A machine on which all succeeds. A ratio is the pair of its counts.
instance abbrev easy_setup : Setup
easy_setup = record {
  create_dir_all = λ path. ok tt;
  native_roots = ok tt;
  parse_url = λ url. inr upstream;
  Float = ℕ × ℕ;
  zero = (0, 1);
  divided = λ part whole. (part, whole);
}

instance abbrev easy_host : Host
easy_host = record {
  Listener = Text;
  Certificate = Bytes;
  PrivateKey = Bytes;
  ServerConfig = List Bytes × Bytes;
  bind = λ address. ok address;
  open_file = λ path. ok path;
  certificates = λ content. some (content ∷ []);
  first_key = λ content. found content;
  with_single_cert = λ chain key. inr (chain, key);
}

abbrev config : Config
config = record {
  origin_url = codes "http://o.test:8080/";
  listen_addr = codes ":80";
  asset_path = codes "/srv";
  cache_ttl_seconds = 300;
  cache_size_mb = 4;
  tls_cert_path = some (codes "cert");
  tls_key_path = some (codes "key");
  tls_listen_addr = codes ":443";
  upstream_timeout_seconds = 30;
  metrics_addr = some (codes ":9090");
}

abbrev https : Option (Text × (List Bytes × Bytes))
https = some (codes ":443", (codes "cert" ∷ [], codes "key"))

binds : bind_listeners config ≡ ok (codes ":80", https)
unfolding bind_listeners
binds = refl

bind_listeners-Asked_example :
    (ok (codes ":80") ≡ ok (codes ":80"))
    × (is_some https ≡ is_tls_enabled config)
    × Asked config (some (codes "cert")) (some (codes "key")) https
bind_listeners-Asked_example = bind_listeners-Asked config (codes ":80") https binds

abbrev state : AppState
state = record {
  metrics = Metrics.new;
  metrics_on_proxy_listeners = false;
  cache = new 4 (from_secs 300);
  flights = default FlightKey-discrete;
  upstream = upstream;
  asset_path = codes "/srv";
  upstream_timeout = from_secs 30;
}

abbrev running : Running
running = record { state = state; proxy = codes ":80"; tls = https; metrics = some (codes ":9090") }

starts : main config ≡ ok running
unfolding main bind_listeners
starts = refl

main-metrics_example :
    ((some (codes ":9090") ≡ none)
      × (some (codes ":9090") ≡ none)
      × (app false Names.get (codes "/metrics") ≡ metrics_endpoint))
    ⊎ ((address : Text) × (listener : Text) × (some (codes ":9090") ≡ some address)
        × (ok address ≡ ok listener)
        × (some (codes ":9090") ≡ some listener)
        × (metrics_app Names.get (codes "/metrics") ≡ metrics_endpoint)
        × (app false Names.get (codes "/metrics") ≡ forward_to_upstream))
main-metrics_example = main-metrics config running starts

-- An asset's name is the rest of the path.
asks_asset : app true Names.get (codes "/assets/a.css") ≡ serve_asset (codes "a.css")
unfolding app eqb
asks_asset = refl

-- Another method goes to the origin.
posts : app true (codes "POST") (codes "/health") ≡ forward_to_upstream
unfolding app eqb
posts = refl
