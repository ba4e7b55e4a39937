-- ===== src/Tests/Proxying.antt =====
-- Tests of the proxy.
use shadowstep.Prelude.{
  ◌+◌, ◌≡◌, ◌≢◌, ◌⊎◌, ◌↔◌, inl, refl, true, false, ◌&&◌, [], ◌∷◌, none, some, In, if◌then◌else◌,
  ◌==◌,
}
use shadowstep.Text.{codes, eqb}
use shadowstep.Text.Decimal.{to_string}
use shadowstep.Run.{done}
use shadowstep.Time.{from_secs, elapsed}
use shadowstep.Http.{append_all}
use shadowstep.Http.Listed.{Listed}
use shadowstep.Coalesce.{default}
use shadowstep.Metrics
use shadowstep.Forwarded.{Request, ClientInfo}
use shadowstep.Cache.Stale
use shadowstep.Cache.Names
use shadowstep.Cache.Response.{
  Fields, StoredResponse, Arc, is_fresh, age, may_serve_while_revalidating,
}
use shadowstep.Cache.Store.{Store, StaleEntry, Lookup, new, lookup, response}
use shadowstep.Proxy.Headers.{
  Upstream, Builder, connection_options, from_upstream, forwardable_fields, stored_fields,
  upstream_request, trim_end_matches, is_end_to_end, upstream_host,
}
use shadowstep.Proxy.Headers.Laws.{
  FromClient, Own, upstream_request-In, FromOrigin, forwardable_fields-In,
}
use shadowstep.Proxy.Answer.{
  Response, whole, cached_headers, cached_response, error_response, store_plan,
}
use shadowstep.Proxy.Answer.Laws.{cached_response-fresh, lookup-store_plan}
use shadowstep.Proxy.Exchange.{State, Exchange, revalidated, passed_on, answered, failed}
use shadowstep.Proxy.Exchange.Laws.{must_revalidate-answered}
use shadowstep.Proxy.Serving.{World, answer, own_hit, use_label, from_cache, FlightKey-discrete}
use shadowstep.Proxy.Serving.Laws.{MayStart, from_cache-answer}
use shadowstep.Tests.Fixtures.{
  listed_http, timed_caches, tallied_prometheus, opened_watch, at, home, html, plain_get, minute,
  accept,
}
use shadowstep.Tests.Reading.{page, kept_page}
use shadowstep.Tests.Caching.{stored, found_fresh}

abbrev pub request_fields : Listed
request_fields =
    (codes "accept", codes "text/html")
    ∷ (codes "x-forwarded-host", codes "evil.test")
    ∷ (codes "te", codes "trailers")
    ∷ []

abbrev pub req : Request
req = record {
  method = codes "GET";
  headers = request_fields;
  authority = some (codes "a.test");
  path_and_query = some (codes "/");
  peer_ip = some (codes "10.0.0.1");
  secure = false;
  config_host = codes "localhost";
}

abbrev pub upstream : Upstream
upstream = record {
  base = codes "http://o.test:8080/";
  host = some (codes "o.test");
  port = some 8080;
  is_uri = λ text. true;
}

abbrev client : ClientInfo
client = record { ip = some (codes "10.0.0.1"); scheme = codes "http"; host = codes "a.test" }

abbrev pub going : Builder
going = record {
  method = codes "GET";
  uri = codes "http://o.test:8080/";
  headers =
      (codes "accept", codes "text/html")
      ∷ (codes "host", codes "o.test:8080")
      ∷ (codes "x-forwarded-for", codes "10.0.0.1")
      ∷ (codes "x-forwarded-proto", codes "http")
      ∷ (codes "x-forwarded-host", codes "a.test")
      ∷ [];
}

-- The client's claim of another host does not go on.
built : upstream_request req upstream client (codes "/") ≡ some going
unfolding upstream_request trim_end_matches eqb is_end_to_end connection_options upstream_host
    to_string
built = refl

upstream_request-In_example :
    FromClient req (codes "accept", codes "text/html")
    ⊎ Own upstream client (codes "accept", codes "text/html")
upstream_request-In_example =
    upstream_request-In req upstream client (codes "/") going (codes "accept", codes "text/html")
      built (inl refl)

abbrev origin_fields : Fields
origin_fields =
    (codes "etag", codes "1") ∷ (codes "age", codes "5") ∷ (codes "content-length", codes "2") ∷ []

forwardable_fields-In_example :
    FromOrigin 200 origin_fields (codes "etag", codes "1")
    × (In
          (codes "etag", codes "1")
          (stored_fields (forwardable_fields (from_upstream 200 origin_fields)))
        ↔ (codes "etag" ≢ codes "age"))
unfolding forwardable_fields from_upstream eqb append_all
forwardable_fields-In_example =
    forwardable_fields-In 200 origin_fields (codes "etag", codes "1") (inl refl)

abbrev empty : Store
empty = new 4 (from_secs 300)

cached_response-fresh_example :
    cached_response (from_secs 20) (response 0 empty minute 200 [] (codes "hi")) Metrics.hit
    ≡ done (record {
      status = 200;
      headers = cached_headers [] (minute.initial_age + elapsed 0 (from_secs 20)) Metrics.hit;
      body = whole (codes "hi");
    })
unfolding is_fresh response new
cached_response-fresh_example =
    cached_response-fresh (at 0) (at 20) empty plain_get html page 200 [] (codes "hi") Metrics.hit
      minute (record { names = accept; values = some (codes "text/html") ∷ [] }) kept_page refl

abbrev posted : Request
posted = record req { method = codes "POST" }

lookup-store_plan_example :
    lookup
      (at 20)
      (store_plan (at 20) stored posted home plain_get (from_upstream 201 [])).1
      home
      html
      none
    ≡ done none
unfolding eqb from_upstream
lookup-store_plan_example =
    lookup-store_plan (at 20) (at 20) stored posted home plain_get (from_upstream 201 []) html none
      refl refl

abbrev strict : StaleEntry
strict = record {
  response = record {
    address = 3;
    value = record {
      status = 200;
      headers = [];
      body = codes "hello";
      stored_at = 0;
      initial_age = 0;
      ttl = from_secs 60;
      grace = from_secs 300;
      stale = record Stale.default { must_revalidate = true; if_error = from_secs 90 };
    };
  };
  key = record { primary = home; generation = 0; vary = [] };
}

abbrev exchange : Exchange
exchange = record {
  req = req;
  cache_key = home;
  request_policy = plain_get;
  stale = some strict;
  revalidating = true;
}

abbrev state : State
state = record { cache = empty; metrics = Metrics.new }

must_revalidate-answered_example :
    (failed (from_secs 70) exchange 502 ≡ done (error_response 504))
    × (answered (at 70) state exchange (from_upstream 503 []) ≡ (
        if exchange.revalidating && (from_upstream 503 []).status == 304
        then (
          (revalidated (at 70) state exchange strict (from_upstream 503 [])).0,
          none,
          (revalidated (at 70) state exchange strict (from_upstream 503 [])).1,
        )
        else passed_on (at 70) state exchange (from_upstream 503 [])))
must_revalidate-answered_example =
    must_revalidate-answered (at 70) state exchange strict (from_upstream 503 []) 502 refl refl

abbrev pub asks : Request
asks = record req { headers = html }

abbrev world : World
world = record {
  cache = stored;
  metrics = Metrics.new;
  flights = default FlightKey-discrete;
  refreshes = [];
}

abbrev hit_response : Response
hit_response = record {
  status = 200;
  headers = cached_headers [] (from_secs 10) Metrics.hit;
  body = whole (codes "hello");
}

answers :
    from_cache (at 20) world asks upstream home plain_get own_hit
    ≡ done (answer hit_response, world)
unfolding from_cache cached_response age response new
answers = rw (found_fresh, from_cache) refl

from_cache-answer_example :
    (true ≡ true)
    × (((found : Arc StoredResponse) × (lookup (at 20) stored home html none
            ≡ done (some (Lookup.fresh found)))
          × (cached_response (from_secs 20) found.value (use_label own_hit) ≡ done hit_response)
          × (world ≡ world))
        ⊎ ((entry : StaleEntry) × (lookup (at 20) stored home html none
              ≡ done (some (Lookup.stale entry)))
            × (cached_response (from_secs 20) entry.response.value Metrics.stale
                ≡ done hit_response)
            × MayStart world world asks upstream home entry
            × (codes "GET" ≡ Names.get)
            × (plain_get.max_age ≡ none)
            × (may_serve_while_revalidating (from_secs 20) entry.response.value ≡ true)))
from_cache-answer_example =
    from_cache-answer (at 20) world world asks upstream home plain_get own_hit hit_response answers
