-- ===== src/Tests/Streams.antt =====
-- Tests of a request's way to the origin and of its answer's into the cache.
use shadowstep.Prelude.{ap, Option, ◌≡◌, refl, true, false, [], ◌∷◌, none, some}
use shadowstep.Text.{codes}
use shadowstep.Run.{done}
use shadowstep.Time.{from_secs}
use shadowstep.Metrics
use shadowstep.Cache.Store.{Store}
use shadowstep.Proxy.Headers.{from_upstream}
use shadowstep.Proxy.Tee.{chunk, ended, poll}
use shadowstep.Proxy.Answer.{Storing}
use shadowstep.Proxy.Exchange.{Exchange, State, passed_on}
use shadowstep.Proxy.Exchange
use shadowstep.Proxy.Serving.{World, join_flight}
use shadowstep.Proxy.Waiting.{ToOrigin}
use shadowstep.Proxy.Payload as Payload
use shadowstep.Proxy.Payload.{pump_request_body, empty_body}
use shadowstep.Proxy.Payload.Laws.{IsPumped, pump_request_body-IsPumped}
use shadowstep.Proxy.Streaming.{Streaming, start_stream, settle, copied}
use shadowstep.Proxy.Forward.{Sending, depart, sent, came_back, respond, responded}
use shadowstep.Tests.Fixtures.{
  listed_http, timed_caches, tallied_prometheus, opened_watch, at, home, plain_get, minute, accept,
}
use shadowstep.Tests.Proxying.{asks, upstream, going}
use shadowstep.Tests.Reading.{page, kept_page}
use shadowstep.Text.{eqb}
use shadowstep.Text.Decimal.{to_string}
use shadowstep.Forwarded.{from_request}
use shadowstep.Cache.Vary.{vary_values}
use shadowstep.Proxy.Answer.{Response, client_response, content_length, copy_for}
use shadowstep.Metrics.{origin_responded}
use shadowstep.Proxy.Forward.{send_to_origin}
use shadowstep.Proxy.Tee
use shadowstep.Proxy.Payload.{origin_request}
use shadowstep.Proxy.Headers.{
  upstream_request, trim_end_matches, is_end_to_end, connection_options, upstream_host,
}
use shadowstep.Tests.Fixtures.{html}
use shadowstep.Http.{append_all}
use shadowstep.Proxy.Answer.{store_plan, after_unsafe}
use shadowstep.Text.{join_comma, trim}
use shadowstep.Text.Utf8.{from_utf8_lossy}
use shadowstep.Proxy.Forward.Filed.{Filed, came_back-Filed}
use shadowstep.Proxy.Headers.{stored_fields, forwardable_fields}
use shadowstep.Cache.Response.{Fields}
use shadowstep.Http.{StatusCode}
use shadowstep.Tests.Leading.{led}

-- A body whose client breaks off: the origin reads the chunk and the error.
broken_body :
    pump_request_body (λ n. true) (codes "a") (Payload.failed ∷ Payload.chunk (codes "b") ∷ [])
    ≡ Payload.chunk (codes "a") ∷ Payload.failed ∷ []
unfolding pump_request_body
broken_body = refl

pump_request_body-IsPumped_example :
    IsPumped
      (λ n. true)
      0
      (pump_request_body (λ n. true) (codes "a") (Payload.failed ∷ Payload.chunk (codes "b") ∷ []))
      (Payload.chunk (codes "a") ∷ Payload.failed ∷ Payload.chunk (codes "b") ∷ [])
pump_request_body-IsPumped_example =
    pump_request_body-IsPumped (λ n. true) (codes "a")
      (Payload.failed ∷ Payload.chunk (codes "b") ∷ [])

abbrev pub to_origin : ToOrigin
to_origin = record {
  stale = none;
  flight = some (record { key = record { primary = home; vary = [] }; sender = 0 });
}

abbrev pub on_the_way : Sending
on_the_way = record {
  exchange = record {
    req = asks;
    cache_key = home;
    request_policy = plain_get;
    stale = none;
    revalidating = false;
  };
  flight = to_origin.flight;
  request = going;
  body = empty_body;
}

pub departs :
    depart (λ b. true) led asks upstream home plain_get to_origin [] ≡ (sent on_the_way, led)
unfolding depart upstream_request origin_request trim_end_matches eqb is_end_to_end
    connection_options upstream_host to_string from_request
departs = refl

abbrev pub page_plan : Storing
page_plan = record {
  limit = led.cache.max_entry;
  cache_key = home;
  vary = record { names = accept; values = vary_values accept html };
  storable = minute;
}

head_map : (from_upstream 200 page).map ≡ page
unfolding from_upstream append_all
head_map = refl

planned :
    store_plan (at 0) led.cache asks home plain_get (from_upstream 200 page)
    ≡ (some page_plan, led.cache)
unfolding store_plan after_unsafe from_upstream append_all vary_values join_comma trim
    from_utf8_lossy join_flight eqb
planned = rw (store_plan, kept_page) refl

abbrev pub arriving : Streaming
arriving = copied (from_upstream 200 page) page_plan to_origin.flight

abbrev pub answered_page : Response
answered_page = client_response (from_upstream 200 page) (some page_plan)

abbrev pub after_head : World
after_head = record led {
  metrics = origin_responded led.metrics Metrics.foreground 200 (from_secs 1);
}

abbrev counted_state : State
counted_state = record {
  cache = led.cache;
  metrics = send_to_origin led.metrics Metrics.foreground (from_secs 1) (responded 200 page);
}

answers_page :
    Exchange.answered (at 0) counted_state on_the_way.exchange (from_upstream 200 page)
    ≡ (done answered_page, some page_plan, counted_state)
unfolding Exchange.answered passed_on
answers_page =
    ap
      (λ (q : Option Storing × Store). (
        done (client_response (from_upstream 200 page) q.0),
        q.0,
        record counted_state { cache = q.1 },
      ))
      planned

-- The origin's page starts to stream, and its copy goes on.
pub comes_back :
    came_back (at 0) led on_the_way (from_secs 1) (responded 200 page)
    ≡ (done answered_page, some arriving, after_head)
unfolding came_back respond start_stream settle copied send_to_origin Tee.new content_length
    copy_for from_upstream append_all eqb
comes_back = ap (respond (at 0) led to_origin.flight (from_upstream 200 page)) answers_page

came_back-Filed_example :
    (status : StatusCode) × (fields : Fields) × (responded 200 page ≡ responded status fields)
    × Filed (at 0) on_the_way status fields (record {
      store = page_plan;
      status = 200;
      fields = stored_fields (forwardable_fields (from_upstream 200 page));
      flight = to_origin.flight;
    })
unfolding copied from_upstream
came_back-Filed_example =
    came_back-Filed (at 0) led after_head on_the_way (from_secs 1) (responded 200 page)
      (done answered_page) arriving _ comes_back refl
