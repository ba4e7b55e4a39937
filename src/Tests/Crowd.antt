-- ===== src/Tests/Crowd.antt =====
-- Tests of several requests at once.
use shadowstep.Prelude.{◌≡◌, ◌≢◌, ◌⊎◌, refl, true, [], ◌∷◌, Option, none, some, In, inl, arith}
use native.Mathlib.Decide.{ℕ_discrete}
use shadowstep.Text.{Bytes, codes, eqb, join_comma, trim}
use shadowstep.Text.Utf8.{from_utf8_lossy}
use shadowstep.Run.{done, map_run}
use shadowstep.Time.{from_secs}
use shadowstep.Coalesce.{wait_returns}
use shadowstep.Metrics
use shadowstep.Cache.Stale.{grace}
use shadowstep.Cache.Vary.{vary_values}
use shadowstep.Cache.Response.{
  Arc, Fields, StoredResponse, Entry, PrimaryKey, entry_ttl, validators,
}
use shadowstep.Cache.Store.{Store, lookup, insert_response, response, PrimaryKey-discrete}
use shadowstep.Coalesce.{FlightGuard, join}
use shadowstep.Coalesce
use shadowstep.Cache.Policy.{may_lead, bypasses_cache}
use shadowstep.Proxy.Serving.{FlightKey-discrete}
use shadowstep.Proxy.Serving.{from_cache}
use shadowstep.Proxy.Waiting.{ToOrigin, serve_from_cache, settled, origin}
use shadowstep.Proxy.Forward.{responded}
use shadowstep.Proxy.Forward.Labels.{outcome, counted_label-came_back}
use shadowstep.Proxy.System.{abandon, flight_of}
use shadowstep.Proxy.System.Safety.{one_leading_task, waiting_for_task}
use shadowstep.Cache.Response.{Key, FlightKey}
use shadowstep.Proxy.Tee.{chunk, ended, poll}
use shadowstep.Proxy.Answer.{cached_response}
use shadowstep.Proxy.Serving.{World}
use shadowstep.Proxy.Waiting.{answered, after_wait}
use shadowstep.Proxy.Streaming.{Streaming, Holding, poll_stream}
use shadowstep.Proxy.Streaming.Woken.{poll_stream-wakes, poll_stream-stored, after_wait-poll_stream}
use shadowstep.Proxy.Forward.{observed, counted_label}
use shadowstep.Proxy.System.{Task, leaving, Reached, started, arrived}
use shadowstep.Proxy.Streaming.{copied}
use shadowstep.Proxy.Tee
use shadowstep.Proxy.Answer.{content_length, copy_for, finish}
use shadowstep.Proxy.Headers.{from_upstream, stored_fields, forwardable_fields}
use shadowstep.Http.{append_all}
use shadowstep.Proxy.Serving.{join_flight}
use shadowstep.Cache.Policy.{may_coalesce}
use shadowstep.Cache.Store.{flight_key, new}
use shadowstep.Tests.Fixtures.{
  listed_http, timed_caches, tallied_prometheus, opened_watch, at, home, plain_get, minute, accept,
  html, Key-discrete,
}
use shadowstep.Tests.Reading.{page}
use shadowstep.Tests.Proxying.{asks, upstream}
use shadowstep.Tests.Leading.{led, first_leads}
use shadowstep.Tests.Streams.{
  to_origin, on_the_way, page_plan, arriving, answered_page, after_head, comes_back,
}

abbrev body : Bytes
body = codes "hello"

abbrev counted : World
counted = observed after_head plain_get answered_page

abbrev filled : Streaming
filled = record arriving { tee = poll arriving.tee (chunk body) }

goes_on : poll_stream (at 1) counted arriving (chunk body) ≡ (filled, counted)
unfolding poll_stream copied poll Tee.new content_length from_upstream append_all eqb copy_for
    join_flight may_coalesce flight_key new
goes_on = refl

abbrev last : World
last = (poll_stream (at 1) counted filled ended).1

abbrev kept_fields : Fields
kept_fields = stored_fields (forwardable_fields (from_upstream 200 page))

abbrev held : Holding
held = record { store = page_plan; status = 200; fields = kept_fields; flight = to_origin.flight }

holds : filled.holding ≡ some held
unfolding copied from_upstream
holds = refl

hands_over : (poll filled.tee ended).handed ≡ body ∷ []
unfolding copied poll Tee.new content_length from_upstream append_all eqb copy_for join_flight
    may_coalesce flight_key new Tee.finish
hands_over = refl

abbrev insertion : Option (Arc StoredResponse) × Store
insertion = insert_response (at 1) led.cache home page_plan.vary minute 200 kept_fields body

abbrev kept : Arc StoredResponse
kept = record { address = 0; value = response (from_secs 1) led.cache minute 200 kept_fields body }

inserts : insertion ≡ (some kept, insertion.1)
unfolding insert_response join_flight may_coalesce flight_key new
inserts = refl

poll_stream-wakes_example :
    wait_returns (poll_stream (at 1) counted filled ended).1.flights 0 ≡ true
poll_stream-wakes_example =
    poll_stream-wakes (at 1) counted filled ended held
      (record { key = record { primary = home; vary = [] }; sender = 0 }) holds refl (λ bytes. cc)

poll_stream-stored_example :
    ((b : Bytes) × In b (poll filled.tee ended).handed
      × (last.cache ≡ finish (at 1) counted.cache page_plan 200 kept_fields b))
    ⊎ (((poll filled.tee ended).handed ≡ []) × ((poll filled.tee ended).copy ≡ none))
unfolding observed wait_returns join_flight may_coalesce flight_key new join Coalesce.lookup
    may_lead
poll_stream-stored_example =
    poll_stream-stored (at 1) counted filled ended held
      (record { key = record { primary = home; vary = [] }; sender = 0 }) last holds refl (inl refl)
      poll_stream-wakes_example

at_index :
    timed_caches.index.get (from_secs 20) insertion.1.index home
    ≡ some (record { vary = accept; generation = 0 })
unfolding insert_response join_flight may_coalesce flight_key new PrimaryKey-discrete ℕ_discrete
at_index = refl

at_entry :
    timed_caches.entries.get
      (from_secs 20)
      insertion.1.entries
      (Key.response (record { primary = home; generation = 0; vary = vary_values accept html }))
    ≡ some (Entry.response kept)
unfolding insert_response join_flight may_coalesce flight_key new Key-discrete ℕ_discrete
    vary_values eqb join_comma trim from_utf8_lossy entry_ttl grace validators stored_fields
    forwardable_fields from_upstream append_all
at_entry = refl

after_wait-poll_stream_example :
    after_wait (at 20) (poll_stream (at 1) counted filled ended).1 asks upstream home plain_get
    ≡ map_run
        (λ a. (answered a, (poll_stream (at 1) counted filled ended).1))
        (cached_response (from_secs 20) kept.value Metrics.coalesced)
unfolding observed response join_flight may_coalesce flight_key new
after_wait-poll_stream_example =
    after_wait-poll_stream (at 1) (at 20) counted filled ended held body [] accept html kept
      insertion.1 (record { vary = accept; generation = 0 }) (Entry.response kept) asks upstream
      plain_get holds refl hands_over inserts refl refl refl at_index at_entry (omega arith)

-- A second request, for another URI, leads a flight of its own.
abbrev there : PrimaryKey
there = record { scheme = codes "http"; host = codes "a.test"; path_and_query = codes "/b" }

abbrev both : World
both = (join_flight (at 20) led asks there plain_get).1

abbrev home_key : FlightKey
home_key = record { primary = home; vary = [] }

abbrev there_key : FlightKey
there_key = record { primary = there; vary = [] }

abbrev second : ToOrigin
second = record {
  stale = none;
  flight = some (record { key = record { primary = there; vary = [] }; sender = 1 });
}

second_leads :
    serve_from_cache (at 20) led asks upstream there plain_get
    ≡ done (settled (origin second), both)
unfolding serve_from_cache from_cache join_flight lookup flight_key new join may_coalesce may_lead
    Coalesce.lookup FlightKey-discrete ℕ_discrete
second_leads = refl

abbrev first_task : Task
first_task =
    leaving (record { req = asks; cache_key = home; policy = plain_get; to_origin = to_origin })

abbrev second_task : Task
second_task =
    leaving (record { req = asks; cache_key = there; policy = plain_get; to_origin = second })

two : Reached upstream (λ b. true) both (second_task ∷ first_task ∷ [])
two =
    arrived (at 20) asks there plain_get (origin second) second_leads (
      arrived (at 20) asks home plain_get (origin to_origin) first_leads
        (started 4 (from_secs 300)))

one_leading_task_example : home_key ≢ there_key
unfolding flight_of
one_leading_task_example =
    one_leading_task upstream (λ b. true) both [] [] [] second_task first_task
      (record { key = there_key; sender = 1 }) (record { key = home_key; sender = 0 }) two refl refl

waiting_for_task_example :
    (t : Task) × In t (second_task ∷ first_task ∷ [])
    × ((g : FlightGuard FlightKey) × (flight_of t ≡ some g))
    × (wait_returns (abandon both t).flights 0 ≡ true)
unfolding join_flight may_coalesce flight_key new join Coalesce.lookup may_lead FlightKey-discrete
    ℕ_discrete wait_returns
waiting_for_task_example =
    waiting_for_task upstream (λ b. true) both (second_task ∷ first_task ∷ []) 0 two refl refl

counted_label-came_back_example :
    counted_label plain_get answered_page ≡ outcome 0 on_the_way.exchange (responded 200 page)
unfolding bypasses_cache
counted_label-came_back_example =
    counted_label-came_back (at 0) led on_the_way (from_secs 1) (responded 200 page) answered_page
      (some arriving) after_head comes_back refl
