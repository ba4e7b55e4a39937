-- ===== src/Proxy/Streaming.antt =====
-- src/proxy.rs, the client's response while it streams: `Storing::holding` and `client_response`.
-- The flight that the request leads drops once the copy of the body is stored or given up.
pub mod Woken
use shadowstep.Prelude.{List, [], ◌∷◌, Option, none, some}
use shadowstep.Http.{Http, StatusCode}
use shadowstep.Prometheus.{Prometheus}
use shadowstep.Watch.{Watch}
use shadowstep.Coalesce.{FlightGuard}
use shadowstep.Cache.Response.{Fields, FlightKey}
use shadowstep.Cache.Store.{Clock, Caches}
use shadowstep.Proxy.Headers.{Head, forwardable_fields, stored_fields}
use shadowstep.Proxy.Tee.{Tee, Item, poll}
use shadowstep.Proxy.Answer.{Storing, content_length, copy_for, finish}
use shadowstep.Proxy.Tee
use shadowstep.Proxy.Serving.{World}
use shadowstep.Proxy.Waiting.{drop_flight}

module _ ⦃http : Http⦄ ⦃caches : Caches⦄ ⦃prometheus : Prometheus⦄ ⦃watch : Watch⦄ where
  -- What the callback of a body's copy holds on to: `Storing::holding` and `client_response`.
  pub record Holding : Type 0 where
    pub store : Storing
    pub status : StatusCode
    pub fields : Fields
    pub flight : Option (FlightGuard FlightKey)

  -- The client's response while it streams, until its copy is given up or stored.
  pub record Streaming : Type 0 where
    pub tee : Tee
    pub holding : Option Holding

  -- The worlds after each call that follows an item of the stream, the latest first, which other
  -- threads may see: the callback of the copy stores the response, and then drops the flight; or
  -- the copy was given up, and with it the flight; or there is no call.
  unfoldable pub after_calls : Clock → World → Streaming → List World
  unfolding drop_flight
  after_calls clock w stream = elim stream.holding [
    | none ↦ []
    | some held ↦ elim stream.tee.handed [
      | body ∷ _ ↦
          let stored : World = record w {
            cache = finish clock w.cache held.store held.status held.fields body;
          } in
          drop_flight stored held.flight ∷ stored ∷ []
      | [] ↦ elim stream.tee.copy [ some copy ↦ [] | none ↦ drop_flight w held.flight ∷ [] ]
    ]
  ]

  abbrev pub latest : World → List World → World
  latest w [] = w
  latest w (w' ∷ _) = w'

  -- What the callback holds on to, until it was called or dropped.
  unfoldable pub still_holding : Streaming → Option Holding
  still_holding stream = elim stream.holding [
    | none ↦ none
    | some held ↦ elim stream.tee.handed [
      | body ∷ _ ↦ none
      | [] ↦ elim stream.tee.copy [ some copy ↦ some held | none ↦ none ]
    ]
  ]

  unfoldable pub settle : Clock → World → Streaming → Streaming × World
  unfolding after_calls still_holding
  settle clock w stream =
      (record stream { holding = still_holding stream }, latest w (after_calls clock w stream))

  -- The client's response with its copy, as `client_response` makes them.
  unfoldable pub copied : Head → Storing → Option (FlightGuard FlightKey) → Streaming
  copied head store flight = record {
    tee = Tee.new (content_length head) (copy_for (content_length head) (some store));
    holding = some (record {
      store = store;
      status = head.status;
      fields = stored_fields (forwardable_fields head);
      flight = flight;
    });
  }

  -- The client's response starts to stream: `Tee::new` may find its body complete.
  unfoldable pub start_stream :
      Clock → World → Head → Storing → Option (FlightGuard FlightKey) → Streaming × World
  unfolding settle copied
  start_stream clock w head store flight = settle clock w (copied head store flight)

  -- `poll_next` of the client's response.
  unfoldable pub poll_stream : Clock → World → Streaming → Item → Streaming × World
  unfolding settle
  poll_stream clock w stream item = settle clock w (record stream { tee = poll stream.tee item })

  -- The client's response is dropped, with the copy that it may still take.
  unfoldable pub drop_stream : World → Streaming → World
  unfolding drop_flight
  drop_stream w stream = elim stream.holding [ none ↦ w | some held ↦ drop_flight w held.flight ]
