-- ===== src/Proxy/System/Moving.antt =====
-- What each step of a task does to the flights.
use shadowstep.Prelude.{
  Sum-cases, List-cases, ◌≡◌, refl, sym, ◌∙◌, ap, ◌==◌, Bool, List, [], ◌∷◌, ◌++◌, Option, none,
  inl, inr, Option-cases, Bool-cases,
}
use mathlib.Core.List.{append_assoc, append-nil}
use shadowstep.Text.{Bytes}
use shadowstep.Time.{Duration}
use shadowstep.Http.{Http}
use shadowstep.Prometheus.{Prometheus}
use shadowstep.Watch.{Watch}
use shadowstep.Coalesce.{FlightGuard}
use shadowstep.Metrics.{foreground}
use shadowstep.Forwarded.{Request, from_request, path_and_query}
use shadowstep.Cache.Policy.{RequestPolicy}
use shadowstep.Cache.Response.{FlightKey, PrimaryKey}
use shadowstep.Cache.Store.{Clock, Caches}
use shadowstep.Proxy.Headers.{Upstream, Builder, Head, from_upstream, upstream_request}
use shadowstep.Proxy.Answer.{Storing, store_plan}
use shadowstep.Proxy.Exchange.{State}
use shadowstep.Proxy.Exchange
use shadowstep.Proxy.Serving.{World, Refresh, Collecting, refresh, collected}
use shadowstep.Proxy.Waiting.{ToOrigin}
use shadowstep.Proxy.Payload.{Payload, origin_request}
use shadowstep.Proxy.Streaming.{Streaming, copied, settle, start_stream, drop_stream}
use shadowstep.Proxy.Forward.{
  Sending, Departure, refused, sent, Reply, responded, broken, late, revalidated_entry, validated,
  depart, came_back, respond, send_to_origin, refresh_came_back,
}
use shadowstep.Proxy.System.{
  Task, leaving, sending, streaming, collecting, flight_of, abandon, streamed,
}
use shadowstep.Proxy.System.Joining.{held, Flown, drop_flight-Flown}

module _ ⦃http : Http⦄ ⦃caches : Caches⦄ ⦃prometheus : Prometheus⦄ ⦃watch : Watch⦄ where
  -- The guards that the tasks hold.
  abbrev pub guards : List Task → List (FlightGuard FlightKey)
  guards [] = []
  guards (t ∷ ts) = held (flight_of t) ++ guards ts

  pub guards-append : (xs ys : List Task) → guards (xs ++ ys) ≡ guards xs ++ guards ys
  guards-append [] ys = refl
  guards-append (x ∷ xs) ys =
      ap (λ gs. held (flight_of x) ++ gs) (guards-append xs ys)
      ∙ sym (append_assoc (held (flight_of x)) (guards xs) (guards ys))

  abbrev pub departure_flight : Departure → Option (FlightGuard FlightKey)
  departure_flight (refused response) = none
  departure_flight (sent s) = s.flight

  pub depart-Flown :
      (builds : Builder → Bool) (w : World) (req : Request) (upstream : Upstream)
      (cache_key : PrimaryKey) (policy : RequestPolicy) (to_origin : ToOrigin) (payload : Payload)
      (before after : List (FlightGuard FlightKey))
      → Flown w.flights (before ++ (held to_origin.flight ++ after))
      → Flown (depart builds w req upstream cache_key policy to_origin payload).1.flights (
          before
          ++ (held (
                departure_flight
                  (depart builds w req upstream cache_key policy to_origin payload).0)
              ++ after))
  unfolding depart
  depart-Flown builds w req upstream cache_key policy to_origin payload before after r =
      let gone = drop_flight-Flown w to_origin.flight before after r in
      elim (Option-cases (upstream_request req upstream (from_request req) (path_and_query req))) [
        | inl e ↦ rw (e, depart) gone
        | inr (builder, e) ↦
            let out =
              origin_request builds (validated builder (revalidated_entry policy to_origin.stale))
                payload in
            elim (Sum-cases out) [
              | inl (status, f) ↦ rw (e, f, depart) gone
              | inr (request, f) ↦ rw (e, f, depart) r
            ]
      ]

  pub settle-Flown :
      (clock : Clock) (w : World) (s : Streaming) (before after : List (FlightGuard FlightKey))
      → Flown w.flights (before ++ (held (flight_of (streaming s)) ++ after))
      → Flown
          (settle clock w s).1.flights
          (before ++ (held (flight_of (streaming (settle clock w s).0)) ++ after))
  unfolding settle flight_of
  settle-Flown clock w s before after r = elim (Option-cases s.holding) [
    | inl e ↦ rw (e, settle) (rw e at r)
    | inr (h, e) ↦
        let mine : Flown w.flights (before ++ (held h.flight ++ after)) = rw e at r in
        elim (List-cases s.tee.handed) [
          | inr (body, bodies, f) ↦
              rw (e, f, settle) (drop_flight-Flown _ h.flight before after mine)
          | inl f ↦ elim (Option-cases s.tee.copy) [
            | inl g ↦ rw (e, f, g, settle) (drop_flight-Flown w h.flight before after mine)
            | inr (copy, g) ↦ rw (e, f, g, settle) mine
          ]
        ]
  ]

  start_stream-Flown :
      (clock : Clock) (w : World) (head : Head) (store : Storing)
      (flight : Option (FlightGuard FlightKey)) (before after : List (FlightGuard FlightKey))
      → Flown w.flights (before ++ (held flight ++ after))
      → Flown (start_stream clock w head store flight).1.flights (
          before
          ++ (held (flight_of (streaming (start_stream clock w head store flight).0)) ++ after))
  unfolding start_stream flight_of copied
  start_stream-Flown clock w head store flight before after r =
      settle-Flown clock w (copied head store flight) before after r

  -- A copy that is dropped drops its flight.
  pub abandon-Flown :
      (w : World) (t : Task) (before after : List (FlightGuard FlightKey))
      → Flown w.flights (before ++ (held (flight_of t) ++ after))
      → Flown (abandon w t).flights (before ++ after)
  unfolding abandon flight_of drop_stream
  abandon-Flown w (leaving l) before after r = drop_flight-Flown w l.to_origin.flight before after r
  abandon-Flown w (sending s) before after r = drop_flight-Flown w s.flight before after r
  abandon-Flown w (collecting c) before after r = r
  abandon-Flown w (streaming s) before after r = elim (Option-cases s.holding) [
    | inl e ↦ rw (e, abandon) (rw e at r)
    | inr (h, e) ↦ rw (e, abandon) (drop_flight-Flown w h.flight before after (rw e at r))
  ]

  pub came_back-Flown :
      (clock : Clock) (w : World) (s : Sending) (elapsed : Duration) (reply : Reply)
      (before after : List (FlightGuard FlightKey))
      → Flown w.flights (before ++ (held s.flight ++ after))
      → Flown
          (came_back clock w s elapsed reply).2.flights
          (before ++ (guards (streamed (came_back clock w s elapsed reply).1) ++ after))
  unfolding came_back respond
  came_back-Flown clock w s elapsed broken before after r =
      drop_flight-Flown _ s.flight before after r
  came_back-Flown clock w s elapsed late before after r =
      drop_flight-Flown _ s.flight before after r
  came_back-Flown clock w s elapsed (responded status fields) before after r =
      let head = from_upstream status fields in
      let st : State = record {
        cache = w.cache;
        metrics = send_to_origin w.metrics foreground elapsed (responded status fields);
      } in
      elim (Option-cases (Exchange.answered clock st s.exchange head).1) [
        | inl e ↦ rw (e, came_back, respond) (drop_flight-Flown _ s.flight before after r)
        | inr (store, e) ↦
            rw (e, came_back, respond, append-nil)
              (start_stream-Flown clock _ head store s.flight before after r)
      ]

  refresh-flights :
      (clock : Clock) (w : World) (req : Request) (task : Refresh) (policy : RequestPolicy)
      (head : Head)
      → (refresh clock w req task policy head).1.flights ≡ w.flights
  unfolding refresh
  refresh-flights clock w req task policy head = elim (Bool-cases (head.status == 304)) [
    | inl e ↦ rw (e, refresh) refl
    | inr e ↦ elim (Option-cases (store_plan clock w.cache req task.cache_key policy head).0) [
      | inl f ↦ rw (e, f, refresh) refl
      | inr (store, f) ↦ rw (e, f, refresh) refl
    ]
  ]

  pub refresh_came_back-flights :
      (clock : Clock) (w : World) (req : Request) (task : Refresh) (elapsed : Duration)
      (reply : Reply)
      → (refresh_came_back clock w req task elapsed reply).1.flights ≡ w.flights
  unfolding refresh_came_back
  refresh_came_back-flights clock w req task elapsed (responded status fields) =
      refresh-flights clock _ req task _ (from_upstream status fields)
  refresh_came_back-flights clock w req task elapsed broken = refl
  refresh_came_back-flights clock w req task elapsed late = refl

  pub collected-flights :
      (clock : Clock) (w : World) (c : Collecting) (body : Option Bytes)
      → (collected clock w c body).flights ≡ w.flights
  unfolding collected
  collected-flights clock w c body = refl
