-- ===== src/Proxy/System/Flights.antt =====
-- The flights along any interleaving of requests: those that the tasks lead, and no others.
use shadowstep.Prelude.{◌≡◌, refl, sym, ◌∙◌, ap, subst, Bool, List, ◌∷◌, ◌++◌, Option, none, some}
use shadowstep.Run.{Run, done, panic}
use shadowstep.Http.{Http}
use shadowstep.Prometheus.{Prometheus}
use shadowstep.Watch.{Watch}
use shadowstep.Coalesce.{Flights}
use shadowstep.Coalesce.Reach as Coalesce
use shadowstep.Forwarded.{Request}
use shadowstep.Cache.Policy.{RequestPolicy}
use shadowstep.Cache.Response.{FlightKey, PrimaryKey}
use shadowstep.Cache.Store.{Caches}
use shadowstep.Proxy.Headers.{Upstream, Builder}
use shadowstep.Proxy.Tee.{poll}
use shadowstep.Proxy.Answer.{Response}
use shadowstep.Proxy.Serving.{World, Collecting, collected}
use shadowstep.Proxy.Waiting.{Before, answered, origin, settled, waiting}
use shadowstep.Proxy.Streaming.{Streaming, poll_stream}
use shadowstep.Proxy.Forward.{Departure, refused, sent, observed}
use shadowstep.Proxy.System.{
  Task, leaving, sending, streaming, collecting, collected_later, gathered, flight_of, abandon,
  answered_world, left, departed_world, on_its_way, returned_world, streamed, Reached, started,
  arrived, queued, woken, departed, returned, polled, abandoned, refreshed, moved,
}
use shadowstep.Proxy.System.Joining.{
  held, Flown, before_flight, serve_from_cache-Flown, after_wait-Flown,
}
use shadowstep.Proxy.System.Moving.{
  guards, guards-append, departure_flight, depart-Flown, settle-Flown, abandon-Flown,
  came_back-Flown, refresh_came_back-flights, collected-flights,
}

module _ ⦃http : Http⦄ ⦃caches : Caches⦄ ⦃prometheus : Prometheus⦄ ⦃watch : Watch⦄ where
  -- A task in the middle of the others.
  middle :
      (f : Flights FlightKey) (before after : List Task) (t : Task)
      → Flown f (guards (before ++ t ∷ after))
      → Flown f (guards before ++ (held (flight_of t) ++ guards after))
  middle f before after t r = subst (Flown f) (guards-append before (t ∷ after)) r

  -- Tasks that take the place of one.
  replaced :
      (f : Flights FlightKey) (before now after : List Task)
      → Flown f (guards before ++ (guards now ++ guards after))
      → Flown f (guards (before ++ (now ++ after)))
  replaced f before now after r =
      subst (Flown f)
        (sym (
          guards-append before (now ++ after)
          ∙ ap (λ gs. guards before ++ gs) (guards-append now after)))
        r

  removed_task :
      (f : Flights FlightKey) (before after : List Task)
      → Flown f (guards before ++ guards after)
      → Flown f (guards (before ++ after))
  removed_task f before after r = subst (Flown f) (sym (guards-append before after)) r

  arrived-Flown :
      (w : World) (req : Request) (cache_key : PrimaryKey) (policy : RequestPolicy) (b : Before)
      (tasks : List Task)
      → Flown w.flights (held (before_flight b) ++ guards tasks)
      → Flown (answered_world w policy b).flights (guards (left req cache_key policy b ++ tasks))
  unfolding observed flight_of
  arrived-Flown w req cache_key policy (answered response) tasks r = r
  arrived-Flown w req cache_key policy (origin to_origin) tasks r = r

  departed-Flown :
      (w : World) (policy : RequestPolicy) (d : Departure) (before after : List Task)
      → Flown w.flights (guards before ++ (held (departure_flight d) ++ guards after))
      → Flown (departed_world w policy d).flights (guards (before ++ (on_its_way d ++ after)))
  unfolding observed flight_of
  departed-Flown w policy (refused response) before after r = removed_task w.flights before after r
  departed-Flown w policy (sent s) before after r =
      removed_task w.flights before (sending s ∷ after) r

  returned-flights :
      (w : World) (policy : RequestPolicy) (response : Run Response)
      → (returned_world w policy response).flights ≡ w.flights
  unfolding observed
  returned-flights w policy (done response) = refl
  returned-flights w policy panic = refl

  collected_later-Flown :
      (w : World) (c : Option Collecting) (tasks : List Task)
      → Flown w.flights (guards tasks)
      → Flown w.flights (guards (collected_later c ++ tasks))
  unfolding flight_of
  collected_later-Flown w none tasks r = r
  collected_later-Flown w (some c) tasks r = r

  -- Along any interleaving of requests, their clients' departures and what comes back from the
  -- origin, the flights are those that steps of `coalesce.rs` lead to, with the guards that the
  -- tasks hold. So each guard that is made is held by one task until it drops.
  pub Reached-Flown :
      (upstream : Upstream) (builds : Builder → Bool) {w : World} {tasks : List Task}
      → Reached upstream builds w tasks
      → Flown w.flights (guards tasks)
  unfolding flight_of poll_stream
  Reached-Flown upstream builds (started size_mb ttl) = Coalesce.started
  Reached-Flown upstream builds (arrived {w} {w'} {tasks} clock req cache_key policy b e r) =
      arrived-Flown w' req cache_key policy b tasks (
        serve_from_cache-Flown clock w req upstream cache_key policy (guards tasks)
          (Reached-Flown upstream builds r) (settled b, w') e)
  Reached-Flown upstream builds (queued {w} {w'} {tasks} clock req cache_key policy waiter e r) =
      serve_from_cache-Flown clock w req upstream cache_key policy (guards tasks)
        (Reached-Flown upstream builds r) (waiting waiter, w') e
  Reached-Flown upstream builds (woken {w} {w'} {tasks} clock req cache_key policy b e r) =
      arrived-Flown w' req cache_key policy b tasks (
        after_wait-Flown clock w req upstream cache_key policy (guards tasks)
          (Reached-Flown upstream builds r) (b, w') e)
  Reached-Flown upstream builds (departed {w} before after l payload d w' e r) =
      departed-Flown w' l.policy d before after (
        subst
          (λ (q : Departure × World).
            Flown q.1.flights (guards before ++ (held (departure_flight q.0) ++ guards after)))
          e
          (depart-Flown builds w l.req upstream l.cache_key l.policy l.to_origin payload
            (guards before) (guards after)
            (middle w.flights before after (leaving l) (Reached-Flown upstream builds r))))
  Reached-Flown upstream builds
        (returned {w} before after s clock elapsed reply response stream w' e r) =
      subst (λ f. Flown f (guards (before ++ (streamed stream ++ after))))
        (sym (returned-flights w' s.exchange.request_policy response))
        (replaced w'.flights before (streamed stream) after (
          subst
            (λ (q : Run Response × Option Streaming × World).
              Flown q.2.flights (guards before ++ (guards (streamed q.1) ++ guards after)))
            e
            (came_back-Flown clock w s elapsed reply (guards before) (guards after)
              (middle w.flights before after (sending s) (Reached-Flown upstream builds r)))))
  Reached-Flown upstream builds (polled {w} before after s s' clock item w' e r) =
      removed_task w'.flights before (streaming s' ∷ after) (
        subst
          (λ (q : Streaming × World).
            Flown q.1.flights (guards before ++ (held (flight_of (streaming q.0)) ++ guards after)))
          e
          (settle-Flown clock w (record s { tee = poll s.tee item }) (guards before) (guards after)
            (middle w.flights before after (streaming s) (Reached-Flown upstream builds r))))
  Reached-Flown upstream builds (abandoned {w} before after t r) =
      removed_task (abandon w t).flights before after (
        abandon-Flown w t (guards before) (guards after)
          (middle w.flights before after t (Reached-Flown upstream builds r)))
  Reached-Flown upstream builds
        (refreshed {w} {tasks} before after task clock req elapsed reply c w' listed e r) =
      collected_later-Flown w' c tasks (
        subst (λ f. Flown f (guards tasks))
          (sym (
              refresh_came_back-flights clock (record w { refreshes = before ++ after }) req task
                elapsed reply)
            ∙ ap (λ (q : Option Collecting × World). q.1.flights) e)
          (Reached-Flown upstream builds r))
  Reached-Flown upstream builds (gathered {w} before after c clock body r) =
      removed_task (collected clock w c body).flights before after (
        subst (λ f. Flown f (guards before ++ guards after))
          (sym (collected-flights clock w c body))
          (middle w.flights before after (collecting c) (Reached-Flown upstream builds r)))
  Reached-Flown upstream builds (moved cache e r) = Reached-Flown upstream builds r
