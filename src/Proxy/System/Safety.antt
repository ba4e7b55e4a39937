-- ===== src/Proxy/System/Safety.antt =====
-- What the flights promise of any interleaving of requests.
use shadowstep.Prelude.{
  Bool, Option-cases, ◌≡◌, ◌≢◌, refl, sym, ◌∙◌, ap, subst, true, false, List, [], ◌∷◌, ◌++◌, some,
  inl, inr, ℕ, In,
}
use mathlib.Core.List.{append-nil}
use shadowstep.Proxy.Waiting.{drop_flight}
use shadowstep.Proxy.Streaming.{drop_stream}
use shadowstep.Http.{Http}
use shadowstep.Prometheus.{Prometheus}
use shadowstep.Watch.{Watch}
use shadowstep.Coalesce.{FlightGuard, wait_returns, drop_sender, drop_guard}
use shadowstep.Coalesce.Exclusion.{one_leader, waiter_released}
use shadowstep.Cache.Response.{FlightKey}
use shadowstep.Cache.Store.{Caches}
use shadowstep.Proxy.Headers.{Upstream, Builder}
use shadowstep.Proxy.Serving.{World, FlightKey-discrete}
use shadowstep.Proxy.System.{
  Task, leaving, sending, streaming, collecting, flight_of, abandon, Reached,
}
use shadowstep.Proxy.System.Joining.{held, Flown}
use shadowstep.Proxy.System.Moving.{guards, guards-append}
use shadowstep.Proxy.System.Flights.{Reached-Flown}

module _ ⦃http : Http⦄ ⦃caches : Caches⦄ ⦃prometheus : Prometheus⦄ ⦃watch : Watch⦄ where
  guards-middle :
      (before after : List Task) (t : Task) (g : FlightGuard FlightKey)
      → flight_of t ≡ some g
      → guards (before ++ t ∷ after) ≡ guards before ++ g ∷ guards after
  guards-middle before after t g e =
      guards-append before (t ∷ after) ∙ ap (λ o. guards before ++ (held o ++ guards after)) e

  -- However requests interleave, no two tasks lead flights for the same key: at most one of the
  -- requests for a key is at the origin, or streams its answer into the cache, as their leader.
  pub one_leading_task :
      (upstream : Upstream) (builds : Builder → Bool) (w : World) (before between after : List Task)
      (t u : Task) (g h : FlightGuard FlightKey)
      → Reached upstream builds w (before ++ t ∷ (between ++ u ∷ after))
      → flight_of t ≡ some g
      → flight_of u ≡ some h
      → h.key ≢ g.key
  one_leading_task upstream builds w before between after t u g h r et eu =
      one_leader FlightKey-discrete w.flights (guards before) (guards between) (guards after) [] g h
        (subst (Flown w.flights)
          (guards-middle before (between ++ u ∷ after) t g et
            ∙ ap (λ gs. guards before ++ g ∷ gs) (guards-middle between after u h eu))
          (Reached-Flown upstream builds r))

  guards-In :
      (tasks : List Task) (g : FlightGuard FlightKey)
      → In g (guards tasks)
      → (t : Task) × In t tasks × (flight_of t ≡ some g)
  guards-In [] g m = absurd m
  guards-In (t ∷ tasks) g m = elim (Option-cases (flight_of t)) [
    | inl e ↦ (let (u, mu, f) = guards-In tasks g (rw e at m) in (u, inr mu, f))
    | inr (h, e) ↦ elim (rw e at m) [
      | inl same ↦ (t, inl refl, e ∙ ap (λ (k : FlightGuard FlightKey). some k) (sym same))
      | inr later ↦ (let (u, mu, f) = guards-In tasks g later in (u, inr mu, f))
    ]
  ]

  flights-abandon :
      (w : World) (t : Task) (g : FlightGuard FlightKey)
      → flight_of t ≡ some g
      → (abandon w t).flights
        ≡ drop_sender FlightKey-discrete (drop_guard FlightKey-discrete w.flights g) g
  unfolding abandon flight_of drop_flight drop_stream
  flights-abandon w (leaving l) g e = rw (e, abandon) refl
  flights-abandon w (sending s) g e = rw (e, abandon) refl
  flights-abandon w (collecting c) g e = cc
  flights-abandon w (streaming s) g e = elim (Option-cases s.holding) [
    | inl none_held ↦ cc (rw none_held at e)
    | inr (h, some_held) ↦
        (let f : h.flight ≡ some g = rw some_held at e in rw (some_held, f, abandon) refl)
  ]

  -- No request waits for nobody: while the wait for a flight does not return, one of the tasks
  -- leads that flight, and when that task ends before its response is stored, at whatever point
  -- its client goes away, the wait returns.
  pub waiting_for_task :
      (upstream : Upstream) (builds : Builder → Bool) (w : World) (tasks : List Task) (waiter : ℕ)
      → Reached upstream builds w tasks
      → watch.made w.flights.channels waiter ≡ true
      → wait_returns w.flights waiter ≡ false
      → (t : Task) × In t tasks
        × ((g : FlightGuard FlightKey) × (flight_of t ≡ some g))
        × (wait_returns (abandon w t).flights waiter ≡ true)
  unfolding wait_returns drop_sender drop_guard
  waiting_for_task upstream builds w tasks waiter r made waits =
      let (g, m, freed) =
        waiter_released FlightKey-discrete w.flights (guards tasks) [] waiter
          (Reached-Flown upstream builds r) made waits in
      let (t, mt, e) = guards-In tasks g (rw append-nil at m) in
      (t, mt, (g, e), ap (λ f. wait_returns f waiter) (flights-abandon w t g e) ∙ freed)
