-- ===== src/Proxy/Waiting/Laws.antt =====
-- Who goes to the origin as the leader of a flight.
use shadowstep.Prelude.{
  ◌≡◌, refl, sym, ◌∙◌, ap, Bool, true, false, arith, inl, inr, Option-cases, Bool-cases, is_some,
  Option, none, some,
}
use shadowstep.Run.{done, Run-cases}
use shadowstep.Http.{Http}
use shadowstep.Prometheus.{Prometheus}
use shadowstep.Watch.{Watch}
use shadowstep.Coalesce.{FlightGuard, Flights, Join, lead, follow, alone, join}
use shadowstep.Forwarded.{Request}
use shadowstep.Cache.Policy.{RequestPolicy, may_coalesce, may_lead}
use shadowstep.Cache.Response.{FlightKey, PrimaryKey}
use shadowstep.Cache.Store.{Clock, Caches, flight_key}
use shadowstep.Proxy.Headers.{Upstream}
use shadowstep.Proxy.Serving.{
  World, Cached, answer, revalidate, nothing, own_hit, from_cache, join_flight, FlightKey-discrete,
}
use shadowstep.Proxy.Waiting.{
  Before, answered, origin, or_origin, Progress, settled, waiting, take_part, after_lookup,
  serve_from_cache, drop_flight,
}

module _ ⦃http : Http⦄ ⦃caches : Caches⦄ ⦃prometheus : Prometheus⦄ ⦃watch : Watch⦄ where
  -- Whether a request's progress is to go to the origin with a flight that it leads.
  abbrev pub leads : Progress → Bool
  leads (waiting waiter) = false
  leads (settled (answered response)) = false
  leads (settled (origin to_origin)) = is_some to_origin.flight

  join-lead_only :
      (f f' : Flights FlightKey) (key : FlightKey) (may : Bool) (guard : FlightGuard FlightKey)
      → join FlightKey-discrete f key may ≡ (lead guard, f')
      → may ≡ true
  unfolding join
  join-lead_only f f' key may guard h = ground arith

  join_flight-lead :
      (clock : Clock) (w w' : World) (req : Request) (cache_key : PrimaryKey)
      (policy : RequestPolicy) (guard : FlightGuard FlightKey)
      → join_flight clock w req cache_key policy ≡ (lead guard, w')
      → may_lead policy ≡ true
  unfolding join_flight
  join_flight-lead clock w w' req cache_key policy guard h =
      elim (Bool-cases (may_coalesce policy)) [
        | inr refused ↦ cc (rw (refused, join_flight) at h)
        | inl allowed ↦ elim (Option-cases (flight_key clock w.cache cache_key req.headers)) [
          | inl e ↦ cc (rw (allowed, e, join_flight) at h)
          | inr (key, e) ↦
              let r = join FlightKey-discrete w.flights key (may_lead policy) in
              let joined : ◌≡◌ {A = Join FlightKey × World} (r.0, record w { flights = r.1 })
                  (lead guard, w') =
                rw (allowed, e, join_flight) at h in
              join-lead_only w.flights r.1 key (may_lead policy) guard
                (ap (λ j. (j, r.1)) (ap (λ q. q.0) joined))
        ]
      ]

  take_part-lead :
      (clock : Clock) (w w' : World) (req : Request) (upstream : Upstream) (cache_key : PrimaryKey)
      (policy : RequestPolicy) (before : Before) (j : Join FlightKey × World) (p : Progress)
      → leads (settled before) ≡ false
      → take_part clock w req upstream cache_key policy before j ≡ done (p, w')
      → leads p ≡ true
      → (guard : FlightGuard FlightKey) × (v : World) × (j ≡ (lead guard, v))
  unfolding take_part
  take_part-lead clock w w' req upstream cache_key policy before (alone, v) p still h l =
      let same : settled before ≡ p = cc in cc (sym still ∙ ap leads same ∙ l)
  take_part-lead clock w w' req upstream cache_key policy before (lead guard, v) p still h l =
      (guard, v, refl)
  take_part-lead clock w w' req upstream cache_key policy before (follow waiter, v) p still h l =
      let same : waiting waiter ≡ p = cc in cc (ap leads same ∙ l)

  after_lookup-lead :
      (clock : Clock) (w' : World) (req : Request) (upstream : Upstream) (cache_key : PrimaryKey)
      (policy : RequestPolicy) (c : Cached × World) (p : Progress)
      → after_lookup clock req upstream cache_key policy c ≡ done (p, w')
      → leads p ≡ true
      → may_lead policy ≡ true
  unfolding after_lookup or_origin
  after_lookup-lead clock w' req upstream cache_key policy (answer response, w) p h l =
      let same : settled (answered response) ≡ p = cc in cc (ap leads same ∙ l)
  after_lookup-lead clock w' req upstream cache_key policy (revalidate entry, w) p h l =
      let (guard, v, e) =
        take_part-lead clock w w' req upstream cache_key policy _
          (join_flight clock w req cache_key policy) p refl h l in
      join_flight-lead clock w v req cache_key policy guard e
  after_lookup-lead clock w' req upstream cache_key policy (nothing, w) p h l =
      let (guard, v, e) =
        take_part-lead clock w w' req upstream cache_key policy _
          (join_flight clock w req cache_key policy) p refl h l in
      join_flight-lead clock w v req cache_key policy guard e

  -- A request goes to the origin as the leader of a flight only if its policy lets it lead.
  pub serve_from_cache-lead :
      (clock : Clock) (w w' : World) (req : Request) (upstream : Upstream) (cache_key : PrimaryKey)
      (policy : RequestPolicy) (p : Progress)
      → serve_from_cache clock w req upstream cache_key policy ≡ done (p, w')
      → leads p ≡ true
      → may_lead policy ≡ true
  unfolding serve_from_cache
  serve_from_cache-lead clock w w' req upstream cache_key policy p h l =
      elim (Run-cases (from_cache clock w req upstream cache_key policy own_hit)) [
        | inr e ↦ cc (rw (e, serve_from_cache) at h)
        | inl (c, e) ↦
            after_lookup-lead clock w' req upstream cache_key policy c p
              (rw (e, serve_from_cache) at h) l
      ]

  pub drop_flight-cache :
      (w : World) (o : Option (FlightGuard FlightKey)) → (drop_flight w o).cache ≡ w.cache
  unfolding drop_flight
  drop_flight-cache w none = refl
  drop_flight-cache w (some guard) = refl
