-- ===== src/Proxy/System/Joining.antt =====
-- The flights that a request joins, leads and drops before it goes to the origin.
use shadowstep.Prelude.{
  ◌≡◌, refl, sym, subst, Bool, true, List, [], ◌∷◌, ◌++◌, Option, none, some, arith, inl, inr,
  Option-cases, Bool-cases,
}
use shadowstep.Run.{Ends, Ends-done, Ends-map_run_of, Ends-bind_of}
use shadowstep.Http.{Http}
use shadowstep.Prometheus.{Prometheus}
use shadowstep.Watch.{Watch}
use shadowstep.Coalesce.{FlightGuard, Flights, Join, lead, follow, alone, join}
use shadowstep.Coalesce.Reach.{Reached, led, joined, removed, ended}
use shadowstep.Forwarded.{Request}
use shadowstep.Cache.Policy.{RequestPolicy, may_coalesce, may_lead}
use shadowstep.Cache.Response.{FlightKey, PrimaryKey}
use shadowstep.Cache.Store.{Clock, Caches, flight_key}
use shadowstep.Proxy.Headers.{Upstream}
use shadowstep.Proxy.Serving.{
  World, Cached, answer, revalidate, nothing, own_hit, after_leader, from_cache, join_flight,
  FlightKey-discrete,
}
use shadowstep.Proxy.Serving.Quiet.{Quiet, from_cache-Quiet}
use shadowstep.Proxy.Waiting.{
  Before, answered, origin, or_origin, Progress, settled, waiting, lead_on, take_part, after_lookup,
  serve_from_cache, after_wait, drop_flight,
}

-- The guard of a flight, or none.
abbrev pub held : {K : Type 0} → Option (FlightGuard K) → List (FlightGuard K)
held none = []
held (some guard) = guard ∷ []

module _ ⦃watch : Watch⦄ where
  -- Flights with the guards that hold them: any steps of `coalesce.rs` led to them.
  abbrev pub Flown : Flights FlightKey → List (FlightGuard FlightKey) → Type 0
  Flown f gs = Reached FlightKey-discrete f gs []

  abbrev pub joined_flight : Join FlightKey → Option (FlightGuard FlightKey)
  joined_flight (lead guard) = some guard
  joined_flight (follow waiter) = none
  joined_flight alone = none

  join-may_lead :
      (f f' : Flights FlightKey) (key : FlightKey) (may : Bool) (guard : FlightGuard FlightKey)
      → join FlightKey-discrete f key may ≡ (lead guard, f')
      → may ≡ true
  unfolding join
  join-may_lead f f' key may guard h = ground arith

  joined-Flown :
      (f : Flights FlightKey) (key : FlightKey) (may : Bool) (gs : List (FlightGuard FlightKey))
      (q : Join FlightKey × Flights FlightKey)
      → join FlightKey-discrete f key may ≡ q
      → Flown f gs
      → Flown q.1 (held (joined_flight q.0) ++ gs)
  joined-Flown f key may gs (lead guard, f') e r =
      led key guard (rw (join-may_lead f f' key may guard e) at e) r
  joined-Flown f key may gs (follow waiter, f') e r = joined key may (follow waiter) e (λ g. cc) r
  joined-Flown f key may gs (alone, f') e r = joined key may alone e (λ g. cc) r

module _ ⦃http : Http⦄ ⦃caches : Caches⦄ ⦃prometheus : Prometheus⦄ ⦃watch : Watch⦄ where
  abbrev pub before_flight : Before → Option (FlightGuard FlightKey)
  before_flight (answered response) = none
  before_flight (origin to_origin) = to_origin.flight

  abbrev pub progress_flight : Progress → Option (FlightGuard FlightKey)
  progress_flight (settled b) = before_flight b
  progress_flight (waiting waiter) = none

  pub drop_flight-Flown :
      (w : World) (o : Option (FlightGuard FlightKey)) (before after : List (FlightGuard FlightKey))
      → Flown w.flights (before ++ (held o ++ after))
      → Flown (drop_flight w o).flights (before ++ after)
  unfolding drop_flight
  drop_flight-Flown w none before after r = r
  drop_flight-Flown w (some guard) before after r = ended [] [] guard (removed before after guard r)

  join_flight-Flown :
      (clock : Clock) (w : World) (req : Request) (cache_key : PrimaryKey) (policy : RequestPolicy)
      (gs : List (FlightGuard FlightKey))
      → Flown w.flights gs
      → Flown
          (join_flight clock w req cache_key policy).1.flights
          (held (joined_flight (join_flight clock w req cache_key policy).0) ++ gs)
  unfolding join_flight
  join_flight-Flown clock w req cache_key policy gs r = elim (Bool-cases (may_coalesce policy)) [
    | inr refused ↦ rw (refused, join_flight) r
    | inl allowed ↦ elim (Option-cases (flight_key clock w.cache cache_key req.headers)) [
      | inl e ↦ rw (allowed, e, join_flight) r
      | inr (key, e) ↦
          rw (allowed, e, join_flight)
            (joined-Flown w.flights key (may_lead policy) gs
              (join FlightKey-discrete w.flights key (may_lead policy)) refl r)
    ]
  ]

  or_origin-Flown :
      (c : Cached × World) (o : Option (FlightGuard FlightKey)) (gs : List (FlightGuard FlightKey))
      → Flown c.1.flights (held o ++ gs)
      → Flown (or_origin c o).1.flights (held (before_flight (or_origin c o).0) ++ gs)
  unfolding or_origin
  or_origin-Flown (answer response, w) o gs r = drop_flight-Flown w o [] gs r
  or_origin-Flown (revalidate entry, w) o gs r = r
  or_origin-Flown (nothing, w) o gs r = r

  Quiet-Flown :
      (w w' : World) (gs : List (FlightGuard FlightKey))
      → Quiet w w'
      → Flown w.flights gs
      → Flown w'.flights gs
  Quiet-Flown w w' gs q r = subst (λ f. Flown f gs) (sym q.flights) r

  -- What a step leaves: the flights, with those of the request's progress.
  abbrev pub Goes : List (FlightGuard FlightKey) → Progress × World → Type 0
  Goes gs p = Flown p.1.flights (held (progress_flight p.0) ++ gs)

  lead_on-Flown :
      (clock : Clock) (w : World) (req : Request) (upstream : Upstream) (cache_key : PrimaryKey)
      (policy : RequestPolicy) (guard : FlightGuard FlightKey) (gs : List (FlightGuard FlightKey))
      → Flown w.flights (guard ∷ gs)
      → Ends (Goes gs) (lead_on clock w req upstream cache_key policy guard)
  unfolding lead_on
  lead_on-Flown clock w req upstream cache_key policy guard gs r =
      Ends-map_run_of (λ (c : Cached × World). Quiet w c.1) (Goes gs)
        (λ c. let b = or_origin c (some guard) in (settled b.0, b.1))
        (from_cache clock w req upstream cache_key policy own_hit)
        (from_cache-Quiet clock w req upstream cache_key policy own_hit)
        (λ c q. or_origin-Flown c (some guard) gs (Quiet-Flown w c.1 (guard ∷ gs) q r))

  take_part-Flown :
      (clock : Clock) (w : World) (req : Request) (upstream : Upstream) (cache_key : PrimaryKey)
      (policy : RequestPolicy) (before : Before) (j : Join FlightKey × World)
      (gs : List (FlightGuard FlightKey))
      → before_flight before ≡ none
      → Flown j.1.flights (held (joined_flight j.0) ++ gs)
      → Ends (Goes gs) (take_part clock w req upstream cache_key policy before j)
  unfolding take_part
  take_part-Flown clock w req upstream cache_key policy before (alone, v) gs bare r =
      Ends-done (Goes gs) (settled before, v) (rw bare r)
  take_part-Flown clock w req upstream cache_key policy before (lead guard, v) gs bare r =
      lead_on-Flown clock v req upstream cache_key policy guard gs r
  take_part-Flown clock w req upstream cache_key policy before (follow waiter, v) gs bare r =
      Ends-done (Goes gs) (waiting waiter, v) r

  after_lookup-Flown :
      (clock : Clock) (req : Request) (upstream : Upstream) (cache_key : PrimaryKey)
      (policy : RequestPolicy) (c : Cached × World) (gs : List (FlightGuard FlightKey))
      → Flown c.1.flights gs
      → Ends (Goes gs) (after_lookup clock req upstream cache_key policy c)
  unfolding after_lookup or_origin
  after_lookup-Flown clock req upstream cache_key policy (answer response, w) gs r =
      Ends-done (Goes gs) (settled (answered response), w) r
  after_lookup-Flown clock req upstream cache_key policy (revalidate entry, w) gs r =
      take_part-Flown clock w req upstream cache_key policy _
        (join_flight clock w req cache_key policy) gs refl
        (join_flight-Flown clock w req cache_key policy gs r)
  after_lookup-Flown clock req upstream cache_key policy (nothing, w) gs r =
      take_part-Flown clock w req upstream cache_key policy _
        (join_flight clock w req cache_key policy) gs refl
        (join_flight-Flown clock w req cache_key policy gs r)

  -- A request that comes joins a flight, leads one that it then holds, or neither.
  pub serve_from_cache-Flown :
      (clock : Clock) (w : World) (req : Request) (upstream : Upstream) (cache_key : PrimaryKey)
      (policy : RequestPolicy) (gs : List (FlightGuard FlightKey))
      → Flown w.flights gs
      → Ends (Goes gs) (serve_from_cache clock w req upstream cache_key policy)
  unfolding serve_from_cache
  serve_from_cache-Flown clock w req upstream cache_key policy gs r =
      Ends-bind_of (λ (c : Cached × World). Quiet w c.1) (Goes gs)
        (from_cache clock w req upstream cache_key policy own_hit)
        (λ c. after_lookup clock req upstream cache_key policy c)
        (from_cache-Quiet clock w req upstream cache_key policy own_hit)
        (λ c q.
          after_lookup-Flown clock req upstream cache_key policy c gs (Quiet-Flown w c.1 gs q r))

  pub after_wait-Flown :
      (clock : Clock) (w : World) (req : Request) (upstream : Upstream) (cache_key : PrimaryKey)
      (policy : RequestPolicy) (gs : List (FlightGuard FlightKey))
      → Flown w.flights gs
      → Ends
          (λ (b : Before × World). Flown b.1.flights (held (before_flight b.0) ++ gs))
          (after_wait clock w req upstream cache_key policy)
  unfolding after_wait
  after_wait-Flown clock w req upstream cache_key policy gs r =
      Ends-map_run_of (λ (c : Cached × World). Quiet w c.1)
        (λ (b : Before × World). Flown b.1.flights (held (before_flight b.0) ++ gs))
        (λ c. or_origin c none) (from_cache clock w req upstream cache_key policy after_leader)
        (from_cache-Quiet clock w req upstream cache_key policy after_leader)
        (λ c q. or_origin-Flown c none gs (Quiet-Flown w c.1 gs q r))
