-- ===== src/Proxy/Streaming/Woken.antt =====
-- When the end of a stream wakes the requests that wait for its flight, and what they find.
use shadowstep.Prelude.{
  ◌≡◌, ◌≢◌, ◌<◌, ◌⊎◌, inl, inr, refl, ◌∙◌, ap, Bool, true, false, List, [], ◌∷◌, Option, none, some,
  Option-cases, List-cases, arith, In,
}
use shadowstep.Text.{Text, Bytes}
use shadowstep.Run.{done, map_run, Run-cases}
use shadowstep.Time.{elapsed}
use shadowstep.Http.{Http, StatusCode}
use shadowstep.Prometheus.{Prometheus}
use shadowstep.Watch.{Watch}
use shadowstep.Coalesce.{FlightGuard, wait_returns, drop_guard, drop_sender}
use shadowstep.Metrics.{coalesced}
use shadowstep.Forwarded.{Request}
use shadowstep.Cache.Policy.{RequestPolicy}
use shadowstep.Cache.Vary.{Vary, vary_values}
use shadowstep.Cache.Response.{
  FlightKey, Index, Key, PrimaryKey, Fields, Entry, Arc, StoredResponse,
}
use shadowstep.Cache.Store.{Clock, Caches, Store, fresh, lookup, insert_response}
use shadowstep.Cache.Store.Laws.{lookup-insert_response}
use shadowstep.Proxy.Headers.{Upstream}
use shadowstep.Proxy.Tee.{Tee, Item, chunk, failed, ended, poll}
use shadowstep.Proxy.Tee
use shadowstep.Proxy.Answer.{Storing, cached_response, finish}
use shadowstep.Proxy.Serving.{World, from_cache, use_found}
use shadowstep.Proxy.Waiting.{answered, or_origin, after_wait, drop_flight}
use shadowstep.Proxy.Waiting.Laws.{drop_flight-cache}
use shadowstep.Proxy.Streaming.{Holding, Streaming, settle, poll_stream, after_calls}

module _ ⦃http : Http⦄ ⦃caches : Caches⦄ ⦃prometheus : Prometheus⦄ ⦃watch : Watch⦄ where
  open caches use {entries as E, index as I}

  wait_returns-drop_flight :
      (w : World) (g : FlightGuard FlightKey)
      → wait_returns (drop_flight w (some g)).flights g.sender ≡ true
  unfolding drop_flight wait_returns drop_guard drop_sender
  wait_returns-drop_flight w g =
      ground (arith, watch.closed-drop_sender w.flights.channels g.sender g.sender)

  -- The copy of a body is over, in one way or the other.
  abbrev pub over : Tee → Bool
  over t = elim t.handed [ _ ∷ _ ↦ true | [] ↦ elim t.copy [ none ↦ true | some c ↦ false ] ]

  settle-over :
      (clock : Clock) (w : World) (s : Streaming) (h : Holding) (g : FlightGuard FlightKey)
      → s.holding ≡ some h
      → h.flight ≡ some g
      → over s.tee ≡ true
      → wait_returns (settle clock w s).1.flights g.sender ≡ true
  unfolding settle
  settle-over clock w s h g e f done_with = elim (List-cases s.tee.handed) [
    | inr (body, bodies, k) ↦
        rw (e, k, f, settle)
          (wait_returns-drop_flight
            (record w { cache = finish clock w.cache h.store h.status h.fields body }) g)
    | inl k ↦ elim (Option-cases s.tee.copy) [
      | inl c ↦ rw (e, k, c, f, settle) (wait_returns-drop_flight w g)
      | inr (copy, c) ↦ cc (rw (k, c) at done_with)
    ]
  ]

  over-given_up : (t : Tee) → t.copy ≡ none → over t ≡ true
  over-given_up t e = elim (List-cases t.handed) [
    | inl k ↦ rw (k, e, over) refl
    | inr (body, bodies, k) ↦ rw (k, over) refl
  ]

  copy-finish : (t : Tee) → (Tee.finish t).copy ≡ none
  unfolding Tee.finish
  copy-finish t = elim (Option-cases t.copy) [
    | inl e ↦ rw (e, Tee.finish) e
    | inr (copy, e) ↦ rw (e, Tee.finish) (ground arith)
  ]

  over-poll :
      (t : Tee) (item : Item) → ((bytes : Bytes) → item ≢ chunk bytes) → over (poll t item) ≡ true
  unfolding poll
  over-poll t (chunk bytes) other = absurd (other bytes refl)
  over-poll t failed other = over-given_up (poll t failed) refl
  over-poll t ended other = over-given_up (Tee.finish t) (copy-finish t)

  -- A leader's flight ends with its stream at the latest: whether the origin's body ended or
  -- failed, every request that waits for the flight is woken by that poll.
  pub poll_stream-wakes :
      (clock : Clock) (w : World) (s : Streaming) (item : Item) (h : Holding)
      (g : FlightGuard FlightKey)
      → s.holding ≡ some h
      → h.flight ≡ some g
      → ((bytes : Bytes) → item ≢ chunk bytes)
      → wait_returns (poll_stream clock w s item).1.flights g.sender ≡ true
  unfolding poll_stream
  poll_stream-wakes clock w s item h g e f last =
      settle-over clock w (record s { tee = poll s.tee item }) h g e f (over-poll s.tee item last)

  pub cache-poll_stream :
      (clock : Clock) (w : World) (s : Streaming) (item : Item) (h : Holding) (body : Bytes)
      (bodies : List Bytes)
      → s.holding ≡ some h
      → (poll s.tee item).handed ≡ body ∷ bodies
      → (poll_stream clock w s item).1.cache ≡ finish clock w.cache h.store h.status h.fields body
  unfolding poll_stream settle
  cache-poll_stream clock w s item h body bodies e k =
      rw (e, k, poll_stream, settle)
        (drop_flight-cache
          (record w { cache = finish clock w.cache h.store h.status h.fields body }) h.flight)

  -- The worlds that a poll of the stream leads through: after each of its calls, and at its end.
  abbrev pub Through : Clock → World → Streaming → Item → World → Type 0
  Through clock w s item v =
      In v
        ((poll_stream clock w s item).1 ∷ after_calls clock w (record s { tee = poll s.tee item }))

  -- A world after a poll that handed the body over has the flight as it was, or the response is in
  -- the store.
  Through-handed :
      (clock : Clock) (w : World) (s : Streaming) (item : Item) (h : Holding) (body : Bytes)
      (bodies : List Bytes) (v : World)
      → s.holding ≡ some h
      → (poll s.tee item).handed ≡ body ∷ bodies
      → Through clock w s item v
      → (v.flights ≡ w.flights) ⊎ (v.cache ≡ finish clock w.cache h.store h.status h.fields body)
  unfolding after_calls
  Through-handed clock w s item h body bodies v e k (inl last) =
      inr (ap (λ (u : World). u.cache) last ∙ cache-poll_stream clock w s item h body bodies e k)
  Through-handed clock w s item h body bodies v e k (inr m) = elim (rw (e, k, after_calls) at m) [
    | inl dropped ↦ inr (
        ap (λ (u : World). u.cache) dropped
        ∙ drop_flight-cache
            (record w { cache = finish clock w.cache h.store h.status h.fields body }) h.flight)
    | inr (inl stored) ↦ inl (ap (λ (u : World). u.flights) stored)
    | inr (inr nothing) ↦ absurd nothing
  ]

  -- No request is woken too early. Take any world that a poll of a leader's stream leads through,
  -- also one between the store's `finish` and the drop of the flight: if a request that waited for
  -- the flight is woken there, then the leader's response was stored by then, or the copy of the
  -- body was given up and there is nothing to find.
  pub poll_stream-stored :
      (clock : Clock) (w : World) (s : Streaming) (item : Item) (h : Holding)
      (g : FlightGuard FlightKey) (v : World)
      → s.holding ≡ some h
      → wait_returns w.flights g.sender ≡ false
      → Through clock w s item v
      → wait_returns v.flights g.sender ≡ true
      → ((body : Bytes) × In body (poll s.tee item).handed
          × (v.cache ≡ finish clock w.cache h.store h.status h.fields body))
        ⊎ (((poll s.tee item).handed ≡ []) × ((poll s.tee item).copy ≡ none))
  unfolding poll_stream settle
  poll_stream-stored clock w s item h g v e waits m woken =
      elim (List-cases (poll s.tee item).handed) [
        | inr (body, bodies, k) ↦ elim (Through-handed clock w s item h body bodies v e k m) [
          | inl same ↦ cc (waits, woken, ap (λ flights. wait_returns flights g.sender) same)
          | inr stored ↦ inl (body, rw k (inl refl), stored)
        ]
        | inl k ↦ elim (Option-cases (poll s.tee item).copy) [
          | inl c ↦ inr (k, c)
          | inr (copy, c) ↦ elim (rw (e, k, c, poll_stream, settle, after_calls) at m) [
            | inl same ↦ cc (waits, woken, ap (λ (u : World). wait_returns u.flights g.sender) same)
            | inr nothing ↦ absurd nothing
          ]
        ]
      ]

  pub finish-inserted :
      (clock : Clock) (s stored : Store) (plan : Storing) (vary : Vary) (status : StatusCode)
      (fields : Fields) (body : Bytes) (r : Arc StoredResponse)
      → plan.vary ≡ vary
      → insert_response clock s plan.cache_key vary plan.storable status fields body
        ≡ (some r, stored)
      → finish clock s plan status fields body ≡ stored
  unfolding finish
  finish-inserted clock s stored plan vary status fields body r e h =
      ap (λ v. (insert_response clock s plan.cache_key v plan.storable status fields body).1) e
      ∙ ap (λ (q : Option (Arc StoredResponse) × Store). q.1) h

  after_wait-fresh :
      (clock : Clock) (w : World) (req : Request) (upstream : Upstream) (cache_key : PrimaryKey)
      (policy : RequestPolicy) (r : Arc StoredResponse)
      → policy.may_serve ≡ true
      → lookup clock w.cache cache_key req.headers policy.max_age ≡ done (some (fresh r))
      → after_wait clock w req upstream cache_key policy
        ≡ map_run (λ a. (answered a, w)) (cached_response clock.instant r.value coalesced)
  unfolding after_wait from_cache use_found or_origin drop_flight
  after_wait-fresh clock w req upstream cache_key policy r serves hit =
      elim (Run-cases (cached_response clock.instant r.value coalesced)) [
        | inl (a, e) ↦ rw (serves, hit, e, after_wait, from_cache, use_found) refl
        | inr e ↦ rw (serves, hit, e, after_wait, from_cache, use_found) refl
      ]

  -- Requests that waited are served what the leader stored. The poll that completes the copy of the
  -- leader's body stores the response; a request for the same URI with the same `Vary` values that
  -- may be served from the cache and names no `max-age`, and that wakes while the response is
  -- fresh, and while the cache has not evicted it, is answered with it as `COALESCED`, and nothing
  -- goes to the origin.
  pub after_wait-poll_stream :
      (clock later : Clock) (w : World) (s : Streaming) (item : Item) (h : Holding) (body : Bytes)
      (bodies : List Bytes) (names : List Text) (request : http.HeaderMap) (r : Arc StoredResponse)
      (stored : Store) (x : Index) (entry : Entry) (req : Request) (upstream : Upstream)
      (policy : RequestPolicy)
      → s.holding ≡ some h
      → h.store.vary ≡ record { names = names; values = vary_values names request }
      → (poll s.tee item).handed ≡ body ∷ bodies
      → insert_response clock w.cache h.store.cache_key
          (record { names = names; values = vary_values names request })
          h.store.storable
          h.status
          h.fields
          body
        ≡ (some r, stored)
      → policy.may_serve ≡ true
      → policy.max_age ≡ none
      → vary_values names req.headers ≡ vary_values names request
      → I.get later.instant stored.index h.store.cache_key ≡ some x
      → E.get later.instant stored.entries (
          Key.response (record {
            primary = h.store.cache_key;
            generation = x.generation;
            vary = vary_values names request;
          }))
        ≡ some entry
      → elapsed clock.instant later.instant < r.value.ttl
      → after_wait later (poll_stream clock w s item).1 req upstream h.store.cache_key policy
        ≡ map_run
            (λ a. (answered a, (poll_stream clock w s item).1))
            (cached_response later.instant r.value coalesced)
  after_wait-poll_stream clock later w s item h body bodies names request r stored x entry req
        upstream policy holding varied handed inserted serves any_age same hx he young =
      let w' = (poll_stream clock w s item).1 in
      let cached : w'.cache ≡ stored =
        cache-poll_stream clock w s item h body bodies holding handed
        ∙ finish-inserted clock w.cache stored h.store _ h.status h.fields body r varied inserted in
      let hit =
        lookup-insert_response clock later w.cache h.store.cache_key names h.store.storable h.status
          h.fields body request req.headers r stored x entry inserted same hx he young in
      after_wait-fresh later w' req upstream h.store.cache_key policy r serves (
        ap (λ c. lookup later c h.store.cache_key req.headers policy.max_age) cached
        ∙ ap (λ m. lookup later stored h.store.cache_key req.headers m) any_age
        ∙ hit)
