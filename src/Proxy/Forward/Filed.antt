-- ===== src/Proxy/Forward/Filed.antt =====
-- What of the origin's answer is on its way into the store, and under which key.
use shadowstep.Prelude.{
  ◌≡◌, refl, subst, ◌∙◌, ap, Option, some, inl, inr, Option-cases, Bool-cases, List-cases, any,
  ◌==◌, arith, ◌&&◌,
}
use shadowstep.Run.{Run}
use shadowstep.Time.{Duration}
use shadowstep.Http.{Http, StatusCode, append_all}
use shadowstep.Prometheus.{Prometheus}
use shadowstep.Watch.{Watch}
use shadowstep.Coalesce.{FlightGuard}
use shadowstep.Forwarded.{Request}
use shadowstep.Cache.Policy.{RequestPolicy}
use shadowstep.Cache.Storable.{storable}
use shadowstep.Cache.Storable.Laws.{MayStore, storable-MayStore_iff}
use shadowstep.Cache.Response.{Fields, FlightKey, PrimaryKey}
use shadowstep.Cache.Store.{Clock, Caches, Store}
use shadowstep.Proxy.Headers.{Head, from_upstream, forwardable_fields, stored_fields}
use shadowstep.Proxy.Answer.{Response, Storing, store_plan}
use shadowstep.Proxy.Exchange.{
  State, Exchange, passed_on, answered_stale, error_statuses, may_serve_on_error,
}
use shadowstep.Proxy.Exchange
use shadowstep.Proxy.Serving.{World}
use shadowstep.Proxy.Streaming.{Holding, Streaming, still_holding, start_stream, settle, copied}
use shadowstep.Proxy.Forward.{
  Sending, Reply, responded, broken, late, came_back, respond, send_to_origin,
}
use shadowstep.Metrics.{foreground}

module _ ⦃http : Http⦄ ⦃caches : Caches⦄ ⦃prometheus : Prometheus⦄ ⦃watch : Watch⦄ where
  -- A plan is for the request's URI, and for what may be stored of the answer.
  record Planned (clock : Clock) (req : Request) (cache_key : PrimaryKey) (policy : RequestPolicy)
      (head : Head) (plan : Storing) : Type 0 where
    key : plan.cache_key ≡ cache_key
    allowed :
        storable clock.system policy req.headers head.status head.map
        ≡ some (plan.storable, plan.vary)

  store_plan-Planned :
      (clock : Clock) (s : Store) (req : Request) (cache_key : PrimaryKey) (policy : RequestPolicy)
      (head : Head) (plan : Storing)
      → (store_plan clock s req cache_key policy head).0 ≡ some plan
      → Planned clock req cache_key policy head plan
  unfolding store_plan
  store_plan-Planned clock s req cache_key policy head plan h =
      elim (Option-cases (storable clock.system policy req.headers head.status head.map)) [
        | inl e ↦ cc (rw (e, store_plan) at h)
        | inr ((p, vary), e) ↦
            let made = rw (e, store_plan) at h in
            record { key = ground arith; allowed = e ∙ ground arith }
      ]

  answered-Planned :
      (clock : Clock) (s : State) (x : Exchange) (head : Head) (plan : Storing)
      → (Exchange.answered clock s x head).1 ≡ some plan
      → Planned clock x.req x.cache_key x.request_policy head plan
  unfolding Exchange.answered answered_stale passed_on
  answered-Planned clock s x head plan h =
      let planned = store_plan-Planned clock s.cache x.req x.cache_key x.request_policy head plan in
      elim (Option-cases x.stale) [
        | inl e ↦ planned (rw (e, Exchange.answered) at h)
        | inr (entry, e) ↦ elim (Bool-cases (x.revalidating && head.status == 304)) [
          | inl f ↦ cc (rw (e, f, Exchange.answered) at h)
          | inr f ↦
              elim (Bool-cases (
                any (λ status. status == head.status) error_statuses
                && may_serve_on_error clock.instant x entry)) [
                  | inl g ↦ cc (rw (e, f, g, Exchange.answered) at h)
                  | inr g ↦ planned (rw (e, f, g, Exchange.answered) at h)
                ]
        ]
      ]

  -- What is still held was held before.
  still_holding-held : (s : Streaming) (h : Holding) → still_holding s ≡ some h → s.holding ≡ some h
  unfolding still_holding
  still_holding-held s h e = elim (Option-cases s.holding) [
    | inl none_held ↦ cc (rw (none_held, still_holding) at e)
    | inr (held, some_held) ↦ elim (List-cases s.tee.handed) [
      | inr (body, bodies, k) ↦ cc (rw (some_held, k, still_holding) at e)
      | inl k ↦ elim (Option-cases s.tee.copy) [
        | inl c ↦ cc (rw (some_held, k, c, still_holding) at e)
        | inr (copy, c) ↦ some_held ∙ (rw (some_held, k, c, still_holding) at e)
      ]
    ]
  ]

  abbrev held_from : Head → Storing → Option (FlightGuard FlightKey) → Holding
  held_from head store flight = record {
    store = store;
    status = head.status;
    fields = stored_fields (forwardable_fields head);
    flight = flight;
  }

  start_stream-held :
      (clock : Clock) (w : World) (head : Head) (store : Storing)
      (flight : Option (FlightGuard FlightKey)) (h : Holding)
      → (start_stream clock w head store flight).0.holding ≡ some h
      → held_from head store flight ≡ h
  unfolding start_stream settle copied
  start_stream-held clock w head store flight h e =
      let same : some (held_from head store flight) ≡ some h =
        still_holding-held (copied head store flight) h e in
      cc

  -- What a stream holds for the store, of an answer with this status and these fields.
  pub record Filed (clock : Clock) (sending : Sending) (status : StatusCode) (fields : Fields)
      (h : Holding) : Type 0 where
    pub key : h.store.cache_key ≡ sending.exchange.cache_key
    pub allowed :
        MayStore clock.system sending.exchange.request_policy sending.exchange.req.headers status
          (append_all http.new fields)
          h.store.storable
          h.store.vary
    pub status_kept : h.status ≡ status
    pub fields_kept : h.fields ≡ stored_fields (forwardable_fields (from_upstream status fields))
    pub flight_kept : h.flight ≡ sending.flight

  -- What starts to stream into the store is the origin's answer to the request: the origin has
  -- responded; what is held for the store has the request's URI as its key, the answer's status
  -- and the fields of the answer that are stored, and the request's flight; and the answer, to that
  -- request, is one that may be stored, under the `Vary` values and for the times that are held.
  pub came_back-Filed :
      (clock : Clock) (w w' : World) (sending : Sending) (elapsed : Duration) (reply : Reply)
      (response : Run Response) (stream : Streaming) (h : Holding)
      → came_back clock w sending elapsed reply ≡ (response, some stream, w')
      → stream.holding ≡ some h
      → (status : StatusCode) × (fields : Fields) × (reply ≡ responded status fields)
        × Filed clock sending status fields h
  unfolding came_back respond start_stream settle copied from_upstream
  came_back-Filed clock w w' sending elapsed broken response stream h back holds = cc
  came_back-Filed clock w w' sending elapsed late response stream h back holds = cc
  came_back-Filed clock w w' sending elapsed (responded status fields) response stream h back
        holds =
      let head = from_upstream status fields in
      let st : State = record {
        cache = w.cache;
        metrics = send_to_origin w.metrics foreground elapsed (responded status fields);
      } in
      elim (Option-cases (Exchange.answered clock st sending.exchange head).1) [
        | inl e ↦ cc (rw (e, came_back, respond) at back)
        | inr (store, e) ↦
            let after = (Exchange.answered clock st sending.exchange head).2 in
            let next : World = record w { cache = after.cache; metrics = after.metrics } in
            let same_stream : (start_stream clock next head store sending.flight).0 ≡ stream =
              cc (rw (e, came_back, respond) at back) in
            let held : held_from head store sending.flight ≡ h =
              start_stream-held clock next head store sending.flight h
                (ap (λ (q : Streaming). q.holding) same_stream ∙ holds) in
            let plan = answered-Planned clock st sending.exchange head store e in
            let allowed =
              (storable-MayStore_iff clock.system sending.exchange.request_policy
                  sending.exchange.req.headers status (append_all http.new fields) store.storable
                  store.vary).0
                plan.allowed in
            (
              status,
              fields,
              refl,
              subst (Filed clock sending status fields) held (record {
                key = plan.key;
                allowed = allowed;
                status_kept = refl;
                fields_kept = refl;
                flight_kept = refl;
              }),
            )
      ]
