-- ===== src/Proxy/Forward/Labels.antt =====
-- The label that a request counts under, after its exchange with the origin.
use shadowstep.Prelude.{
  ℕ, ◌≡◌, inl, inr, refl, ap, Bool, true, false, ◌&&◌, ◌==◌, any, List, [], ◌∷◌, Option, none, some,
  find, if◌then◌else◌, Option-cases, Bool-cases, unwrap_or, arith,
}
use shadowstep.Text.{Text, eqb}
use shadowstep.Run.{Run, done, Ends, Ends-done, Ends-map_run, Ends-if}
use shadowstep.Time.{Instant, Duration}
use shadowstep.Http.{Http, HeaderValue}
use shadowstep.Prometheus.{Prometheus}
use shadowstep.Watch.{Watch}
use shadowstep.Metrics.{
  cache_label, cache_labels, miss, revalidated as revalidated_label, stale, foreground,
}
use shadowstep.Cache.Policy.{bypasses_cache}
use shadowstep.Cache.Response.{StoredResponse, Fields, age, must_revalidate}
use shadowstep.Cache.Store.{Clock, Caches, StaleEntry}
use shadowstep.Proxy.Headers.{Head, cache_status, from_upstream}
use shadowstep.Proxy.Answer.{
  Response, Storing, cached_response, cached_headers, client_response, error_response,
}
use shadowstep.Proxy.Exchange.{
  State, Exchange, error_statuses, may_serve_on_error, serve_stale, revalidated, passed_on,
  answered_stale,
}
use shadowstep.Proxy.Exchange
use shadowstep.Proxy.Serving.{World}
use shadowstep.Proxy.Streaming.{Streaming}
use shadowstep.Proxy.Forward.{
  Sending, Reply, responded, broken, late, came_back, respond, counted_label, send_to_origin,
}

-- Whether the origin failed in a way that a stale response may cover.
abbrev pub fails : Reply → Bool
fails (responded status fields) = any (λ e. e == status) error_statuses
fails broken = true
fails late = true

abbrev pub not_modified : Reply → Bool
not_modified (responded status fields) = status == 304
not_modified broken = false
not_modified late = false

module _ ⦃http : Http⦄ where
  open http use {HeaderMap}

  cache_label-of :
      (m : HeaderMap) (label : Text) (values : List HeaderValue)
      → http.get_all m cache_status ≡ label ∷ values
      → find (λ l. eqb label l) cache_labels ≡ some label
      → cache_label m ≡ some label
  unfolding cache_label
  cache_label-of m label values e h = rw (cache_label, http.get_lem m cache_status, e) h

  cache_label-insert :
      (m : HeaderMap) (label : Text)
      → find (λ l. eqb label l) cache_labels ≡ some label
      → cache_label (http.insert m cache_status label) ≡ some label
  unfolding eqb
  cache_label-insert m label h =
      cache_label-of (http.insert m cache_status label) label []
        (http.get_all-insert m cache_status label cache_status) h

  cache_label-new : cache_label http.new ≡ none
  unfolding cache_label
  cache_label-new =
      rw (cache_label, http.get_lem http.new cache_status, http.get_all-new cache_status) refl

  -- The label of a response, which is `MISS` when it has none.
  abbrev pub label_of : Response → Text
  label_of response = unwrap_or (cache_label response.headers) miss

  abbrev Labelled : Text → Response → Type 0
  Labelled label response = label_of response ≡ label

  cached_response-label :
      (now : Instant) (stored : StoredResponse) (label : Text)
      → find (λ l. eqb label l) cache_labels ≡ some label
      → Ends (Labelled label) (cached_response now stored label)
  unfolding cached_response cached_headers
  cached_response-label now stored label h =
      Ends-map_run (Labelled label) _ (age now stored)
        (λ a. ap (λ o. unwrap_or o miss) (cache_label-insert _ label h))

  error_response-label : (status : ℕ) → Labelled miss (error_response status)
  unfolding error_response
  error_response-label status = ap (λ o. unwrap_or o miss) cache_label-new

  client_response-label :
      (head : Head) (plan : Option Storing) → Labelled miss (client_response head plan)
  unfolding client_response eqb
  client_response-label head plan = ap (λ o. unwrap_or o miss) (cache_label-insert _ miss refl)

module _ ⦃http : Http⦄ ⦃caches : Caches⦄ ⦃prometheus : Prometheus⦄ ⦃watch : Watch⦄ where
  -- What the cache did for a request that went to the origin: it revalidated the stored response
  -- that the origin confirmed, or gave a stale one in place of a failure, or nothing.
  unfoldable pub outcome : Instant → Exchange → Reply → Text
  outcome now x reply = elim x.stale [
    | none ↦ miss
    | some entry ↦
        if x.revalidating && not_modified reply
        then revalidated_label
        else if fails reply && may_serve_on_error now x entry
        then stale
        else miss
  ]

  passed_on-label :
      (clock : Clock) (s : State) (x : Exchange) (head : Head)
      → Ends (Labelled miss) (passed_on clock s x head).0
  unfolding passed_on
  passed_on-label clock s x head =
      Ends-done (Labelled miss) (client_response head _) (client_response-label head _)

  answered-label :
      (clock : Clock) (s : State) (x : Exchange) (status : ℕ) (fields : Fields)
      → Ends
          (Labelled (outcome clock.instant x (responded status fields)))
          (Exchange.answered clock s x (from_upstream status fields)).0
  unfolding Exchange.answered answered_stale revalidated serve_stale outcome eqb from_upstream
  answered-label clock s x status fields =
      let head = from_upstream status fields in
      elim (Option-cases x.stale) [
        | inl e ↦ rw (e, Exchange.answered, outcome) (passed_on-label clock s x head)
        | inr (entry, e) ↦ elim (Bool-cases (x.revalidating && status == 304)) [
          | inl f ↦
              rw (e, f, Exchange.answered, answered_stale, outcome)
                (cached_response-label clock.instant _ revalidated_label refl)
          | inr f ↦
              elim (Bool-cases (
                any (λ e. e == status) error_statuses
                && may_serve_on_error clock.instant x entry)) [
                  | inl g ↦
                      rw (e, f, g, Exchange.answered, answered_stale, outcome)
                        (cached_response-label clock.instant _ stale refl)
                  | inr g ↦
                      rw (e, f, g, Exchange.answered, answered_stale, outcome)
                        (passed_on-label clock s x head)
                ]
        ]
      ]

  outcome-failed :
      (now : Instant) (x : Exchange) (reply : Reply) (entry : StaleEntry)
      → x.stale ≡ some entry
      → fails reply ≡ true
      → not_modified reply ≡ false
      → outcome now x reply ≡ (if may_serve_on_error now x entry then stale else miss)
  unfolding outcome
  outcome-failed now x reply entry e bad other = rw (e, bad, other, outcome) (ground arith)

  failed-label :
      (now : Instant) (x : Exchange) (reply : Reply) (status : ℕ)
      → fails reply ≡ true
      → not_modified reply ≡ false
      → Ends (Labelled (outcome now x reply)) (Exchange.failed now x status)
  unfolding Exchange.failed serve_stale outcome eqb
  failed-label now x reply status bad other =
      let plain =
        λ (n : ℕ). Ends-done (Labelled miss) (error_response n) (error_response-label n) in
      elim (Option-cases x.stale) [
        | inl e ↦ rw (e, Exchange.failed, outcome) (plain status)
        | inr (entry, e) ↦ elim (Bool-cases (may_serve_on_error now x entry)) [
          | inl f ↦
              rw (outcome-failed now x reply entry e bad other, e, f, Exchange.failed)
                (cached_response-label now _ stale refl)
          | inr f ↦
              rw (outcome-failed now x reply entry e bad other, e, f, Exchange.failed)
                (Ends-if (Labelled miss) (must_revalidate entry.response.value) _ _ (plain 504)
                  (plain status))
        ]
      ]

  came_back-label :
      (clock : Clock) (w : World) (s : Sending) (elapsed : Duration) (reply : Reply)
      → Ends
          (Labelled (outcome clock.instant s.exchange reply))
          (came_back clock w s elapsed reply).0
  unfolding came_back respond
  came_back-label clock w s elapsed broken =
      failed-label clock.instant s.exchange broken 502 refl refl
  came_back-label clock w s elapsed late = failed-label clock.instant s.exchange late 504 refl refl
  came_back-label clock w s elapsed (responded status fields) =
      let st : State = record {
        cache = w.cache;
        metrics = send_to_origin w.metrics foreground elapsed (responded status fields);
      } in
      let labelled = answered-label clock st s.exchange status fields in
      elim (Option-cases (Exchange.answered clock st s.exchange (from_upstream status fields)).1) [
        | inl e ↦ rw (e, came_back, respond) labelled
        | inr (store, e) ↦ rw (e, came_back, respond) labelled
      ]

  -- A request that its policy lets near the cache counts under what the cache did for it once the
  -- origin answered or failed: `REVALIDATED`, `STALE` or `MISS`. No `X-Shadowstep-Cache` field
  -- of the origin, also one of a response stored before, changes the label.
  pub counted_label-came_back :
      (clock : Clock) (w : World) (s : Sending) (elapsed : Duration) (reply : Reply)
      (response : Response) (stream : Option Streaming) (w' : World)
      → came_back clock w s elapsed reply ≡ (done response, stream, w')
      → bypasses_cache s.exchange.request_policy ≡ false
      → counted_label s.exchange.request_policy response ≡ outcome clock.instant s.exchange reply
  unfolding counted_label
  counted_label-came_back clock w s elapsed reply response stream w' e near =
      rw (near, counted_label)
        (came_back-label clock w s elapsed reply response
          (ap (λ (q : Run Response × Option Streaming × World). q.0) e))
