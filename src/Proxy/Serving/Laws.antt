-- ===== src/Proxy/Serving/Laws.antt =====
-- When the cache answers a request without the origin.
use shadowstep.Prelude.{
  ◌≡◌, ◌⊎◌, refl, sym, ap, ◌∙◌, Bool, true, not, ◌||◌, Option, none, some, arith, inl, inr,
  if◌then◌else◌, Bool-cases, Option-cases, subst, ◌∷◌, In,
}
use shadowstep.Text.{eqb}
use shadowstep.Text.Laws.{eqb_iff}
use shadowstep.Run.{Run, done, Run-cases, map_run-done}
use shadowstep.Time.{Instant}
use shadowstep.Http.{Http}
use shadowstep.Prometheus.{Prometheus}
use shadowstep.Watch.{Watch}
use shadowstep.Metrics.{stale, background_refresh}
use shadowstep.Forwarded.{Request, from_request, path_and_query}
use shadowstep.Cache.Names
use shadowstep.Cache.Policy.{RequestPolicy, may_serve_stale}
use shadowstep.Cache.Response.{
  PrimaryKey, ResponseKey, StoredResponse, Arc, may_serve_while_revalidating,
}
use shadowstep.Cache.Store.{Clock, Caches, Store, StaleEntry, Lookup, lookup}
use shadowstep.Cache.Store.Guards.{start_refresh-cases}
use shadowstep.Proxy.Headers.{Upstream, Builder, upstream_request, with_validators}
use shadowstep.Proxy.Answer.{Response, cached_response}
use shadowstep.Proxy.Serving.{
  World, Cached, answer, FreshUse, use_label, from_cache, use_found, while_revalidating,
  refresh_in_background, Refresh, without_preconditions,
}

module _ ⦃http : Http⦄ ⦃caches : Caches⦄ ⦃prometheus : Prometheus⦄ ⦃watch : Watch⦄ where
  -- What becomes of a refresh of the entry. It is started as a task, with the entry's guard, unless
  -- one runs already or the request's target at the origin is no URI.
  abbrev pub MayStart : World → World → Request → Upstream → PrimaryKey → StaleEntry → Type 0
  MayStart w w' req upstream cache_key entry =
      (In entry.key w.cache.refreshing × (w' ≡ w))
      ⊎ ((¬ In entry.key w.cache.refreshing)
          × (((upstream_request req upstream (from_request req) (path_and_query req) ≡ none)
                × (w'.refreshes ≡ w.refreshes))
              ⊎ ((task : Refresh) × (builder : Builder) × (upstream_request req upstream
                      (from_request req) (path_and_query req)
                    ≡ some builder)
                  × (w'.refreshes ≡ task ∷ w.refreshes)
                  × (w'.cache.refreshing ≡ entry.key ∷ w.cache.refreshing)
                  × (w'.metrics ≡ background_refresh w.metrics)
                  × (task.guard ≡ entry.key)
                  × (task.entry ≡ entry)
                  × (task.cache_key ≡ cache_key)
                  × (task.request
                      ≡ with_validators (without_preconditions builder) entry.response.value))))

  refresh_in_background-MayStart :
      (w : World) (req : Request) (upstream : Upstream) (cache_key : PrimaryKey)
      (entry : StaleEntry)
      → MayStart w
          (refresh_in_background w req upstream cache_key entry)
          req
          upstream
          cache_key
          entry
  unfolding refresh_in_background
  refresh_in_background-MayStart w req upstream cache_key entry =
      elim (start_refresh-cases w.cache entry) [
        | inl (running, e) ↦ rw (e, refresh_in_background) (inl (running, refl))
        | inr (idle, e) ↦
            elim (Option-cases
              (upstream_request req upstream (from_request req) (path_and_query req))) [
                | inl f ↦ rw (e, f, refresh_in_background) (inr (idle, inl (refl, refl)))
                | inr (builder, f) ↦
                    rw (e, f, refresh_in_background)
                      (inr (
                        idle,
                        inr (
                          _,
                          builder,
                          refl,
                          refl,
                          ap (λ (p : Option ResponseKey × Store). p.1.refreshing) e,
                          refl,
                          refl,
                          refl,
                          refl,
                          refl,
                        ),
                      ))
              ]
      ]

  answer-injective :
      (a r : Response) (w w' : World)
      → ◌≡◌ {A = Cached × World} (answer a, w) (answer r, w')
      → (a ≡ r) × (w ≡ w')
  answer-injective a r w w' h = (cc, cc)

  if_served : (b : Bool) (x y : Run (Cached × World)) → b ≡ true → (if not b then x else y) ≡ y
  if_served b x y h = ground arith

  while_revalidating-answer :
      (now : Instant) (w w' : World) (req : Request) (upstream : Upstream) (cache_key : PrimaryKey)
      (policy : RequestPolicy) (entry : StaleEntry) (r : Response)
      → while_revalidating now w req upstream cache_key policy entry ≡ done (answer r, w')
      → (cached_response now entry.response.value stale ≡ done r)
        × (w' ≡ refresh_in_background w req upstream cache_key entry)
        × (policy.max_age ≡ none)
        × (may_serve_while_revalidating now entry.response.value ≡ true)
  unfolding while_revalidating
  while_revalidating-answer now w w' req upstream cache_key policy entry r h =
      let next = refresh_in_background w req upstream cache_key entry in
      elim (Bool-cases (
        not (may_serve_stale policy)
        || not (may_serve_while_revalidating now entry.response.value))) [
          | inl refused ↦ cc (rw (refused, while_revalidating) at h)
          | inr allowed ↦
              let (a, e, same) =
                map_run-done (λ a. (answer a, next))
                  (cached_response now entry.response.value stale) (answer r, w')
                  (rw (allowed, while_revalidating) at h) in
              let (got, ended) = answer-injective a r next w' same in
              (e ∙ ap done got, sym ended, unfold may_serve_stale in ground arith, ground arith)
        ]

  use_found-answer :
      (now : Instant) (w w' : World) (req : Request) (upstream : Upstream) (cache_key : PrimaryKey)
      (policy : RequestPolicy) (fresh_use : FreshUse) (found : Option Lookup) (r : Response)
      → use_found now w req upstream cache_key policy fresh_use found ≡ done (answer r, w')
      → ((stored : Arc StoredResponse) × (found ≡ some (Lookup.fresh stored))
          × (cached_response now stored.value (use_label fresh_use) ≡ done r)
          × (w' ≡ w))
        ⊎ ((entry : StaleEntry) × (found ≡ some (Lookup.stale entry))
            × (cached_response now entry.response.value stale ≡ done r)
            × (w' ≡ refresh_in_background w req upstream cache_key entry)
            × (req.method ≡ Names.get)
            × (policy.max_age ≡ none)
            × (may_serve_while_revalidating now entry.response.value ≡ true))
  unfolding use_found while_revalidating may_serve_stale
  use_found-answer now w w' req upstream cache_key policy fresh_use none r h = ground arith
  use_found-answer now w w' req upstream cache_key policy fresh_use (some (Lookup.fresh stored)) r
        h =
      let (a, e, same) =
        map_run-done (λ a. (answer a, w)) (cached_response now stored.value (use_label fresh_use))
          (answer r, w') h in
      let (got, ended) = answer-injective a r w w' same in
      inl (stored, refl, e ∙ ap done got, sym ended)
  use_found-answer now w w' req upstream cache_key policy fresh_use (some (Lookup.stale entry)) r
        h =
      elim (Bool-cases (eqb req.method Names.get)) [
        | inr other ↦ ground arith
        | inl is_get ↦
            let (served, started, no_max_age, in_window) =
              while_revalidating-answer now w w' req upstream cache_key policy entry r
                (rw (is_get, use_found) at h) in
            inr (
              entry,
              refl,
              served,
              started,
              (eqb_iff req.method Names.get).0 is_get,
              no_max_age,
              in_window,
            )
      ]

  -- The cache answers a request only if the request lets it and a lookup found a response for
  -- it: a fresh one, and then nothing else happens, or a stale one, for a GET that names no
  -- maximum age, in its stale-while-revalidate window. Then a background task is started that
  -- sends the request on with the stored validators and holds the guard of the entry's key, unless
  -- the guard is held already or the request's target at the origin is no URI.
  pub from_cache-answer :
      (clock : Clock) (w w' : World) (req : Request) (upstream : Upstream) (cache_key : PrimaryKey)
      (policy : RequestPolicy) (fresh_use : FreshUse) (r : Response)
      → from_cache clock w req upstream cache_key policy fresh_use ≡ done (answer r, w')
      → (policy.may_serve ≡ true)
        × (((stored : Arc StoredResponse) × (lookup clock w.cache cache_key req.headers
                  policy.max_age
                ≡ done (some (Lookup.fresh stored)))
              × (cached_response clock.instant stored.value (use_label fresh_use) ≡ done r)
              × (w' ≡ w))
            ⊎ ((entry : StaleEntry) × (lookup clock w.cache cache_key req.headers policy.max_age
                  ≡ done (some (Lookup.stale entry)))
                × (cached_response clock.instant entry.response.value stale ≡ done r)
                × MayStart w w' req upstream cache_key entry
                × (req.method ≡ Names.get)
                × (policy.max_age ≡ none)
                × (may_serve_while_revalidating clock.instant entry.response.value ≡ true)))
  unfolding from_cache
  from_cache-answer clock w w' req upstream cache_key policy fresh_use r h =
      elim (Bool-cases policy.may_serve) [
        | inr refused ↦ ground arith
        | inl serves ↦
            elim (Run-cases (lookup clock w.cache cache_key req.headers policy.max_age)) [
              | inr e ↦ cc (rw (serves, e, from_cache) at h)
              | inl (found, e) ↦
                  let used : use_found clock.instant w req upstream cache_key policy fresh_use found
                      ≡ done (answer r, w') =
                    rw e at (sym (if_served policy.may_serve _ _ serves) ∙ h) in
                  (
                    serves,
                    elim (use_found-answer clock.instant w w' req upstream cache_key policy
                        fresh_use found r used) [
                          | inl (stored, f, served, same) ↦ inl (stored, rw f at e, served, same)
                          | inr (entry, f, served, started, is_get, no_max_age, in_window) ↦ inr (
                            entry,
                            rw f at e,
                            served,
                            subst (λ v. MayStart w v req upstream cache_key entry) (sym started)
                                (refresh_in_background-MayStart w req upstream cache_key entry),
                            is_get,
                            no_max_age,
                            in_window,
                          )
                        ],
                  )
            ]
      ]
