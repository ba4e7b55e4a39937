-- ===== src/Proxy/Serving/Quiet.antt =====
-- What the cache does for a request leaves the flights as they are.
use shadowstep.Prelude.{◌≡◌, refl, not, ◌||◌, Option, none, some, inl, inr, Option-cases}
use shadowstep.Text.{eqb}
use shadowstep.Run.{Ends, Ends-done, Ends-map_run, Ends-bind, Ends-if}
use shadowstep.Time.{Instant}
use shadowstep.Http.{Http}
use shadowstep.Prometheus.{Prometheus}
use shadowstep.Watch.{Watch}
use shadowstep.Metrics.{stale}
use shadowstep.Forwarded.{Request, from_request, path_and_query}
use shadowstep.Cache.Names
use shadowstep.Cache.Policy.{RequestPolicy, may_serve_stale}
use shadowstep.Cache.Response.{PrimaryKey, may_serve_while_revalidating}
use shadowstep.Cache.Store.{Clock, Caches, StaleEntry, Lookup, lookup, start_refresh}
use shadowstep.Proxy.Headers.{Upstream, upstream_request}
use shadowstep.Proxy.Answer.{cached_response}
use shadowstep.Proxy.Serving.{
  World, Cached, answer, nothing, revalidate, FreshUse, use_label, from_cache, use_found,
  while_revalidating, refresh_in_background,
}

module _ ⦃http : Http⦄ ⦃caches : Caches⦄ ⦃prometheus : Prometheus⦄ ⦃watch : Watch⦄ where
  -- From one world to another, with the flights the same.
  pub record Quiet (w w' : World) : Type 1 where
    pub flights : w'.flights ≡ w.flights

  pub Quiet-refl : (w : World) → Quiet w w
  Quiet-refl w = record { flights = refl }

  refresh_in_background-Quiet :
      (w : World) (req : Request) (upstream : Upstream) (cache_key : PrimaryKey)
      (entry : StaleEntry)
      → Quiet w (refresh_in_background w req upstream cache_key entry)
  unfolding refresh_in_background
  refresh_in_background-Quiet w req upstream cache_key entry =
      elim (Option-cases (start_refresh w.cache entry).0) [
        | inl e ↦ rw (e, refresh_in_background) (Quiet-refl w)
        | inr (guard, e) ↦
            elim (Option-cases
              (upstream_request req upstream (from_request req) (path_and_query req))) [
                | inl e' ↦ rw (e, e', refresh_in_background) (record { flights = refl })
                | inr (builder, e') ↦ rw (e, e', refresh_in_background) (record { flights = refl })
              ]
      ]

  while_revalidating-Quiet :
      (now : Instant) (w : World) (req : Request) (upstream : Upstream) (cache_key : PrimaryKey)
      (policy : RequestPolicy) (entry : StaleEntry)
      → Ends (λ c. Quiet w c.1) (while_revalidating now w req upstream cache_key policy entry)
  unfolding while_revalidating
  while_revalidating-Quiet now w req upstream cache_key policy entry =
      let K : Cached × World → Type 1 = λ c. Quiet w c.1 in
      Ends-if K
        (not (may_serve_stale policy)
          || not (may_serve_while_revalidating now entry.response.value))
        _ _ (Ends-done K (revalidate entry, w) (Quiet-refl w))
        (Ends-map_run K (λ r. (answer r, refresh_in_background w req upstream cache_key entry))
          (cached_response now entry.response.value stale)
          (λ r. refresh_in_background-Quiet w req upstream cache_key entry))

  use_found-Quiet :
      (now : Instant) (w : World) (req : Request) (upstream : Upstream) (cache_key : PrimaryKey)
      (policy : RequestPolicy) (fresh_use : FreshUse) (found : Option Lookup)
      → Ends (λ c. Quiet w c.1) (use_found now w req upstream cache_key policy fresh_use found)
  unfolding use_found
  use_found-Quiet now w req upstream cache_key policy fresh_use none =
      Ends-done (λ (c : Cached × World). Quiet w c.1) (nothing, w) (Quiet-refl w)
  use_found-Quiet now w req upstream cache_key policy fresh_use (some (Lookup.fresh stored)) =
      Ends-map_run (λ (c : Cached × World). Quiet w c.1) (λ r. (answer r, w))
        (cached_response now stored.value (use_label fresh_use)) (λ r. Quiet-refl w)
  use_found-Quiet now w req upstream cache_key policy fresh_use (some (Lookup.stale entry)) =
      let K : Cached × World → Type 1 = λ c. Quiet w c.1 in
      Ends-if K (eqb req.method Names.get) _ _
        (while_revalidating-Quiet now w req upstream cache_key policy entry)
        (Ends-done K (nothing, w) (Quiet-refl w))

  pub from_cache-Quiet :
      (clock : Clock) (w : World) (req : Request) (upstream : Upstream) (cache_key : PrimaryKey)
      (policy : RequestPolicy) (fresh_use : FreshUse)
      → Ends (λ c. Quiet w c.1) (from_cache clock w req upstream cache_key policy fresh_use)
  unfolding from_cache
  from_cache-Quiet clock w req upstream cache_key policy fresh_use =
      let K : Cached × World → Type 1 = λ c. Quiet w c.1 in
      Ends-if K (not policy.may_serve) _ _ (Ends-done K (nothing, w) (Quiet-refl w)) (
        Ends-bind K (lookup clock w.cache cache_key req.headers policy.max_age)
          (λ found. use_found clock.instant w req upstream cache_key policy fresh_use found)
          (λ found. use_found-Quiet clock.instant w req upstream cache_key policy fresh_use found))
