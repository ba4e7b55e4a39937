-- ===== src/Cache/Store/Refines.antt =====
-- The store refines the abstract cache of `Shelf`.
use shadowstep.Prelude.{
  ap, ℕ, suc, ◌<◌, ◌≡◌, refl, ◌∙◌, List, Option, some, length, arith, Bool-cases, inl, inr,
}
use shadowstep.Time.{Duration, Instant}
use shadowstep.Run.{done}
use shadowstep.Http.{Http}
use shadowstep.Cache.Vary.{vary_values}
use shadowstep.Cache.Response.{PrimaryKey, Index, ResponseKey, Key, Entry}
use shadowstep.Cache.Store.Defs.{
  Clock, Caches, Store, Lookup, lookup, lookup_key, new, entry_count, weighted_size, u64_mod,
  StaleEntry, contains_key,
}
use shadowstep.Cache.Store.Writes.{start_refresh, drop_refresh}
use shadowstep.Cache.Store.Ledger.{Insertion}
use shadowstep.Cache.Store.Reach.{
  le-after_insert, le-after_freshen, Reached, opened, inserted, freshened, invalidated,
  asset_inserted, counted, weighed, refresh_started, refresh_dropped, evicted, Reached-Inv,
}
use shadowstep.Cache.Store.Variants.{found, lookup-found}
use shadowstep.Cache.Store.Shelf.{Shelves, empty, clear, stocked, refreshed, find, find-at}
use shadowstep.Cache.Store.Holds.{Holds, shrink-Holds, invalidate-Holds}
use shadowstep.Cache.Store.Files.{index-insert_asset, responses-insert_asset}
use shadowstep.Cache.Store.Stocks.{insert_response-Holds}
use shadowstep.Cache.Store.Restocks.{freshen-Holds}

module _ ⦃caches : Caches⦄ ⦃http : Http⦄ where
  open caches use {entries as E, index as I}

  -- The same calls on the abstract cache. Evictions, expiry and assets do not concern it.
  unfoldable pub shelves : {s : Store} {history : List Insertion} → Reached s history → Shelves
  shelves (opened size_mb ttl) = empty
  shelves (inserted {s} clock primary vary policy status headers body r) =
      stocked clock s primary vary policy status headers body (shelves r)
  shelves (freshened {s} clock entry policy request update age r) =
      refreshed clock s entry policy request update age (shelves r)
  shelves (invalidated primary r) = clear primary (shelves r)
  shelves (asset_inserted clock path content etag modified r) = shelves r
  shelves (counted clock r) = shelves r
  shelves (weighed clock r) = shelves r
  shelves (refresh_started entry r) = shelves r
  shelves (refresh_dropped key r) = shelves r
  shelves (evicted entries index fewer_entries fewer_index r) = shelves r

  none_built :
      (size_mb : ℕ) (ttl : Duration) (now : Instant) (p : PrimaryKey) (x : Index)
      → I.get now (new size_mb ttl).index p ≡ some x
      → ⊥
  unfolding new
  none_built size_mb ttl now p x h = cc (h, I.get-build now _ _ _ p)

  -- A store whose entries lost some and whose index is the same.
  fewer-Holds :
      (clock : Clock) (s s' : Store) (shelves : Shelves)
      → Holds s shelves
      → s'.index ≡ s.index
      → s'.entries ≡ E.run_pending_tasks clock.instant s.entries
      → Holds s' shelves
  fewer-Holds clock s s' shelves holds i e =
      shrink-Holds s s' shelves holds (λ now p x h. rw i at h)
        (λ now k q h.
          E.get-run_pending_tasks clock.instant now s.entries (Key.response k) _ (rw e at h))

  start_refresh-Holds :
      (s : Store) (entry : StaleEntry) (shelves : Shelves)
      → Holds s shelves
      → Holds (start_refresh s entry).1 shelves
  unfolding start_refresh
  start_refresh-Holds s entry shelves holds =
      elim (Bool-cases (contains_key s.refreshing entry.key)) [
        | inl running ↦ rw (running, start_refresh) holds
        | inr idle ↦
            rw (idle, start_refresh)
              (shrink-Holds s _ shelves holds (λ now p x h. h) (λ now k q h. h))
      ]

  drop_refresh-Holds :
      (s : Store) (key : ResponseKey) (shelves : Shelves)
      → Holds s shelves
      → Holds (drop_refresh s key) shelves
  unfolding drop_refresh
  drop_refresh-Holds s key shelves holds =
      shrink-Holds s _ shelves holds (λ now p x h. h) (λ now k q h. h)

  Reached-Holds :
      {s : Store} {history : List Insertion} (r : Reached s history)
      → suc (length history) < u64_mod
      → Holds s (shelves r)
  unfolding shelves
  Reached-Holds (opened size_mb ttl) room = λ now p x h. absurd (none_built size_mb ttl now p x h)
  Reached-Holds (inserted {s} {history} clock primary vary policy status headers body r) room =
      let less = le-after_insert clock s primary vary policy status headers body history in
      insert_response-Holds clock s primary vary policy status headers body (shelves r) history
        (Reached-Inv r (omega arith)) (Reached-Holds r (omega arith))
  Reached-Holds (freshened {s} {history} clock entry policy request update age r) room =
      let less = le-after_freshen clock s entry policy request update age history in
      freshen-Holds clock s entry policy request update age (shelves r) history
        (Reached-Inv r (omega arith)) (Reached-Holds r (omega arith))
  Reached-Holds (invalidated {s} primary r) room =
      invalidate-Holds s primary (shelves r) (Reached-Holds r room)
  Reached-Holds (asset_inserted {s} {history} clock path content etag modified r) room =
      let (same, _) = index-insert_asset clock s path content etag modified in
      shrink-Holds s _ (shelves r) (Reached-Holds r room) (λ now p x h. rw same at h)
        (λ now k q h. responses-insert_asset clock s path content etag modified now k q h)
  Reached-Holds (counted {s} {history} clock r) room =
      fewer-Holds clock s _ (shelves r) (Reached-Holds r room) (unfold entry_count in refl)
        (unfold entry_count in refl)
  Reached-Holds (weighed {s} {history} clock r) room =
      fewer-Holds clock s _ (shelves r) (Reached-Holds r room) (unfold weighted_size in refl)
        (unfold weighted_size in refl)
  Reached-Holds (refresh_started {s} {history} entry r) room =
      start_refresh-Holds s entry (shelves r) (Reached-Holds r room)
  Reached-Holds (refresh_dropped {s} {history} key r) room =
      drop_refresh-Holds s key (shelves r) (Reached-Holds r room)
  Reached-Holds (evicted {s} {history} entries index fewer_entries fewer_index r) room =
      shrink-Holds s _ (shelves r) (Reached-Holds r room) fewer_index
        (λ now k q h. fewer_entries now (Key.response k) (Entry.response q) h)

  -- The store refines the abstract cache: along any calls, evictions and expiries, while fewer than
  -- 2^64 responses were inserted, a response that a lookup finds is the one that the abstract cache
  -- has for the request after the same calls. So it is the latest of its variant, no `invalidate`
  -- of its URI came after it, and no response with other `Vary` names.
  pub lookup-refines :
      (clock : Clock) (s : Store) (history : List Insertion) (primary : PrimaryKey)
      (request : http.HeaderMap) (max_age : Option Duration) (l : Lookup) (r : Reached s history)
      → suc (length history) < u64_mod
      → lookup clock s primary request max_age ≡ done (some l)
      → find (shelves r) primary request ≡ some (found l)
  unfolding lookup_key
  lookup-refines clock s history primary request max_age l r room h =
      let (x, at_index, at_entry) = lookup-found clock s primary request max_age l h in
      let (shelf, at, on) = Reached-Holds r room clock.instant primary x at_index in
      find-at (shelves r) primary request shelf at
      ∙ ap (λ n. shelf.responses (vary_values n request)) on.named
      ∙ on.responses_on clock.instant (vary_values x.vary request) (found l) at_entry
