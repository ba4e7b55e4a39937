-- ===== src/Cache/Store/Restocks.antt =====
-- That `freshen` puts on a shelf what it stores.
use shadowstep.Prelude.{true, false, List, Option, Option-cases, inl, inr, Bool, if◌then◌else◌}
use shadowstep.Http.{Http, HeaderValue}
use shadowstep.Cache.Policy.{RequestPolicy}
use shadowstep.Cache.Storable.{Storable, storable, default}
use shadowstep.Cache.Vary.{Vary}
use shadowstep.Cache.Response.{Key, Fields, StoredResponse, Arc, updated_fields}
use shadowstep.Cache.Store.Defs.{Clock, Caches, Store, StaleEntry, response_of}
use shadowstep.Cache.Store.Writes.{
  insert_response, detached, replace, freshen, freshened_map, is_current,
}
use shadowstep.Cache.Store.Ledger.{Insertion, Inv}
use shadowstep.Cache.Store.Shelf.{Shelves, stocked, restocked, refreshed}
use shadowstep.Cache.Store.Holds.{Holds, shrink-Holds}
use shadowstep.Cache.Store.Stocks.{insert_response-Holds}

module _ ⦃caches : Caches⦄ where
  open caches use {entries as E, index as I}

  detached-Holds :
      (clock : Clock) (s : Store) (policy : Storable) (stored : Arc StoredResponse)
      (headers : Fields) (shelves : Shelves)
      → Holds s shelves
      → Holds (detached clock s policy stored headers).1 shelves
  unfolding detached
  detached-Holds clock s policy stored headers shelves holds =
      shrink-Holds s _ shelves holds (λ now p x h. h) (λ now k r h. h)

  remove_if-Holds :
      (s : Store) (key : Key) (current : Bool) (shelves : Shelves)
      → Holds s shelves
      → Holds (if current then record s { entries = E.invalidate s.entries key } else s) shelves
  remove_if-Holds s key false shelves holds = holds
  remove_if-Holds s key true shelves holds =
      shrink-Holds s _ shelves holds (λ now p x h. h)
        (λ now k r h. (E.get-invalidate now s.entries key (Key.response k) _ h).1)

  replace-Holds :
      (clock : Clock) (s : Store) (entry : StaleEntry) (policy : Storable) (vary : Vary)
      (headers : Fields) (current : Bool) (shelves : Shelves) (history : List Insertion)
      → Inv s history
      → Holds s shelves
      → Holds
          (replace clock s entry policy vary headers current).1
          (restocked clock s entry policy vary headers current shelves)
  unfolding replace
  replace-Holds clock s entry policy vary headers false shelves history v holds =
      detached-Holds clock s policy entry.response headers shelves holds
  replace-Holds clock s entry policy vary headers true shelves history v holds =
      let stored = entry.response.value in
      let kept =
        insert_response-Holds clock s entry.key.primary vary policy stored.status headers
          stored.body shelves history v holds in
      elim (Option-cases
        (insert_response clock s entry.key.primary vary policy stored.status headers
          stored.body).0) [
            | inl e ↦
                rw (e, replace, restocked, stocked)
                  (detached-Holds clock _ policy entry.response headers shelves
                    (rw (e, stocked) at kept))
            | inr (r, e) ↦ rw (e, replace, restocked, stocked) (rw (e, stocked) at kept)
          ]

  module _ ⦃http : Http⦄ where
    pub freshen-Holds :
        (clock : Clock) (s : Store) (entry : StaleEntry) (policy : RequestPolicy)
        (request : http.HeaderMap) (update : Fields) (age : Option HeaderValue) (shelves : Shelves)
        (history : List Insertion)
        → Inv s history
        → Holds s shelves
        → Holds
            (freshen clock s entry policy request update age).1
            (refreshed clock s entry policy request update age shelves)
    unfolding freshen
    freshen-Holds clock s entry policy request update age shelves history v holds =
        let stored = entry.response in
        let headers = updated_fields stored.value.headers update in
        let current =
          is_current (response_of (E.get clock.instant s.entries (Key.response entry.key)))
            stored in
        elim (Option-cases
          (storable clock.system policy request stored.value.status (freshened_map headers age))) [
            | inl e ↦
                rw (e, freshen, refreshed)
                  (detached-Holds clock _ default stored headers shelves
                    (remove_if-Holds s (Key.response entry.key) current shelves holds))
            | inr ((p, vary), e) ↦
                rw (e, freshen, refreshed)
                  (replace-Holds clock s entry p vary headers current shelves history v holds)
          ]
