-- ===== src/Cache/Store/Reach.antt =====
-- The stores that any sequence of calls of the methods leads to, and the invariant of `Ledger`
-- along each such sequence.
use shadowstep.Prelude.{
  ℕ, suc, ◌<◌, ◌≡◌, inl, inr, refl, Bool, true, false, List, [], Option, some, length, arith,
  Option-cases, Bool-cases, ◌≤◌,
}
use shadowstep.Text.{Text, Bytes}
use shadowstep.Time.{Instant, Duration, SystemTime}
use shadowstep.Http.{Http, HeaderValue, StatusCode}
use shadowstep.Cache.Policy.{RequestPolicy}
use shadowstep.Cache.Storable.{Storable, storable}
use shadowstep.Cache.Vary.{Vary}
use shadowstep.Cache.Response.{
  FilePath, PrimaryKey, Index, ResponseKey, Key, Fields, Entry, updated_fields,
}
use shadowstep.Cache.Store.Defs.{
  Clock, Caches, Store, StaleEntry, new, entry_count, weighted_size, insert_asset, u64_mod,
  contains_key,
}
use shadowstep.Cache.Store.Writes.{
  insert_response, freshen, freshened_map, invalidate, start_refresh, drop_refresh,
}
use shadowstep.Cache.Store.Ledger.{Insertion, Inv, after_insert}
use shadowstep.Cache.Store.Preserve.{new-Inv, shrink-Inv}
use shadowstep.Cache.Store.Files.{index-insert_asset, responses-insert_asset}
use shadowstep.Cache.Store.Inserts.{insert_response-Inv}
use shadowstep.Cache.Store.Freshens.{after_replace, after_freshen, freshen-Inv}

module _ ⦃caches : Caches⦄ ⦃http : Http⦄ where
  open caches use {entries as E, index as I}
  open http use {HeaderMap}

  -- The stores that calls of the methods lead to, in any order and at any times, with the history
  -- of what was inserted. The two caches may drop entries between the calls.
  pub data Reached : Store → List Insertion → Type 1 where
    opened : (size_mb : ℕ) (ttl : Duration) → Reached (new size_mb ttl) []
    inserted :
        {s : Store} {history : List Insertion} (clock : Clock) (primary : PrimaryKey) (vary : Vary)
        (policy : Storable) (status : StatusCode) (headers : Fields) (body : Bytes)
        → Reached s history
        → Reached
            (insert_response clock s primary vary policy status headers body).1
            (after_insert clock s primary vary policy status headers body history)
    freshened :
        {s : Store} {history : List Insertion} (clock : Clock) (entry : StaleEntry)
        (policy : RequestPolicy) (request : HeaderMap) (update : Fields) (age : Option HeaderValue)
        → Reached s history
        → Reached
            (freshen clock s entry policy request update age).1
            (after_freshen clock s entry policy request update age history)
    invalidated :
        {s : Store} {history : List Insertion} (primary : PrimaryKey)
        → Reached s history
        → Reached (invalidate s primary) history
    asset_inserted :
        {s : Store} {history : List Insertion} (clock : Clock) (path : FilePath) (content : Bytes)
        (etag : Text) (modified : SystemTime)
        → Reached s history
        → Reached (insert_asset clock s path content etag modified).1 history
    counted :
        {s : Store} {history : List Insertion} (clock : Clock)
        → Reached s history
        → Reached (entry_count clock s).1 history
    weighed :
        {s : Store} {history : List Insertion} (clock : Clock)
        → Reached s history
        → Reached (weighted_size clock s).1 history
    refresh_started :
        {s : Store} {history : List Insertion} (entry : StaleEntry)
        → Reached s history
        → Reached (start_refresh s entry).1 history
    refresh_dropped :
        {s : Store} {history : List Insertion} (key : ResponseKey)
        → Reached s history
        → Reached (drop_refresh s key) history
    evicted :
        {s : Store} {history : List Insertion} (entries : E.Cache) (index : I.Cache)
        → ((now : Instant) (k : Key) (e : Entry)
            → E.get now entries k ≡ some e
            → E.get now s.entries k ≡ some e)
        → ((now : Instant) (p : PrimaryKey) (x : Index)
            → I.get now index p ≡ some x
            → I.get now s.index p ≡ some x)
        → Reached s history
        → Reached (record s { entries = entries; index = index }) history

  invalidate-Inv :
      (s : Store) (primary : PrimaryKey) (history : List Insertion)
      → Inv s history
      → Inv (invalidate s primary) history
  unfolding invalidate
  invalidate-Inv s primary history v =
      shrink-Inv s _ history v refl (λ now p x h. (I.get-invalidate now s.index primary p x h).1)
        (λ now k r h. h)

  -- A store whose entries lost some and whose other caches are the same.
  fewer-Inv :
      (clock : Clock) (s s' : Store) (history : List Insertion)
      → Inv s history
      → s'.generation ≡ s.generation
      → s'.index ≡ s.index
      → s'.entries ≡ E.run_pending_tasks clock.instant s.entries
      → Inv s' history
  fewer-Inv clock s s' history v g i e =
      shrink-Inv s s' history v g (λ now p x h. rw i at h)
        (λ now k r h.
          E.get-run_pending_tasks clock.instant now s.entries (Key.response k) _ (rw e at h))

  start_refresh-Inv :
      (s : Store) (entry : StaleEntry) (history : List Insertion)
      → Inv s history
      → Inv (start_refresh s entry).1 history
  unfolding start_refresh
  start_refresh-Inv s entry history v = elim (Bool-cases (contains_key s.refreshing entry.key)) [
    | inl running ↦ rw (running, start_refresh) v
    | inr idle ↦
        rw (idle, start_refresh) (shrink-Inv s _ history v refl (λ now p x h. h) (λ now k r h. h))
  ]

  drop_refresh-Inv :
      (s : Store) (key : ResponseKey) (history : List Insertion)
      → Inv s history
      → Inv (drop_refresh s key) history
  unfolding drop_refresh
  drop_refresh-Inv s key history v = shrink-Inv s _ history v refl (λ now p x h. h) (λ now k r h. h)

  insert_asset-Inv :
      (clock : Clock) (s : Store) (path : FilePath) (content : Bytes) (etag : Text)
      (modified : SystemTime) (history : List Insertion)
      → Inv s history
      → Inv (insert_asset clock s path content etag modified).1 history
  insert_asset-Inv clock s path content etag modified history v =
      let (same_index, same_counter) = index-insert_asset clock s path content etag modified in
      shrink-Inv s _ history v same_counter (λ now p x h. rw same_index at h)
        (λ now k r h. responses-insert_asset clock s path content etag modified now k r h)

  pub le-after_insert :
      (clock : Clock) (s : Store) (primary : PrimaryKey) (vary : Vary) (policy : Storable)
      (status : StatusCode) (headers : Fields) (body : Bytes) (history : List Insertion)
      → length history
        ≤ length (after_insert clock s primary vary policy status headers body history)
  le-after_insert clock s primary vary policy status headers body history = ground arith

  le-after_replace :
      (clock : Clock) (s : Store) (entry : StaleEntry) (policy : Storable) (vary : Vary)
      (headers : Fields) (current : Bool) (history : List Insertion)
      → length history ≤ length (after_replace clock s entry policy vary headers current history)
  le-after_replace clock s entry policy vary headers false history = omega arith
  le-after_replace clock s entry policy vary headers true history =
      le-after_insert clock s entry.key.primary vary policy entry.response.value.status headers
        entry.response.value.body history

  pub le-after_freshen :
      (clock : Clock) (s : Store) (entry : StaleEntry) (policy : RequestPolicy)
      (request : HeaderMap) (update : Fields) (age : Option HeaderValue) (history : List Insertion)
      → length history ≤ length (after_freshen clock s entry policy request update age history)
  le-after_freshen clock s entry policy request update age history =
      let stored = entry.response in
      let headers = updated_fields stored.value.headers update in
      elim (Option-cases
        (storable clock.system policy request stored.value.status (freshened_map headers age))) [
          | inl e ↦ rw (e, after_freshen) (omega arith)
          | inr ((p, vary), e) ↦
              rw (e, after_freshen) (le-after_replace clock s entry p vary headers _ history)
        ]

  -- While fewer than 2^64 responses were ever inserted, so that the counter of generations has
  -- not wrapped around, the invariant holds.
  pub Reached-Inv :
      {s : Store} {history : List Insertion}
      → Reached s history
      → suc (length history) < u64_mod
      → Inv s history
  Reached-Inv (opened size_mb ttl) room = new-Inv size_mb ttl
  Reached-Inv (inserted {s} {history} clock primary vary policy status headers body r) room =
      let less = le-after_insert clock s primary vary policy status headers body history in
      insert_response-Inv clock s primary vary policy status headers body history
        (Reached-Inv r (omega arith)) (omega arith)
  Reached-Inv (freshened {s} {history} clock entry policy request update age r) room =
      let less = le-after_freshen clock s entry policy request update age history in
      freshen-Inv clock s entry policy request update age history (Reached-Inv r (omega arith))
        (omega arith)
  Reached-Inv (invalidated {s} {history} primary r) room =
      invalidate-Inv s primary history (Reached-Inv r room)
  Reached-Inv (asset_inserted {s} {history} clock path content etag modified r) room =
      insert_asset-Inv clock s path content etag modified history (Reached-Inv r room)
  Reached-Inv (counted {s} {history} clock r) room =
      fewer-Inv clock s _ history (Reached-Inv r room) (unfold entry_count in refl)
        (unfold entry_count in refl) (unfold entry_count in refl)
  Reached-Inv (weighed {s} {history} clock r) room =
      fewer-Inv clock s _ history (Reached-Inv r room) (unfold weighted_size in refl)
        (unfold weighted_size in refl) (unfold weighted_size in refl)
  Reached-Inv (refresh_started {s} {history} entry r) room =
      start_refresh-Inv s entry history (Reached-Inv r room)
  Reached-Inv (refresh_dropped {s} {history} key r) room =
      drop_refresh-Inv s key history (Reached-Inv r room)
  Reached-Inv (evicted {s} {history} entries index fewer_entries fewer_index r) room =
      shrink-Inv s _ history (Reached-Inv r room) refl fewer_index
        (λ now k r h. fewer_entries now (Key.response k) (Entry.response r) h)
