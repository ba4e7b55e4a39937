-- ===== src/Cache/Store/Laws.antt =====
-- How the store's methods affect later lookups.
use shadowstep.Prelude.{
  ℕ, ◌≤◌, ◌<◌, ◌≡◌, inl, inr, refl, List, Option, none, some, arith, Option-cases,
}
use shadowstep.Text.{Text, Bytes}
use shadowstep.Run.{done}
use shadowstep.Time.{Instant, Duration, elapsed}
use shadowstep.Http.{Http, StatusCode}
use shadowstep.Cache.Stale.{grace}
use shadowstep.Cache.Storable.{Storable}
use shadowstep.Cache.Vary.{Vary, vary_values}
use shadowstep.Cache.Response.{
  PrimaryKey, Index, ResponseKey, Key, Fields, StoredResponse, Arc, Entry, is_fresh, entry_ttl,
}
use shadowstep.Cache.Store.Defs.{
  Clock, Caches, Store, fresh, lookup, lookup_entry, lookup_key, classify, usable, new,
}
use shadowstep.Cache.Store.Writes.{insert_response, invalidate, response, choose_generation}

module _ ⦃caches : Caches⦄ where
  open caches use {entries as E, index as I}

  -- The index is built to keep a URI at least as long as the other cache keeps any response that
  -- a store of the same ttl makes, so that a stored response does not become unreachable by age.
  pub entry_ttl-response-le :
      (now : Instant) (size_mb : ℕ) (s : Store) (policy : Storable) (status : StatusCode)
      (headers : Fields) (body : Bytes) (address : ℕ) (primary : PrimaryKey) (x : Index)
      → entry_ttl (
          Entry.response
            (record { address = address; value = response now s policy status headers body }))
        ≤ I.lifetime (new size_mb s.ttl).index primary x
  unfolding entry_ttl response new grace
  entry_ttl-response-le now size_mb s policy status headers body address primary x =
      omega (arith, I.lifetime-build _ _ _ primary x)

  insert_response-some :
      (clock : Clock) (s : Store) (primary : PrimaryKey) (vary : Vary) (policy : Storable)
      (status : StatusCode) (headers : Fields) (body : Bytes) (r : Arc StoredResponse) (s' : Store)
      → insert_response clock s primary vary policy status headers body ≡ (some r, s')
      → (g : ℕ) × (s'.index
          ≡ I.insert clock.instant s.index primary (record { vary = vary.names; generation = g }))
        × (s'.entries
            ≡ E.run_pending_tasks clock.instant (
                E.insert clock.instant s.entries
                  (Key.response (record { primary = primary; generation = g; vary = vary.values }))
                  (Entry.response r)))
        × (r.value.stored_at ≡ clock.instant)
  unfolding insert_response
  insert_response-some clock s primary vary policy status headers body r s' h = (
    (choose_generation s (I.get clock.instant s.index primary) vary.names).0,
    ground arith,
    ground arith,
    ground arith,
  )

  module _ ⦃http : Http⦄ where
    open http use {HeaderMap}

    -- A response that was inserted is found fresh by a request with its `Vary` values that names no
    -- `max-age`, at any time before its freshness lifetime ends, if neither cache has dropped its
    -- entry.
    pub lookup-insert_response :
        (clock later : Clock) (s : Store) (primary : PrimaryKey) (names : List Text)
        (policy : Storable) (status : StatusCode) (headers : Fields) (body : Bytes)
        (request asking : HeaderMap) (r : Arc StoredResponse) (s' : Store) (x : Index) (e : Entry)
        → insert_response clock s primary
            (record { names = names; values = vary_values names request })
            policy
            status
            headers
            body
          ≡ (some r, s')
        → vary_values names asking ≡ vary_values names request
        → I.get later.instant s'.index primary ≡ some x
        → E.get later.instant s'.entries (
            Key.response (record {
              primary = primary;
              generation = x.generation;
              vary = vary_values names request;
            }))
          ≡ some e
        → elapsed clock.instant later.instant < r.value.ttl
        → lookup later s' primary asking none ≡ done (some (fresh r))
    unfolding lookup lookup_entry lookup_key usable is_fresh classify
    lookup-insert_response clock later s primary names policy status headers body request asking r
          s' x e h same hx he young =
        let (g, index, entries, at) =
          insert_response-some clock s primary _ policy status headers body r s' h in
        let key : ResponseKey = record {
          primary = primary;
          generation = x.generation;
          vary = vary_values names request;
        } in
        let found_x =
          I.get-insert clock.instant later.instant s.index primary
            (record { vary = names; generation = g }) primary x (rw index at hx) in
        let found_e =
          E.get-insert clock.instant later.instant s.entries
            (Key.response
              (record { primary = primary; generation = g; vary = vary_values names request }))
            (Entry.response r) (Key.response key) e
            (E.get-run_pending_tasks clock.instant later.instant _ (Key.response key) e
              (rw entries at he)) in
        ground (arith, found_x, found_e)

    -- After `invalidate` no lookup finds a response for the URI.
    pub lookup-invalidate :
        (clock : Clock) (s : Store) (primary : PrimaryKey) (request : HeaderMap)
        (max_age : Option Duration)
        → lookup clock (invalidate s primary) primary request max_age ≡ done none
    unfolding lookup invalidate
    lookup-invalidate clock s primary request max_age =
        elim (Option-cases (I.get clock.instant (I.invalidate s.index primary) primary)) [
          | inl e ↦ rw (e, lookup, invalidate) refl
          | inr (x, e) ↦
              absurd ((I.get-invalidate clock.instant s.index primary primary x e).0 refl)
        ]
