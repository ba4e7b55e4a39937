-- ===== src/Cache/Store/Writes.antt =====
-- src/cache.rs, the methods of `Store` that change what it holds: `insert_response`, `freshen`,
-- `invalidate`, `start_refresh` and the drop of a `RefreshGuard`.
use shadowstep.Prelude.{
  ℕ, ◌+◌, ◌%◌, Bool, true, false, ◌&&◌, ◌||◌, not, List, [], ◌∷◌, Option, none, some, min, ltb,
  ◌==◌, if◌then◌else◌, length, is_empty,
}
use shadowstep.Text.{Bytes, eqb}
use shadowstep.Time.{Instant}
use shadowstep.Http.{Http, append_all, HeaderName, HeaderValue, StatusCode}
use shadowstep.Cache.Names
use shadowstep.Cache.Policy.{RequestPolicy}
use shadowstep.Cache.Stale
use shadowstep.Cache.Storable.{default, Storable, storable}
use shadowstep.Cache.Vary.{Vary}
use shadowstep.Cache.Response.{
  PrimaryKey, Index, ResponseKey, Key, Fields, StoredResponse, Arc, Entry, validators,
  updated_fields,
}
use shadowstep.Cache.Store.Defs.{
  Clock, Caches, Store, StaleEntry, enabled, contains_key, remove_key, response_of, u64_mod,
}

-- `==` on lists of names.
unfoldable pub names_eqb : List HeaderName → List HeaderName → Bool
names_eqb [] [] = true
names_eqb [] (y ∷ ys) = false
names_eqb (x ∷ xs) [] = false
names_eqb (x ∷ xs) (y ∷ ys) = eqb x y && names_eqb xs ys

module _ ⦃caches : Caches⦄ where
  open caches use {entries as E, index as I}

  -- `None` when a background revalidation of the entry is already running.
  unfoldable pub start_refresh : Store → StaleEntry → Option ResponseKey × Store
  start_refresh s entry =
      if contains_key s.refreshing entry.key
      then (none, s)
      else (some entry.key, record s { refreshing = entry.key ∷ s.refreshing })

  -- `RefreshGuard::drop`.
  unfoldable pub drop_refresh : Store → ResponseKey → Store
  drop_refresh s key = record s { refreshing = remove_key s.refreshing key }

  -- `Store::response`: a response as it is stored now.
  unfoldable pub response :
      Instant → Store → Storable → StatusCode → Fields → Bytes → StoredResponse
  response now s policy status headers body =
      let r : StoredResponse = record {
        status = status;
        headers = headers;
        body = body;
        stored_at = now;
        initial_age = policy.initial_age;
        ttl = min policy.ttl s.ttl;
        grace = 0;
        stale = policy.stale;
      } in
      record r { grace = Stale.grace policy.stale (not (is_empty (validators r))) s.ttl }

  -- The generation under which a response with these `Vary` names is stored, and the counter
  -- after it: `fetch_add` wraps around.
  unfoldable pub choose_generation : Store → Option Index → List HeaderName → ℕ × ℕ
  choose_generation s none names = (s.generation, (s.generation + 1) % u64_mod)
  choose_generation s (some index) names =
      if names_eqb index.vary names
      then (index.generation, s.generation)
      else (s.generation, (s.generation + 1) % u64_mod)

  unfoldable pub insert_response :
      Clock
      → Store
      → PrimaryKey
      → Vary
      → Storable
      → StatusCode
      → Fields
      → Bytes
      → Option (Arc StoredResponse) × Store
  unfolding enabled choose_generation response
  insert_response clock s primary vary policy status headers body =
      if not (enabled s) || ltb s.max_entry (length body)
      then (none, s)
      else (let (generation, next) =
            choose_generation s (I.get clock.instant s.index primary) vary.names in
          let key : ResponseKey = record {
            primary = primary;
            generation = generation;
            vary = vary.values;
          } in
          let r : Arc StoredResponse = record {
            address = s.next_address;
            value = response clock.instant s policy status headers body;
          } in
          (
            some r,
            record s {
              index =
                  I.insert clock.instant s.index primary
                    (record { vary = vary.names; generation = generation });
              generation = next;
              entries =
                  E.run_pending_tasks clock.instant
                    (E.insert clock.instant s.entries (Key.response key) (Entry.response r));
              next_address = s.next_address + 1;
            },
          ))

  -- `Store::invalidate`.
  unfoldable pub invalidate : Store → PrimaryKey → Store
  invalidate s primary = record s { index = I.invalidate s.index primary }

  -- Whether the entry found is the one that was looked up: `Arc::ptr_eq`.
  abbrev pub is_current : Option (Arc StoredResponse) → Arc StoredResponse → Bool
  is_current none stored = false
  is_current (some r) stored = r.address == stored.address

  -- The end of `freshen`: a response of its own, which the store does not hold.
  unfoldable pub detached :
      Clock → Store → Storable → Arc StoredResponse → Fields → Arc StoredResponse × Store
  unfolding response
  detached clock s policy stored headers = (
    record {
      address = s.next_address;
      value = response clock.instant s policy stored.value.status headers stored.value.body;
    },
    record s { next_address = s.next_address + 1 },
  )

  -- The 304's answer once it may be stored: it replaces the entry that is still current.
  unfoldable pub replace :
      Clock → Store → StaleEntry → Storable → Vary → Fields → Bool → Arc StoredResponse × Store
  unfolding insert_response detached
  replace clock s entry policy vary headers false = detached clock s policy entry.response headers
  replace clock s entry policy vary headers true =
      let stored = entry.response.value in
      let (inserted, s') =
        insert_response clock s entry.key.primary vary policy stored.status headers stored.body in
      elim inserted [
        | some fresh ↦ (fresh, s')
        | none ↦ detached clock s' policy entry.response headers
      ]

  module _ ⦃http : Http⦄ where
    open http use {HeaderMap, new, append, insert}

    -- The header map on which a 304's answer is judged.
    unfoldable pub freshened_map : Fields → Option HeaderValue → HeaderMap
    unfolding append_all
    freshened_map headers none = append_all new headers
    freshened_map headers (some age) = insert (append_all new headers) Names.age age

    unfoldable pub freshen :
        Clock
        → Store
        → StaleEntry
        → RequestPolicy
        → HeaderMap
        → Fields
        → Option HeaderValue
        → Arc StoredResponse × Store
    unfolding freshened_map replace detached
    freshen clock s entry policy request update age =
        let stored = entry.response in
        let headers = updated_fields stored.value.headers update in
        let map = freshened_map headers age in
        let key = Key.response entry.key in
        let current = is_current (response_of (E.get clock.instant s.entries key)) stored in
        elim (storable clock.system policy request stored.value.status map) [
          | some (p, vary) ↦ replace clock s entry p vary headers current
          | none ↦
              let s' : Store =
                if current then record s { entries = E.invalidate s.entries key } else s in
              detached clock s' default stored headers
        ]
