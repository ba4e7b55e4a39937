-- ===== src/Cache/Store/Steps.antt =====
-- src/cache.rs, `Store::insert_response` and `Store::lookup` call by call. The calls of two threads
-- may come in any order, and each is one step of its own: a look at the index, a new number from
-- the counter, the write of the index, the write of the entry, and the look at the entries.
use shadowstep.Prelude.{
  ℕ, ◌+◌, ◌≡◌, refl, not, ◌||◌, List, Option, none, some, ltb, length, if◌then◌else◌,
}
use shadowstep.Text.{Text, Bytes}
use shadowstep.Run.{Run, done}
use shadowstep.Time.{Duration}
use shadowstep.Http.{Http, HeaderName, StatusCode}
use shadowstep.Cache.Storable.{Storable}
use shadowstep.Cache.Vary.{Vary, vary_values}
use shadowstep.Cache.Response.{
  PrimaryKey, Index, ResponseKey, Key, Fields, StoredResponse, Arc, Entry,
}
use shadowstep.Cache.Store.Defs.{
  Clock, Caches, Store, Lookup, lookup, lookup_entry, lookup_key, enabled,
}
use shadowstep.Cache.Store.Writes.{choose_generation, insert_response, response}

module _ ⦃caches : Caches⦄ where
  open caches use {entries as E, index as I}

  -- `index.get`.
  unfoldable pub peek : Clock → Store → PrimaryKey → Option Index
  peek clock s primary = I.get clock.instant s.index primary

  -- The match on what the look found, with `fetch_add`.
  unfoldable pub number : Store → Option Index → List HeaderName → ℕ × Store
  unfolding choose_generation
  number s peeked names =
      let (generation, next) = choose_generation s peeked names in
      (generation, record s { generation = next })

  -- `index.insert`.
  unfoldable pub put_index : Clock → Store → PrimaryKey → List HeaderName → ℕ → Store
  put_index clock s primary names generation = record s {
    index =
        I.insert clock.instant s.index primary (record { vary = names; generation = generation });
  }

  -- `entries.insert`, of a response that is made now, and `run_pending_tasks`.
  unfoldable pub put_entry :
      Clock
      → Store
      → PrimaryKey
      → List (Option Text)
      → ℕ
      → Storable
      → StatusCode
      → Fields
      → Bytes
      → Arc StoredResponse × Store
  unfolding response
  put_entry clock s primary values generation policy status headers body =
      let key : ResponseKey = record {
        primary = primary;
        generation = generation;
        vary = values;
      } in
      let r : Arc StoredResponse = record {
        address = s.next_address;
        value = response clock.instant s policy status headers body;
      } in
      (
        r,
        record s {
          entries =
              E.run_pending_tasks clock.instant
                (E.insert clock.instant s.entries (Key.response key) (Entry.response r));
          next_address = s.next_address + 1;
        },
      )

  module _ ⦃http : Http⦄ where
    open http use {HeaderMap}

    -- `entries.get` in `lookup`, with what its look at the index found, and what follows.
    unfoldable pub find_variant :
        Clock → Store → PrimaryKey → Index → HeaderMap → Option Duration → Run (Option Lookup)
    unfolding lookup_entry lookup_key
    find_variant clock s primary x request max_age =
        let key = lookup_key primary x (vary_values x.vary request) in
        lookup_entry clock key (E.get clock.instant s.entries (Key.response key)) max_age

    -- A lookup is its two looks, one after the other.
    find_variant-lookup :
        (clock : Clock) (s : Store) (primary : PrimaryKey) (request : HeaderMap)
        (max_age : Option Duration)
        → (elim (peek clock s primary) [
          | none ↦ done none
          | some x ↦ find_variant clock s primary x request max_age
        ])
          ≡ lookup clock s primary request max_age
    unfolding find_variant peek lookup
    find_variant-lookup clock s primary request max_age = refl

  -- The calls of one `insert_response`, with no others between them.
  unfoldable pub insert_in_steps :
      Clock
      → Store
      → PrimaryKey
      → Vary
      → Storable
      → StatusCode
      → Fields
      → Bytes
      → Option (Arc StoredResponse) × Store
  unfolding peek number put_index put_entry
  insert_in_steps clock s primary vary policy status headers body =
      if not (enabled s) || ltb s.max_entry (length body)
      then (none, s)
      else (let (generation, s1) = number s (peek clock s primary) vary.names in
          let s2 = put_index clock s1 primary vary.names generation in
          let (r, s3) =
            put_entry clock s2 primary vary.values generation policy status headers body in
          (some r, s3))

  -- One `insert_response` is its calls of the two caches one after the other, so the theorems on
  -- whole methods hold of these calls while no other thread's come between them.
  pub insert_in_steps-insert_response :
      (clock : Clock) (s : Store) (primary : PrimaryKey) (vary : Vary) (policy : Storable)
      (status : StatusCode) (headers : Fields) (body : Bytes)
      → insert_in_steps clock s primary vary policy status headers body
        ≡ insert_response clock s primary vary policy status headers body
  unfolding insert_in_steps insert_response response
  insert_in_steps-insert_response clock s primary vary policy status headers body = refl
