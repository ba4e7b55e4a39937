-- ===== src/Cache/Store/Freshens.antt =====
-- `freshen` keeps the invariant: it inserts one response, removes one, or changes nothing.
use shadowstep.Prelude.{
  suc, ◌<◌, inl, inr, refl, Bool, true, false, List, Option, none, some, length, Option-cases,
  if◌then◌else◌,
}
use shadowstep.Http.{Http, HeaderValue}
use shadowstep.Cache.Policy.{RequestPolicy}
use shadowstep.Cache.Storable.{default, Storable, storable}
use shadowstep.Cache.Vary.{Vary}
use shadowstep.Cache.Response.{Key, Fields, StoredResponse, Arc, updated_fields}
use shadowstep.Cache.Store.Defs.{Clock, Caches, Store, StaleEntry, response_of, u64_mod}
use shadowstep.Cache.Store.Writes.{
  insert_response, detached, replace, is_current, freshened_map, freshen,
}
use shadowstep.Cache.Store.Ledger.{Insertion, Inv, after_insert}
use shadowstep.Cache.Store.Preserve.{shrink-Inv}
use shadowstep.Cache.Store.Inserts.{insert_response-Inv}

module _ ⦃caches : Caches⦄ where
  open caches use {entries as E, index as I}

  -- A response of its own changes only the next address.
  detached-Inv :
      (clock : Clock) (s : Store) (policy : Storable) (stored : Arc StoredResponse)
      (headers : Fields) (history : List Insertion)
      → Inv s history
      → Inv (detached clock s policy stored headers).1 history
  unfolding detached
  detached-Inv clock s policy stored headers history v =
      shrink-Inv s _ history v refl (λ now p x h. h) (λ now k r h. h)

  -- Removing an entry keeps the invariant.
  remove-Inv :
      (s : Store) (key : Key) (history : List Insertion)
      → Inv s history
      → Inv (record s { entries = E.invalidate s.entries key }) history
  remove-Inv s key history v =
      shrink-Inv s _ history v refl (λ now p x h. h)
        (λ now k r h. (E.get-invalidate now s.entries key (Key.response k) _ h).1)

  remove_if-Inv :
      (s : Store) (key : Key) (current : Bool) (history : List Insertion)
      → Inv s history
      → Inv (if current then record s { entries = E.invalidate s.entries key } else s) history
  remove_if-Inv s key true history v = remove-Inv s key history v
  remove_if-Inv s key false history v = v

  -- The history after the current entry, or one that is no longer current, was updated.
  abbrev pub after_replace :
      Clock → Store → StaleEntry → Storable → Vary → Fields → Bool → List Insertion → List Insertion
  after_replace clock s entry policy vary headers false history = history
  after_replace clock s entry policy vary headers true history =
      after_insert clock s entry.key.primary vary policy entry.response.value.status headers
        entry.response.value.body history

  replace-Inv :
      (clock : Clock) (s : Store) (entry : StaleEntry) (policy : Storable) (vary : Vary)
      (headers : Fields) (current : Bool) (history : List Insertion)
      → Inv s history
      → suc (length history) < u64_mod
      → Inv
          (replace clock s entry policy vary headers current).1
          (after_replace clock s entry policy vary headers current history)
  unfolding replace
  replace-Inv clock s entry policy vary headers false history v room =
      detached-Inv clock s policy entry.response headers history v
  replace-Inv clock s entry policy vary headers true history v room =
      let stored = entry.response.value in
      let kept =
        insert_response-Inv clock s entry.key.primary vary policy stored.status headers stored.body
          history v room in
      elim (Option-cases
        (insert_response clock s entry.key.primary vary policy stored.status headers
          stored.body).0) [
            | inl e ↦ rw (e, replace) (detached-Inv clock _ policy entry.response headers _ kept)
            | inr (r, e) ↦ rw (e, replace) kept
          ]

  module _ ⦃http : Http⦄ where
    open http use {HeaderMap}

    -- The history after a `freshen`.
    abbrev pub after_freshen :
        Clock
        → Store
        → StaleEntry
        → RequestPolicy
        → HeaderMap
        → Fields
        → Option HeaderValue
        → List Insertion
        → List Insertion
    after_freshen clock s entry policy request update age history =
        let stored = entry.response in
        let headers = updated_fields stored.value.headers update in
        let current =
          is_current (response_of (E.get clock.instant s.entries (Key.response entry.key)))
            stored in
        elim (storable clock.system policy request stored.value.status
          (freshened_map headers age)) [
            | none ↦ history
            | some (p, vary) ↦ after_replace clock s entry p vary headers current history
          ]

    pub freshen-Inv :
        (clock : Clock) (s : Store) (entry : StaleEntry) (policy : RequestPolicy)
        (request : HeaderMap) (update : Fields) (age : Option HeaderValue)
        (history : List Insertion)
        → Inv s history
        → suc (length history) < u64_mod
        → Inv
            (freshen clock s entry policy request update age).1
            (after_freshen clock s entry policy request update age history)
    unfolding freshen
    freshen-Inv clock s entry policy request update age history v room =
        let stored = entry.response in
        let headers = updated_fields stored.value.headers update in
        let current =
          is_current (response_of (E.get clock.instant s.entries (Key.response entry.key)))
            stored in
        elim (Option-cases
          (storable clock.system policy request stored.value.status (freshened_map headers age))) [
            | inl e ↦
                rw (e, freshen, after_freshen)
                  (detached-Inv clock _ default stored headers history
                    (remove_if-Inv s (Key.response entry.key) current history v))
            | inr ((p, vary), e) ↦
                rw (e, freshen, after_freshen)
                  (replace-Inv clock s entry p vary headers current history v room)
          ]
