-- ===== src/Cache/Store/Shelf.antt =====
-- What a store promises, as an abstract cache: each URI has at most one shelf, with the `Vary`
-- names of its responses and the response for each list of request values. Nothing expires there.
use shadowstep.Prelude.{
  ap, ◌≡◌, ◌≢◌, refl, false, List, Option, none, some, arith, ite, if◌then◌else◌, ◌>>=◌, true, Bool,
}
use native.Mathlib.Decide.{ℕ_discrete}
use shadowstep.Text.{Text, Bytes}
use shadowstep.Http.{Http, HeaderName, HeaderValue, StatusCode}
use shadowstep.Cache.Policy.{RequestPolicy}
use shadowstep.Cache.Storable.{Storable, storable}
use shadowstep.Cache.Vary.{Vary, vary_values}
use shadowstep.Cache.Response.{PrimaryKey, Key, Fields, StoredResponse, Arc, updated_fields}
use shadowstep.Cache.Store.Defs.{Clock, Caches, Store, StaleEntry, PrimaryKey-discrete, response_of}
use shadowstep.Cache.Store.Writes.{names_eqb, insert_response, is_current, freshened_map}

pub values-discrete : Discrete (List (Option Text))
values-discrete = hlevel ℕ_discrete

pub record Shelf : Type 0 where
  pub names : List HeaderName
  pub responses : List (Option Text) → Option (Arc StoredResponse)

abbrev pub Shelves : Type 0
Shelves = PrimaryKey → Option Shelf

abbrev pub empty : Shelves
empty p = none

-- A shelf with one response.
unfoldable pub alone : Vary → Arc StoredResponse → Shelf
alone vary r = record {
  names = vary.names;
  responses = λ v. ite (values-discrete v vary.values) (some r) none;
}

-- A response joins those with the same `Vary` names, and replaces those with others.
unfoldable pub add : Vary → Arc StoredResponse → Option Shelf → Shelf
unfolding alone
add vary r none = alone vary r
add vary r (some shelf) =
    if names_eqb shelf.names vary.names
    then record {
      names = vary.names;
      responses = λ v. ite (values-discrete v vary.values) (some r) (shelf.responses v);
    }
    else alone vary r

unfoldable pub put : PrimaryKey → Vary → Arc StoredResponse → Shelves → Shelves
unfolding add
put primary vary r shelves p =
    ite (PrimaryKey-discrete p primary) (some (add vary r (shelves primary))) (shelves p)

-- All the responses for a URI go.
unfoldable pub clear : PrimaryKey → Shelves → Shelves
clear primary shelves p = ite (PrimaryKey-discrete p primary) none (shelves p)

module _ ⦃http : Http⦄ where
  unfoldable pub find : Shelves → PrimaryKey → http.HeaderMap → Option (Arc StoredResponse)
  find shelves primary request =
      shelves primary >>= λ shelf. shelf.responses (vary_values shelf.names request)

  pub find-at :
      (shelves : Shelves) (primary : PrimaryKey) (request : http.HeaderMap) (shelf : Shelf)
      → shelves primary ≡ some shelf
      → find shelves primary request ≡ shelf.responses (vary_values shelf.names request)
  unfolding find
  find-at shelves primary request shelf at =
      ap (λ o. o >>= λ s. s.responses (vary_values s.names request)) at

pub names-add :
    (vary : Vary) (r : Arc StoredResponse) (o : Option Shelf) → (add vary r o).names ≡ vary.names
unfolding add alone
names-add vary r none = refl
names-add vary r (some shelf) = ground arith

pub responses-add :
    (vary : Vary) (r : Arc StoredResponse) (o : Option Shelf)
    → (add vary r o).responses vary.values ≡ some r
unfolding add alone
responses-add vary r none = ground arith
responses-add vary r (some shelf) = ground arith

pub responses-add_other :
    (vary : Vary) (r : Arc StoredResponse) (shelf : Shelf) (v : List (Option Text))
    → names_eqb shelf.names vary.names ≡ true
    → v ≢ vary.values
    → (add vary r (some shelf)).responses v ≡ shelf.responses v
unfolding add
responses-add_other vary r shelf v same other = ground arith

pub put-at :
    (primary : PrimaryKey) (vary : Vary) (r : Arc StoredResponse) (shelves : Shelves)
    → put primary vary r shelves primary ≡ some (add vary r (shelves primary))
unfolding put
put-at primary vary r shelves = ground arith

pub put-other :
    (primary p : PrimaryKey) (vary : Vary) (r : Arc StoredResponse) (shelves : Shelves)
    → p ≢ primary
    → put primary vary r shelves p ≡ shelves p
unfolding put
put-other primary p vary r shelves other = ground arith

pub clear-other :
    (primary p : PrimaryKey) (shelves : Shelves) → p ≢ primary → clear primary shelves p ≡ shelves p
unfolding clear
clear-other primary p shelves other = ground arith

module _ ⦃caches : Caches⦄ where
  open caches use {entries as E, index as I}

  -- The shelves after an `insert_response`, which may store nothing.
  abbrev pub stocked :
      Clock → Store → PrimaryKey → Vary → Storable → StatusCode → Fields → Bytes → Shelves → Shelves
  stocked clock s primary vary policy status headers body shelves =
      elim (insert_response clock s primary vary policy status headers body).0 [
        | none ↦ shelves
        | some r ↦ put primary vary r shelves
      ]

  -- The shelves after a 304 that may be stored.
  abbrev pub restocked :
      Clock → Store → StaleEntry → Storable → Vary → Fields → Bool → Shelves → Shelves
  restocked clock s entry policy vary headers false shelves = shelves
  restocked clock s entry policy vary headers true shelves =
      stocked clock s entry.key.primary vary policy entry.response.value.status headers
        entry.response.value.body shelves

  module _ ⦃http : Http⦄ where
    -- The shelves after a `freshen`.
    abbrev pub refreshed :
        Clock
        → Store
        → StaleEntry
        → RequestPolicy
        → http.HeaderMap
        → Fields
        → Option HeaderValue
        → Shelves
        → Shelves
    refreshed clock s entry policy request update age shelves =
        let stored = entry.response in
        let headers = updated_fields stored.value.headers update in
        let current =
          is_current (response_of (E.get clock.instant s.entries (Key.response entry.key)))
            stored in
        elim (storable clock.system policy request stored.value.status
          (freshened_map headers age)) [
            | none ↦ shelves
            | some (p, vary) ↦ restocked clock s entry p vary headers current shelves
          ]
