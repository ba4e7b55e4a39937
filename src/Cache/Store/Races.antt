-- ===== src/Cache/Store/Races.antt =====
-- What a lookup finds when the calls of several `insert_response` and lookups come in any order.
pub mod Numbers
pub mod Calls
pub mod Sound
use shadowstep.Prelude.{
  ℕ, suc, ◌+◌, ◌≤◌, ◌<◌, ◌≡◌, ◌≢◌, ◌⊎◌, refl, sym, ◌∙◌, ap, true, false, List, [], ◌∷◌, Option,
  none, some, arith, length, In, inl, inr, Bool-cases, Option-cases,
}
use shadowstep.Run.{done}
use shadowstep.Text.{Text, Bytes}
use shadowstep.Time.{Instant, Duration}
use shadowstep.Http.{Http, HeaderName, StatusCode}
use shadowstep.Cache.Storable.{Storable}
use shadowstep.Cache.Vary.{vary_values}
use shadowstep.Cache.Response.{
  PrimaryKey, Index, ResponseKey, Key, Fields, StoredResponse, Arc, Entry,
}
use shadowstep.Cache.Store.Defs.{Clock, Caches, Store, Lookup, lookup, lookup_key, new, u64_mod}
use shadowstep.Cache.Store.Writes.{names_eqb, choose_generation, invalidate, response}
use shadowstep.Cache.Store.Ledger.{Insertion}
use shadowstep.Cache.Store.Preserve.{names_eqb_iff}
use shadowstep.Cache.Store.Variants.{found, lookup-found}
use shadowstep.Cache.Store.Steps.{peek, number, put_index, put_entry}

-- A number that an `insert_response` took, with what it is for.
pub record Naming : Type 0 where
  pub primary : PrimaryKey
  pub generation : ℕ
  pub names : List HeaderName

module _ ⦃caches : Caches⦄ where
  open caches use {entries as E, index as I}

  -- What an `insert_response` may have found on its look at the index.
  abbrev pub Looked : PrimaryKey → Option Index → List (PrimaryKey × Index) → Type 0
  Looked primary none seen = Unit
  Looked primary (some x) seen = In (primary, x) seen

  -- The stores that the calls lead to, with what was seen in the index, the numbers that were
  -- taken and the responses that were inserted. A call may come at any time after the one before
  -- it of the same `insert_response`, whatever other threads did since.
  pub data Racing : Store → List (PrimaryKey × Index) → List Naming → List Insertion → Type 1 where
    opened : (size_mb : ℕ) (ttl : Duration) → Racing (new size_mb ttl) [] [] []
    looked :
        {s : Store} {seen : List (PrimaryKey × Index)} {named : List Naming}
        {history : List Insertion} (clock : Clock) (primary : PrimaryKey) (x : Index)
        → peek clock s primary ≡ some x
        → Racing s seen named history
        → Racing s ((primary, x) ∷ seen) named history
    numbered :
        {s : Store} {seen : List (PrimaryKey × Index)} {named : List Naming}
        {history : List Insertion} (primary : PrimaryKey) (peeked : Option Index)
        (names : List HeaderName)
        → Looked primary peeked seen
        → Racing s seen named history
        → Racing
            (number s peeked names).1
            seen
            (record { primary = primary; generation = (number s peeked names).0; names = names }
              ∷ named)
            history
    indexed :
        {s : Store} {seen : List (PrimaryKey × Index)} {named : List Naming}
        {history : List Insertion} (clock : Clock) (n : Naming)
        → In n named
        → Racing s seen named history
        → Racing (put_index clock s n.primary n.names n.generation) seen named history
    entered :
        {s : Store} {seen : List (PrimaryKey × Index)} {named : List Naming}
        {history : List Insertion} (clock : Clock) (n : Naming) (values : List (Option Text))
        (policy : Storable) (status : StatusCode) (headers : Fields) (body : Bytes)
        → In n named
        → Racing s seen named history
        → Racing
            (put_entry clock s n.primary values n.generation policy status headers body).1
            seen
            named
            (record {
              primary = n.primary;
              generation = n.generation;
              names = n.names;
              values = values;
              response =
                  (put_entry clock s n.primary values n.generation policy status headers body).0;
            }
              ∷ history)
    invalidated :
        {s : Store} {seen : List (PrimaryKey × Index)} {named : List Naming}
        {history : List Insertion} (primary : PrimaryKey)
        → Racing s seen named history
        → Racing (invalidate s primary) seen named history
    -- what adds no response: evictions, expiry, the removal of an entry by `freshen`, and the
    -- insertion of an asset
    lost :
        {s s' : Store} {seen : List (PrimaryKey × Index)} {named : List Naming}
        {history : List Insertion}
        → s'.generation ≡ s.generation
        → ((now : Instant) (k : ResponseKey) (r : Arc StoredResponse)
            → E.get now s'.entries (Key.response k) ≡ some (Entry.response r)
            → E.get now s.entries (Key.response k) ≡ some (Entry.response r))
        → ((now : Instant) (p : PrimaryKey) (x : Index)
            → I.get now s'.index p ≡ some x
            → I.get now s.index p ≡ some x)
        → Racing s seen named history
        → Racing s' seen named history

  -- A number stands for the URI and the `Vary` names.
  abbrev pub Means : ℕ → PrimaryKey → List HeaderName → List Naming → Type 0
  Means generation primary names named =
      (n : Naming) × In n named
      × (n.generation ≡ generation)
      × (n.primary ≡ primary)
      × (n.names ≡ names)
