-- ===== src/Cache/Store/Ledger.antt =====
-- The history of a store: every response that was ever inserted, newest first, with the key parts
-- and the `Vary` names under which it was stored, and what a store owes to its history.
use shadowstep.Prelude.{ℕ, ◌≤◌, ◌<◌, ◌≡◌, List, ◌∷◌, Option, none, some, length, In}
use shadowstep.Text.{Text, Bytes}
use shadowstep.Time.{Instant}
use shadowstep.Http.{HeaderName, StatusCode}
use shadowstep.Cache.Storable.{Storable}
use shadowstep.Cache.Vary.{Vary}
use shadowstep.Cache.Response.{
  PrimaryKey, Index, ResponseKey, Key, Fields, StoredResponse, Arc, Entry,
}
use shadowstep.Cache.Store.Defs.{Clock, Caches, Store}
use shadowstep.Cache.Store.Writes.{choose_generation, insert_response}

pub record Insertion : Type 0 where
  pub primary : PrimaryKey
  pub generation : ℕ
  pub names : List HeaderName
  pub values : List (Option Text)
  pub response : Arc StoredResponse

module _ ⦃caches : Caches⦄ where
  open caches use {entries as E, index as I}

  -- The history after an `insert_response`, which grows when a response was stored.
  abbrev pub after_insert :
      Clock
      → Store
      → PrimaryKey
      → Vary
      → Storable
      → StatusCode
      → Fields
      → Bytes
      → List Insertion
      → List Insertion
  after_insert clock s primary vary policy status headers body history =
      elim (insert_response clock s primary vary policy status headers body).0 [
        | none ↦ history
        | some r ↦
            record {
              primary = primary;
              generation = (choose_generation s (I.get clock.instant s.index primary) vary.names).0;
              names = vary.names;
              values = vary.values;
              response = r;
            }
            ∷ history
      ]

  -- Every generation in use stands for one URI and one list of `Vary` names, and whatever the two
  -- caches hold was inserted under the key where it is found.
  pub record Inv (s : Store) (history : List Insertion) : Type 0 where
    pub counted : s.generation ≤ length history
    pub used : (i : Insertion) → In i history → i.generation < s.generation
    pub one_meaning :
        (i j : Insertion)
        → In i history
        → In j history
        → i.generation ≡ j.generation
        → (i.primary ≡ j.primary) × (i.names ≡ j.names)
    pub index_known :
        (now : Instant) (p : PrimaryKey) (x : Index)
        → I.get now s.index p ≡ some x
        → (i : Insertion) × In i history
          × (i.primary ≡ p)
          × (i.generation ≡ x.generation)
          × (i.names ≡ x.vary)
    pub entry_known :
        (now : Instant) (k : ResponseKey) (r : Arc StoredResponse)
        → E.get now s.entries (Key.response k) ≡ some (Entry.response r)
        → (i : Insertion) × In i history
          × (i.primary ≡ k.primary)
          × (i.generation ≡ k.generation)
          × (i.values ≡ k.vary)
          × (i.response ≡ r)
