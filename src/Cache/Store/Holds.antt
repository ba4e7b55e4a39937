-- ===== src/Cache/Store/Holds.antt =====
-- That a store holds nothing but what stands on the shelves, and that each method keeps it so.
use shadowstep.Prelude.{◌≡◌, ◌∙◌, List, Option, some}
use shadowstep.Text.{Text}
use shadowstep.Time.{Instant}
use shadowstep.Cache.Response.{PrimaryKey, Index, ResponseKey, Key, StoredResponse, Arc, Entry}
use shadowstep.Cache.Store.Defs.{Caches, Store}
use shadowstep.Cache.Store.Writes.{invalidate}
use shadowstep.Cache.Store.Shelf.{Shelf, Shelves, clear, clear-other}

module _ ⦃caches : Caches⦄ where
  open caches use {entries as E, index as I}

  -- What the entries hold under the generation of an index stands on the shelf.
  pub record OnShelf (s : Store) (p : PrimaryKey) (x : Index) (shelf : Shelf) : Type 0 where
    pub named : shelf.names ≡ x.vary
    pub responses_on :
        (now : Instant) (v : List (Option Text)) (r : Arc StoredResponse)
        → E.get now s.entries
            (Key.response (record { primary = p; generation = x.generation; vary = v }))
          ≡ some (Entry.response r)
        → shelf.responses v ≡ some r

  abbrev pub Holds : Store → Shelves → Type 0
  Holds s shelves =
      (now : Instant) (p : PrimaryKey) (x : Index)
      → I.get now s.index p ≡ some x
      → (shelf : Shelf) × (shelves p ≡ some shelf) × OnShelf s p x shelf

  pub shrink-Holds :
      (s s' : Store) (shelves : Shelves)
      → Holds s shelves
      → ((now : Instant) (p : PrimaryKey) (x : Index)
          → I.get now s'.index p ≡ some x
          → I.get now s.index p ≡ some x)
      → ((now : Instant) (k : ResponseKey) (r : Arc StoredResponse)
          → E.get now s'.entries (Key.response k) ≡ some (Entry.response r)
          → E.get now s.entries (Key.response k) ≡ some (Entry.response r))
      → Holds s' shelves
  shrink-Holds s s' shelves holds hi he now p x h =
      let (shelf, at, on) = holds now p x (hi now p x h) in
      (
        shelf,
        at,
        record {
          named = on.named;
          responses_on = λ later v r e. on.responses_on later v r (he later _ r e);
        },
      )

  -- After `invalidate` the URI has no shelf.
  pub invalidate-Holds :
      (s : Store) (primary : PrimaryKey) (shelves : Shelves)
      → Holds s shelves
      → Holds (invalidate s primary) (clear primary shelves)
  unfolding invalidate
  invalidate-Holds s primary shelves holds now p x h =
      let (other, before) = I.get-invalidate now s.index primary p x h in
      let (shelf, at, on) = holds now p x before in
      (
        shelf,
        clear-other primary p shelves other ∙ at,
        record { named = on.named; responses_on = on.responses_on },
      )
