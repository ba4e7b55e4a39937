-- ===== src/Cache/Store/Races/Calls.antt =====
-- What each call keeps of what the threads know of the store.
use shadowstep.Prelude.{ℕ, ◌≡◌, refl, sym, ap, List, [], ◌∷◌, Option, some, arith, In, inl, inr}
use shadowstep.Text.{Text, Bytes}
use shadowstep.Time.{Instant, Duration}
use shadowstep.Http.{StatusCode}
use shadowstep.Cache.Storable.{Storable}
use shadowstep.Cache.Response.{
  PrimaryKey, Index, ResponseKey, Key, Fields, StoredResponse, Arc, Entry,
}
use shadowstep.Cache.Store.Defs.{Clock, Caches, Store, new}
use shadowstep.Cache.Store.Writes.{invalidate}
use shadowstep.Cache.Store.Ledger.{Insertion}
use shadowstep.Cache.Store.Steps.{peek, put_index, put_entry}
use shadowstep.Cache.Store.Races.{Naming}
use shadowstep.Cache.Store.Races.Numbers.{Sound}

module _ ⦃caches : Caches⦄ where
  open caches use {entries as E, index as I}

  pub looked-Sound :
      (clock : Clock) (s : Store) (seen : List (PrimaryKey × Index)) (named : List Naming)
      (history : List Insertion) (primary : PrimaryKey) (x : Index)
      → peek clock s primary ≡ some x
      → Sound s seen named history
      → Sound s ((primary, x) ∷ seen) named history
  unfolding peek
  looked-Sound clock s seen named history primary x h v = record {
    counted = v.counted;
    below = v.below;
    one_meaning = v.one_meaning;
    seen_known = λ p y m. elim m [
      | inl same ↦ v.index_known clock.instant p y (
          rw (ap (λ (q : PrimaryKey × Index). q.0) same, ap (λ (q : PrimaryKey × Index). q.1) same)
            h)
      | inr i ↦ v.seen_known p y i
    ];
    index_known = v.index_known;
    history_known = v.history_known;
    entry_known = v.entry_known;
  }

  pub indexed-Sound :
      (clock : Clock) (s : Store) (seen : List (PrimaryKey × Index)) (named : List Naming)
      (history : List Insertion) (n : Naming)
      → In n named
      → Sound s seen named history
      → Sound (put_index clock s n.primary n.names n.generation) seen named history
  unfolding put_index
  indexed-Sound clock s seen named history n i v = record {
    counted = v.counted;
    below = v.below;
    one_meaning = v.one_meaning;
    seen_known = v.seen_known;
    index_known = λ now p x h. elim (I.get-insert clock.instant now s.index n.primary _ p x h) [
      | inl (same, e, _) ↦ (
        n,
        i,
        ap (λ (y : Index). y.generation) (sym e),
        sym same,
        ap (λ (y : Index). y.vary) (sym e),
      )
      | inr (_, old) ↦ v.index_known now p x old
    ];
    history_known = v.history_known;
    entry_known = v.entry_known;
  }

  pub entered-Sound :
      (clock : Clock) (s : Store) (seen : List (PrimaryKey × Index)) (named : List Naming)
      (history : List Insertion) (n : Naming) (values : List (Option Text)) (policy : Storable)
      (status : StatusCode) (headers : Fields) (body : Bytes)
      → In n named
      → Sound s seen named history
      → Sound
          (put_entry clock s n.primary values n.generation policy status headers body).1
          seen
          named
          (record {
            primary = n.primary;
            generation = n.generation;
            names = n.names;
            values = values;
            response =
                (put_entry clock s n.primary values n.generation policy status headers body).0;
          }
            ∷ history)
  unfolding put_entry
  entered-Sound clock s seen named history n values policy status headers body i v = record {
    counted = v.counted;
    below = v.below;
    one_meaning = v.one_meaning;
    seen_known = v.seen_known;
    index_known = v.index_known;
    history_known = λ j m. elim m [
      | inl same ↦ rw same (n, i, refl, refl, refl)
      | inr old ↦ v.history_known j old
    ];
    entry_known = λ now k r h.
        elim (E.get-insert clock.instant now s.entries _ _ (Key.response k) (Entry.response r)
          (E.get-run_pending_tasks clock.instant now _ (Key.response k) _ h)) [
            | inl (same, e, _) ↦ (_, inl refl, cc, cc, cc, cc)
            | inr (_, old) ↦
                (let (j, m, a, b, c, d) = v.entry_known now k r old in (j, inr m, a, b, c, d))
          ];
  }

  pub lost-Sound :
      (s s' : Store) (seen : List (PrimaryKey × Index)) (named : List Naming)
      (history : List Insertion)
      → s'.generation ≡ s.generation
      → ((now : Instant) (k : ResponseKey) (r : Arc StoredResponse)
          → E.get now s'.entries (Key.response k) ≡ some (Entry.response r)
          → E.get now s.entries (Key.response k) ≡ some (Entry.response r))
      → ((now : Instant) (p : PrimaryKey) (x : Index)
          → I.get now s'.index p ≡ some x
          → I.get now s.index p ≡ some x)
      → Sound s seen named history
      → Sound s' seen named history
  lost-Sound s s' seen named history g fewer_entries fewer_index v = record {
    counted = (let c = v.counted in omega arith);
    below = λ n m. (let c = v.below n m in omega arith);
    one_meaning = v.one_meaning;
    seen_known = v.seen_known;
    index_known = λ now p x h. v.index_known now p x (fewer_index now p x h);
    history_known = v.history_known;
    entry_known = λ now k r h. v.entry_known now k r (fewer_entries now k r h);
  }

  pub invalidated-Sound :
      (s : Store) (seen : List (PrimaryKey × Index)) (named : List Naming)
      (history : List Insertion) (primary : PrimaryKey)
      → Sound s seen named history
      → Sound (invalidate s primary) seen named history
  unfolding invalidate
  invalidated-Sound s seen named history primary v =
      lost-Sound s _ seen named history refl (λ now k r h. h)
        (λ now p x h. (I.get-invalidate now s.index primary p x h).1) v

  pub new-Sound : (size_mb : ℕ) (ttl : Duration) → Sound (new size_mb ttl) [] [] []
  unfolding new
  new-Sound size_mb ttl = record {
    counted = omega arith;
    below = λ n m. absurd m;
    one_meaning = λ n m i. absurd i;
    seen_known = λ p x m. absurd m;
    index_known = λ now p x h. cc (h, I.get-build now _ _ _ p);
    history_known = λ i m. absurd m;
    entry_known = λ now k r h. cc (h, E.get-build now _ _ _ (Key.response k));
  }
