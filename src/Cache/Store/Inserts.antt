-- ===== src/Cache/Store/Inserts.antt =====
-- `insert_response` keeps the invariant, with one more insertion in the history.
use shadowstep.Prelude.{
  ℕ, suc, ◌+◌, ◌<◌, ◌≡◌, ◌⊎◌, inl, inr, ◌∙◌, List, ◌∷◌, length, arith, Option-cases, Bool-cases,
  not, ◌||◌, ltb,
}
use shadowstep.Text.{Bytes}
use shadowstep.Http.{StatusCode}
use shadowstep.Cache.Storable.{Storable}
use shadowstep.Cache.Vary.{Vary}
use shadowstep.Cache.Response.{PrimaryKey, ResponseKey, Key, Fields, StoredResponse, Arc, Entry}
use shadowstep.Cache.Store.Defs.{Clock, Caches, Store, enabled, u64_mod}
use shadowstep.Cache.Store.Writes.{names_eqb, choose_generation, insert_response, response}
use shadowstep.Cache.Store.Ledger.{Insertion, Inv, after_insert}
use shadowstep.Cache.Store.Preserve.{names_eqb_iff, Numbered, extend-Inv}

module _ ⦃caches : Caches⦄ (clock : Clock) (s : Store) (primary : PrimaryKey) (vary : Vary)
    (policy : Storable) (status : StatusCode) (headers : Fields) (body : Bytes) where
  open caches use {entries as E, index as I}

  chosen : ℕ × ℕ
  chosen = choose_generation s (I.get clock.instant s.index primary) vary.names

  stored : Arc StoredResponse
  stored = record {
    address = s.next_address;
    value = response clock.instant s policy status headers body;
  }

  key : ResponseKey
  unfolding chosen
  key = record { primary = primary; generation = chosen.0; vary = vary.values }

  insertion : Insertion
  unfolding chosen stored
  insertion = record {
    primary = primary;
    generation = chosen.0;
    names = vary.names;
    values = vary.values;
    response = stored;
  }

  -- The store after a response was stored.
  grown : Store
  unfolding chosen stored key
  grown = record s {
    index =
        I.insert clock.instant s.index primary
          (record { vary = vary.names; generation = chosen.0 });
    generation = chosen.1;
    entries =
        E.run_pending_tasks clock.instant
          (E.insert clock.instant s.entries (Key.response key) (Entry.response stored));
    next_address = s.next_address + 1;
  }

  -- Either the store is as it was, or one response was stored.
  insert_response-cases :
      (history : List Insertion)
      → (((insert_response clock s primary vary policy status headers body).1 ≡ s)
          × (after_insert clock s primary vary policy status headers body history ≡ history))
        ⊎ (((insert_response clock s primary vary policy status headers body).1 ≡ grown)
            × (after_insert clock s primary vary policy status headers body history
                ≡ insertion ∷ history))
  unfolding insert_response grown insertion
  insert_response-cases history =
      elim (Bool-cases (not (enabled s) || ltb s.max_entry (length body))) [
        | inl refused ↦ inl (ground arith, ground arith)
        | inr taken ↦ inr (ground arith, ground arith)
      ]

  module _ (history : List Insertion) (v : Inv s history)
      (room : suc (length history) < u64_mod) where
    grown-Numbered : Numbered s grown history insertion v
    unfolding grown insertion chosen choose_generation
    grown-Numbered = elim (Option-cases (I.get clock.instant s.index primary)) [
      | inl e ↦ inr (ground arith, ground (arith, v.counted))
      | inr (x, e) ↦ elim (Bool-cases (names_eqb x.vary vary.names)) [
        | inl same ↦
            let (j, m, p, g, n) = v.index_known clock.instant primary x e in
            let names = (names_eqb_iff x.vary vary.names).0 same in
            inl (j, m, p, n ∙ names, ground arith, ground arith)
        | inr other ↦ inr (ground arith, ground (arith, v.counted))
      ]
    ]

    grown-Inv : Inv grown (insertion ∷ history)
    unfolding grown insertion key
    grown-Inv =
        extend-Inv s grown history insertion v grown-Numbered
          (λ now p x h. ground (arith, I.get-insert clock.instant now s.index primary _ p x h))
          (λ now k r h. ground (
            arith,
            E.get-insert clock.instant now s.entries (Key.response key) (Entry.response stored)
                (Key.response k) (Entry.response r)
                (E.get-run_pending_tasks clock.instant now _ (Key.response k) _ h),
          ))

    -- The invariant is kept, whether or not the response was stored.
    pub insert_response-Inv :
        Inv
          (insert_response clock s primary vary policy status headers body).1
          (after_insert clock s primary vary policy status headers body history)
    insert_response-Inv = elim (insert_response-cases history) [
      | inl (same, kept) ↦ rw (same, kept) v
      | inr (more, longer) ↦ rw (more, longer) grown-Inv
    ]
