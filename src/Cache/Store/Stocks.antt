-- ===== src/Cache/Store/Stocks.antt =====
-- That `insert_response` puts on a shelf what it stores.
use shadowstep.Prelude.{
  ℕ, ◌<◌, ◌≡◌, ◌≢◌, ◌⊎◌, refl, ◌∙◌, ap, true, List, Option, none, some, arith, Option-cases,
  Bool-cases, inl, inr,
}
use shadowstep.Text.{Text, Bytes}
use shadowstep.Time.{Instant}
use shadowstep.Http.{HeaderName, StatusCode}
use shadowstep.Cache.Storable.{Storable}
use shadowstep.Cache.Vary.{Vary}
use shadowstep.Cache.Response.{
  PrimaryKey, Index, ResponseKey, Key, Fields, StoredResponse, Arc, Entry,
}
use shadowstep.Cache.Store.Defs.{Clock, Caches, Store}
use shadowstep.Cache.Store.Writes.{names_eqb, choose_generation, insert_response}
use shadowstep.Cache.Store.Ledger.{Insertion, Inv}
use shadowstep.Cache.Store.Shelf.{
  Shelves, add, put, stocked, names-add, responses-add, responses-add_other, put-at, put-other,
}
use shadowstep.Cache.Store.Holds.{Holds}

module _ ⦃caches : Caches⦄ where
  open caches use {entries as E, index as I}

  -- The generation that a response gets is the index's, of the same names, or a new one.
  choose_generation-cases :
      (s : Store) (o : Option Index) (names : List HeaderName)
      → ((choose_generation s o names).0 ≡ s.generation)
        ⊎ ((x : Index) × (o ≡ some x)
            × (names_eqb x.vary names ≡ true)
            × ((choose_generation s o names).0 ≡ x.generation))
  unfolding choose_generation
  choose_generation-cases s none names = inl refl
  choose_generation-cases s (some x) names = elim (Bool-cases (names_eqb x.vary names)) [
    | inl same ↦ inr (x, refl, same, ground arith)
    | inr other ↦ inl (ground arith)
  ]

  module _ (clock : Clock) (s : Store) (primary : PrimaryKey) (vary : Vary) (policy : Storable)
      (status : StatusCode) (headers : Fields) (body : Bytes) where
    abbrev chosen : ℕ
    chosen = (choose_generation s (I.get clock.instant s.index primary) vary.names).0

    abbrev new_key : ResponseKey
    new_key = record { primary = primary; generation = chosen; vary = vary.values }

    abbrev index : Index
    index = record { vary = vary.names; generation = chosen }

    insert_response-stored :
        (r : Arc StoredResponse)
        → (insert_response clock s primary vary policy status headers body).0 ≡ some r
        → ((insert_response clock s primary vary policy status headers body).1.index
            ≡ I.insert clock.instant s.index primary index)
          × ((insert_response clock s primary vary policy status headers body).1.entries
              ≡ E.run_pending_tasks clock.instant
                  (E.insert clock.instant s.entries (Key.response new_key) (Entry.response r)))
    unfolding insert_response
    insert_response-stored r h = (ground arith, ground arith)

    insert_response-refused :
        (insert_response clock s primary vary policy status headers body).0 ≡ none
        → (insert_response clock s primary vary policy status headers body).1 ≡ s
    unfolding insert_response
    insert_response-refused h = ground arith

    module _ (shelves : Shelves) (history : List Insertion) (v : Inv s history)
        (holds : Holds s shelves) (r : Arc StoredResponse) where
      -- What the entries held under the chosen generation stands on the shelf that is kept.
      kept_on_shelf :
          (now : Instant) (values : List (Option Text)) (q : Arc StoredResponse)
          → values ≢ vary.values
          → E.get now s.entries
              (Key.response (record { primary = primary; generation = chosen; vary = values }))
            ≡ some (Entry.response q)
          → (add vary r (shelves primary)).responses values ≡ some q
      kept_on_shelf now values q other h =
          let old : ResponseKey = record {
            primary = primary;
            generation = chosen;
            vary = values;
          } in
          elim (choose_generation-cases s (I.get clock.instant s.index primary) vary.names) [
            | inl new ↦
                let (i, mi, p, g, w, e) = v.entry_known now old q h in
                absurd (clash new i (v.used i mi) g)
            | inr (x, e, same, g) ↦
                let (shelf, at, on) = holds clock.instant primary x e in
                let there = on.responses_on now values q (rw g at h) in
                rw at
                  (responses-add_other vary r shelf values (rw (← on.named) at same) other ∙ there)
          ]
        where
          clash :
              chosen ≡ s.generation
              → (i : Insertion) → i.generation < s.generation
              → i.generation ≡ chosen
              → ⊥
          clash new i below g = omega arith

      -- The store after the insertion, by its two caches.
      stored-Holds :
          (s' : Store)
          → s'.index ≡ I.insert clock.instant s.index primary index
          → s'.entries
            ≡ E.run_pending_tasks clock.instant
                (E.insert clock.instant s.entries (Key.response new_key) (Entry.response r))
          → Holds s' (put primary vary r shelves)
      stored-Holds s' hi he now p x h =
          elim (I.get-insert clock.instant now s.index primary index p x (rw hi at h)) [
            | inl (same, found, _) ↦ (
              add vary r (shelves primary),
              rw same (put-at primary vary r shelves),
              rw (same, found)
                  (record {
                    named = names-add vary r (shelves primary);
                    responses_on = λ later values q e. elim (entry-cases later _ q (rw he at e)) [
                      | inl (k, b) ↦
                          let values_same : values ≡ vary.values =
                            ap (λ (j : ResponseKey). j.vary) k in
                          rw (values_same, b) (responses-add vary r (shelves primary))
                      | inr (other, old) ↦
                          kept_on_shelf later values q
                            (λ (f : values ≡ vary.values). other (
                              ap (λ w. record { primary = primary; generation = chosen; vary = w })
                                f))
                            old
                    ];
                  }),
            )
            | inr (other, before) ↦
                let (shelf, at, on) = holds now p x before in
                (
                  shelf,
                  put-other primary p vary r shelves other ∙ at,
                  record {
                    named = on.named;
                    responses_on = λ later values q e. elim (entry-cases later _ q (rw he at e)) [
                      | inl (k, _) ↦ absurd (other (ap (λ (j : ResponseKey). j.primary) k))
                      | inr (_, old) ↦ on.responses_on later values q old
                    ];
                  },
                )
          ]
        where
          entry-cases :
              (later : Instant) (k : ResponseKey) (q : Arc StoredResponse)
              → E.get later
                  (E.run_pending_tasks clock.instant
                    (E.insert clock.instant s.entries (Key.response new_key) (Entry.response r)))
                  (Key.response k)
                ≡ some (Entry.response q)
              → ((k ≡ new_key) × (q ≡ r))
                ⊎ ((k ≢ new_key)
                    × (E.get later s.entries (Key.response k) ≡ some (Entry.response q)))
          entry-cases later k q e =
              elim (E.get-insert clock.instant later s.entries (Key.response new_key)
                (Entry.response r) (Key.response k) (Entry.response q)
                (E.get-run_pending_tasks clock.instant later _ (Key.response k) _ e)) [
                  | inl (a, b, _) ↦ inl (cc, cc)
                  | inr (a, b) ↦ inr (λ (f : k ≡ new_key). a (ap (λ j. Key.response j) f), b)
                ]

  pub insert_response-Holds :
      (clock : Clock) (s : Store) (primary : PrimaryKey) (vary : Vary) (policy : Storable)
      (status : StatusCode) (headers : Fields) (body : Bytes) (shelves : Shelves)
      (history : List Insertion)
      → Inv s history
      → Holds s shelves
      → Holds
          (insert_response clock s primary vary policy status headers body).1
          (stocked clock s primary vary policy status headers body shelves)
  insert_response-Holds clock s primary vary policy status headers body shelves history v holds =
      elim (Option-cases (insert_response clock s primary vary policy status headers body).0) [
        | inl e ↦
            rw
              (
                e,
                stocked,
                insert_response-refused clock s primary vary policy status headers body e,
              )
              holds
        | inr (r, e) ↦
            let (hi, he) =
              insert_response-stored clock s primary vary policy status headers body r e in
            rw (e, stocked)
              (stored-Holds clock s primary vary policy status headers body shelves history v holds
                r _ hi he)
      ]
