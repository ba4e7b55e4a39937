-- ===== src/Cache/Store/Variants.antt =====
-- What a lookup finds, over any sequence of the store's methods.
use shadowstep.Prelude.{
  In, suc, ◌<◌, ◌≡◌, inl, inr, sym, ◌∙◌, ap, List, Option, none, some, length, arith, Option-cases,
  Bool, true, false,
}
use shadowstep.Run.{Run, done, panic, map_run}
use shadowstep.Time.{Duration}
use shadowstep.Http.{Http}
use shadowstep.Cache.Vary.{vary_values}
use shadowstep.Cache.Response.{PrimaryKey, Index, ResponseKey, Key, StoredResponse, Arc, Entry}
use shadowstep.Cache.Store.Defs.{
  Clock, Caches, Store, Lookup, fresh, stale, lookup, lookup_key, lookup_entry, classify, usable,
  u64_mod,
}
use shadowstep.Cache.Store.Ledger.{Insertion}
use shadowstep.Cache.Store.Reach.{Reached, Reached-Inv}

-- The response that a lookup found, fresh or stale.
abbrev pub found : Lookup → Arc StoredResponse
found (fresh r) = r
found (stale entry) = entry.response

module _ ⦃caches : Caches⦄ ⦃http : Http⦄ where
  open caches use {entries as E, index as I}
  open http use {HeaderMap}

  found_of_usable :
      (r : Arc StoredResponse) (key : ResponseKey) (b : Run Bool) (l : Lookup)
      → map_run (λ c. some (classify key r c)) b ≡ done (some l)
      → found l ≡ r
  unfolding classify
  found_of_usable r key (done true) l h = ground arith
  found_of_usable r key (done false) l h = ground arith
  found_of_usable r key panic l h = cc

  pub lookup_entry-found :
      (clock : Clock) (key : ResponseKey) (e : Option Entry) (max_age : Option Duration)
      (l : Lookup)
      → lookup_entry clock key e max_age ≡ done (some l)
      → e ≡ some (Entry.response (found l))
  unfolding lookup_entry
  lookup_entry-found clock key none max_age l h = cc
  lookup_entry-found clock key (some (Entry.asset a)) max_age l h = cc
  lookup_entry-found clock key (some (Entry.response r)) max_age l h =
      ap (λ a. some (Entry.response a))
        (sym (found_of_usable r key (usable clock.instant r.value max_age) l h))

  -- A lookup that finds a response found it under the generation and the `Vary` values of the
  -- URI's index.
  pub lookup-found :
      (clock : Clock) (s : Store) (primary : PrimaryKey) (request : HeaderMap)
      (max_age : Option Duration) (l : Lookup)
      → lookup clock s primary request max_age ≡ done (some l)
      → (x : Index) × (I.get clock.instant s.index primary ≡ some x)
        × (E.get clock.instant s.entries
              (Key.response (lookup_key primary x (vary_values x.vary request)))
            ≡ some (Entry.response (found l)))
  unfolding lookup
  lookup-found clock s primary request max_age l h =
      elim (Option-cases (I.get clock.instant s.index primary)) [
        | inl e ↦ cc (rw (e, lookup) at h)
        | inr (x, e) ↦ (x, e, lookup_entry-found clock _ _ max_age l (rw (e, lookup) at h))
      ]

  -- After any calls, as long as fewer than 2^64 responses were inserted: a response that a lookup
  -- finds, fresh or stale, was inserted for the same URI, and the request has the values that it
  -- was inserted with for every field that its `Vary` names. No variant answers another's request.
  pub lookup-Selected :
      (clock : Clock) (s : Store) (history : List Insertion) (primary : PrimaryKey)
      (request : HeaderMap) (max_age : Option Duration) (l : Lookup)
      → Reached s history
      → suc (length history) < u64_mod
      → lookup clock s primary request max_age ≡ done (some l)
      → (i : Insertion) × In i history
        × (i.primary ≡ primary)
        × (i.response ≡ found l)
        × (i.values ≡ vary_values i.names request)
  unfolding lookup_key
  lookup-Selected clock s history primary request max_age l r room h =
      let v = Reached-Inv r room in
      let (x, at_index, at_entry) = lookup-found clock s primary request max_age l h in
      let (i, mi, pi, gi, ni) = v.index_known clock.instant primary x at_index in
      let (j, mj, pj, gj, vj, rj) =
        v.entry_known clock.instant (lookup_key primary x (vary_values x.vary request)) (found l)
          at_entry in
      let (_, same) = v.one_meaning i j mi mj (gi ∙ sym gj) in
      (j, mj, pj, rj, vj ∙ ap (λ n. vary_values n request) (sym ni ∙ same))
