-- ===== src/Tests/Racing.antt =====
-- A race of two requests for one URI in the store.
use shadowstep.Prelude.{◌≡◌, refl, [], ◌∷◌, some, none, arith, In, inl}
use native.Mathlib.Decide.{ℕ_discrete}
use shadowstep.Text.{eqb, join_comma, trim}
use shadowstep.Text.Utf8.{from_utf8_lossy}
use shadowstep.Run.{done}
use shadowstep.Time.{from_secs}
use shadowstep.Cache.Stale.{grace}
use shadowstep.Cache.Vary.{vary_values}
use shadowstep.Cache.Response.{Index, Arc, StoredResponse, entry_ttl, validators, is_fresh}
use shadowstep.Cache.Store.{
  Store, fresh, lookup, invalidate, Text-discrete, PrimaryKey-discrete, ResponseKey-discrete, new,
  names_eqb,
}
use shadowstep.Cache.Store.Ledger.{Insertion}
use shadowstep.Cache.Store.Steps.{peek, number, put_index, put_entry, find_variant}
use shadowstep.Cache.Store.Races.{
  Naming, Racing, opened, looked, numbered, indexed, entered, invalidated,
}
use shadowstep.Cache.Store.Races.Sound.{find_variant-Selected_racing}
use shadowstep.Tests.Fixtures.{
  listed_http, timed_caches, at, home, html, accept, minute, Key-discrete,
}
use shadowstep.Tests.Caching.{empty, html_vary, body}

abbrev name : Naming
name = record { primary = home; generation = 0; names = accept }

abbrev filed : Store
filed = put_index (at 10) (number empty none accept).1 home accept 0

abbrev put : Arc StoredResponse × Store
put = put_entry (at 10) filed home html_vary.values 0 minute 200 [] body

abbrev inserted : Insertion
inserted = record {
  primary = home;
  generation = 0;
  names = accept;
  values = html_vary.values;
  response = put.0;
}

abbrev x : Index
x = record { vary = accept; generation = 0 }

looks : peek (at 11) put.1 home ≡ some x
unfolding peek put_index put_entry number new PrimaryKey-discrete ℕ_discrete
looks = refl

-- A second thread looks at the index, an unsafe request invalidates the URI, and the second thread
-- writes the index back.
abbrev written_back : Store
written_back = put_index (at 12) (number (invalidate put.1 home) (some x) accept).1 home accept 0

race : Racing written_back ((home, x) ∷ []) (name ∷ name ∷ []) (inserted ∷ [])
unfolding number names_eqb new eqb
race = indexed (at 12) name (inl refl) (
    numbered home (some x) accept (inl refl) (
      invalidated home (
        looked (at 11) home x looks (
          entered (at 10) name html_vary.values minute 200 [] body (inl refl) (
            indexed (at 10) name (inl refl)
              (numbered home none accept tt (opened 4 (from_secs 300))))))))

-- So a response from before the `invalidate` is found again after it.
found_again : lookup (at 20) written_back home html none ≡ done (some (fresh put.0))
unfolding lookup put_index put_entry number invalidate Text-discrete PrimaryKey-discrete
    ResponseKey-discrete Key-discrete new ℕ_discrete vary_values eqb join_comma trim from_utf8_lossy
    entry_ttl grace validators is_fresh
found_again = refl

-- A lookup that looked at the index before the `invalidate`.
found_late : find_variant (at 20) written_back home x html none ≡ done (some (fresh put.0))
unfolding find_variant put_index put_entry number invalidate Text-discrete PrimaryKey-discrete
    ResponseKey-discrete Key-discrete new ℕ_discrete vary_values eqb join_comma trim from_utf8_lossy
    entry_ttl grace validators is_fresh
found_late = refl

find_variant-Selected_racing_example :
    (i : Insertion) × In i (inserted ∷ [])
    × (i.primary ≡ home)
    × (i.response ≡ put.0)
    × (i.values ≡ vary_values i.names html)
find_variant-Selected_racing_example =
    find_variant-Selected_racing (at 20) written_back ((home, x) ∷ []) (name ∷ name ∷ [])
      (inserted ∷ []) home x html none (fresh put.0) race (omega arith) (inl refl) found_late
