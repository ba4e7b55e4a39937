-- ===== src/Tests/Caching.antt =====
-- Tests of the store.
use shadowstep.Prelude.{ℕ, ◌≤◌, ◌≡◌, refl, List, [], none, some, arith, In}
use native.Mathlib.Decide.{ℕ_discrete}
use shadowstep.Text.{codes, eqb, join_comma, trim}
use shadowstep.Text.Utf8.{from_utf8_lossy}
use shadowstep.Cache.Stale.{grace}
use shadowstep.Run.{done}
use shadowstep.Time.{from_secs}
use shadowstep.Cache.Vary.{Vary, vary_values}
use shadowstep.Cache.Response.{Arc, StoredResponse, Entry, entry_ttl, validators, is_fresh}
use shadowstep.Cache.Store.{
  Store, fresh, new, lookup, insert_response, response, Text-discrete, PrimaryKey-discrete,
  ResponseKey-discrete,
}
use shadowstep.Cache.Store.Ledger.{Insertion, after_insert}
use shadowstep.Cache.Store.Reach.{opened, inserted}
use shadowstep.Cache.Store.Variants.{lookup-Selected}
use shadowstep.Cache.Store.Laws.{entry_ttl-response-le, lookup-insert_response}
use shadowstep.Cache.Store.Shelf.{find}
use shadowstep.Cache.Store.Refines.{shelves, lookup-refines}
use shadowstep.Tests.Fixtures.{
  listed_http, timed_caches, Key-discrete, at, home, accept, html, minute, asking,
}

abbrev pub empty : Store
empty = new 4 (from_secs 300)

abbrev pub html_vary : Vary
html_vary = record { names = accept; values = vary_values accept html }

abbrev pub body : List ℕ
body = codes "hello"

abbrev pub stored : Store
stored = (insert_response (at 10) empty home html_vary minute 200 [] body).1

abbrev pub answer : Arc StoredResponse
answer = record { address = 0; value = response (from_secs 10) empty minute 200 [] body }

abbrev seen : List Insertion
seen = after_insert (at 10) empty home html_vary minute 200 [] body []

pub found_fresh : lookup (at 20) stored home html none ≡ done (some (fresh answer))
unfolding lookup insert_response Text-discrete PrimaryKey-discrete ResponseKey-discrete Key-discrete
    new ℕ_discrete vary_values eqb join_comma trim from_utf8_lossy entry_ttl grace validators
    is_fresh
found_fresh = refl

-- Another variant is not found.
found_none : lookup (at 20) stored home (asking (codes "image/png")) none ≡ done none
unfolding lookup insert_response Text-discrete PrimaryKey-discrete ResponseKey-discrete Key-discrete
    new ℕ_discrete vary_values eqb join_comma trim from_utf8_lossy entry_ttl grace validators
    is_fresh
found_none = refl

lookup-Selected_example :
    (i : Insertion) × In i seen
    × (i.primary ≡ home)
    × (i.response ≡ answer)
    × (i.values ≡ vary_values i.names html)
unfolding lookup insert_response Text-discrete PrimaryKey-discrete ResponseKey-discrete Key-discrete
    new ℕ_discrete vary_values eqb join_comma trim from_utf8_lossy entry_ttl grace validators
    is_fresh
lookup-Selected_example =
    lookup-Selected (at 20) stored seen home html none (fresh answer)
      (inserted (at 10) home html_vary minute 200 [] body (opened 4 (from_secs 300))) (omega arith)
      found_fresh

entry_ttl-response-le_example :
    entry_ttl (
      Entry.response
        (record { address = 0; value = response (from_secs 10) empty minute 200 [] body }))
    ≤ timed_caches.index.lifetime
        (new 4 (from_secs 300)).index
        home
        (record { vary = accept; generation = 0 })
unfolding new
entry_ttl-response-le_example =
    entry_ttl-response-le (from_secs 10) 4 empty minute 200 [] body 0 home
      (record { vary = accept; generation = 0 })

lookup-insert_response_example :
    lookup (at 20) stored home (asking (codes " text/html ")) none ≡ done (some (fresh answer))
unfolding lookup insert_response Text-discrete PrimaryKey-discrete ResponseKey-discrete Key-discrete
    new ℕ_discrete vary_values eqb join_comma trim from_utf8_lossy entry_ttl grace validators
    is_fresh
lookup-insert_response_example =
    lookup-insert_response (at 10) (at 20) empty home accept minute 200 [] body html
      (asking (codes " text/html ")) answer stored (record { vary = accept; generation = 0 })
      (Entry.response answer) refl refl refl refl (omega arith)

lookup-refines_example :
    find
      (shelves (inserted (at 10) home html_vary minute 200 [] body (opened 4 (from_secs 300))))
      home
      html
    ≡ some answer
unfolding lookup insert_response Text-discrete PrimaryKey-discrete ResponseKey-discrete Key-discrete
    new ℕ_discrete vary_values eqb join_comma trim from_utf8_lossy entry_ttl grace validators
    is_fresh
lookup-refines_example =
    lookup-refines (at 20) stored seen home html none (fresh answer)
      (inserted (at 10) home html_vary minute 200 [] body (opened 4 (from_secs 300))) (omega arith)
      found_fresh
