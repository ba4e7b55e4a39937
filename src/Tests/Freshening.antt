-- ===== src/Tests/Freshening.antt =====
-- Tests of revalidation.
use shadowstep.Prelude.{◌≡◌, ◌⊎◌, refl, [], ◌∷◌, none, some, In, any, if◌then◌else◌}
use shadowstep.Text.{codes, eqb}
use shadowstep.Time.{from_secs}
use shadowstep.Cache.Response.{Fields, ResponseKey}
use shadowstep.Cache.Stale
use shadowstep.Cache.Store.{Store, StaleEntry, new, freshen, start_refresh, contains_key}
use shadowstep.Cache.Store.Refreshing.{named, freshen-content}
use shadowstep.Cache.Store.Guards.{Guarded, began, opened, Distinct, start_refresh-once}
use shadowstep.Tests.Fixtures.{listed_http, timed_caches, at, home, html, plain_get}

abbrev fields : Fields
fields = (codes "etag", codes "1") ∷ (codes "x-old", codes "kept") ∷ []

abbrev update : Fields
update = (codes "etag", codes "2") ∷ []

abbrev empty : Store
empty = new 4 (from_secs 300)

abbrev key : ResponseKey
key = record { primary = home; generation = 0; vary = [] }

abbrev entry : StaleEntry
entry = record {
  response = record {
    address = 3;
    value = record {
      status = 200;
      headers = fields;
      body = codes "hello";
      stored_at = 0;
      initial_age = 0;
      ttl = from_secs 60;
      grace = from_secs 300;
      stale = Stale.default;
    };
  };
  key = key;
}

abbrev busy : Store
busy = (start_refresh empty entry).1

started : start_refresh empty entry ≡ (some key, busy)
unfolding start_refresh new contains_key
started = refl

refreshes : Guarded busy (key ∷ [])
refreshes = began entry key started (opened 4 (from_secs 300))

start_refresh-once_example :
    Distinct (key ∷ [])
    × ((In key (key ∷ []) × (start_refresh busy entry ≡ (none, busy)))
        ⊎ ((¬ In key (key ∷ [])) × ((start_refresh busy entry).0 ≡ some key)))
start_refresh-once_example = start_refresh-once busy (key ∷ []) entry refreshes

freshen-content_example :
    ((freshen (at 90) empty entry plain_get html update none).0.value.status ≡ 200)
    × ((freshen (at 90) empty entry plain_get html update none).0.value.body ≡ codes "hello")
    × (named (freshen (at 90) empty entry plain_get html update none).0.value.headers (codes "etag")
        ≡ (if any (λ u. eqb u.0 (codes "etag")) update
            then named update (codes "etag")
            else named fields (codes "etag")))
freshen-content_example =
    freshen-content (at 90) empty entry plain_get html update none (codes "etag")
