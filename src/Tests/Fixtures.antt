-- ===== src/Tests/Fixtures.antt =====
-- The implementations of the interfaces that the tests use, and their inputs.
use shadowstep.Prelude.{ℕ, true, false, List, [], ◌∷◌, none}
use native.Mathlib.Decide.{ℕ_discrete}
use shadowstep.Text.{Text, codes}
use shadowstep.Time.{from_secs}
use shadowstep.Http.{Http}
use shadowstep.Http.Listed.{Listed, listed}
use shadowstep.Moka.Timed.{timed}
use shadowstep.Watch.{Watch}
use shadowstep.Watch.Opened.{opened}
use shadowstep.Prometheus.{Prometheus}
use shadowstep.Prometheus.Tallied.{tallied}
use shadowstep.Cache.Policy.{RequestPolicy}
use shadowstep.Cache.Stale
use shadowstep.Cache.Storable.{Storable}
use shadowstep.Cache.Response.{PrimaryKey, Key}
use shadowstep.Cache.Store.{Clock, Caches, PrimaryKey-discrete}

instance abbrev pub listed_http : Http
listed_http = listed

instance abbrev pub opened_watch : Watch
opened_watch = opened

instance abbrev pub tallied_prometheus : Prometheus
tallied_prometheus = tallied

unfoldable pub Key-discrete : Discrete Key
Key-discrete = hlevel ℕ_discrete

instance abbrev pub timed_caches : Caches
timed_caches = record { entries = timed Key-discrete; index = timed PrimaryKey-discrete }

abbrev pub at : ℕ → Clock
at s = record { instant = from_secs s; system = from_secs s }

abbrev pub home : PrimaryKey
home = record { scheme = codes "http"; host = codes "a.test"; path_and_query = codes "/" }

abbrev pub accept : List Text
accept = codes "accept" ∷ []

abbrev pub asking : Text → Listed
asking value = (codes "accept", value) ∷ []

abbrev pub html : Listed
html = asking (codes "text/html")

abbrev pub minute : Storable
minute = record { ttl = from_secs 60; initial_age = 0; stale = Stale.default }

abbrev pub plain_get : RequestPolicy
plain_get = record {
  may_serve = true;
  max_age = none;
  may_store = true;
  has_credentials = false;
  conditional = false;
}
