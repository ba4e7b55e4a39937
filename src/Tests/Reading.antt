-- ===== src/Tests/Reading.antt =====
-- Tests of the header readers and of what may be stored.
use shadowstep.Prelude.{List, ◌≡◌, refl, true, false, [], ◌∷◌, none, some, arith}
use shadowstep.Text.Utf8.{from_utf8_lossy}
use shadowstep.Text.{
  Text, codes, split, eqb, to_ascii_lowercase, trim, split_once, strip_prefix, is_ascii_digit,
  parse_u64, parse_digits, is_whitespace, trim_end, trim_start, join_comma,
}
use shadowstep.Time.{from_secs}
use shadowstep.Http.Listed.{Listed, is_visible}
use shadowstep.Cache.Names
use shadowstep.Cache.Directives.{Directives, parse, has, seconds, split_outside_quotes}
use shadowstep.Cache.Directives.Quotes.{join, join-split_outside_quotes}
use shadowstep.Cache.Directives.Seconds.{delta_value, seconds_first}
use shadowstep.Cache.Policy.{new, may_lead}
use shadowstep.Cache.Stale
use shadowstep.Cache.Vary.{push_fields, vary_names, vary_values}
use shadowstep.Cache.Vary.Canonical.{vary_names-same}
use shadowstep.Cache.Storable.{
  storable, storable_response_directives, freshness_lifetime, initial_age, http_date,
}
use shadowstep.Cache.Response.{StoredResponse}
use shadowstep.Tests.Fixtures.{listed_http, html, plain_get, minute, accept}

abbrev quoted : Text
quoted = codes "private=\"a, b\", max-age=60"

two_parts : split_outside_quotes quoted ≡ codes "private=\"a, b\"" ∷ codes " max-age=60" ∷ []
unfolding split_outside_quotes
two_parts = refl

join-split_outside_quotes_example : join (split_outside_quotes quoted) ≡ quoted
join-split_outside_quotes_example = join-split_outside_quotes quoted

abbrev two : Text
two = codes "a,b"

abbrev directives : Directives
directives = record {
  list = (codes "public", none) ∷ (codes "max-age", some (codes "60")) ∷ [];
  malformed = false;
}

seconds_first_example :
    seconds directives (codes "max-age") ≡ some (from_secs (delta_value (some (codes "60"))))
unfolding eqb
seconds_first_example =
    seconds_first (codes "max-age") ((codes "public", none) ∷ []) [] (some (codes "60")) false
      (refl, tt)

leads : may_lead (new Names.get html) ≡ true
unfolding may_lead new eqb parse has
leads = refl

abbrev pub page : Listed
page = (codes "cache-control", codes "max-age=60") ∷ (codes "vary", codes "Accept") ∷ []

pub kept_page :
    storable 0 plain_get html 200 page
    ≡ some (minute, record { names = accept; values = some (codes "text/html") ∷ [] })
unfolding storable storable_response_directives eqb parse is_visible to_ascii_lowercase trim
    split_once has vary_names split freshness_lifetime seconds strip_prefix is_ascii_digit parse_u64
    initial_age Stale.parse http_date vary_values is_whitespace parse_digits trim_end trim_start
    join_comma from_utf8_lossy
kept_page = refl

abbrev old : StoredResponse
old = record {
  status = 200;
  headers = [];
  body = [];
  stored_at = 0;
  initial_age = 0;
  ttl = from_secs 60;
  grace = from_secs 30;
  stale = record Stale.default { while_revalidate = from_secs 30 };
}

abbrev one_field : Listed
one_field = (codes "vary", codes "Accept, Cookie") ∷ []

abbrev two_fields : Listed
two_fields = (codes "vary", codes "Cookie") ∷ (codes "vary", codes "accept, cookie") ∷ []

abbrev cookie : List Text
cookie = codes "cookie" ∷ []

one_listed :
    push_fields [] (listed_http.get_all one_field Names.vary) ≡ some (codes "accept" ∷ cookie)
unfolding push_fields eqb is_visible to_ascii_lowercase trim split
one_listed = refl

two_listed :
    push_fields [] (listed_http.get_all two_fields Names.vary)
    ≡ some (codes "cookie" ∷ codes "accept" ∷ cookie)
unfolding push_fields eqb is_visible to_ascii_lowercase trim split
two_listed = refl

vary_names-same_example : vary_names one_field ≡ vary_names two_fields
vary_names-same_example =
    vary_names-same one_field two_fields (codes "accept" ∷ cookie)
      (codes "cookie" ∷ codes "accept" ∷ cookie) one_listed two_listed
      (λ x. (λ i. ground arith, λ i. ground arith))
