-- ===== src/Cache/Names.antt =====
-- The header and directive names that the program compares with, in the source's spelling.
use shadowstep.Prelude.{List, [], ◌∷◌}
use shadowstep.Text.{Text, codes}
use shadowstep.Http.{HeaderName, Method}

abbrev pub get : Method
get = codes "GET"

abbrev pub head : Method
head = codes "HEAD"

abbrev pub age : HeaderName
age = codes "age"

abbrev pub authorization : HeaderName
authorization = codes "authorization"

abbrev pub cache_control : HeaderName
cache_control = codes "cache-control"

abbrev pub cookie : HeaderName
cookie = codes "cookie"

abbrev pub date : HeaderName
date = codes "date"

abbrev pub etag : HeaderName
etag = codes "etag"

abbrev pub expires : HeaderName
expires = codes "expires"

abbrev pub if_modified_since : HeaderName
if_modified_since = codes "if-modified-since"

abbrev pub if_none_match : HeaderName
if_none_match = codes "if-none-match"

abbrev pub last_modified : HeaderName
last_modified = codes "last-modified"

abbrev pub set_cookie : HeaderName
set_cookie = codes "set-cookie"

abbrev pub vary : HeaderName
vary = codes "vary"

-- `METHOD_OVERRIDE_HEADERS`.
abbrev pub method_override_headers : List HeaderName
method_override_headers =
    codes "x-http-method-override" ∷ codes "x-http-method" ∷ codes "x-method-override" ∷ []

-- `PRECONDITION_HEADERS`.
abbrev pub precondition_headers : List HeaderName
precondition_headers =
    codes "if-match"
    ∷ if_none_match
    ∷ if_modified_since
    ∷ codes "if-unmodified-since"
    ∷ codes "if-range"
    ∷ []

abbrev pub max_age : Text
max_age = codes "max-age"

abbrev pub s_maxage : Text
s_maxage = codes "s-maxage"

abbrev pub no_store : Text
no_store = codes "no-store"

abbrev pub no_cache : Text
no_cache = codes "no-cache"

abbrev pub private : Text
private = codes "private"

abbrev pub public : Text
public = codes "public"

abbrev pub must_revalidate : Text
must_revalidate = codes "must-revalidate"

abbrev pub proxy_revalidate : Text
proxy_revalidate = codes "proxy-revalidate"

abbrev pub stale_while_revalidate : Text
stale_while_revalidate = codes "stale-while-revalidate"

abbrev pub stale_if_error : Text
stale_if_error = codes "stale-if-error"
