-- ===== src/Proxy/Headers.antt =====
-- src/proxy.rs, the fields that cross the proxy: `connection_options`, `is_end_to_end`, `Head`,
-- `forwardable_fields`, `stored_fields`, `upstream_request` and `with_validators`.
pub mod Laws
use shadowstep.Prelude.{
  ℕ, Bool, true, false, ◌&&◌, ◌||◌, not, List, [], ◌∷◌, ◌++◌, map, Option, none, some, ◌==◌,
  if◌then◌else◌, any, all, retain, is_empty, ◌>>=◌, map_option, guard, ◌>>◌,
}
use shadowstep.Text.{Text, Bytes, codes, eqb, split, trim, to_ascii_lowercase}
use shadowstep.Text.Decimal.{to_string}
use shadowstep.Http.{Http, HeaderName, HeaderValue, Method, StatusCode, append_all}
use shadowstep.Forwarded.{Request, ClientInfo, client_forwarding_headers, url_override_headers}
use shadowstep.Cache.Response.{Fields, StoredResponse, validators}

abbrev pub cache_status : HeaderName
cache_status = codes "x-shadowstep-cache"

abbrev pub hop_by_hop : List HeaderName
hop_by_hop =
    codes "connection"
    ∷ codes "keep-alive"
    ∷ codes "proxy-connection"
    ∷ codes "te"
    ∷ codes "trailer"
    ∷ codes "transfer-encoding"
    ∷ codes "upgrade"
    ∷ codes "proxy-authenticate"
    ∷ codes "proxy-authorization"
    ∷ []

unfoldable pub contains : List Text → Text → Bool
contains names name = any (λ n. eqb n name) names

unfoldable pub is_end_to_end : HeaderName → List Text → Bool
unfolding contains
is_end_to_end name options = not (contains hop_by_hop name) && not (contains options name)

-- `trim_end_matches(c)`.
unfoldable pub trim_end_matches : ℕ → Text → Text
trim_end_matches c [] = []
trim_end_matches c (d ∷ s) =
    let rest = trim_end_matches c s in if is_empty rest && d == c then [] else d ∷ rest

-- What the program reads from the origin's URL, and whether a text is a `Uri`.
pub record Upstream : Type 0 where
  -- the URL up to the end of its path
  pub base : Text
  pub host : Option Text
  -- `port_or_known_default`
  pub port : Option ℕ
  pub is_uri : Text → Bool

-- The origin request without its body.
pub record Builder : Type 0 where
  pub method : Method
  pub uri : Text
  pub headers : Fields

-- The Host header for the origin.
unfoldable pub upstream_host : Upstream → Option Text
upstream_host upstream = upstream.host >>= λ host. some (elim upstream.port [
  | none ↦ host
  | some port ↦ if port == 80 || port == 443 then host else host ++ b':' ∷ to_string port
])

-- The tokens of one value of `Connection`.
unfoldable pub tokens : Text → List Text
tokens value =
    retain (λ token. not (is_empty token))
      (map (λ token. to_ascii_lowercase (trim token)) (split b',' value))

module _ ⦃http : Http⦄ where
  open http use {HeaderMap, new, get_all, to_str, iter}

  unfoldable pub connection_options : List HeaderValue → List Text
  unfolding tokens
  connection_options [] = []
  connection_options (value ∷ values) =
      let rest = connection_options values in
      elim (to_str value) [ none ↦ rest | some text ↦ tokens text ++ rest ]

  pub record Head : Type 0 where
    pub status : StatusCode
    pub fields : Fields
    pub map : HeaderMap

  -- `Head::from_upstream`, of the status and the fields in order. The crate `http` has the same
  -- rules for them in both of its versions, so the conversion drops nothing.
  unfoldable pub from_upstream : StatusCode → Fields → Head
  from_upstream status fields = record {
    status = status;
    fields = fields;
    map = append_all new fields;
  }

  unfoldable pub forwardable_fields : Head → Fields
  unfolding connection_options is_end_to_end
  forwardable_fields head =
      let options = connection_options (get_all head.map (codes "connection")) in
      retain
        (λ f.
          not (eqb f.0 (codes "content-length"))
          && not (eqb f.0 cache_status)
          && is_end_to_end f.0 options)
        head.fields

  -- Whether a field of the client's request goes to the origin as it is.
  unfoldable pub passes : List Text → HeaderName → Bool
  unfolding contains
  passes options name =
      not (eqb name (codes "host"))
      && not (contains client_forwarding_headers name)
      && not (contains url_override_headers name)
      && is_end_to_end name options

  -- The fields that the proxy itself sets.
  unfoldable pub own_fields : Upstream → ClientInfo → Fields
  own_fields upstream client =
      elim (upstream_host upstream) [ none ↦ [] | some host ↦ (codes "host", host) ∷ [] ]
      ++ elim client.ip [ none ↦ [] | some ip ↦ (codes "x-forwarded-for", ip) ∷ [] ]
      ++ (codes "x-forwarded-proto", client.scheme) ∷ (codes "x-forwarded-host", client.host) ∷ []

  -- `None` when the target is no `Uri`.
  unfoldable pub upstream_request : Request → Upstream → ClientInfo → Text → Option Builder
  unfolding passes own_fields
  upstream_request req upstream client path_and_query =
      let target = trim_end_matches b'/' upstream.base ++ path_and_query in
      let options = connection_options (get_all req.headers (codes "connection")) in
      if upstream.is_uri target
      then some (record {
        method = req.method;
        uri = target;
        headers = retain (λ f. passes options f.0) (iter req.headers) ++ own_fields upstream client;
      })
      else none

-- Forwardable fields without `Age`.
unfoldable pub stored_fields : Fields → Fields
stored_fields fields = retain (λ f. not (eqb f.0 (codes "age"))) fields

-- `with_validators`.
unfoldable pub with_validators : Builder → StoredResponse → Builder
with_validators builder stored = record builder { headers = builder.headers ++ validators stored }
