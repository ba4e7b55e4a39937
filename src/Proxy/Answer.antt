-- ===== src/Proxy/Answer.antt =====
-- src/proxy.rs, the client's responses and the storing of the origin's: `cached_response`,
-- `client_response`, `error_response`, `store_plan` and `Storing`.
pub mod Laws
use shadowstep.Prelude.{
  ℕ, Bool, true, false, ◌&&◌, ◌||◌, not, List, [], ◌∷◌, ◌++◌, Option, none, some, leb,
  if◌then◌else◌, ◌>>=◌, unwrap_or,
}
use shadowstep.Text.{Text, Bytes, codes, parse_u64, to_ascii_lowercase}
use shadowstep.Text.Decimal.{to_string}
use shadowstep.Run.{Run, done, panic, map_run}
use shadowstep.Time.{Instant, Duration, as_secs}
use shadowstep.Http.{Http, HeaderName, HeaderValue, Method, StatusCode, append_all}
use shadowstep.Metrics.{miss}
use shadowstep.Forwarded.{Request}
use shadowstep.Cache.Policy.{RequestPolicy}
use shadowstep.Cache.Storable.{Storable, storable}
use shadowstep.Cache.Vary.{Vary}
use shadowstep.Cache.Response.{Fields, PrimaryKey, StoredResponse, age}
use shadowstep.Cache.Store.{Clock, Caches, Store, insert_response, invalidate}
use shadowstep.Proxy.Headers.{Head, cache_status, forwardable_fields, stored_fields}
use shadowstep.Proxy.Tee.{Tee}
use shadowstep.Proxy.Tee

-- A response's body: bytes that are there, or the origin's stream with the copy that is taken.
pub data Body : Type 0 where
  whole : Bytes → Body
  streaming : Tee → Body

-- How to store a response once its body has arrived, with what `finish` holds on to.
pub record Storing : Type 0 where
  pub limit : ℕ
  pub cache_key : PrimaryKey
  pub vary : Vary
  pub storable : Storable

-- The largest body that is copied is one within the limit, if its length is known.
unfoldable pub fits : Option ℕ → Storing → Bool
fits none plan = true
fits (some length) plan = leb length plan.limit

unfoldable pub copy_for : Option ℕ → Option Storing → Option Tee.BodyCopy
unfolding fits
copy_for length none = none
copy_for length (some plan) =
    if fits length plan then some (record { buffer = []; limit = plan.limit }) else none

module _ ⦃http : Http⦄ where
  open http use {HeaderMap, new, insert, get, to_str}

  pub record Response : Type 0 where
    pub status : StatusCode
    pub headers : HeaderMap
    pub body : Body

  -- The fields of a stored response with the two that its use adds.
  unfoldable pub cached_headers : Fields → Duration → Text → HeaderMap
  cached_headers fields age label =
      insert (insert (append_all new fields) (codes "age") (to_string (as_secs age))) cache_status
        label

  -- `cached_response`, which panics when the age does not fit a `Duration`.
  unfoldable pub cached_response : Instant → StoredResponse → Text → Run Response
  unfolding cached_headers
  cached_response now stored label =
      map_run
        (λ a. record {
          status = stored.status;
          headers = cached_headers stored.headers a label;
          body = whole stored.body;
        })
        (age now stored)

  unfoldable pub error_response : StatusCode → Response
  error_response status = record {
    status = status;
    headers = new;
    body = whole (to_ascii_lowercase (unwrap_or (http.canonical_reason status) []));
  }

  unfoldable pub content_length : Head → Option ℕ
  content_length head = get head.map (codes "content-length") >>= λ v. to_str v >>= parse_u64

  unfoldable pub client_response : Head → Option Storing → Response
  unfolding content_length copy_for
  client_response head store =
      let length = content_length head in
      record {
        status = head.status;
        headers = insert (append_all new (forwardable_fields head)) cache_status miss;
        body = streaming (Tee.new length (copy_for length store));
      }

  module _ ⦃caches : Caches⦄ where
    -- A successful unsafe request removes the stored responses for its URI.
    unfoldable pub after_unsafe : Request → PrimaryKey → StatusCode → Store → Store
    after_unsafe req cache_key status s =
        if not (http.is_safe req.method) && (http.is_success status || http.is_redirection status)
        then invalidate s cache_key
        else s

    unfoldable pub store_plan :
        Clock → Store → Request → PrimaryKey → RequestPolicy → Head → Option Storing × Store
    unfolding after_unsafe
    store_plan clock s req cache_key policy head =
        let s' = after_unsafe req cache_key head.status s in
        elim (storable clock.system policy req.headers head.status head.map) [
          | none ↦ (none, s')
          | some (p, vary) ↦ (
            some
                (record { limit = s'.max_entry; cache_key = cache_key; vary = vary; storable = p }),
            s',
          )
        ]

    -- The callback `finish` of a plan, with the fields that are stored.
    unfoldable pub finish : Clock → Store → Storing → StatusCode → Fields → Bytes → Store
    finish clock s plan status headers body =
        (insert_response clock s plan.cache_key plan.vary plan.storable status headers body).1
