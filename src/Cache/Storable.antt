-- ===== src/Cache/Storable.antt =====
-- src/cache.rs, `storable` and what it calls: whether a shared cache may store a response, and
-- for how long. The system clock's time is an argument.
pub mod Laws
pub mod Bounds
use shadowstep.Prelude.{
  ℕ, Bool, true, false, ◌&&◌, ◌||◌, not, List, [], ◌∷◌, Option, none, some, ◌==◌, if◌then◌else◌,
  ◌>>=◌, ◌>>◌, guard, any, map_option, or_else, unwrap_or,
}
use shadowstep.Text.{Text, parse_u64}
use shadowstep.Time.{Duration, SystemTime, from_secs, checked_sub, elapsed, is_zero}
use shadowstep.Http.{Http, HeaderValue, StatusCode}
use shadowstep.Cache.Names
use shadowstep.Cache.Directives.{Directives, parse, has, seconds}
use shadowstep.Cache.Policy.{RequestPolicy}
use shadowstep.Cache.Stale
use shadowstep.Cache.Stale.{StaleRules}
use shadowstep.Cache.Vary.{Vary, vary_values, vary_names}

pub record Storable : Type 0 where
  pub ttl : Duration
  pub initial_age : Duration
  pub stale : StaleRules

abbrev pub default : Storable
default = record { ttl = 0; initial_age = 0; stale = Stale.default }

-- `CACHEABLE_BY_DEFAULT`.
abbrev pub cacheable_by_default : List StatusCode
cacheable_by_default = 200 ∷ 203 ∷ 204 ∷ 300 ∷ 301 ∷ 308 ∷ 404 ∷ 405 ∷ 410 ∷ 414 ∷ 501 ∷ []

-- `UNSTORABLE_DIRECTIVES`.
abbrev pub unstorable_directives : List Text
unstorable_directives = Names.no_store ∷ Names.private ∷ Names.no_cache ∷ []

module _ ⦃http : Http⦄ where
  open http use {HeaderMap, get_all, get, contains_key, to_str, parse_http_date}

  unfoldable pub storable_response_directives : StatusCode → HeaderMap → Option Directives
  storable_response_directives status response =
      if not (any (λ s. s == status) cacheable_by_default) || contains_key response Names.set_cookie
      then none
      else (let directives = parse (get_all response Names.cache_control) in
          if directives.malformed || any (has directives) unstorable_directives
          then none
          else some directives)

  unfoldable pub http_date : HeaderValue → Option SystemTime
  http_date value = to_str value >>= parse_http_date

  -- The lifetime that `Expires` and `Date` give.
  unfoldable pub expires_lifetime : SystemTime → HeaderMap → Option Duration
  unfolding http_date
  expires_lifetime now response = do
    value ← get response Names.expires
    some (elim (http_date value) [
      | none ↦ 0
      | some expires ↦ elapsed (unwrap_or (get response Names.date >>= http_date) now) expires
    ])

  unfoldable pub freshness_lifetime : SystemTime → Directives → HeaderMap → Option Duration
  unfolding expires_lifetime
  freshness_lifetime now directives response =
      elim (or_else (seconds directives Names.s_maxage) (seconds directives Names.max_age)) [
        | some lifetime ↦ some lifetime
        | none ↦ expires_lifetime now response
      ]

  -- The origin's `Age`, or zero.
  unfoldable pub initial_age : HeaderMap → Duration
  initial_age response =
      unwrap_or (map_option from_secs (get response Names.age >>= λ v. to_str v >>= parse_u64)) 0

  unfoldable pub storable :
      SystemTime → RequestPolicy → HeaderMap → StatusCode → HeaderMap → Option (Storable × Vary)
  storable now policy request status response = do
    guard policy.may_store
    directives ← storable_response_directives status response
    guard (not (policy.has_credentials && not (has directives Names.public)))
    names ← vary_names response
    let age = initial_age response
    lifetime ← freshness_lifetime now directives response
    ttl ← checked_sub lifetime age
    guard (not (is_zero ttl))
    some (
      record { ttl = ttl; initial_age = age; stale = Stale.parse directives },
      record { names = names; values = vary_values names request },
    )
