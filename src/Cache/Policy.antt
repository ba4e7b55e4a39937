-- ===== src/Cache/Policy.antt =====
-- src/cache.rs, `RequestPolicy`: what the proxy may do with the cache for one request.
pub mod Laws
use shadowstep.Prelude.{Bool, true, false, ◌&&◌, ◌||◌, not, Option, any, is_none}
use shadowstep.Text.{eqb}
use shadowstep.Time.{Duration}
use shadowstep.Http.{Http, Method}
use shadowstep.Cache.Names
use shadowstep.Cache.Directives.{Directives, parse, has, seconds}

pub record RequestPolicy : Type 0 where
  pub may_serve : Bool
  pub max_age : Option Duration
  pub may_store : Bool
  pub has_credentials : Bool
  pub conditional : Bool

module _ ⦃http : Http⦄ where
  open http use {HeaderMap, get_all, contains_key}

  unfoldable pub new : Method → HeaderMap → RequestPolicy
  new method headers =
      let directives = parse (get_all headers Names.cache_control) in
      let cacheable_method =
        (eqb method Names.get || eqb method Names.head)
        && not (any (λ h. contains_key headers h) Names.method_override_headers) in
      let no_store = directives.malformed || has directives Names.no_store in
      record {
        may_serve = cacheable_method && not no_store && not (has directives Names.no_cache);
        max_age = seconds directives Names.max_age;
        may_store = cacheable_method && eqb method Names.get && not no_store;
        has_credentials =
            contains_key headers Names.authorization || contains_key headers Names.cookie;
        conditional = any (λ h. contains_key headers h) Names.precondition_headers;
      }

unfoldable pub bypasses_cache : RequestPolicy → Bool
bypasses_cache p = not p.may_serve && not p.may_store

unfoldable pub may_serve_stale : RequestPolicy → Bool
may_serve_stale p = is_none p.max_age

unfoldable pub may_coalesce : RequestPolicy → Bool
may_coalesce p = p.may_serve && not p.has_credentials && not p.conditional

unfoldable pub may_lead : RequestPolicy → Bool
unfolding may_coalesce
may_lead p = may_coalesce p && p.may_store
