-- ===== src/Cache/Stale.antt =====
-- src/cache.rs, `StaleRules`: what a response's Cache-Control allows once it is stale.
use shadowstep.Prelude.{Bool, [], ◌∷◌, any, min, max, if◌then◌else◌, unwrap_or, false}
use shadowstep.Time.{Duration}
use shadowstep.Cache.Names
use shadowstep.Cache.Directives.{Directives, has, seconds}

pub record StaleRules : Type 0 where
  pub while_revalidate : Duration
  pub if_error : Duration
  pub must_revalidate : Bool

abbrev pub default : StaleRules
default = record { while_revalidate = 0; if_error = 0; must_revalidate = false }

unfoldable pub parse : Directives → StaleRules
parse directives = record {
  while_revalidate = unwrap_or (seconds directives Names.stale_while_revalidate) 0;
  if_error = unwrap_or (seconds directives Names.stale_if_error) 0;
  must_revalidate =
      any (has directives) (Names.must_revalidate ∷ Names.proxy_revalidate ∷ Names.s_maxage ∷ []);
}

unfoldable pub grace : StaleRules → Bool → Duration → Duration
grace rules has_validator cap =
    let windows = if rules.must_revalidate then 0 else max rules.while_revalidate rules.if_error in
    let revalidation = if has_validator then cap else 0 in min (max windows revalidation) cap
