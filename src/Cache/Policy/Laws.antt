-- ===== src/Cache/Policy/Laws.antt =====
-- What the flags of a request's policy say of the request.
use shadowstep.Prelude.{◌≡◌, true, false, arith, All}
use shadowstep.Text.Laws.{eqb_iff}
use shadowstep.Http.{Http, Method}
use shadowstep.Cache.Names
use shadowstep.Cache.Directives.{parse, has}
use shadowstep.Cache.Policy.{new, may_lead}

module _ ⦃http : Http⦄ (method : Method) (headers : http.HeaderMap) where
  open http use {get_all, contains_key}

  -- A request that may lead a flight is a plain GET: the origin's answer to it may be stored, it
  -- has no credentials, no precondition and no method override, and its Cache-Control was
  -- readable and had neither `no-store` nor `no-cache`.
  pub may_lead-new :
      may_lead (new method headers) ≡ true
      → (method ≡ Names.get)
        × (contains_key headers Names.authorization ≡ false)
        × (contains_key headers Names.cookie ≡ false)
        × All (λ h. contains_key headers h ≡ false) Names.precondition_headers
        × All (λ h. contains_key headers h ≡ false) Names.method_override_headers
        × ((parse (get_all headers Names.cache_control)).malformed ≡ false)
        × (has (parse (get_all headers Names.cache_control)) Names.no_store ≡ false)
        × (has (parse (get_all headers Names.cache_control)) Names.no_cache ≡ false)
  unfolding may_lead new
  may_lead-new h = ground (arith, eqb_iff method Names.get)
