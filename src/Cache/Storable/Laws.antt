-- ===== src/Cache/Storable/Laws.antt =====
-- What a response that the store may keep is.
use shadowstep.Prelude.{
  ℕ, ◌+◌, ◌<◌, ◌≡◌, true, false, some, none, ◌==◌, ◌||◌, ◌⊎◌, ◌↔◌, ◌∙◌, ap, arith, any, In, [], ◌∷◌,
  ◌>>=◌, unwrap_or,
}
use shadowstep.Text.{codes, parse_u64}
use shadowstep.Time.{Duration, SystemTime, from_secs, elapsed}
use shadowstep.Http.{Http, HeaderValue, StatusCode}
use shadowstep.Cache.Names
use shadowstep.Cache.Directives.{Directives, parse, has, seconds}
use shadowstep.Cache.Policy.{RequestPolicy}
use shadowstep.Cache.Stale
use shadowstep.Cache.Stale.{StaleRules}
use shadowstep.Cache.Vary.{Vary, vary_values, vary_names}
use shadowstep.Cache.Storable.{
  Storable, storable, storable_response_directives, freshness_lifetime, expires_lifetime,
  initial_age, http_date, cacheable_by_default, unstorable_directives,
}

module _ ⦃http : Http⦄ (now : SystemTime) (policy : RequestPolicy) (request : http.HeaderMap)
    (status : StatusCode) (response : http.HeaderMap) where
  open http use {get_all, get, contains_key, to_str}

  -- The conditions as the code makes them.
  record Conditions (s : Storable) (v : Vary) : Type 0 where
    allowed : policy.may_store ≡ true
    status_cacheable : any (λ c. c == status) cacheable_by_default ≡ true
    no_cookie : contains_key response Names.set_cookie ≡ false
    readable : (parse (get_all response Names.cache_control)).malformed ≡ false
    no_directive :
        any (has (parse (get_all response Names.cache_control))) unstorable_directives ≡ false
    shared :
        (policy.has_credentials ≡ false)
        ⊎ (has (parse (get_all response Names.cache_control)) Names.public ≡ true)
    varies : vary_names response ≡ some v.names
    selected : v.values ≡ vary_values v.names request
    aged : s.initial_age ≡ initial_age response
    lives :
        freshness_lifetime now (parse (get_all response Names.cache_control)) response
        ≡ some (s.initial_age + s.ttl)
    fresh : 0 < s.ttl
    stale_rules : s.stale ≡ Stale.parse (parse (get_all response Names.cache_control))

  storable-Conditions_iff :
      (s : Storable) (v : Vary)
      → (storable now policy request status response ≡ some (s, v)) ↔ Conditions s v
  unfolding storable storable_response_directives
  storable-Conditions_iff s v = (λ h. ground arith, λ m. ground arith)

  abbrev pub control : Directives
  control = parse (get_all response (codes "cache-control"))

  -- The lifetime is that from `Date`, or from now, to `Expires`, and an `Expires` that is no date
  -- has passed.
  abbrev pub ExpiresAfter : Duration → Type 0
  ExpiresAfter lifetime =
      (value : HeaderValue) × (get response (codes "expires") ≡ some value)
      × (((http_date value ≡ none) × (lifetime ≡ 0))
          ⊎ ((end : SystemTime) × (http_date value ≡ some end)
              × (lifetime
                  ≡ elapsed (unwrap_or (get response (codes "date") >>= http_date) now) end)))

  -- `s-maxage` comes before `max-age`, and both before `Expires`.
  abbrev pub LivesFor : Duration → Type 0
  LivesFor lifetime =
      (seconds control (codes "s-maxage") ≡ some lifetime)
      ⊎ ((seconds control (codes "s-maxage") ≡ none)
          × ((seconds control (codes "max-age") ≡ some lifetime)
              ⊎ ((seconds control (codes "max-age") ≡ none) × ExpiresAfter lifetime)))

  -- What RFC 9111 asks of a response that a shared cache stores, read off the two messages.
  pub record MayStore (s : Storable) (v : Vary) : Type 0 where
    pub allowed : policy.may_store ≡ true
    pub status_cacheable :
        In status (200 ∷ 203 ∷ 204 ∷ 300 ∷ 301 ∷ 308 ∷ 404 ∷ 405 ∷ 410 ∷ 414 ∷ 501 ∷ [])
    pub no_cookie : contains_key response (codes "set-cookie") ≡ false
    pub readable : control.malformed ≡ false
    pub not_no_store : has control (codes "no-store") ≡ false
    pub not_private : has control (codes "private") ≡ false
    pub not_no_cache : has control (codes "no-cache") ≡ false
    pub shared : (policy.has_credentials ≡ false) ⊎ (has control (codes "public") ≡ true)
    pub varies : vary_names response ≡ some v.names
    pub selected : v.values ≡ vary_values v.names request
    pub aged :
        ((seconds_old : ℕ) × ((get response (codes "age") >>= λ value. to_str value >>= parse_u64)
            ≡ some seconds_old)
          × (s.initial_age ≡ from_secs seconds_old))
        ⊎ (((get response (codes "age") >>= λ value. to_str value >>= parse_u64) ≡ none)
            × (s.initial_age ≡ 0))
    pub lives : LivesFor (s.initial_age + s.ttl)
    pub fresh : 0 < s.ttl
    pub while_revalidate :
        s.stale.while_revalidate ≡ unwrap_or (seconds control (codes "stale-while-revalidate")) 0
    pub if_error : s.stale.if_error ≡ unwrap_or (seconds control (codes "stale-if-error")) 0
    pub must_revalidate : s.stale.must_revalidate ≡ (
        has control (codes "must-revalidate")
        || has control (codes "proxy-revalidate")
        || has control (codes "s-maxage"))

  expires_lifetime-ExpiresAfter_iff :
      (lifetime : Duration)
      → (expires_lifetime now response ≡ some lifetime) ↔ ExpiresAfter lifetime
  unfolding expires_lifetime
  expires_lifetime-ExpiresAfter_iff lifetime = (λ h. ground arith, λ m. ground arith)

  pub freshness_lifetime-LivesFor_iff :
      (lifetime : Duration)
      → (freshness_lifetime now control response ≡ some lifetime) ↔ LivesFor lifetime
  unfolding freshness_lifetime
  freshness_lifetime-LivesFor_iff lifetime = (
    λ h. ground (arith, (expires_lifetime-ExpiresAfter_iff lifetime).0),
    λ m. ground (arith, (expires_lifetime-ExpiresAfter_iff lifetime).1),
  )

  aged_iff :
      (age : Duration)
      → (age ≡ initial_age response) ↔ (
          ((seconds_old : ℕ) × ((get response (codes "age") >>= λ value. to_str value >>= parse_u64)
              ≡ some seconds_old)
            × (age ≡ from_secs seconds_old))
          ⊎ (((get response (codes "age") >>= λ value. to_str value >>= parse_u64) ≡ none)
              × (age ≡ 0)))
  unfolding initial_age
  aged_iff age = (λ h. ground arith, λ m. ground arith)

  cacheable_iff :
      (any (λ c. c == status) cacheable_by_default ≡ true)
      ↔ In status (200 ∷ 203 ∷ 204 ∷ 300 ∷ 301 ∷ 308 ∷ 404 ∷ 405 ∷ 410 ∷ 414 ∷ 501 ∷ [])
  cacheable_iff = (λ h. ground arith, λ m. ground arith)

  Conditions-MayStore : (s : Storable) (v : Vary) → Conditions s v → MayStore s v
  unfolding Stale.parse
  Conditions-MayStore s v c = record {
    allowed = c.allowed;
    status_cacheable = cacheable_iff.0 c.status_cacheable;
    no_cookie = c.no_cookie;
    readable = c.readable;
    not_no_store = ground (arith, c.no_directive);
    not_private = ground (arith, c.no_directive);
    not_no_cache = ground (arith, c.no_directive);
    shared = c.shared;
    varies = c.varies;
    selected = c.selected;
    aged = (aged_iff s.initial_age).0 c.aged;
    lives = (freshness_lifetime-LivesFor_iff (s.initial_age + s.ttl)).0 c.lives;
    fresh = c.fresh;
    while_revalidate = ap (λ (r : StaleRules). r.while_revalidate) c.stale_rules;
    if_error = ap (λ (r : StaleRules). r.if_error) c.stale_rules;
    must_revalidate = ap (λ (r : StaleRules). r.must_revalidate) c.stale_rules ∙ ground arith;
  }

  MayStore-Conditions : (s : Storable) (v : Vary) → MayStore s v → Conditions s v
  unfolding Stale.parse
  MayStore-Conditions s v m = record {
    allowed = m.allowed;
    status_cacheable = cacheable_iff.1 m.status_cacheable;
    no_cookie = m.no_cookie;
    readable = m.readable;
    no_directive = ground (arith, m.not_no_store, m.not_private, m.not_no_cache);
    shared = m.shared;
    varies = m.varies;
    selected = m.selected;
    aged = (aged_iff s.initial_age).1 m.aged;
    lives = (freshness_lifetime-LivesFor_iff (s.initial_age + s.ttl)).1 m.lives;
    fresh = m.fresh;
    stale_rules = rw (m.while_revalidate, m.if_error, m.must_revalidate) (ground arith);
  }

  pub storable-MayStore_iff :
      (s : Storable) (v : Vary)
      → (storable now policy request status response ≡ some (s, v)) ↔ MayStore s v
  storable-MayStore_iff s v = (
    λ h. Conditions-MayStore s v ((storable-Conditions_iff s v).0 h),
    λ m. (storable-Conditions_iff s v).1 (MayStore-Conditions s v m),
  )
