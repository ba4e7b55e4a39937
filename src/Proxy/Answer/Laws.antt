-- ===== src/Proxy/Answer/Laws.antt =====
-- What the client gets from a stored response, and how the store changes with an answer.
use shadowstep.Prelude.{
  ◌+◌, ◌≤◌, ◌≡◌, true, false, ◌||◌, [], ◌∷◌, Option, none, some, arith, Option-cases, inl, inr,
  if◌then◌else◌,
}
use shadowstep.Text.{Text, Bytes, codes, eqb}
use shadowstep.Text.Decimal.{to_string}
use shadowstep.Run.{done}
use shadowstep.Time.{Duration, elapsed, as_secs, duration_max}
use shadowstep.Http.{Http, StatusCode, append_all}
use shadowstep.Forwarded.{Request}
use shadowstep.Cache.Policy.{RequestPolicy}
use shadowstep.Cache.Storable.{Storable, storable}
use shadowstep.Cache.Storable.Bounds.{storable-le}
use shadowstep.Cache.Vary.{Vary}
use shadowstep.Cache.Response.{Fields, PrimaryKey, age, is_fresh}
use shadowstep.Cache.Store.{Clock, Caches, Store, lookup, response}
use shadowstep.Cache.Store.Laws.{lookup-invalidate}
use shadowstep.Proxy.Headers.{Head, cache_status}
use shadowstep.Proxy.Answer.{whole, cached_headers, cached_response, store_plan, after_unsafe}

module _ ⦃http : Http⦄ where
  open http use {HeaderMap, get_all}

  -- The response from a stored one has one `Age`, the seconds of its age, and one cache status,
  -- whatever fields were stored; a field of any other name has the stored values.
  pub get_all-cached_headers :
      (fields : Fields) (a : Duration) (label name : Text)
      → get_all (cached_headers fields a label) name ≡ (
          if eqb cache_status name
          then label ∷ []
          else if eqb (codes "age") name
          then to_string (as_secs a) ∷ []
          else get_all (append_all http.new fields) name)
  unfolding cached_headers
  get_all-cached_headers fields a label name = ground (
    arith,
    http.get_all-insert
        (http.insert (append_all http.new fields) (codes "age") (to_string (as_secs a)))
        cache_status label name,
    http.get_all-insert (append_all http.new fields) (codes "age") (to_string (as_secs a)) name,
  )

  -- A fresh use of a stored response never panics. A response that `storable` allowed to be stored,
  -- as it is made then, is fresh only while its age fits a `Duration`: the client gets its status,
  -- its fields and its body, and the `Age` is the origin's and the time since.
  pub cached_response-fresh :
      (clock later : Clock) ⦃caches : Caches⦄ (s : Store) (policy : RequestPolicy)
      (request answer : HeaderMap) (status : StatusCode) (fields : Fields) (body : Bytes)
      (label : Text) (p : Storable) (v : Vary)
      → storable clock.system policy request status answer ≡ some (p, v)
      → is_fresh later.instant (response clock.instant s p status fields body) ≡ true
      → cached_response later.instant (response clock.instant s p status fields body) label
        ≡ done (record {
          status = status;
          headers =
              cached_headers fields (p.initial_age + elapsed clock.instant later.instant) label;
          body = whole body;
        })
  unfolding cached_response age is_fresh response
  cached_response-fresh clock later s policy request answer status fields body label p v may fresh =
      let fits = storable-le clock.system policy request status answer p v may in
      let room : p.initial_age + elapsed clock.instant later.instant ≤ duration_max =
        ground arith in
      ground arith

  module _ ⦃caches : Caches⦄ where
    -- After the plan for a successful or redirected request with an unsafe method, no lookup finds a
    -- stored response for its URI, whether or not its answer is to be stored.
    pub lookup-store_plan :
        (clock later : Clock) (s : Store) (req : Request) (cache_key : PrimaryKey)
        (policy : RequestPolicy) (head : Head) (request : HeaderMap) (max_age : Option Duration)
        → http.is_safe req.method ≡ false
        → http.is_success head.status || http.is_redirection head.status ≡ true
        → lookup later (store_plan clock s req cache_key policy head).1 cache_key request max_age
          ≡ done none
    unfolding store_plan after_unsafe
    lookup-store_plan clock later s req cache_key policy head request max_age unsafe success =
        let gone = lookup-invalidate later s cache_key request max_age in
        elim (Option-cases (storable clock.system policy req.headers head.status head.map)) [
          | inl e ↦ rw (e, store_plan, after_unsafe, unsafe, success) gone
          | inr ((p, v), e) ↦ rw (e, store_plan, after_unsafe, unsafe, success) gone
        ]
