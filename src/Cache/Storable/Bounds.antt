-- ===== src/Cache/Storable/Bounds.antt =====
-- How long a stored response may be fresh, and that its age then fits a `Duration`.
use shadowstep.Prelude.{
  ℕ, [], ◌∷◌, find, ◌+◌, ◌*◌, ◌-◌, ◌≤◌, ◌≡◌, some, arith, Option-cases, inl, inr, unwrap_or,
}
use shadowstep.Text.{Text, eqb, parse_digits, parse_u64, u64_max}
use shadowstep.Time.{Duration, SystemTime, from_secs}
use shadowstep.Http.{Http, HeaderValue, StatusCode}
use shadowstep.Cache.Names
use shadowstep.Cache.Directives.{Directives, seconds, delta_seconds}
use shadowstep.Cache.Policy.{RequestPolicy}
use shadowstep.Cache.Vary.{Vary}
use shadowstep.Cache.Storable.{Storable, storable, freshness_lifetime, expires_lifetime, http_date}
use shadowstep.Cache.Storable.Laws.{storable-MayStore_iff, freshness_lifetime-LivesFor_iff}

parse_digits-le : (n : ℕ) (s : Text) (m : ℕ) → n ≤ u64_max → parse_digits n s ≡ some m → m ≤ u64_max
unfolding parse_digits
parse_digits-le n [] m h e = ground arith
parse_digits-le n (c ∷ s) m h e = ground (arith, parse_digits-le (n * 10 + (c - b'0')) s m)

parse_u64-le : (s : Text) (m : ℕ) → parse_u64 s ≡ some m → m ≤ u64_max
unfolding parse_u64
parse_u64-le [] m e = cc
parse_u64-le (c ∷ []) m e = parse_digits-le 0 (c ∷ []) m (omega arith) e
parse_u64-le (c ∷ d ∷ s) m e =
    ground (arith, parse_digits-le 0 (d ∷ s) m, parse_digits-le 0 (c ∷ d ∷ s) m)

delta_seconds-le : (argument : Text) → delta_seconds argument ≤ u64_max
unfolding delta_seconds
delta_seconds-le argument = elim (Option-cases (parse_u64 argument)) [
  | inl e ↦ ground arith
  | inr (m, e) ↦ ground (arith, parse_u64-le argument m e)
]

seconds-le :
    (d : Directives) (name : Text) (t : Duration) → seconds d name ≡ some t → t ≤ from_secs u64_max
unfolding seconds
seconds-le d name t e = elim (Option-cases (find (λ x. eqb x.0 name) d.list)) [
  | inl none_there ↦ cc (rw (none_there, seconds) at e)
  | inr ((_, argument), there) ↦
      let value : some (from_secs (delta_seconds (unwrap_or argument []))) ≡ some t =
        rw (there, seconds) at e in
      let least = delta_seconds-le (unwrap_or argument []) in ground arith
]

module _ ⦃http : Http⦄ where
  http_date-le :
      (v : HeaderValue) (t : SystemTime) → http_date v ≡ some t → t ≤ from_secs 253402300799
  unfolding http_date
  http_date-le v t h = elim (Option-cases (http.to_str v)) [
    | inl e ↦ cc (rw (e, http_date) at h)
    | inr (s, e) ↦ http.parse_http_date-le s t (rw (e, http_date) at h)
  ]

  expires_lifetime-le :
      (now : SystemTime) (response : http.HeaderMap) (t : Duration)
      → expires_lifetime now response ≡ some t
      → t ≤ from_secs u64_max
  unfolding expires_lifetime
  expires_lifetime-le now response t h = elim (Option-cases (http.get response Names.expires)) [
    | inl e ↦ cc (rw (e, expires_lifetime) at h)
    | inr (v, e) ↦ elim (Option-cases (http_date v)) [
      | inl f ↦ ground arith
      | inr (expires, f) ↦ let late = http_date-le v expires f in ground arith
    ]
  ]

  freshness_lifetime-le :
      (now : SystemTime) (d : Directives) (response : http.HeaderMap) (t : Duration)
      → freshness_lifetime now d response ≡ some t
      → t ≤ from_secs u64_max
  unfolding freshness_lifetime
  freshness_lifetime-le now d response t h = ground (
    arith,
    seconds-le d Names.s_maxage t,
    seconds-le d Names.max_age t,
    expires_lifetime-le now response t,
  )

  -- A response that may be stored is fresh up to an age of no more than `u64::MAX` seconds, the
  -- age that it had when it came included.
  pub storable-le :
      (now : SystemTime) (policy : RequestPolicy) (request : http.HeaderMap) (status : StatusCode)
      (response : http.HeaderMap) (p : Storable) (v : Vary)
      → storable now policy request status response ≡ some (p, v)
      → p.initial_age + p.ttl ≤ from_secs u64_max
  storable-le now policy request status response p v h =
      let m = (storable-MayStore_iff now policy request status response p v).0 h in
      freshness_lifetime-le now _ response (p.initial_age + p.ttl)
        ((freshness_lifetime-LivesFor_iff now policy request status response _).1 m.lives)
