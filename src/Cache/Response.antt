-- ===== src/Cache/Response.antt =====
-- src/cache.rs: keys, stored responses and assets. The current instant is an argument of each
-- method that reads the clock.
pub mod Windows
use shadowstep.Prelude.{
  ℕ, ◌+◌, ◌-◌, ◌^◌, Bool, true, false, ◌&&◌, not, List, [], ◌∷◌, ◌++◌, Option, none, some, ltb,
  if◌then◌else◌, length, any, retain,
}
use shadowstep.Text.{Text, Bytes, eqb, len, to_ascii_lowercase}
use shadowstep.Time.{
  Duration, Instant, SystemTime, add_or_panic, saturating_add, checked_sub, elapsed,
}
use shadowstep.Run.{Run}
use shadowstep.Http.{HeaderName, HeaderValue, StatusCode}
use shadowstep.Cache.Names
use shadowstep.Cache.Stale.{StaleRules}

-- A path, as its text.
abbrev pub FilePath : Type 0
FilePath = Text

pub record PrimaryKey : Type 0 where
  pub scheme : Text
  pub host : Text
  pub path_and_query : Text

unfoldable pub new_key : Text → Text → Text → PrimaryKey
new_key scheme host path_and_query = record {
  scheme = to_ascii_lowercase scheme;
  host = to_ascii_lowercase host;
  path_and_query = path_and_query;
}

pub primary_weight : PrimaryKey → ℕ
primary_weight k = len k.scheme + len k.host + len k.path_and_query

pub record Index : Type 0 where
  pub vary : List HeaderName
  pub generation : ℕ

pub record ResponseKey : Type 0 where
  pub primary : PrimaryKey
  pub generation : ℕ
  pub vary : List (Option Text)

pub record FlightKey : Type 0 where
  pub primary : PrimaryKey
  pub vary : List (Option Text)

pub data Key : Type 0 where
  asset : FilePath → Key
  response : ResponseKey → Key

abbrev pub Fields : Type 0
Fields = List (HeaderName × HeaderValue)

pub record Asset : Type 0 where
  pub content : Bytes
  pub etag : Text
  pub modified : SystemTime
  pub len : ℕ
  pub ttl : Duration

pub record StoredResponse : Type 0 where
  pub status : StatusCode
  pub headers : Fields
  pub body : Bytes
  pub stored_at : Instant
  pub initial_age : Duration
  pub ttl : Duration
  pub grace : Duration
  pub stale : StaleRules

-- `Arc<T>`: the address is the identity that `Arc::ptr_eq` compares.
pub record Arc (A : Type 0) : Type 0 where
  pub address : ℕ
  pub value : A

pub data Entry : Type 0 where
  asset : Arc Asset → Entry
  response : Arc StoredResponse → Entry

-- The response's current age. The sum of two durations panics on overflow.
unfoldable pub age : Instant → StoredResponse → Run Duration
age now r = add_or_panic r.initial_age (elapsed r.stored_at now)

unfoldable pub is_fresh : Instant → StoredResponse → Bool
is_fresh now r = ltb (elapsed r.stored_at now) r.ttl

unfoldable pub staleness : Instant → StoredResponse → Option Duration
staleness now r = checked_sub (elapsed r.stored_at now) r.ttl

abbrev within : Duration → Option Duration → Bool
within window none = false
within window (some s) = ltb s window

unfoldable pub stale_within : Instant → StoredResponse → Duration → Bool
unfolding staleness
stale_within now r window = not r.stale.must_revalidate && within window (staleness now r)

unfoldable pub may_serve_while_revalidating : Instant → StoredResponse → Bool
unfolding stale_within
may_serve_while_revalidating now r = stale_within now r r.stale.while_revalidate

unfoldable pub may_serve_on_error : Instant → StoredResponse → Bool
unfolding stale_within
may_serve_on_error now r = stale_within now r r.stale.if_error

abbrev pub must_revalidate : StoredResponse → Bool
must_revalidate r = r.stale.must_revalidate

-- The loop of `validators` over the stored fields.
unfoldable pub validator_fields : Fields → Fields
validator_fields [] = []
validator_fields ((name, value) ∷ fields) =
    let rest = validator_fields fields in
    if eqb name Names.etag
    then (Names.if_none_match, value) ∷ rest
    else if eqb name Names.last_modified
    then (Names.if_modified_since, value) ∷ rest
    else rest

unfoldable pub validators : StoredResponse → Fields
unfolding validator_fields
validators r = validator_fields r.headers

unfoldable pub updated_fields : Fields → Fields → Fields
updated_fields stored update = retain (λ f. not (any (λ u. eqb u.0 f.0) update)) stored ++ update

unfoldable pub entry_ttl : Entry → Duration
entry_ttl (asset a) = a.value.ttl
entry_ttl (response r) = saturating_add r.value.ttl r.value.grace

vary_weight : List (Option Text) → ℕ
vary_weight [] = 0
vary_weight (none ∷ vs) = vary_weight vs
vary_weight (some v ∷ vs) = len v + vary_weight vs

fields_weight : Fields → ℕ
fields_weight [] = 0
fields_weight ((name, value) ∷ fields) = len name + length value + fields_weight fields

pub key_weight : Key → ℕ
unfolding vary_weight primary_weight
key_weight (asset path) = len path
key_weight (response k) = primary_weight k.primary + vary_weight k.vary

pub value_weight : Entry → ℕ
unfolding fields_weight
value_weight (asset a) = length a.value.content + len a.value.etag
value_weight (response r) = length r.value.body + fields_weight r.value.headers

abbrev pub u32_max : ℕ
u32_max = 2 ^ 32 - 1

-- A weight over `u32::MAX` counts as `u32::MAX`.
unfoldable pub entry_weight : Key → Entry → ℕ
unfolding key_weight value_weight
entry_weight key entry =
    let weight = key_weight key + value_weight entry in
    if ltb u32_max weight then u32_max else weight
