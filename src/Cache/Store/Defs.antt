-- ===== src/Cache/Store/Defs.antt =====
-- src/cache.rs, `Store` and its methods.
use shadowstep.Prelude.{
  ℕ, ◌+◌, ◌*◌, ◌^◌, Bool, true, false, ◌&&◌, not, List, [], ◌∷◌, Option, none, some, min, max, ltb,
  leb, if◌then◌else◌, length, ite,
}
use native.Mathlib.Decide.{ℕ_discrete}
use shadowstep.Text.{Text, Bytes, u64_max}
use shadowstep.Run.{Run, done, map_run}
use shadowstep.Time.{Duration, Instant, SystemTime, from_secs, is_zero, saturating_mul}
use shadowstep.Http.{Http}
use shadowstep.Moka.{Moka}
use shadowstep.Cache.Vary.{vary_values}
use shadowstep.Cache.Response.{
  FilePath, PrimaryKey, Index, ResponseKey, FlightKey, Key, Asset, StoredResponse, Arc, Entry, age,
  is_fresh, entry_ttl, entry_weight,
}

-- The time at which an operation happens, on both of the clocks that it may read.
pub record Clock : Type 0 where
  pub instant : Instant
  pub system : SystemTime

-- The two caches of the crate `moka` that the store holds.
pub record Caches : Type 1 where
  pub entries : Moka Key Entry
  pub index : Moka PrimaryKey Index

unfoldable pub Text-discrete : Discrete Text
Text-discrete = hlevel ℕ_discrete

unfoldable pub PrimaryKey-discrete : Discrete PrimaryKey
PrimaryKey-discrete = hlevel ℕ_discrete

unfoldable pub ResponseKey-discrete : Discrete ResponseKey
ResponseKey-discrete = hlevel ℕ_discrete

-- Sets of keys, as `HashSet` gives them.
unfoldable pub contains_key : List ResponseKey → ResponseKey → Bool
contains_key [] key = false
contains_key (k ∷ ks) key = ite (ResponseKey-discrete k key) true (contains_key ks key)

unfoldable pub remove_key : List ResponseKey → ResponseKey → List ResponseKey
remove_key [] key = []
remove_key (k ∷ ks) key =
    let rest = remove_key ks key in ite (ResponseKey-discrete k key) rest (k ∷ rest)

abbrev pub mib : ℕ
mib = 1024 * 1024

abbrev pub max_entry_bytes : ℕ
max_entry_bytes = 8 * mib

abbrev pub max_indexed_uris : ℕ
max_indexed_uris = 65536

abbrev pub u64_mod : ℕ
u64_mod = 2 ^ 64

pub record StaleEntry : Type 0 where
  pub response : Arc StoredResponse
  pub key : ResponseKey

pub data Lookup : Type 0 where
  fresh : Arc StoredResponse → Lookup
  stale : StaleEntry → Lookup

module _ ⦃caches : Caches⦄ where
  open caches use {entries as E, index as I}

  -- `next_address` is where the next `Arc::new` allocates.
  pub record Store : Type 0 where
    pub entries : E.Cache
    pub index : I.Cache
    pub generation : ℕ
    pub refreshing : List ResponseKey
    pub ttl : Duration
    pub max_entry : ℕ
    pub next_address : ℕ

  -- `Store::new`. The index keeps a URI for twice the store's ttl, and for a second at least.
  unfoldable pub new : ℕ → Duration → Store
  new size_mb ttl =
      let capacity = min (size_mb * mib) u64_max in
      record {
        entries = E.build capacity entry_weight (λ _ e. entry_ttl e);
        index =
            I.build max_indexed_uris (λ _ _. 1) (λ _ _. max (saturating_mul ttl 2) (from_secs 1));
        generation = 0;
        refreshing = [];
        ttl = ttl;
        max_entry = min capacity max_entry_bytes;
        next_address = 0;
      }

  unfoldable pub enabled : Store → Bool
  enabled s = ltb 0 s.max_entry && not (is_zero s.ttl)

  unfoldable pub entry_count : Clock → Store → ℕ × Store
  entry_count clock s =
      let entries = E.run_pending_tasks clock.instant s.entries in
      (E.entry_count entries, record s { entries = entries })

  unfoldable pub weighted_size : Clock → Store → ℕ × Store
  weighted_size clock s =
      let entries = E.run_pending_tasks clock.instant s.entries in
      (E.weighted_size entries, record s { entries = entries })

  abbrev asset_of : Option Entry → Option (Arc Asset)
  asset_of (some (Entry.asset a)) = some a
  asset_of (some (Entry.response r)) = none
  asset_of none = none

  abbrev pub response_of : Option Entry → Option (Arc StoredResponse)
  response_of (some (Entry.asset a)) = none
  response_of (some (Entry.response r)) = some r
  response_of none = none

  unfoldable pub asset : Clock → Store → FilePath → Option (Arc Asset)
  asset clock s path = asset_of (E.get clock.instant s.entries (Key.asset path))

  unfoldable pub insert_asset :
      Clock → Store → FilePath → Bytes → Text → SystemTime → Arc Asset × Store
  unfolding enabled
  insert_asset clock s path content etag modified =
      let value : Asset = record {
        len = length content;
        content = content;
        etag = etag;
        modified = modified;
        ttl = s.ttl;
      } in
      let a : Arc Asset = record { address = s.next_address; value = value } in
      let s' : Store = record s { next_address = s.next_address + 1 } in
      if enabled s && leb value.len s.max_entry
      then (
        a,
        record s' {
          entries =
              E.run_pending_tasks clock.instant
                (E.insert clock.instant s.entries (Key.asset path) (Entry.asset a));
        },
      )
      else (a, s')

  -- Whether the response is no older than the request allows.
  unfoldable pub young_enough : Instant → StoredResponse → Option Duration → Run Bool
  young_enough now r none = done true
  young_enough now r (some max_age) = map_run (λ a. leb a max_age) (age now r)

  -- `is_fresh() && max_age.is_none_or(…)`: the second test is made only if the first holds.
  unfoldable pub usable : Instant → StoredResponse → Option Duration → Run Bool
  unfolding young_enough
  usable now r max_age = if is_fresh now r then young_enough now r max_age else done false

  unfoldable pub lookup_key : PrimaryKey → Index → List (Option Text) → ResponseKey
  lookup_key primary index vary = record {
    primary = primary;
    generation = index.generation;
    vary = vary;
  }

  unfoldable pub classify : ResponseKey → Arc StoredResponse → Bool → Lookup
  classify key r true = fresh r
  classify key r false = stale (record { response = r; key = key })

  unfoldable pub lookup_entry :
      Clock → ResponseKey → Option Entry → Option Duration → Run (Option Lookup)
  unfolding usable classify
  lookup_entry clock key (some (Entry.response r)) max_age =
      map_run (λ b. some (classify key r b)) (usable clock.instant r.value max_age)
  lookup_entry clock key _ max_age = done none

  module _ ⦃http : Http⦄ where
    open http use {HeaderMap}

    unfoldable pub lookup :
        Clock → Store → PrimaryKey → HeaderMap → Option Duration → Run (Option Lookup)
    unfolding lookup_entry lookup_key
    lookup clock s primary request max_age = elim (I.get clock.instant s.index primary) [
      | none ↦ done none
      | some index ↦
          let key = lookup_key primary index (vary_values index.vary request) in
          lookup_entry clock key (E.get clock.instant s.entries (Key.response key)) max_age
    ]

    unfoldable pub flight_key : Clock → Store → PrimaryKey → HeaderMap → Option FlightKey
    unfolding enabled
    flight_key clock s primary request =
        if not (enabled s)
        then none
        else some (record {
          primary = primary;
          vary = elim (I.get clock.instant s.index primary) [
            | none ↦ []
            | some index ↦ vary_values index.vary request
          ];
        })
