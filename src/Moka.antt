-- ===== src/Moka.antt =====
-- What the program uses of the crate `moka` (`moka::sync::Cache`), as an interface. An entry may
-- be evicted at any time, so the laws say only what a lookup that finds a value has found: the
-- value that was inserted last under that key, not invalidated since and not expired.
pub mod Timed
use shadowstep.Prelude.{ℕ, ◌+◌, ◌≤◌, ◌<◌, ◌≡◌, ◌≢◌, ◌⊎◌, Option, none, some}
use shadowstep.Time.{Duration, Instant}

pub record Moka (K V : Type 0) : Type 1 where
  pub Cache : Type 0
  -- `Cache::builder()` with a capacity, a weigher and an expiry
  pub build : ℕ → (K → V → ℕ) → (K → V → Duration) → Cache
  pub get : Instant → Cache → K → Option V
  pub insert : Instant → Cache → K → V → Cache
  pub invalidate : Cache → K → Cache
  pub run_pending_tasks : Instant → Cache → Cache
  pub entry_count : Cache → ℕ
  pub weighted_size : Cache → ℕ
  -- the expiry that the cache was built with
  pub lifetime : Cache → K → V → Duration
  pub lifetime-build :
      (capacity : ℕ) (weigher : K → V → ℕ) (expiry : K → V → Duration) (k : K) (v : V)
      → lifetime (build capacity weigher expiry) k v ≡ expiry k v
  pub lifetime-insert :
      (t : Instant) (c : Cache) (k : K) (v : V) (j : K) (w : V)
      → lifetime (insert t c k v) j w ≡ lifetime c j w
  pub lifetime-invalidate :
      (c : Cache) (k j : K) (w : V) → lifetime (invalidate c k) j w ≡ lifetime c j w
  pub lifetime-run_pending_tasks :
      (t : Instant) (c : Cache) (j : K) (w : V)
      → lifetime (run_pending_tasks t c) j w ≡ lifetime c j w
  pub get-build :
      (t : Instant) (capacity : ℕ) (weigher : K → V → ℕ) (expiry : K → V → Duration) (k : K)
      → get t (build capacity weigher expiry) k ≡ none
  pub get-insert :
      (t now : Instant) (c : Cache) (k : K) (v : V) (j : K) (w : V)
      → get now (insert t c k v) j ≡ some w
      → ((j ≡ k) × (w ≡ v) × (now < t + lifetime c k v)) ⊎ ((j ≢ k) × (get now c j ≡ some w))
  pub get-invalidate :
      (now : Instant) (c : Cache) (k j : K) (w : V)
      → get now (invalidate c k) j ≡ some w
      → (j ≢ k) × (get now c j ≡ some w)
  pub get-run_pending_tasks :
      (t now : Instant) (c : Cache) (j : K) (w : V)
      → get now (run_pending_tasks t c) j ≡ some w
      → get now c j ≡ some w
