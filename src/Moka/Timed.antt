-- ===== src/Moka/Timed.antt =====
-- An implementation of the interface by a list of entries with their times of insertion, which
-- shows that its laws can hold. Nothing is evicted.
use shadowstep.Prelude.{
  ℕ, ◌+◌, ◌<◌, ◌≡◌, ◌≢◌, ◌⊎◌, refl, List, [], ◌∷◌, Option, none, some, arith, ltb, ite,
  if◌then◌else◌, length,
}
use shadowstep.Time.{Duration, Instant}
use shadowstep.Moka.{Moka}

pub record Timed (K V : Type 0) : Type 0 where
  pub entries : List (K × V × Instant)
  pub expiry : K → V → Duration
  pub weigher : K → V → ℕ

module _ {K V : Type 0} (same : Discrete K) where
  abbrev pub find_live : Instant → (K → V → Duration) → List (K × V × Instant) → K → Option V
  find_live now expiry [] j = none
  find_live now expiry ((k, v, t) ∷ es) j =
      ite (same j k) (if ltb now (t + expiry k v) then some v else none) (find_live now expiry es j)

  abbrev pub without : List (K × V × Instant) → K → List (K × V × Instant)
  without [] j = []
  without ((k, v, t) ∷ es) j = let rest = without es j in ite (same j k) rest ((k, v, t) ∷ rest)

  abbrev pub total_weight : (K → V → ℕ) → List (K × V × Instant) → ℕ
  total_weight weigher [] = 0
  total_weight weigher ((k, v, t) ∷ es) = weigher k v + total_weight weigher es

  pub find_live-without :
      (now : Instant) (expiry : K → V → Duration) (es : List (K × V × Instant)) (k j : K) (w : V)
      → find_live now expiry (without es k) j ≡ some w
      → (j ≢ k) × (find_live now expiry es j ≡ some w)
  find_live-without now expiry [] k j w h = cc
  find_live-without now expiry ((i, v, t) ∷ es) k j w h =
      ground (arith, find_live-without now expiry es k j w)

  pub find_live-insert :
      (now t : Instant) (expiry : K → V → Duration) (es : List (K × V × Instant)) (k : K) (v : V)
      (j : K) (w : V)
      → find_live now expiry ((k, v, t) ∷ es) j ≡ some w
      → ((j ≡ k) × (w ≡ v) × (now < t + expiry k v))
        ⊎ ((j ≢ k) × (find_live now expiry es j ≡ some w))
  find_live-insert now t expiry es k v j w h = ground arith

  abbrev pub timed : Moka K V
  timed = record {
    Cache = Timed K V;
    build = λ capacity weigher expiry. record { entries = []; expiry = expiry; weigher = weigher };
    get = λ now c j. find_live now c.expiry c.entries j;
    insert = λ t c k v. record c { entries = (k, v, t) ∷ c.entries };
    invalidate = λ c k. record c { entries = without c.entries k };
    run_pending_tasks = λ t c. c;
    entry_count = λ c. length c.entries;
    weighted_size = λ c. total_weight c.weigher c.entries;
    lifetime = λ c. c.expiry;
    lifetime-build = λ capacity weigher expiry k v. refl;
    lifetime-insert = λ t c k v j w. refl;
    lifetime-invalidate = λ c k j w. refl;
    lifetime-run_pending_tasks = λ t c j w. refl;
    get-build = λ t capacity weigher expiry k. refl;
    get-insert = λ t now c k v j w h. find_live-insert now t c.expiry c.entries k v j w h;
    get-invalidate = λ now c k j w h. find_live-without now c.expiry c.entries k j w h;
    get-run_pending_tasks = λ t now c j w h. h;
  }
