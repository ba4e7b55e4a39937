-- ===== src/Prometheus/Tallied.antt =====
-- An implementation of the interface, which shows that its laws can hold.
use shadowstep.Prelude.{ℕ, suc, refl, Bool, true, false, if◌then◌else◌}
use shadowstep.Prometheus.{Prometheus, Labels, labels_eqb}

pub record Tallied : Type 0 where
  pub counts : Labels → ℕ
  pub series : Labels → Bool

abbrev pub tallied : Prometheus
tallied = record {
  CounterVec = Tallied;
  new_vec = record { counts = λ l. 0; series = λ l. false };
  with_labels = λ c l. record c { series = λ m. if labels_eqb l m then true else c.series m };
  inc = λ c l. record {
    counts = λ m. if labels_eqb l m then suc (c.counts m) else c.counts m;
    series = λ m. if labels_eqb l m then true else c.series m;
  };
  get = λ c l. c.counts l;
  has_series = λ c l. c.series l;
  Histogram = ℕ;
  new_histogram = 0;
  observe = λ h d. suc h;
  sample_count = λ h. h;
  get-new_vec = λ l. refl;
  get-with_labels = λ c l m. refl;
  get-inc = λ c l m. refl;
  has_series-with_labels = λ c l m. refl;
  sample_count-new = refl;
  sample_count-observe = λ h d. refl;
}
