-- ===== src/Prometheus.antt =====
-- What the program uses of the crate `prometheus`, as an interface: vectors of counters, of which
-- each list of label values names one series, and a histogram by the number of its observations.
pub mod Tallied
use shadowstep.Prelude.{ℕ, suc, ◌≡◌, Bool, true, false, ◌&&◌, List, [], ◌∷◌, if◌then◌else◌}
use shadowstep.Text.{Text, eqb}
use shadowstep.Time.{Duration}

abbrev pub Labels : Type 0
Labels = List Text

unfoldable pub labels_eqb : Labels → Labels → Bool
unfolding eqb
labels_eqb [] [] = true
labels_eqb [] (m ∷ ms) = false
labels_eqb (l ∷ ls) [] = false
labels_eqb (l ∷ ls) (m ∷ ms) = eqb l m && labels_eqb ls ms

pub record Prometheus : Type 1 where
  pub CounterVec : Type 0
  pub new_vec : CounterVec
  -- `with_label_values`, which makes a series at 0 when it is new
  pub with_labels : CounterVec → Labels → CounterVec
  -- `with_label_values(…).inc()`
  pub inc : CounterVec → Labels → CounterVec
  -- `with_label_values(…).get()`
  pub get : CounterVec → Labels → ℕ
  pub has_series : CounterVec → Labels → Bool
  pub Histogram : Type 0
  pub new_histogram : Histogram
  pub observe : Histogram → Duration → Histogram
  pub sample_count : Histogram → ℕ
  pub get-new_vec : (l : Labels) → get new_vec l ≡ 0
  pub get-with_labels : (c : CounterVec) (l m : Labels) → get (with_labels c l) m ≡ get c m
  pub get-inc :
      (c : CounterVec) (l m : Labels)
      → get (inc c l) m ≡ (if labels_eqb l m then suc (get c m) else get c m)
  pub has_series-with_labels :
      (c : CounterVec) (l m : Labels)
      → has_series (with_labels c l) m ≡ (if labels_eqb l m then true else has_series c m)
  pub sample_count-new : sample_count new_histogram ≡ 0
  pub sample_count-observe :
      (h : Histogram) (d : Duration) → sample_count (observe h d) ≡ suc (sample_count h)
