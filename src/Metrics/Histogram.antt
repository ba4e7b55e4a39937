-- ===== src/Metrics/Histogram.antt =====
-- The histogram of the origin's response times agrees with the counters of its answers.
use shadowstep.Prelude.{ℕ, suc, ◌+◌, ◌≡◌, inl, inr, List, [], ◌∷◌, ◌++◌, arith, In}
use shadowstep.Text.{Text, codes}
use shadowstep.Http.{StatusCode}
use shadowstep.Prometheus.{Prometheus, labels_eqb}
use shadowstep.Metrics.{
  OriginKind, foreground, background, OriginFailure, error, Metrics, new, observe, origin_responded,
  origin_failed, body_idle_timeout, revalidation, background_refresh, status_class, status_classes,
  kind_label,
}
use shadowstep.Metrics.Counting.{
  Event, observed, responded, failed, went_idle, got_304, refreshing, record_event, record_events,
}

-- Whatever the status, its class is one of six texts.
status_class-In :
    (status : StatusCode) → In (status_class status) (status_classes ++ codes "other" ∷ [])
unfolding status_class
status_class-In status = ground arith

module _ ⦃prometheus : Prometheus⦄ where
  open prometheus use {get, get-inc, sample_count, sample_count-observe}

  -- The origin requests of a kind that were answered, over all classes.
  unfoldable pub answered : Metrics → OriginKind → ℕ
  answered m kind =
      get m.origin_requests (kind_label kind ∷ codes "1xx" ∷ [])
      + get m.origin_requests (kind_label kind ∷ codes "2xx" ∷ [])
      + get m.origin_requests (kind_label kind ∷ codes "3xx" ∷ [])
      + get m.origin_requests (kind_label kind ∷ codes "4xx" ∷ [])
      + get m.origin_requests (kind_label kind ∷ codes "5xx" ∷ [])
      + get m.origin_requests (kind_label kind ∷ codes "other" ∷ [])

  answered-class :
      (m : Metrics) (kind : OriginKind) (class : Text)
      → In class (status_classes ++ codes "other" ∷ [])
      → (let m' = record m {
        origin_requests = prometheus.inc m.origin_requests (kind_label kind ∷ class ∷ []);
      } in
          answered m' foreground + answered m' background
          ≡ suc (answered m foreground + answered m background))
  unfolding answered labels_eqb
  answered-class m foreground class (inl e) = rw e (simp get-inc (omega arith))
  answered-class m background class (inl e) = rw e (simp get-inc (omega arith))
  answered-class m foreground class (inr (inl e)) = rw e (simp get-inc (omega arith))
  answered-class m background class (inr (inl e)) = rw e (simp get-inc (omega arith))
  answered-class m foreground class (inr (inr (inl e))) = rw e (simp get-inc (omega arith))
  answered-class m background class (inr (inr (inl e))) = rw e (simp get-inc (omega arith))
  answered-class m foreground class (inr (inr (inr (inl e)))) = rw e (simp get-inc (omega arith))
  answered-class m background class (inr (inr (inr (inl e)))) = rw e (simp get-inc (omega arith))
  answered-class m foreground class (inr (inr (inr (inr (inl e))))) =
      rw e (simp get-inc (omega arith))
  answered-class m background class (inr (inr (inr (inr (inl e))))) =
      rw e (simp get-inc (omega arith))
  answered-class m foreground class (inr (inr (inr (inr (inr (inl e)))))) =
      rw e (simp get-inc (omega arith))
  answered-class m background class (inr (inr (inr (inr (inr (inl e)))))) =
      rw e (simp get-inc (omega arith))
  answered-class m kind class (inr (inr (inr (inr (inr (inr m')))))) = absurd m'

  failed-answered :
      (m : Metrics) (kind : OriginKind) (failure : OriginFailure)
      → answered (origin_failed m kind failure) foreground
          + answered (origin_failed m kind failure) background
        ≡ answered m foreground + answered m background
  unfolding answered origin_failed labels_eqb
  failed-answered m foreground error = simp get-inc (omega arith)
  failed-answered m background error = simp get-inc (omega arith)
  failed-answered m kind failure = simp get-inc (omega arith)

  new-answered : answered new foreground + answered new background ≡ 0
  unfolding answered new
  new-answered = simp (prometheus.get-with_labels, prometheus.get-new_vec)

  new-samples : sample_count new.origin_response_seconds ≡ 0
  unfolding new
  new-samples = prometheus.sample_count-new

  -- After any events the histogram holds as many response times as the origin requests have
  -- outcomes that are status classes, of both kinds, those of a status over 599 included.
  pub sample_count-record_events :
      (es : List Event)
      → sample_count (record_events new es).origin_response_seconds
        ≡ answered (record_events new es) foreground + answered (record_events new es) background
  unfolding record_events answered origin_failed
  sample_count-record_events [] = omega (arith, new-answered, new-samples)
  sample_count-record_events (e ∷ es) =
      step (record_events new es) e (sample_count-record_events es)
    where
      step :
          (m : Metrics) (e : Event)
          → sample_count m.origin_response_seconds ≡ answered m foreground + answered m background
          → sample_count (record_event m e).origin_response_seconds
            ≡ answered (record_event m e) foreground + answered (record_event m e) background
      step m (observed route cache status) h = unfold observe answered in h
      step m (responded kind status elapsed) h =
          unfold origin_responded in
          omega (
            arith,
            h,
            sample_count-observe m.origin_response_seconds elapsed,
            answered-class m kind (status_class status) (status_class-In status),
          )
      step m (failed kind failure) h = omega (arith, h, failed-answered m kind failure)
      step m (went_idle kind) h = unfold body_idle_timeout answered in h
      step m got_304 h = unfold revalidation answered in h
      step m refreshing h = unfold background_refresh answered in h
