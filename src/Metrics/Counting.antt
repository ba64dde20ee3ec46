-- ===== src/Metrics/Counting.antt =====
-- How cni-metrics-helper/metrics/metrics.go processes a family of a counter.
use amazon_vpc_cni_k8s.Prelude.{
  String, ◌≡◌, refl, ap, ◌∙◌, Bool, not, ◌&&◌, ◌||◌, Bool-cases, inl, inr, none, some, List, [],
  ◌∷◌, if◌then◌else◌, arith,
}
use amazon_vpc_cni_k8s.Publisher.{MetricDatum}
use amazon_vpc_cni_k8s.Metrics.Points.{
  Float, Metric, counter_type, MetricFamily, DataPoints, MetricsAction, each, then_, gather,
  process_counter, is_reset, delta, post_counter, post_processing_counter,
}
use amazon_vpc_cni_k8s.Metrics.Families.{
  process_as, process_matching, process_all, post_process, process_metric, Interesting,
}

module _ {F : Type 0} where
  -- An action with these points, and no buckets.
  abbrev pub counting : MetricsAction F → DataPoints F → MetricsAction F
  counting act p = record act { data_points = some p; bucket = none }

  -- The interesting metrics are one counter.
  abbrev pub only : String → MetricsAction F → DataPoints F → Interesting F
  only name act p = (name, counting act p ∷ []) ∷ []

  -- The datum that a poll publishes for the action's points.
  abbrev pub datum_of : MetricsAction F → DataPoints F → MetricDatum F
  datum_of act p = record {
    metric_name = act.cw_metric_name;
    unit = some "Count";
    value = some p.cur_single_data_point;
    statistic_values = none;
    dimensions = [];
  }

module _ {F : Type 0} (num : Float F) where
  -- The matching samples of a poll, aggregated onto `total`.
  unfoldable pub aggregated : MetricsAction F → F → List (Metric F) → F
  aggregated act total [] = total
  aggregated act total (m ∷ ms) =
      aggregated act (if act.match_func m then act.action_func total m.counter else total) ms

  -- The points after a sample.
  with_sample : MetricsAction F → DataPoints F → Metric F → DataPoints F
  with_sample act p m = record p {
    cur_single_data_point =
        if act.match_func m
        then act.action_func p.cur_single_data_point m.counter
        else p.cur_single_data_point;
  }

  module _ (act : MetricsAction F) (p : DataPoints F) (m : Metric F) where
    process_matching-counter :
        process_matching num counter_type m (counting act p)
        ≡ some (counting act (with_sample act p m))
    unfolding process_matching process_as process_counter gather with_sample
    process_matching-counter = elim (Bool-cases (act.match_func m)) [
      | inl e ↦ rw e refl
      | inr e ↦ rw e refl
    ]

    each-counter :
        each (process_matching num counter_type m) (counting act p ∷ [])
        ≡ some (counting act (with_sample act p m) ∷ [])
    unfolding each
    each-counter = rw (process_matching-counter, each) refl

  process_all-counter :
      (act : MetricsAction F) (p : DataPoints F) (ms : List (Metric F))
      → process_all num counter_type ms (counting act p ∷ [])
        ≡ some (
            counting act
              (record p { cur_single_data_point = aggregated act p.cur_single_data_point ms })
            ∷ [])
  unfolding process_all aggregated then_ with_sample
  process_all-counter act p [] = refl
  process_all-counter act p (m ∷ ms) =
      ap (λ r. then_ r (process_all num counter_type ms)) (each-counter act p m)
      ∙ process_all-counter act (with_sample act p m) ms

  -- What the log calls a reset: the total fell, or it is the first that is not zero.
  abbrev reset_of : DataPoints F → Bool
  reset_of p =
      is_reset num p
      || num.equal p.last_single_data_point num.zero
        && not (num.equal (delta num p).cur_single_data_point num.zero)

  post_counter-counter :
      (act : MetricsAction F) (p : DataPoints F)
      → post_processing_counter num (counting act p ∷ [])
        ≡ some (reset_of p, counting act (delta num p) ∷ [])
  unfolding post_processing_counter post_counter
  post_counter-counter act p = ground arith

  -- The points after a poll of a target with these samples.
  unfoldable pub polled : MetricsAction F → List (Metric F) → DataPoints F → DataPoints F
  polled act ms p =
      delta num (record p { cur_single_data_point = aggregated act p.cur_single_data_point ms })

  pub process_metric-counter :
      (act : MetricsAction F) (p : DataPoints F) (f : MetricFamily F)
      → f.type_ ≡ counter_type
      → (reset : Bool) × (process_metric num f (counting act p ∷ [])
          ≡ some (reset, counting act (polled act f.metrics p) ∷ []))
  unfolding process_metric post_process then_ polled
  process_metric-counter act p f e =
      let q = record p {
        cur_single_data_point = aggregated act p.cur_single_data_point f.metrics;
      } in
      (
        reset_of q,
        rw e (
            ap (λ r. then_ r (post_process num counter_type)) (process_all-counter act p f.metrics)
            ∙ post_counter-counter act q),
      )
