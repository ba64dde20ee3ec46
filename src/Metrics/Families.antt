-- ===== src/Metrics/Families.antt =====
-- cni-metrics-helper/metrics/metrics.go: a family of metrics, processed and published.
use amazon_vpc_cni_k8s.Prelude.{
  String, string_discrete, Bool, false, Option, none, some, List, [], ◌∷◌, ◌++◌, if◌then◌else◌,
  Dict, lookup,
}
use amazon_vpc_cni_k8s.Publisher.{MetricDatum}
use amazon_vpc_cni_k8s.Metrics.Points.{
  Float, Metric, MetricType, counter_type, gauge_type, summary_type, untyped, histogram_type,
  MetricFamily, BucketPoint, MetricsAction, each, then_, process_gauge, process_counter,
  process_percentile, post_processing_counter,
}
use amazon_vpc_cni_k8s.Metrics.Buckets.{process_histogram, post_processing_histogram}

module _ {F : Type 0} (num : Float F) where
  unfoldable pub process_as : MetricType → Metric F → MetricsAction F → Option (MetricsAction F)
  process_as gauge_type metric act = process_gauge num metric act
  process_as histogram_type metric act = process_histogram num metric act
  process_as counter_type metric act = process_counter num metric act
  process_as summary_type metric act = process_percentile num metric act
  process_as untyped metric act = some act

  unfoldable pub process_matching :
      MetricType → Metric F → MetricsAction F → Option (MetricsAction F)
  process_matching type_ metric act =
      if act.match_func metric then process_as type_ metric act else some act

  unfoldable pub process_all :
      MetricType → List (Metric F) → List (MetricsAction F) → Option (List (MetricsAction F))
  process_all type_ [] acts = some acts
  process_all type_ (metric ∷ metrics) acts =
      then_ (each (process_matching type_ metric) acts) (process_all type_ metrics)

  unfoldable pub post_process :
      MetricType → List (MetricsAction F) → Option (Bool × List (MetricsAction F))
  post_process counter_type acts = post_processing_counter num acts
  post_process histogram_type acts = post_processing_histogram num acts
  post_process gauge_type acts = some (false, acts)
  post_process summary_type acts = some (false, acts)
  post_process untyped acts = some (false, acts)

  -- `processMetric`: whether a reset was detected, and the actions' new points.
  unfoldable pub process_metric :
      MetricFamily F → List (MetricsAction F) → Option (Bool × List (MetricsAction F))
  process_metric family acts =
      then_ (process_all family.type_ family.metrics acts) (post_process family.type_)

  -- The middle of a bucket, or half as much again as its lower bound where that is the upper one.
  unfoldable pub mid_of : F → F → F
  mid_of prev bound =
      let mid = num.add (num.half (num.sub bound prev)) prev in
      if num.equal mid bound then num.add prev (num.half prev) else mid

  unfoldable pub histogram_datum : String → F → F → MetricDatum F
  histogram_datum name mid count = record {
    metric_name = name;
    unit = none;
    value = none;
    statistic_values =
        some
          (record { maximum = mid; minimum = mid; sample_count = count; sum = num.mul mid count });
    dimensions = [];
  }

  -- The data that the loop of `produceHistogram` publishes.
  unfoldable pub produce_buckets : String → F → List (BucketPoint F) → List (MetricDatum F)
  produce_buckets name prev [] = []
  produce_buckets name prev (b ∷ bs) =
      let rest = produce_buckets name b.upper_bound bs in
      if num.equal b.cumulative_count num.zero
      then rest
      else histogram_datum name (mid_of prev b.upper_bound) b.cumulative_count ∷ rest

  unfoldable pub produce_histogram : MetricsAction F → Option (List (MetricDatum F))
  produce_histogram act = elim act.bucket [
    | none ↦ none
    | some b ↦ some (produce_buckets act.cw_metric_name num.zero b.cur_bucket)
  ]

  -- The point is read for the log also where nothing is submitted.
  unfoldable pub produce_point : Bool → MetricsAction F → Option (List (MetricDatum F))
  produce_point submit act = elim act.data_points [
    | none ↦ none
    | some p ↦ some (
        if submit
        then record {
          metric_name = act.cw_metric_name;
          unit = some "Count";
          value = some p.cur_single_data_point;
          statistic_values = none;
          dimensions = [];
        }
          ∷ []
        else [])
  ]

  unfoldable pub produce_action :
      Bool → MetricType → MetricsAction F → Option (List (MetricDatum F))
  produce_action submit counter_type act = produce_point submit act
  produce_action submit gauge_type act = produce_point submit act
  produce_action submit summary_type act = produce_point submit act
  produce_action submit histogram_type act = if submit then produce_histogram act else some []
  produce_action submit untyped act = some []

  unfoldable pub produce_actions :
      Bool → MetricType → List (MetricsAction F) → Option (List (MetricDatum F))
  produce_actions submit type_ [] = some []
  produce_actions submit type_ (act ∷ acts) =
      then_ (produce_action submit type_ act)
        λ ds. then_ (produce_actions submit type_ acts) λ rest. some (ds ++ rest)

-- `map[string]metricsConvert`, and the actions of a metric, none for one that is not there.
abbrev pub Interesting : Type 0 → Type 0
Interesting F = Dict String (List (MetricsAction F))

unfoldable pub actions_of : {F : Type 0} → Interesting F → String → List (MetricsAction F)
actions_of interesting key = elim (lookup string_discrete key interesting) [
  | none ↦ []
  | some acts ↦ acts
]

-- `produceCloudWatchMetrics`: the data of its calls of `Publish`, in order.
unfoldable pub produce_cloud_watch_metrics :
    {F : Type 0}
    → Float F
    → Bool
    → Dict String (MetricFamily F)
    → Interesting F
    → Option (List (MetricDatum F))
produce_cloud_watch_metrics num submit [] convert_def = some []
produce_cloud_watch_metrics num submit ((key, family) ∷ families) convert_def =
    then_ (produce_actions num submit family.type_ (actions_of convert_def key)) λ ds.
      then_ (produce_cloud_watch_metrics num submit families convert_def) λ rest. some (ds ++ rest)
