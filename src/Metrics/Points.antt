-- ===== src/Metrics/Points.antt =====
-- cni-metrics-helper/metrics/metrics.go: the points that an action gathers, and the counters' deltas.
use amazon_vpc_cni_k8s.Prelude.{
  ℕ, String, Bool, true, false, not, ◌&&◌, ◌||◌, Option, none, some, List, [], ◌∷◌, if◌then◌else◌,
}

-- The operations of `float64` that the code uses.
pub record Float (F : Type 0) : Type 0 where
  pub zero : F
  pub add : F → F → F
  pub sub : F → F → F
  pub mul : F → F → F
  pub half : F → F
  pub less : F → F → Bool
  pub at_least : F → F → Bool
  pub equal : F → F → Bool
  pub from_uint : ℕ → F
  -- The constant 0.99.
  pub ninety_nine : F

-- A sample, as the getters of its protocol buffer answer: the quantiles of a summary with their
-- values, and a histogram's upper bounds with the cumulative counts.
pub record Metric (F : Type 0) : Type 0 where
  pub gauge : F
  pub counter : F
  pub quantiles : List (F × F)
  pub buckets : List (F × ℕ)

pub data MetricType : Type 0 where
  counter_type gauge_type summary_type untyped histogram_type : MetricType

pub record MetricFamily (F : Type 0) : Type 0 where
  pub name : String
  pub type_ : MetricType
  pub metrics : List (Metric F)

pub record DataPoints (F : Type 0) : Type 0 where
  pub last_single_data_point : F
  pub cur_single_data_point : F

pub record BucketPoint (F : Type 0) : Type 0 where
  pub cumulative_count : F
  pub upper_bound : F

-- `lastBucket`: nil, the first `n` points of `curBucket` themselves, or points of its own.
pub data LastBucket (F : Type 0) : Type 0 where
  unset : LastBucket F
  shared : ℕ → LastBucket F
  own : List (BucketPoint F) → LastBucket F

pub record BucketPoints (F : Type 0) : Type 0 where
  pub last_bucket : LastBucket F
  pub cur_bucket : List (BucketPoint F)

-- A nil `data` or `bucket` is `none`. The actions' pointers are all different.
pub record MetricsAction (F : Type 0) : Type 0 where
  pub cw_metric_name : String
  pub match_func : Metric F → Bool
  pub action_func : F → F → F
  pub data_points : Option (DataPoints F)
  pub bucket : Option (BucketPoints F)
  pub log_to_file : Bool

-- Loops over the actions; `none` is a nil pointer dereference or an index out of range.
module _ {A B : Type 0} where
  unfoldable pub each : (A → Option B) → List A → Option (List B)
  each f [] = some []
  each f (a ∷ xs) = elim (f a) [
    | none ↦ none
    | some b ↦ elim (each f xs) [ none ↦ none | some bs ↦ some (b ∷ bs) ]
  ]

  -- One step after the other.
  unfoldable pub then_ : Option A → (A → Option B) → Option B
  then_ none f = none
  then_ (some a) f = f a

module _ {F : Type 0} (num : Float F) where
  unfoldable pub match_any : Metric F → Bool
  match_any metric = true

  unfoldable pub metrics_add : F → F → F
  metrics_add aggregated sample = num.add aggregated sample

  unfoldable pub metrics_max : F → F → F
  metrics_max aggregated sample = if num.less aggregated sample then sample else aggregated

  -- `act.actionFunc(&act.data.curSingleDataPoint, value)`
  unfoldable pub gather : F → MetricsAction F → Option (MetricsAction F)
  gather value act = elim act.data_points [
    | none ↦ none
    | some p ↦ some (record act {
      data_points =
          some (record p { cur_single_data_point = act.action_func p.cur_single_data_point value });
    })
  ]

  unfoldable pub process_gauge : Metric F → MetricsAction F → Option (MetricsAction F)
  process_gauge metric act = gather metric.gauge act

  unfoldable pub process_counter : Metric F → MetricsAction F → Option (MetricsAction F)
  process_counter metric act = gather metric.counter act

  -- The value of the last quantile 0.99.
  unfoldable pub p99_of : F → List (F × F) → F
  p99_of p99 [] = p99
  p99_of p99 ((q, value) ∷ quantiles) =
      p99_of (if num.equal q num.ninety_nine then value else p99) quantiles

  unfoldable pub process_percentile : Metric F → MetricsAction F → Option (MetricsAction F)
  process_percentile metric act = gather (p99_of num.zero metric.quantiles) act

  -- The body of `postProcessingCounter`'s loop: whether the counter was reset, and the new points.
  unfoldable pub is_reset : DataPoints F → Bool
  is_reset p = num.less p.cur_single_data_point p.last_single_data_point

  unfoldable pub delta : DataPoints F → DataPoints F
  delta p = record {
    cur_single_data_point =
        if is_reset p
        then p.cur_single_data_point
        else num.sub p.cur_single_data_point p.last_single_data_point;
    last_single_data_point = p.cur_single_data_point;
  }

  -- The loop, with its three flags: reset detected, no previous point, no current point.
  unfoldable pub post_counter :
      Bool → Bool → Bool → List (MetricsAction F) → Option (Bool × List (MetricsAction F))
  post_counter reset no_previous no_current [] = some (reset || no_previous && not no_current, [])
  post_counter reset no_previous no_current (act ∷ acts) = elim act.data_points [
    | none ↦ none
    | some p ↦
        elim (post_counter (reset || is_reset p)
          (no_previous && num.equal p.last_single_data_point num.zero)
          (no_current && num.equal (delta p).cur_single_data_point num.zero) acts) [
            | none ↦ none
            | some (r, rest) ↦ some (r, record act { data_points = some (delta p) } ∷ rest)
          ]
  ]

  unfoldable pub post_processing_counter :
      List (MetricsAction F) → Option (Bool × List (MetricsAction F))
  post_processing_counter acts = post_counter false true true acts
