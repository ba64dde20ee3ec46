-- ===== src/Metrics/Tests.antt =====
-- Polls of cni-metrics-helper/metrics: a counter of one node and of two, and a histogram.
use amazon_vpc_cni_k8s.Prelude.{
  ℕ, ◌+◌, ◌-◌, ◌*◌, ◌/◌, ◌<◌, ◌==◌, ltb, not, String, same, string_discrete, ◌≡◌, ◌↔◌, refl, Bool,
  true, none, some, List, [], ◌∷◌, map, length, All, ◌++◌, if◌then◌else◌, arith, lookup,
}
use amazon_vpc_cni_k8s.Metrics.{
  Float, Metric, MetricFamily, counter_type, DataPoints, MetricsAction, BucketPoint, BucketPoints,
  unset, MetricsTarget, Interesting, interesting_cni_metrics, handler, post_processing_histogram,
}
use amazon_vpc_cni_k8s.Metrics.Counters.{Serves}
use amazon_vpc_cni_k8s.Metrics.Counting.{only, aggregated}
use amazon_vpc_cni_k8s.Metrics.Increase.{
  polls, increases, published, totals, targets, IsPoll, polls-increases, handler-loses_first,
}
use amazon_vpc_cni_k8s.Metrics.Shape.{AreSingle}
use amazon_vpc_cni_k8s.Metrics.Delivery.{calls_of, polls-delivered}
use amazon_vpc_cni_k8s.Prelude.Actions.{ok, for_each, ◌>>◌}
use amazon_vpc_cni_k8s.Publisher.{
  PutMetricDataInput, CloudWatchPublisher, publish, push_local, dated, make,
}
use amazon_vpc_cni_k8s.Publisher.Batches.{entries, missing}
use amazon_vpc_cni_k8s.Publisher.Slices.{nils}
use amazon_vpc_cni_k8s.Publisher.Polls.{IsFresh}
use amazon_vpc_cni_k8s.Metrics.Histograms.{
  again, with_points, fresh_points, post_processing_histogram_panics_iff,
}

-- Numbers that are never negative and have no fraction.
abbrev whole : Float ℕ
whole = record {
  zero = 0;
  add = λ a b. a + b;
  sub = λ a b. a - b;
  mul = λ a b. a * b;
  half = λ a. a / 2;
  less = λ a b. ltb a b;
  at_least = λ a b. not (ltb a b);
  equal = λ a b. a == b;
  from_uint = λ n. n;
  ninety_nine = 99;
}

abbrev sample : ℕ → Metric ℕ
sample n = record { gauge = 0; counter = n; quantiles = []; buckets = [] }

abbrev requests : ℕ → MetricFamily ℕ
requests n = record { name = "reqs"; type_ = counter_type; metrics = sample n ∷ [] }

abbrev count : MetricsAction ℕ
count = record {
  cw_metric_name = "addReqCount";
  match_func = λ m. true;
  action_func = λ a b. a + b;
  data_points = none;
  bucket = none;
  log_to_file = true;
}

-- Every pod answers its own name, and the parser knows the families by it.
abbrev target : List String → ℕ → ℕ → MetricsTarget ℕ
target pods a b = record {
  target_list = pods;
  grab_metrics_from_target = λ pod. some pod;
  text_to_metric_families =
      λ text. some (("reqs", requests (if same text "pod-a" then a else b)) ∷ []);
  submit_cloud_watch = true;
}

abbrev fresh : DataPoints ℕ
fresh = record { last_single_data_point = 0; cur_single_data_point = 0 }

pod_a-Serves : (pods : List String) (a b : ℕ) → Serves (target pods a b) "reqs" "pod-a" (requests a)
unfolding lookup string_discrete
pod_a-Serves pods a b = record {
  raw = "pod-a";
  orig = ("reqs", requests a) ∷ [];
  grabs = refl;
  parses = refl;
  has = refl;
  its_name = refl;
  is_counter = refl;
}

pod_b-Serves : (pods : List String) (a b : ℕ) → Serves (target pods a b) "reqs" "pod-b" (requests b)
unfolding lookup string_discrete
pod_b-Serves pods a b = record {
  raw = "pod-b";
  orig = ("reqs", requests b) ∷ [];
  grabs = refl;
  parses = refl;
  has = refl;
  its_name = refl;
  is_counter = refl;
}

abbrev two_polls : List (MetricsTarget ℕ × MetricFamily ℕ)
two_polls = (target ("pod-a" ∷ []) 5 0, requests 5) ∷ (target ("pod-a" ∷ []) 8 0, requests 8) ∷ []

two_polls-IsPoll : All (IsPoll whole "reqs" count) two_polls
two_polls-IsPoll = (
  ("pod-a", refl, refl, pod_a-Serves ("pod-a" ∷ []) 5 0),
  (("pod-a", refl, refl, pod_a-Serves ("pod-a" ∷ []) 8 0), tt),
)

polls-increases_example :
    polls whole (targets whole "reqs" count two_polls) (only "reqs" count fresh)
    ≡ some (
        map
          (published whole "reqs" count)
          (increases whole 0 (totals whole "reqs" count two_polls)))
polls-increases_example = polls-increases whole "reqs" count two_polls fresh two_polls-IsPoll

abbrev queue : CloudWatchPublisher ℕ
queue = record {
  cluster_id = "c";
  cloudwatch_client = [];
  local_metric_data = record { elems = []; spare = 100 };
}

queue-IsFresh : IsFresh queue
unfolding make
queue-IsFresh = refl

cni_metrics-AreSingle : AreSingle (interesting_cni_metrics whole)
unfolding interesting_cni_metrics
cni_metrics-AreSingle = ground arith

polls-delivered_example :
    let ds =
      map
        (published whole "reqs" count)
        (increases whole 0 (totals whole "reqs" count two_polls)) in
    (rs : List (PutMetricDataInput ℕ)) × ((for_each (publish (λ (n : ℕ). 2 * n)) (calls_of whole ds)
          >> push_local (λ rs. true))
        queue
      ≡ (ok tt, record queue { cloudwatch_client = queue.cloudwatch_client ++ rs }))
    × (entries rs ≡ map some (map (dated queue) ds) ++ nils (missing (length ds)))
polls-delivered_example =
    polls-delivered whole (λ (n : ℕ). 2 * n) (λ rs. true) (targets whole "reqs" count two_polls)
      (only "reqs" count fresh)
      (map (published whole "reqs" count) (increases whole 0 (totals whole "reqs" count two_polls)))
      queue (polls-increases whole "reqs" count two_polls fresh two_polls-IsPoll)
      ((omega arith, (refl, tt)), tt) (omega arith) queue-IsFresh

handler-loses_first_example :
    (next : Interesting ℕ) × (handler whole
        (target ("pod-a" ∷ "pod-b" ∷ []) 5 7)
        (only "reqs" count fresh)
      ≡ some (published whole "reqs" count 7 ∷ [], next))
unfolding aggregated
handler-loses_first_example =
    handler-loses_first whole "reqs" count (target ("pod-a" ∷ "pod-b" ∷ []) 5 7) "pod-a" "pod-b"
      (requests 5) (requests 7) fresh 7 refl refl (pod_a-Serves ("pod-a" ∷ "pod-b" ∷ []) 5 7)
      (pod_b-Serves ("pod-a" ∷ "pod-b" ∷ []) 5 7) refl refl refl refl

abbrev histogram : MetricsAction ℕ
histogram = record count {
  data_points = none;
  bucket = some (record { last_bucket = unset; cur_bucket = [] });
}

post_processing_histogram_panics_iff_example :
    let first : List (BucketPoint ℕ) = record { cumulative_count = 1; upper_bound = 10 } ∷ [] in
    let second : List (BucketPoint ℕ) =
      record { cumulative_count = 1; upper_bound = 10 }
      ∷ record { cumulative_count = 2; upper_bound = 20 }
      ∷ [] in
    (reset : Bool) × (b : BucketPoints ℕ) × (post_processing_histogram whole
        (with_points whole histogram (fresh_points whole first) ∷ [])
      ≡ some (reset, with_points whole histogram b ∷ []))
    × ((post_processing_histogram whole (with_points whole histogram (again whole b second) ∷ [])
          ≡ none)
        ↔ ((0 < length first) × (length first < length second)))
post_processing_histogram_panics_iff_example =
    post_processing_histogram_panics_iff whole histogram
      (record { cumulative_count = 1; upper_bound = 10 } ∷ [])
      (record { cumulative_count = 1; upper_bound = 10 }
        ∷ record { cumulative_count = 2; upper_bound = 20 }
        ∷ [])
