-- ===== src/Metrics/Poll.antt =====
-- cni-metrics-helper/metrics: a poll of the targets, and the daemons' target of cni_metrics.go.
use amazon_vpc_cni_k8s.Prelude.{
  leb, String, string_discrete, Bool, true, false, ◌||◌, Option, none, some, List, [], ◌∷◌, length,
  map, if◌then◌else◌, Dict, insert, lookup,
}
use amazon_vpc_cni_k8s.K8sapi
use amazon_vpc_cni_k8s.Publisher.{MetricDatum}
use amazon_vpc_cni_k8s.Metrics.Points.{
  Float, MetricFamily, DataPoints, MetricsAction, then_, match_any, metrics_add, metrics_max,
}
use amazon_vpc_cni_k8s.Metrics.Buckets.{reset_bucket}
use amazon_vpc_cni_k8s.Metrics.Families.{
  process_metric, Interesting, actions_of, produce_cloud_watch_metrics,
}

-- The families of the interesting metrics that a target has.
unfoldable pub filter_metrics :
    {F : Type 0} → Dict String (MetricFamily F) → Interesting F → Dict String (MetricFamily F)
filter_metrics original [] = []
filter_metrics original ((metric, acts) ∷ interesting) =
    let rest = filter_metrics original interesting in
    elim (lookup string_discrete metric original) [
      | none ↦ rest
      | some family ↦ (metric, family) ∷ rest
    ]

-- What a target offers, `none` an error: its metrics as text, and the parser's families.
pub record MetricsTarget (F : Type 0) : Type 0 where
  pub target_list : List String
  pub grab_metrics_from_target : String → Option String
  pub text_to_metric_families : String → Option (Dict String (MetricFamily F))
  pub submit_cloud_watch : Bool

pub record Grabbed (F : Type 0) : Type 0 where
  pub families : Dict String (MetricFamily F)
  pub interesting : Interesting F
  pub reset_detected : Bool

module _ {F : Type 0} (num : Float F) where
  unfoldable pub reset_points : DataPoints F → DataPoints F
  reset_points p = record p { cur_single_data_point = num.zero }

  unfoldable pub reset_action : MetricsAction F → MetricsAction F
  reset_action act = record act {
    data_points = elim act.data_points [ none ↦ none | some p ↦ some (reset_points p) ];
    bucket = elim act.bucket [ none ↦ none | some b ↦ some (reset_bucket b) ];
  }

  unfoldable pub reset_metrics : Interesting F → Interesting F
  reset_metrics [] = []
  reset_metrics ((metric, acts) ∷ interesting) =
      (metric, map reset_action acts) ∷ reset_metrics interesting

  -- The new points of the actions of a family that is not among the interesting ones are none.
  abbrev pub store : String → List (MetricsAction F) → Interesting F → Interesting F
  store name acts interesting = elim (lookup string_discrete name interesting) [
    | none ↦ interesting
    | some before ↦ insert string_discrete name acts interesting
  ]

  unfoldable pub process_families : Dict String (MetricFamily F) → Grabbed F → Option (Grabbed F)
  process_families [] g = some g
  process_families ((key, family) ∷ families) g =
      then_ (process_metric num family (actions_of g.interesting family.name)) λ r.
        process_families families (record g {
          interesting = store family.name r.1 g.interesting;
          reset_detected = r.0 || g.reset_detected;
        })

  module _ (t : MetricsTarget F) where
    -- The loop over the targets, and whether the parser failed.
    unfoldable pub grab_all : List String → Grabbed F → Option (Bool × Grabbed F)
    grab_all [] g = some (false, g)
    grab_all (target ∷ targets) g = elim (t.grab_metrics_from_target target) [
      | none ↦ grab_all targets g
      | some raw_output ↦ elim (t.text_to_metric_families raw_output) [
        | none ↦ some (true, g)
        | some orig ↦
            let families = filter_metrics orig g.interesting in
            then_ (process_families families (record g { families = families }))
              λ g'. grab_all targets g'
      ]
    ]

    -- What a parse error, or the number of targets, makes of the result.
    unfoldable pub concluded : Bool × Grabbed F → Bool × Grabbed F
    concluded r = (
      r.0,
      if r.0
          then record r.1 { families = []; reset_detected = true }
          else if leb 2 (length t.target_list)
          then record r.1 { reset_detected = false }
          else r.1,
    )

    -- `metricsListGrabAggregateConvert`; after an error there are no families.
    unfoldable pub metrics_list_grab_aggregate_convert : Interesting F → Option (Bool × Grabbed F)
    metrics_list_grab_aggregate_convert interesting =
        then_
          (grab_all t.target_list (record {
            families = [];
            interesting = reset_metrics interesting;
            reset_detected = false;
          }))
          λ r. some (concluded r)

    unfoldable pub produced : Bool × Grabbed F → Option (List (MetricDatum F) × Interesting F)
    produced r =
        then_ (produce_cloud_watch_metrics num t.submit_cloud_watch r.1.families r.1.interesting)
          λ ds. some (ds, r.1.interesting)

    -- `Handler`: the data published, and the points that are kept for the next poll. The flag of a
    -- reset only chooses what is logged.
    unfoldable pub handler : Interesting F → Option (List (MetricDatum F) × Interesting F)
    handler interesting = then_ (metrics_list_grab_aggregate_convert interesting) produced

  -- An entry of `InterestingCNIMetrics`.
  abbrev pub cni_metric : String → String → (F → F → F) → Bool → String × List (MetricsAction F)
  cni_metric metric cw_name action log = (
    metric,
    record {
      cw_metric_name = cw_name;
      match_func = match_any num;
      action_func = action;
      data_points =
          some (record { last_single_data_point = num.zero; cur_single_data_point = num.zero });
      bucket = none;
      log_to_file = log;
    }
        ∷ [],
  )

  unfoldable pub interesting_cni_metrics : Interesting F
  interesting_cni_metrics =
      let sum = metrics_add num in
      let max = metrics_max num in
      cni_metric "awscni_assigned_ip_addresses" "assignIPAddresses" sum false
      ∷ cni_metric "awscni_total_ip_addresses" "totalIPAddresses" sum false
      ∷ cni_metric "awscni_eni_allocated" "eniAllocated" sum false
      ∷ cni_metric "awscni_eni_max" "eniMaxAvailable" sum false
      ∷ cni_metric "awscni_ip_max" "maxIPAddresses" sum false
      ∷ cni_metric "awscni_aws_api_latency_ms" "awsAPILatency" max true
      ∷ cni_metric "awscni_aws_api_error_count" "awsAPIErr" sum true
      ∷ cni_metric "awscni_aws_utils_error_count" "awsUtilErr" sum true
      ∷ cni_metric "awscni_ipamd_error_count" "ipamdErr" sum true
      ∷ cni_metric "awscni_ipamd_action_inprogress" "ipamdActionInProgress" sum true
      ∷ cni_metric "awscni_reconcile_count" "reconcileCount" sum true
      ∷ cni_metric "awscni_add_ip_req_count" "addReqCount" sum true
      ∷ cni_metric "awscni_del_ip_req_count" "delReqCount" sum true
      ∷ []

  -- `CNIMetricsTarget`: the pods that the discovery lists. `get` is the request to the pod through
  -- the API server, `none` its error.
  unfoldable pub cni_metrics_new :
      (String → Option String)
      → (String → Option (Dict String (MetricFamily F)))
      → K8sapi.Controller
      → Bool
      → MetricsTarget F
  cni_metrics_new get parse discovery submit = record {
    target_list = K8sapi.get_cni_pods discovery;
    grab_metrics_from_target = get;
    text_to_metric_families = parse;
    submit_cloud_watch = submit;
  }
