-- ===== src/Publisher/Tests.antt =====
-- Runs of pkg/publisher/publisher.go: two calls of `Publish`, and slices with and without room.
use mathlib.Core.List.{flatten}
use amazon_vpc_cni_k8s.Prelude.{
  ℕ, ◌+◌, ◌*◌, ◌<◌, ◌≡◌, ◌↔◌, refl, Bool, true, none, some, List, [], ◌∷◌, ◌++◌, map, length,
  sum_by, All, arith, String,
}
use amazon_vpc_cni_k8s.Prelude.Actions.{ok, crashed, for_each, ◌>>◌}
use amazon_vpc_cni_k8s.Publisher.{
  MetricDatum, PutMetricDataInput, Slice, CloudWatchPublisher, make, publish, push, push_local,
  dated, cluster_id_of, get_cluster_tag,
}
use amazon_vpc_cni_k8s.Publisher.Batches.{rounds, missing, entries, push_panics_iff}
use amazon_vpc_cni_k8s.Publisher.Slices.{nils}
use amazon_vpc_cni_k8s.Publisher.Polls.{IsFresh, push_local_delivers}

abbrev datum : String → ℕ → MetricDatum ℕ
datum name v = record {
  metric_name = name;
  unit = some "Count";
  value = some v;
  statistic_values = none;
  dimensions = [];
}

abbrev publisher : CloudWatchPublisher ℕ
publisher = record {
  cluster_id = "c";
  cloudwatch_client = [];
  local_metric_data = record { elems = []; spare = 100 };
}

abbrev accepts : List (PutMetricDataInput ℕ) → Bool
accepts rs = true

abbrev two_calls : List (List (MetricDatum ℕ))
two_calls = (datum "a" 1 ∷ datum "b" 2 ∷ []) ∷ (datum "c" 3 ∷ []) ∷ []

-- Two data in an array of four.
abbrev cramped : Slice (MetricDatum ℕ)
cramped = record { elems = datum "a" 1 ∷ datum "b" 2 ∷ []; spare = 2 }

untagged : cluster_id_of (get_cluster_tag (λ key. some [])) ≡ "k8s-cluster"
unfolding cluster_id_of get_cluster_tag
untagged = refl

publisher-IsFresh : IsFresh publisher
unfolding make
publisher-IsFresh = refl

push_local_delivers_example :
    let grow = λ (n : ℕ). 2 * n in
    let r = (for_each (publish grow) two_calls >> push_local accepts) publisher in
    (rs : List (PutMetricDataInput ℕ)) × (r
      ≡ (ok tt, record publisher { cloudwatch_client = publisher.cloudwatch_client ++ rs }))
    × (length rs ≡ rounds (sum_by length two_calls))
    × All (λ r. length r.metric_data ≡ 20) rs
    × (entries rs
        ≡ map some (map (dated publisher) (flatten two_calls))
          ++ nils (missing (sum_by length two_calls)))
push_local_delivers_example =
    push_local_delivers (λ (n : ℕ). 2 * n) accepts two_calls publisher publisher-IsFresh
      (omega arith)

push_panics_iff_example :
    ((push accepts cramped publisher).0 ≡ crashed)
    ↔ (length cramped.elems + cramped.spare < 20 * rounds (length cramped.elems))
push_panics_iff_example = push_panics_iff accepts cramped publisher
