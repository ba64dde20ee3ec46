-- ===== src/Metrics/Counters.antt =====
-- What a poll publishes of a counter, in cni-metrics-helper/metrics.
use amazon_vpc_cni_k8s.Prelude.{
  leb, String, string_discrete, ◌≡◌, refl, ap, ◌∙◌, if_pos, Bool, true, false, ◌||◌, Bool-cases,
  inl, inr, Option, none, some, List, [], ◌∷◌, length, Dict, lookup, insert,
}
use amazon_vpc_cni_k8s.Metrics.Points.{
  Float, counter_type, MetricFamily, DataPoints, MetricsAction, then_,
}
use amazon_vpc_cni_k8s.Metrics.Families.{
  process_metric, produce_point, produce_action, produce_actions, actions_of,
  produce_cloud_watch_metrics,
}
use amazon_vpc_cni_k8s.Metrics.Poll.{
  filter_metrics, MetricsTarget, Grabbed, reset_points, reset_action, reset_metrics,
  process_families, store, grab_all, metrics_list_grab_aggregate_convert, concluded, produced,
  handler,
}
use amazon_vpc_cni_k8s.Metrics.Counting.{counting, only, datum_of, polled, process_metric-counter}

-- The target answers, with this family for the counter `name`.
pub record Serves {F : Type 0} (t : MetricsTarget F) (name target : String) (f : MetricFamily F)
    : Type 0 where
  pub raw : String
  pub orig : Dict String (MetricFamily F)
  pub grabs : t.grab_metrics_from_target target ≡ some raw
  pub parses : t.text_to_metric_families raw ≡ some orig
  pub has : lookup string_discrete name orig ≡ some f
  pub its_name : f.name ≡ name
  pub is_counter : f.type_ ≡ counter_type

module _ {F : Type 0} (num : Float F) where
  module _ (t : MetricsTarget F) (name : String) (act : MetricsAction F) where
    grabbed : MetricFamily F → DataPoints F → Bool → Grabbed F
    grabbed f p reset = record {
      families = (name, f) ∷ [];
      interesting = only name act p;
      reset_detected = reset;
    }

    filter_metrics-only :
        (p : DataPoints F) (orig : Dict String (MetricFamily F)) (f : MetricFamily F)
        → lookup string_discrete name orig ≡ some f
        → filter_metrics orig (only name act p) ≡ (name, f) ∷ []
    unfolding filter_metrics
    filter_metrics-only p orig f h = rw (h, filter_metrics) refl

    lookup-only :
        (p : DataPoints F)
        → lookup string_discrete name (only name act p) ≡ some (counting act p ∷ [])
    unfolding lookup
    lookup-only p = if_pos (string_discrete name name) refl (some (counting act p ∷ [])) none

    actions_of-only : (p : DataPoints F) → actions_of (only name act p) name ≡ counting act p ∷ []
    unfolding actions_of
    actions_of-only p = rw (lookup-only p, actions_of) refl

    store-only :
        (p q : DataPoints F)
        → store num name (counting act q ∷ []) (only name act p) ≡ only name act q
    unfolding insert
    store-only p q =
        rw (store, lookup-only p)
          (if_pos (string_discrete name name) refl (only name act q)
            ((name, counting act p ∷ []) ∷ (name, counting act q ∷ []) ∷ []))

    -- What the loop keeps of a family's result.
    kept :
        MetricFamily F
        → DataPoints F
        → Bool
        → String
        → Bool × List (MetricsAction F)
        → Option (Grabbed F)
    unfolding grabbed
    kept f p g key r = some (record (grabbed f p g) {
      interesting = store num key r.1 (only name act p);
      reset_detected = r.0 || g;
    })

    process_families-only :
        (f : MetricFamily F) (p : DataPoints F) (g : Bool)
        → f.name ≡ name
        → f.type_ ≡ counter_type
        → (reset : Bool) × (process_families num ((name, f) ∷ []) (grabbed f p g)
            ≡ some (grabbed f (polled num act f.metrics p) reset))
    unfolding process_families then_ grabbed kept
    process_families-only f p g n c =
        let (reset, e) = process_metric-counter num act p f c in
        (
          reset || g,
          ap
                (λ (key : String).
                  then_ (process_metric num f (actions_of (only name act p) key)) (kept f p g key))
                n
              ∙ ap (λ acts. then_ (process_metric num f acts) (kept f p g name)) (actions_of-only p)
              ∙ ap (λ r. then_ r (kept f p g name)) e
              ∙ ap (λ i. some (record (grabbed f p (reset || g)) { interesting = i }))
                  (store-only p (polled num act f.metrics p)),
        )

    -- A target of the loop that answers.
    grab_all-Serves :
        (target : String) (targets : List String) (f : MetricFamily F) (p : DataPoints F)
        (before : Dict String (MetricFamily F)) (g : Bool)
        → Serves t name target f
        → (reset : Bool) × (grab_all num t
              (target ∷ targets)
              (record { families = before; interesting = only name act p; reset_detected = g })
            ≡ grab_all num t targets (grabbed f (polled num act f.metrics p) reset))
    unfolding grab_all then_ grabbed
    grab_all-Serves target targets f p before g s =
        let (reset, e) = process_families-only f p g s.its_name s.is_counter in
        (
          reset,
          rw (s.grabs, grab_all, s.parses, filter_metrics-only p s.orig f s.has)
              (ap (λ r. then_ r (grab_all num t targets)) e),
        )

    produce-only :
        (f : MetricFamily F) (p : DataPoints F)
        → f.type_ ≡ counter_type
        → produce_cloud_watch_metrics num true ((name, f) ∷ []) (only name act p)
          ≡ some (datum_of act p ∷ [])
    unfolding produce_cloud_watch_metrics produce_actions produce_action produce_point then_
    produce-only f p c = rw (actions_of-only p, c) refl

    start : DataPoints F → Grabbed F
    start p = record {
      families = [];
      interesting = only name act (reset_points num p);
      reset_detected = false;
    }

    produced-grabbed :
        (f : MetricFamily F) (q : DataPoints F) (reset : Bool)
        → t.submit_cloud_watch ≡ true
        → f.type_ ≡ counter_type
        → produced num t (concluded num t (false, grabbed f q reset))
          ≡ some (datum_of act q ∷ [], only name act q)
    unfolding produced concluded then_ grabbed
    produced-grabbed f q reset submit c = elim (Bool-cases (leb 2 (length t.target_list))) [
      | inl s ↦ rw (s, submit, produce-only f q c) refl
      | inr s ↦ rw (s, submit, produce-only f q c) refl
    ]

    handler-grabbed :
        (f : MetricFamily F) (p q : DataPoints F) (reset : Bool)
        → t.submit_cloud_watch ≡ true
        → f.type_ ≡ counter_type
        → grab_all num t t.target_list (start p) ≡ some (false, grabbed f q reset)
        → handler num t (only name act p) ≡ some (datum_of act q ∷ [], only name act q)
    unfolding handler metrics_list_grab_aggregate_convert reset_metrics reset_action then_ start
    handler-grabbed f p q reset submit c e =
        ap
          (λ (r : Option (Bool × Grabbed F)).
            then_ (then_ r (λ g. some (concluded num t g))) (produced num t))
          e
        ∙ produced-grabbed f q reset submit c

    -- A poll of one target that answers, and of two.
    pub handler-one :
        (target : String) (f : MetricFamily F) (p : DataPoints F)
        → t.target_list ≡ target ∷ []
        → t.submit_cloud_watch ≡ true
        → Serves t name target f
        → let q = polled num act f.metrics (reset_points num p) in
          handler num t (only name act p) ≡ some (datum_of act q ∷ [], only name act q)
    unfolding start grab_all
    handler-one target f p targets submit s =
        let (reset, e) = grab_all-Serves target [] f (reset_points num p) [] false s in
        handler-grabbed f p (polled num act f.metrics (reset_points num p)) reset submit
          s.is_counter (ap (λ (l : List String). grab_all num t l (start p)) targets ∙ e)

    pub handler-two :
        (first second : String) (f g : MetricFamily F) (p : DataPoints F)
        → t.target_list ≡ first ∷ second ∷ []
        → t.submit_cloud_watch ≡ true
        → Serves t name first f
        → Serves t name second g
        → let q = polled num act g.metrics (polled num act f.metrics (reset_points num p)) in
          handler num t (only name act p) ≡ some (datum_of act q ∷ [], only name act q)
    unfolding start grab_all grabbed
    handler-two first second f g p targets submit s s' =
        let q = polled num act f.metrics (reset_points num p) in
        let (r, e) = grab_all-Serves first (second ∷ []) f (reset_points num p) [] false s in
        let (r', e') = grab_all-Serves second [] g q ((name, f) ∷ []) r s' in
        handler-grabbed g p (polled num act g.metrics q) r' submit s'.is_counter
          (ap (λ (l : List String). grab_all num t l (start p)) targets ∙ e ∙ e')
