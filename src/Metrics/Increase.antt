-- ===== src/Metrics/Increase.antt =====
-- What successive polls publish of a counter, in cni-metrics-helper/metrics, with one target and with
-- two.
use amazon_vpc_cni_k8s.Prelude.{
  String, ◌≡◌, refl, ap, ◌∙◌, true, false, Option, none, some, List, [], ◌∷◌, ◌++◌, map, All,
  if◌then◌else◌,
}
use amazon_vpc_cni_k8s.Publisher.{MetricDatum}
use amazon_vpc_cni_k8s.Metrics.Points.{
  Float, MetricFamily, DataPoints, MetricsAction, then_, is_reset, delta,
}
use amazon_vpc_cni_k8s.Metrics.Families.{Interesting}
use amazon_vpc_cni_k8s.Metrics.Poll.{MetricsTarget, reset_points, handler}
use amazon_vpc_cni_k8s.Metrics.Counters.{Serves, handler-one, handler-two}
use amazon_vpc_cni_k8s.Metrics.Counting.{aggregated, only, datum_of, polled}

module _ {F : Type 0} (num : Float F) where
  -- The data that successive polls publish.
  unfoldable pub polls : List (MetricsTarget F) → Interesting F → Option (List (MetricDatum F))
  polls [] interesting = some []
  polls (t ∷ ts) interesting =
      then_ (handler num t interesting) λ r. then_ (polls ts r.1) λ ds. some (r.0 ++ ds)

  -- What a counter grew by from total to total; a total below the one before counts from zero.
  unfoldable pub increases : F → List F → List F
  increases last [] = []
  increases last (t ∷ ts) = (if num.less t last then t else num.sub t last) ∷ increases t ts

  abbrev NeverFalls : F → List F → Type 0
  NeverFalls last [] = Unit
  NeverFalls last (t ∷ ts) = (num.less t last ≡ false) × NeverFalls t ts

  abbrev last_of : F → List F → F
  last_of last [] = last
  last_of last (t ∷ ts) = last_of t ts

  abbrev pub added : F → List F → F
  added sum [] = sum
  added sum (v ∷ vs) = added (num.add sum v) vs

  added-increases :
      (last : F) (ts : List F)
      → ((l t : F) → num.less t l ≡ false → num.add l (num.sub t l) ≡ t)
      → NeverFalls last ts
      → added last (increases last ts) ≡ last_of last ts
  unfolding increases
  added-increases last [] law h = refl
  added-increases last (t ∷ ts) law h = rw (h.0, law last t h.0) (added-increases t ts law h.1)

  module _ (name : String) (act : MetricsAction F) where
    -- A poll whose only target answers with the family.
    abbrev pub IsPoll : MetricsTarget F × MetricFamily F → Type 0
    IsPoll (t, f) =
        (target : String) × (t.target_list ≡ target ∷ [])
        × (t.submit_cloud_watch ≡ true)
        × Serves t name target f

    abbrev pub total : MetricFamily F → F
    total f = aggregated num act num.zero f.metrics

    abbrev pub published : F → MetricDatum F
    published v = record {
      metric_name = act.cw_metric_name;
      unit = some "Count";
      value = some v;
      statistic_values = none;
      dimensions = [];
    }

    abbrev pub targets : List (MetricsTarget F × MetricFamily F) → List (MetricsTarget F)
    targets [] = []
    targets ((t, f) ∷ ps) = t ∷ targets ps

    abbrev pub totals : List (MetricsTarget F × MetricFamily F) → List F
    totals [] = []
    totals ((t, f) ∷ ps) = total f ∷ totals ps

    -- With one interesting metric, a counter, and one target that answers each poll and whose data are
    -- submitted, each poll publishes one datum, of the counter's name: what its total grew by since
    -- the poll before, or the total itself where it fell.
    pub polls-increases :
        (ps : List (MetricsTarget F × MetricFamily F)) (p : DataPoints F)
        → All IsPoll ps
        → polls (targets ps) (only name act p)
          ≡ some (map published (increases p.last_single_data_point (totals ps)))
    unfolding polls increases polled delta is_reset reset_points then_
    polls-increases [] p h = refl
    polls-increases ((t, f) ∷ ps) p ((target, one, submit, s), rest) =
        let q = polled num act f.metrics (reset_points num p) in
        ap
          (λ (r : Option (List (MetricDatum F) × Interesting F)).
            then_ r λ r'. then_ (polls (targets ps) r'.1) λ ds. some (r'.0 ++ ds))
          (handler-one num t name act target f p one submit s)
        ∙ ap (λ r. then_ r λ ds. some (datum_of act q ∷ ds)) (polls-increases ps q rest)

    -- With one target, answered polls, a total that never falls, and numbers that add exactly (a
    -- difference added back gives the total), the values published add up to the last total, from
    -- the total before the first poll.
    polls-added :
        (ps : List (MetricsTarget F × MetricFamily F)) (p : DataPoints F)
        → ((l t : F) → num.less t l ≡ false → num.add l (num.sub t l) ≡ t)
        → All IsPoll ps
        → NeverFalls p.last_single_data_point (totals ps)
        → (vs : List F) × (polls (targets ps) (only name act p) ≡ some (map published vs))
          × (added p.last_single_data_point vs ≡ last_of p.last_single_data_point (totals ps))
    polls-added ps p law h mono = (
      increases p.last_single_data_point (totals ps),
      polls-increases ps p h,
      added-increases p.last_single_data_point (totals ps) law mono,
    )

    -- With one interesting metric, a counter, and two targets that answer and whose data are submitted,
    -- where the first one's total is published as it is (at the first poll, and when it is below the
    -- last kept one) and the numbers add exactly, a poll publishes the second target's part b of the
    -- sum alone: the first target's is taken off, as if it were an earlier poll's.
    pub handler-loses_first :
        (t : MetricsTarget F) (first second : String) (f g : MetricFamily F) (p : DataPoints F)
        (b : F)
        → t.target_list ≡ first ∷ second ∷ []
        → t.submit_cloud_watch ≡ true
        → Serves t name first f
        → Serves t name second g
        → aggregated num act (total f) g.metrics ≡ num.add (total f) b
        → (if num.less (total f) p.last_single_data_point
            then total f
            else num.sub (total f) p.last_single_data_point)
          ≡ total f
        → num.less (num.add (total f) b) (total f) ≡ false
        → num.sub (num.add (total f) b) (total f) ≡ b
        → (next : Interesting F) × (handler num t (only name act p) ≡ some (published b ∷ [], next))
    unfolding polled delta is_reset reset_points
    handler-loses_first t first second f g p b two submit sf sg sums whole l e =
        let q = polled num act g.metrics (polled num act f.metrics (reset_points num p)) in
        (
          only name act q,
          rw (handler-two num t name act first second f g p two submit sf sg, whole, sums, l, e)
              refl,
        )
