-- ===== src/Metrics/Delivery.antt =====
-- The data of the polls of cni-metrics-helper/metrics, handed to pkg/publisher.
use amazon_vpc_cni_k8s.Prelude.{
  ℕ, suc, ◌≤◌, ◌+◌, ◌*◌, String, ◌≡◌, refl, sym, ap, ◌∙◌, Bool, true, false, Bool-cases,
  Option-cases, leb, inl, inr, some, List, [], ◌∷◌, ◌++◌, length, length-append, map, All, sum_by,
  Dict, arith,
}
use mathlib.Core.Path.{subst}
use mathlib.Core.List.{flatten}
use amazon_vpc_cni_k8s.Prelude.Actions.{ok, for_each, ◌>>◌}
use amazon_vpc_cni_k8s.Publisher.{
  MetricDatum, PutMetricDataInput, CloudWatchPublisher, publish, push_local, dated,
}
use amazon_vpc_cni_k8s.Publisher.Batches.{entries, missing}
use amazon_vpc_cni_k8s.Publisher.Slices.{nils}
use amazon_vpc_cni_k8s.Publisher.Polls.{IsFresh, push_local_delivers}
use amazon_vpc_cni_k8s.Metrics.Points.{
  Float, MetricType, counter_type, gauge_type, summary_type, untyped, histogram_type, MetricFamily,
  MetricsAction,
}
use amazon_vpc_cni_k8s.Metrics.Families.{
  produce_histogram, produce_point, produce_action, produce_actions, Interesting, actions_of,
  produce_cloud_watch_metrics,
}
use amazon_vpc_cni_k8s.Metrics.Poll.{
  MetricsTarget, Grabbed, reset_action, reset_metrics, grab_all, concluded,
  metrics_list_grab_aggregate_convert, produced, handler,
}
use amazon_vpc_cni_k8s.Metrics.Shape.{then_-some, some_inj, IsPlain, IsSingle, AreSingle}
use amazon_vpc_cni_k8s.Metrics.Increase.{polls}
use amazon_vpc_cni_k8s.Metrics.Kept.{actions_of-IsSingle, Fine, grab_all-Fine}

add_poll : (a b k n : ℕ) → a ≤ n → b ≤ k * n → a + b ≤ suc k * n
add_poll a b k n h g = omega (arith, h, g)

module _ {F : Type 0} (num : Float F) where
  length-produce_point :
      (submit : Bool) (act : MetricsAction F) (ds : List (MetricDatum F))
      → produce_point num submit act ≡ some ds
      → length ds ≤ 1
  unfolding produce_point
  length-produce_point submit act ds h = elim (Option-cases act.data_points) [
    | inl e ↦ absurd (ground (arith, rw (e, produce_point) at h))
    | inr (d, e) ↦ elim (Bool-cases submit) [
      | inl y ↦ rw (sym (some_inj _ ds (rw (e, y, produce_point) at h))) (omega arith)
      | inr y ↦ rw (sym (some_inj _ ds (rw (e, y, produce_point) at h))) (omega arith)
    ]
  ]

  length-produce_action :
      (submit : Bool) (ty : MetricType) (act : MetricsAction F) (ds : List (MetricDatum F))
      → IsPlain act
      → produce_action num submit ty act ≡ some ds
      → length ds ≤ 1
  unfolding produce_action produce_histogram
  length-produce_action submit counter_type act ds p h = length-produce_point submit act ds h
  length-produce_action submit gauge_type act ds p h = length-produce_point submit act ds h
  length-produce_action submit summary_type act ds p h = length-produce_point submit act ds h
  length-produce_action submit untyped act ds p h = rw (sym (some_inj _ ds h)) (omega arith)
  length-produce_action true histogram_type act ds p h =
      absurd (ground (arith, rw (p, produce_histogram) at h))
  length-produce_action false histogram_type act ds p h = rw (sym (some_inj _ ds h)) (omega arith)

  length-produce_actions :
      (submit : Bool) (ty : MetricType) (acts : List (MetricsAction F)) (ds : List (MetricDatum F))
      → All IsPlain acts
      → produce_actions num submit ty acts ≡ some ds
      → length ds ≤ length acts
  unfolding produce_actions
  length-produce_actions submit ty [] ds p h = rw (sym (some_inj _ ds h)) (omega arith)
  length-produce_actions submit ty (a ∷ acts) ds (p, ps) h =
      let (d, e, rest) = then_-some (produce_action num submit ty a) _ ds h in
      let (more, e', last) = then_-some (produce_actions num submit ty acts) _ ds rest in
      rw (sym (some_inj _ ds last)) (
        omega (
          arith,
          length-append d more,
          length-produce_action submit ty a d p e,
          length-produce_actions submit ty acts more ps e',
        ))

  length-produce :
      (submit : Bool) (fs : Dict String (MetricFamily F)) (m : Interesting F)
      (ds : List (MetricDatum F))
      → AreSingle m
      → produce_cloud_watch_metrics num submit fs m ≡ some ds
      → length ds ≤ length fs
  unfolding produce_cloud_watch_metrics
  length-produce submit [] m ds s h = rw (sym (some_inj _ ds h)) (omega arith)
  length-produce submit ((k, f) ∷ fs) m ds s h =
      let (d, e, rest) = then_-some (produce_actions num submit f.type_ (actions_of m k)) _ ds h in
      let (more, e', last) = then_-some (produce_cloud_watch_metrics num submit fs m) _ ds rest in
      let (one, plain) = actions_of-IsSingle k m s in
      rw (sym (some_inj _ ds last)) (
        omega (
          arith,
          length-append d more,
          length-produce_actions submit f.type_ (actions_of m k) d plain e,
          one,
          length-produce submit fs m more s e',
        ))

  reset_action-IsPlain : (act : MetricsAction F) → IsPlain act → IsPlain (reset_action num act)
  unfolding reset_action
  reset_action-IsPlain act p = rw p refl

  reset_all-IsSingle :
      (acts : List (MetricsAction F)) → IsSingle acts → IsSingle (map (reset_action num) acts)
  reset_all-IsSingle [] s = (omega arith, tt)
  reset_all-IsSingle (a ∷ []) (n, (p, ps)) = (omega arith, (reset_action-IsPlain a p, tt))
  reset_all-IsSingle (a ∷ b ∷ acts) (n, ps) = absurd (omega (arith, n))

  reset_metrics-AreSingle :
      (m : Interesting F)
      → AreSingle m
      → AreSingle (reset_metrics num m) × (length (reset_metrics num m) ≡ length m)
  unfolding reset_metrics
  reset_metrics-AreSingle [] s = (tt, refl)
  reset_metrics-AreSingle ((k, acts) ∷ m) (s, ss) =
      let (rest, l) = reset_metrics-AreSingle m ss in ((reset_all-IsSingle acts s, rest), ap suc l)

  concluded-Fine :
      (n : ℕ) (t : MetricsTarget F) (r : Bool × Grabbed F)
      → Fine n r.1
      → Fine n (concluded num t r).1
  unfolding concluded
  concluded-Fine n t (failed, g) (s, l, b) = elim (Bool-cases failed) [
    | inl e ↦ rw e (s, l, omega arith)
    | inr e ↦ elim (Bool-cases (leb 2 (length t.target_list))) [
      | inl y ↦ rw (e, y) (s, l, b)
      | inr y ↦ rw (e, y) (s, l, b)
    ]
  ]

  -- A poll publishes one datum at most for each of the interesting metrics, and keeps them so.
  handler-AreSingle :
      (t : MetricsTarget F) (m next : Interesting F) (ds : List (MetricDatum F))
      → handler num t m ≡ some (ds, next)
      → AreSingle m
      → (length ds ≤ length m) × AreSingle next × (length next ≡ length m)
  unfolding handler metrics_list_grab_aggregate_convert produced
  handler-AreSingle t m next ds h s =
      let (c, e, rest) =
        then_-some (metrics_list_grab_aggregate_convert num t m) (produced num t) (ds, next) h in
      let (g, e', last) = then_-some (grab_all num t t.target_list _) _ c e in
      let (s0, l0) = reset_metrics-AreSingle m s in
      let fine = grab_all-Fine num (length m) t t.target_list _ g e' (s0, l0, omega arith) in
      let (s1, l1, b1) = concluded-Fine (length m) t g fine in
      let is_c = some_inj _ c last in
      let (s2, l2, b2) = subst (λ (r : Bool × Grabbed F). Fine (length m) r.1) is_c (s1, l1, b1) in
      let (d, e'', end) =
        then_-some
          (produce_cloud_watch_metrics num t.submit_cloud_watch c.1.families c.1.interesting) _
          (ds, next) rest in
      let q = some_inj _ (ds, next) end in
      let len = length-produce t.submit_cloud_watch c.1.families c.1.interesting d s2 e'' in
      subst
        (λ (r : List (MetricDatum F) × Interesting F).
          (length r.0 ≤ length m) × AreSingle r.1 × (length r.1 ≡ length m))
        q (omega (arith, len, b2), s2, l2)

  length-polls :
      (ts : List (MetricsTarget F)) (m : Interesting F) (ds : List (MetricDatum F))
      → polls num ts m ≡ some ds
      → AreSingle m
      → length ds ≤ length ts * length m
  unfolding polls
  length-polls [] m ds h s = rw (sym (some_inj _ ds h)) (omega arith)
  length-polls (t ∷ ts) m ds h s =
      let ((d, next), e, rest) = then_-some (handler num t m) _ ds h in
      let (more, e', last) = then_-some (polls num ts next) _ ds rest in
      let (n, s', l) = handler-AreSingle t m next d e s in
      let ih = length-polls ts next more e' s' in
      rw (sym (some_inj _ ds last), length-append d more)
        (add_poll (length d) (length more) (length ts) (length m) n (rw l at ih))

  -- Each datum is a call of `Publish`.
  abbrev pub calls_of : List (MetricDatum F) → List (List (MetricDatum F))
  calls_of [] = []
  calls_of (d ∷ ds) = (d ∷ []) ∷ calls_of ds

  flatten-calls_of : (ds : List (MetricDatum F)) → flatten (calls_of ds) ≡ ds
  unfolding flatten
  flatten-calls_of [] = refl
  flatten-calls_of (d ∷ ds) = ap (λ l. d ∷ l) (flatten-calls_of ds)

  sum_by-calls_of : (ds : List (MetricDatum F)) → sum_by length (calls_of ds) ≡ length ds
  sum_by-calls_of [] = refl
  sum_by-calls_of (d ∷ ds) = omega (arith, sum_by-calls_of ds)

  -- Where the interesting metrics have one action each at most, without buckets, and the polls since
  -- the publisher's queue was emptied times the interesting metrics are at most 100, everything
  -- that the polls publish, if none panics, is put to CloudWatch by the next push: once, in order,
  -- with the cluster's dimension, nil after it, and without a panic.
  pub polls-delivered :
      (grow : ℕ → ℕ) (put_metric_data : List (PutMetricDataInput F) → Bool)
      (ts : List (MetricsTarget F)) (m : Interesting F) (ds : List (MetricDatum F))
      (p : CloudWatchPublisher F)
      → polls num ts m ≡ some ds
      → AreSingle m
      → length ts * length m ≤ 100
      → IsFresh p
      → (rs : List (PutMetricDataInput F)) × ((for_each (publish grow) (calls_of ds)
              >> push_local put_metric_data)
            p
          ≡ (ok tt, record p { cloudwatch_client = p.cloudwatch_client ++ rs }))
        × (entries rs ≡ map some (map (dated p) ds) ++ nils (missing (length ds)))
  polls-delivered grow put ts m ds p h s few fresh =
      let n = sum_by-calls_of ds in
      let few' : sum_by length (calls_of ds) ≤ 100 =
        omega (arith, n, length-polls ts m ds h s, few) in
      let (rs, e, l, full, c) = push_local_delivers grow put (calls_of ds) p fresh few' in
      (
        rs,
        e,
        c
            ∙ ap
                (λ (x : List (MetricDatum F)).
                  map some (map (dated p) x) ++ nils (missing (sum_by length (calls_of ds))))
                (flatten-calls_of ds)
            ∙ ap (λ (k : ℕ). map some (map (dated p) ds) ++ nils (missing k)) n,
      )
