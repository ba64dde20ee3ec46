-- ===== src/Metrics/Shape.antt =====
-- What a poll of cni-metrics-helper/metrics leaves of the actions: one for a metric at most, without
-- buckets.
use amazon_vpc_cni_k8s.Prelude.{
  suc, ◌≤◌, String, ◌≡◌, refl, sym, ap, ◌∙◌, ◌⊎◌, Bool, true, false, ◌&&◌, ◌||◌, Bool-cases,
  Option-cases, inl, inr, Option, none, some, List, [], ◌∷◌, length, All, arith,
}
use amazon_vpc_cni_k8s.Metrics.Points.{
  Float, Metric, MetricType, counter_type, gauge_type, summary_type, untyped, histogram_type,
  MetricFamily, MetricsAction, each, then_, gather, process_gauge, process_counter,
  process_percentile, post_counter, post_processing_counter, delta, is_reset,
}
use amazon_vpc_cni_k8s.Metrics.Buckets.{
  process_histogram, post_histogram, post_processing_histogram,
}
use amazon_vpc_cni_k8s.Metrics.Families.{
  process_as, process_matching, process_all, post_process, process_metric, Interesting,
}

-- A step that gives a value.
pub then_-some :
    {A B : Type 0} (m : Option A) (f : A → Option B) (b : B)
    → then_ m f ≡ some b
    → (a : A) × (m ≡ some a) × (f a ≡ some b)
unfolding then_
then_-some none f b h = absurd (ground arith)
then_-some (some a) f b h = (a, refl, h)

pub some_inj : {A : Type 0} (a b : A) → ◌≡◌ {A = Option A} (some a) (some b) → a ≡ b
some_inj a b h = cc

List-cases : {A : Type 0} (l : List A) → (l ≡ []) ⊎ ((x : A) × (xs : List A) × (l ≡ x ∷ xs))
List-cases [] = inl refl
List-cases (x ∷ xs) = inr (x, xs, refl)

module _ {F : Type 0} where
  abbrev pub IsPlain : MetricsAction F → Type 0
  IsPlain act = act.bucket ≡ none

  abbrev pub IsSingle : List (MetricsAction F) → Type 0
  IsSingle acts = (length acts ≤ 1) × All IsPlain acts

  abbrev pub AreSingle : Interesting F → Type 0
  AreSingle = All (λ (e : String × List (MetricsAction F)). IsSingle e.1)

module _ {F : Type 0} (num : Float F) where
  gather-IsPlain :
      (v : F) (act a : MetricsAction F) → gather num v act ≡ some a → IsPlain act → IsPlain a
  unfolding gather
  gather-IsPlain v act a h p = elim (Option-cases act.data_points) [
    | inl e ↦ absurd (ground (arith, rw (e, gather) at h))
    | inr (d, e) ↦
        ap (λ (x : MetricsAction F). x.bucket) (sym (some_inj _ a (rw (e, gather) at h))) ∙ p
  ]

  process_as-IsPlain :
      (ty : MetricType) (m : Metric F) (act a : MetricsAction F)
      → process_as num ty m act ≡ some a
      → IsPlain act
      → IsPlain a
  unfolding process_as process_gauge process_counter process_percentile process_histogram
  process_as-IsPlain gauge_type m act a h p = gather-IsPlain m.gauge act a h p
  process_as-IsPlain counter_type m act a h p = gather-IsPlain m.counter act a h p
  process_as-IsPlain summary_type m act a h p = gather-IsPlain _ act a h p
  process_as-IsPlain untyped m act a h p = rw (sym (some_inj act a h)) p
  process_as-IsPlain histogram_type m act a h p = elim (List-cases m.buckets) [
    | inl e ↦ rw (sym (some_inj act a (rw (e, process_histogram) at h))) p
    | inr (x, xs, e) ↦ absurd (ground (arith, rw (e, process_histogram, p) at h))
  ]

  process_matching-IsPlain :
      (ty : MetricType) (m : Metric F) (act a : MetricsAction F)
      → process_matching num ty m act ≡ some a
      → IsPlain act
      → IsPlain a
  unfolding process_matching
  process_matching-IsPlain ty m act a h p = elim (Bool-cases (act.match_func m)) [
    | inl e ↦ process_as-IsPlain ty m act a (rw (e, process_matching) at h) p
    | inr e ↦ rw (sym (some_inj act a (rw (e, process_matching) at h))) p
  ]

  -- The list keeps its length and stays plain.
  abbrev Same : List (MetricsAction F) → List (MetricsAction F) → Type 0
  Same acts acts' = (length acts' ≡ length acts) × All IsPlain acts'

  each-Same :
      (ty : MetricType) (m : Metric F) (acts acts' : List (MetricsAction F))
      → each (process_matching num ty m) acts ≡ some acts'
      → All IsPlain acts
      → Same acts acts'
  unfolding each
  each-Same ty m [] acts' h p = rw (sym (some_inj [] acts' h)) (refl, tt)
  each-Same ty m (a ∷ acts) acts' h (p, ps) = elim (Option-cases (process_matching num ty m a)) [
    | inl e ↦ absurd (ground (arith, rw (e, each) at h))
    | inr (b, e) ↦ elim (Option-cases (each (process_matching num ty m) acts)) [
      | inl e' ↦ absurd (ground (arith, rw (e, e', each) at h))
      | inr (bs, e') ↦
          let (l, qs) = each-Same ty m acts bs e' ps in
          rw (sym (some_inj (b ∷ bs) acts' (rw (e, e', each) at h)))
            (ap suc l, (process_matching-IsPlain ty m a b e p, qs))
    ]
  ]

  process_all-Same :
      (ty : MetricType) (ms : List (Metric F)) (acts acts' : List (MetricsAction F))
      → process_all num ty ms acts ≡ some acts'
      → All IsPlain acts
      → Same acts acts'
  unfolding process_all
  process_all-Same ty [] acts acts' h p = rw (sym (some_inj acts acts' h)) (refl, p)
  process_all-Same ty (m ∷ ms) acts acts' h p =
      let (mid, e, rest) =
        then_-some (each (process_matching num ty m) acts) (process_all num ty ms) acts' h in
      let (l, q) = each-Same ty m acts mid e p in
      let (l', q') = process_all-Same ty ms mid acts' rest q in (l' ∙ l, q')

  post_counter-Same :
      (x y z : Bool) (acts : List (MetricsAction F)) (r : Bool × List (MetricsAction F))
      → post_counter num x y z acts ≡ some r
      → All IsPlain acts
      → Same acts r.1
  unfolding post_counter
  post_counter-Same x y z [] r h p = rw (sym (some_inj _ r h)) (refl, tt)
  post_counter-Same x y z (a ∷ acts) r h (p, ps) = elim (Option-cases a.data_points) [
    | inl e ↦ absurd (ground (arith, rw (e, post_counter) at h))
    | inr (d, e) ↦
        let x' = x || is_reset num d in
        let y' = y && num.equal d.last_single_data_point num.zero in
        let z' = z && num.equal (delta num d).cur_single_data_point num.zero in
        elim (Option-cases (post_counter num x' y' z' acts)) [
          | inl e' ↦ absurd (ground (arith, rw (e, e', post_counter) at h))
          | inr (q, e') ↦
              let (l, qs) = post_counter-Same x' y' z' acts q e' ps in
              rw (sym (some_inj _ r (rw (e, e', post_counter) at h))) (ap suc l, (p, qs))
        ]
  ]

  post_histogram-Same :
      (x y : Bool) (acts : List (MetricsAction F)) (r : Bool × List (MetricsAction F))
      → post_histogram num x y acts ≡ some r
      → All IsPlain acts
      → Same acts r.1
  unfolding post_histogram
  post_histogram-Same x y [] r h p = rw (sym (some_inj _ r h)) (refl, tt)
  post_histogram-Same x y (a ∷ acts) r h (p, ps) =
      absurd (ground (arith, rw (p, post_histogram) at h))

  post_process-Same :
      (ty : MetricType) (acts : List (MetricsAction F)) (r : Bool × List (MetricsAction F))
      → post_process num ty acts ≡ some r
      → All IsPlain acts
      → Same acts r.1
  unfolding post_process post_processing_counter post_processing_histogram
  post_process-Same counter_type acts r h p = post_counter-Same false true true acts r h p
  post_process-Same histogram_type acts r h p = post_histogram-Same false true acts r h p
  post_process-Same gauge_type acts r h p = rw (sym (some_inj _ r h)) (refl, p)
  post_process-Same summary_type acts r h p = rw (sym (some_inj _ r h)) (refl, p)
  post_process-Same untyped acts r h p = rw (sym (some_inj _ r h)) (refl, p)

  pub process_metric-IsSingle :
      (f : MetricFamily F) (acts : List (MetricsAction F)) (r : Bool × List (MetricsAction F))
      → process_metric num f acts ≡ some r
      → IsSingle acts
      → IsSingle r.1
  unfolding process_metric
  process_metric-IsSingle f acts r h (n, p) =
      let (mid, e, rest) =
        then_-some (process_all num f.type_ f.metrics acts) (post_process num f.type_) r h in
      let (l, q) = process_all-Same f.type_ f.metrics acts mid e p in
      let (l', q') = post_process-Same f.type_ mid r rest q in (omega (arith, l, l', n), q')
