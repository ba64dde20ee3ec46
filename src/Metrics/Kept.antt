-- ===== src/Metrics/Kept.antt =====
-- What a poll of cni-metrics-helper/metrics keeps of the interesting metrics.
use amazon_vpc_cni_k8s.Prelude.{
  ℕ, ◌≤◌, String, string_discrete, ◌≡◌, refl, sym, ◌∙◌, Bool, ◌||◌, Option-cases, inl, inr, some,
  List, [], ◌∷◌, length, ite, Dict, lookup, insert, arith,
}
use amazon_vpc_cni_k8s.Metrics.Points.{Float, MetricFamily, MetricsAction}
use amazon_vpc_cni_k8s.Metrics.Families.{process_metric, Interesting, actions_of}
use amazon_vpc_cni_k8s.Metrics.Poll.{
  filter_metrics, MetricsTarget, Grabbed, store, process_families, grab_all,
}
use amazon_vpc_cni_k8s.Metrics.Shape.{
  then_-some, some_inj, IsSingle, AreSingle, process_metric-IsSingle,
}

module _ {F : Type 0} where
  insert-AreSingle :
      (k : String) (acts : List (MetricsAction F)) (m : Interesting F)
      → IsSingle acts
      → AreSingle m
      → AreSingle (insert string_discrete k acts m)
  unfolding insert
  insert-AreSingle k acts [] one h = (one, tt)
  insert-AreSingle k acts ((j, w) ∷ m) one (h, hs) =
      elim (string_discrete k j)
        as (λ d. AreSingle (ite d ((j, acts) ∷ m) ((j, w) ∷ insert string_discrete k acts m))) [
          | yes e ↦ (one, hs)
          | no n ↦ (h, insert-AreSingle k acts m one hs)
        ]

  length-insert :
      (k : String) (acts before : List (MetricsAction F)) (m : Interesting F)
      → lookup string_discrete k m ≡ some before
      → length (insert string_discrete k acts m) ≡ length m
  unfolding insert lookup
  length-insert k acts before [] h = absurd (ground arith)
  length-insert k acts before ((j, w) ∷ m) h = ground (arith, h, length-insert k acts before m)

  lookup-IsSingle :
      (k : String) (acts : List (MetricsAction F)) (m : Interesting F)
      → lookup string_discrete k m ≡ some acts
      → AreSingle m
      → IsSingle acts
  unfolding lookup
  lookup-IsSingle k acts [] h s = absurd (ground arith)
  lookup-IsSingle k acts ((j, w) ∷ m) h (s, ss) =
      (elim (string_discrete k j)
          as (λ d. ite d (some w) (lookup string_discrete k m) ≡ some acts → IsSingle acts) [
            | yes e ↦ λ g. rw (sym (some_inj w acts g)) s
            | no n ↦ λ g. lookup-IsSingle k acts m g ss
          ])
        h

  pub actions_of-IsSingle :
      (k : String) (m : Interesting F) → AreSingle m → IsSingle (actions_of m k)
  unfolding actions_of
  actions_of-IsSingle k m s = elim (Option-cases (lookup string_discrete k m)) [
    | inl e ↦ rw (e, actions_of) (omega arith, tt)
    | inr (acts, e) ↦ rw (e, actions_of) (lookup-IsSingle k acts m e s)
  ]

  length-filter_metrics :
      (orig : Dict String (MetricFamily F)) (m : Interesting F)
      → length (filter_metrics orig m) ≤ length m
  unfolding filter_metrics
  length-filter_metrics orig [] = omega arith
  length-filter_metrics orig ((k, acts) ∷ m) = elim (Option-cases (lookup string_discrete k orig)) [
    | inl e ↦ rw (e, filter_metrics) (omega (arith, length-filter_metrics orig m))
    | inr (f, e) ↦ rw (e, filter_metrics) (omega (arith, length-filter_metrics orig m))
  ]

  -- The shape of what a poll keeps, for `n` interesting metrics.
  abbrev pub Fine : ℕ → Grabbed F → Type 0
  Fine n g = AreSingle g.interesting × (length g.interesting ≡ n) × (length g.families ≤ n)

module _ {F : Type 0} (num : Float F) where
  store-AreSingle :
      (k : String) (acts : List (MetricsAction F)) (m : Interesting F)
      → IsSingle acts
      → AreSingle m
      → AreSingle (store num k acts m) × (length (store num k acts m) ≡ length m)
  store-AreSingle k acts m one s = elim (Option-cases (lookup string_discrete k m)) [
    | inl e ↦ rw (store, e) (s, refl)
    | inr (before, e) ↦
        rw (store, e) (insert-AreSingle k acts m one s, length-insert k acts before m e)
  ]

  process_families-Fine :
      (n : ℕ) (fs : Dict String (MetricFamily F)) (g g' : Grabbed F)
      → process_families num fs g ≡ some g'
      → Fine n g
      → Fine n g'
  unfolding process_families
  process_families-Fine n [] g g' h f = rw (sym (some_inj g g' h)) f
  process_families-Fine n ((k, f) ∷ fs) g g' h (s, l, b) =
      let (r, e, rest) =
        then_-some (process_metric num f (actions_of g.interesting f.name)) _ g' h in
      let one =
        process_metric-IsSingle num f (actions_of g.interesting f.name) r e
          (actions_of-IsSingle f.name g.interesting s) in
      let (s', l') = store-AreSingle f.name r.1 g.interesting one s in
      process_families-Fine n fs
        (record g {
          interesting = store num f.name r.1 g.interesting;
          reset_detected = r.0 || g.reset_detected;
        })
        g' rest (s', l' ∙ l, b)

  pub grab_all-Fine :
      (n : ℕ) (t : MetricsTarget F) (targets : List String) (g : Grabbed F) (r : Bool × Grabbed F)
      → grab_all num t targets g ≡ some r
      → Fine n g
      → Fine n r.1
  unfolding grab_all
  grab_all-Fine n t [] g r h f = rw (sym (some_inj _ r h)) f
  grab_all-Fine n t (x ∷ xs) g r h (s, l, b) = elim (Option-cases (t.grab_metrics_from_target x)) [
    | inl e ↦ grab_all-Fine n t xs g r (rw (e, grab_all) at h) (s, l, b)
    | inr (raw, e) ↦ elim (Option-cases (t.text_to_metric_families raw)) [
      | inl e' ↦ rw (sym (some_inj _ r (rw (e, grab_all, e') at h))) (s, l, b)
      | inr (orig, e') ↦
          let fs = filter_metrics orig g.interesting in
          let (g', p, rest) =
            then_-some (process_families num fs (record g { families = fs }))
              (λ (g'' : Grabbed F). grab_all num t xs g'') r (rw (e, grab_all, e') at h) in
          grab_all-Fine n t xs g' r rest (
            process_families-Fine n fs (record g { families = fs }) g' p
              (s, l, omega (arith, l, length-filter_metrics orig g.interesting)))
    ]
  ]
