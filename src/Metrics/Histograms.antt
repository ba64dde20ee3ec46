-- ===== src/Metrics/Histograms.antt =====
-- Two polls of a histogram, in cni-metrics-helper/metrics/metrics.go.
use amazon_vpc_cni_k8s.Prelude.{
  suc, ◌<◌, ◌≡◌, ◌≢◌, refl, ap, ◌↔◌, Bool, Option, none, some, Option-cases, inl, inr, List, [],
  ◌∷◌, length, take, arith,
}
use amazon_vpc_cni_k8s.Metrics.Points.{Float, BucketPoint, unset, own, BucketPoints, MetricsAction}
use amazon_vpc_cni_k8s.Metrics.Buckets.{
  alone_all, deltas, post_buckets, reset_bucket, post_histogram, post_processing_histogram,
}

length-take_all : {A : Type 0} (xs : List A) → take (length xs) xs ≡ xs
length-take_all [] = refl
length-take_all (x ∷ xs) = ap (λ l. x ∷ l) (length-take_all xs)

module _ {F : Type 0} (num : Float F) where
  length-alone_all :
      (before : Option F) (bs : List (BucketPoint F)) → length (alone_all num before bs) ≡ length bs
  unfolding alone_all
  length-alone_all before [] = refl
  length-alone_all before (b ∷ bs) = ap suc (length-alone_all (some b.cumulative_count) bs)

  deltas-none :
      (cur last : List (BucketPoint F)) → (deltas num cur last ≡ none) ↔ (length last < length cur)
  unfolding deltas
  deltas-none [] last = (λ h. absurd (ground arith), λ h. absurd (omega (arith, h)))
  deltas-none (b ∷ bs) [] = (λ h. omega arith, λ h. refl)
  deltas-none (b ∷ bs) (l ∷ ls) =
      let (f, g) = deltas-none bs ls in
      elim (Option-cases (deltas num bs ls)) [
        | inl e ↦ (λ h. omega (arith, f e), λ h. rw (e, deltas) refl)
        | inr (r, e) ↦ (
          λ h. absurd (ground (arith, rw (e, deltas) at h)),
          λ h. absurd (ground (arith, e, g (omega (arith, h)))),
        )
      ]

  with_last : List (BucketPoint F) → List (BucketPoint F) → BucketPoints F
  with_last last cur = record { last_bucket = own last; cur_bucket = cur }

  post_own_none :
      (last cur : List (BucketPoint F))
      → (post_buckets num (with_last last cur) ≡ none) ↔ (length last < length cur)
  unfolding post_buckets with_last
  post_own_none last cur =
      let (f, g) = deltas-none (alone_all num none cur) last in
      let l = length-alone_all none cur in
      elim (Option-cases (deltas num (alone_all num none cur) last)) [
        | inl e ↦ (λ h. omega (arith, f e, l), λ h. rw (e, post_buckets) refl)
        | inr (r, e) ↦ (
          λ h. absurd (ground (arith, rw (e, post_buckets) at h)),
          λ h. absurd (ground (arith, e, g (omega (arith, h, l)))),
        )
      ]

  -- The points of a histogram at its second poll: what the first left, with its new samples.
  abbrev pub again : BucketPoints F → List (BucketPoint F) → BucketPoints F
  again b cur = record (reset_bucket b) { cur_bucket = cur }

  -- The action of a histogram with its points.
  abbrev pub with_points : MetricsAction F → BucketPoints F → MetricsAction F
  with_points act b = record act { bucket = some b }

  -- Its points before any poll, with the buckets of the first.
  abbrev pub fresh_points : List (BucketPoint F) → BucketPoints F
  fresh_points cur = record { last_bucket = unset; cur_bucket = cur }

  skipped :
      (act : MetricsAction F) (second : List (BucketPoint F))
      → post_processing_histogram num (with_points act (fresh_points second) ∷ []) ≢ none
  unfolding post_processing_histogram post_histogram post_buckets
  skipped act [] h = cc
  skipped act (b ∷ bs) h = cc

  one_action :
      (act : MetricsAction F) (last : List (BucketPoint F)) (p : BucketPoint F)
      (ps : List (BucketPoint F))
      → let b = with_last last (p ∷ ps) in
        (post_processing_histogram num (with_points act b ∷ []) ≡ none)
        ↔ (post_buckets num b ≡ none)
  unfolding post_processing_histogram post_histogram with_last
  one_action act last p ps = elim (Option-cases (post_buckets num (with_last last (p ∷ ps)))) [
    | inl n ↦ (λ h. n, λ h. rw (n, post_processing_histogram, post_histogram) refl)
    | inr (r, n) ↦ (
      λ h. absurd (ground (arith, rw (n, post_processing_histogram, post_histogram) at h)),
      λ h. absurd (ground (arith, n, h)),
    )
  ]

  panics_again :
      (act : MetricsAction F) (first second : List (BucketPoint F))
      → let last = take (length (alone_all num none first)) (alone_all num none first) in
        (post_processing_histogram num (with_points act (with_last last second) ∷ []) ≡ none)
        ↔ (length first < length second)
  unfolding post_processing_histogram post_histogram with_last
  panics_again act first [] = (λ h. cc, λ h. absurd (omega (arith, h)))
  panics_again act first (b ∷ bs) =
      let last = take (length (alone_all num none first)) (alone_all num none first) in
      let (f, g) = one_action act last b bs in
      let (f', g') = post_own_none last (b ∷ bs) in
      let l : length last ≡ length first =
        rw (length-take_all (alone_all num none first)) (length-alone_all none first) in
      (λ h. omega (arith, l, f' (f h)), λ h. g (g' (omega (arith, l, h))))

  -- The first poll of a histogram never fails, and its second fails, with an index out of range,
  -- exactly when the first had a bucket and the second has more buckets than the first. A first poll
  -- with no bucket leaves no last bucket, and the second does not fail then.
  pub post_processing_histogram_panics_iff :
      (act : MetricsAction F) (first second : List (BucketPoint F))
      → (reset : Bool) × (b : BucketPoints F) × (post_processing_histogram num
            (with_points act (fresh_points first) ∷ [])
          ≡ some (reset, with_points act b ∷ []))
        × ((post_processing_histogram num (with_points act (again b second) ∷ []) ≡ none)
            ↔ ((0 < length first) × (length first < length second)))
  unfolding post_processing_histogram post_histogram post_buckets reset_bucket with_last
  post_processing_histogram_panics_iff act [] second =
      (_, _, refl, (λ h. absurd (skipped act second h), λ h. absurd (omega (arith, h.0))))
  post_processing_histogram_panics_iff act (p ∷ ps) second =
      let (f, g) = panics_again act (p ∷ ps) second in
      (_, _, refl, (λ h. (omega arith, f h), λ h. g h.1))
