-- ===== src/Metrics/Buckets.antt =====
-- cni-metrics-helper/metrics/metrics.go: the buckets of histograms.
use amazon_vpc_cni_k8s.Prelude.{
  ℕ, ltb, Bool, true, false, not, ◌&&◌, ◌||◌, Option, none, some, List, [], ◌∷◌, length, take,
  if◌then◌else◌,
}
use amazon_vpc_cni_k8s.Metrics.Points.{
  Float, Metric, BucketPoint, unset, shared, own, BucketPoints, MetricsAction,
}

module _ {F : Type 0} (num : Float F) where
  -- A sample's bucket goes to the first point with its upper bound, or to a new one at the end.
  unfoldable pub add_bucket : (F → F → F) → F × ℕ → List (BucketPoint F) → List (BucketPoint F)
  add_bucket action (bound, count) [] =
      record { upper_bound = bound; cumulative_count = num.from_uint count } ∷ []
  add_bucket action (bound, count) (b ∷ bs) =
      let others = add_bucket action (bound, count) bs in
      if num.equal bound b.upper_bound
      then record b { cumulative_count = action b.cumulative_count (num.from_uint count) } ∷ bs
      else b ∷ others

  unfoldable pub add_buckets :
      (F → F → F) → List (F × ℕ) → List (BucketPoint F) → List (BucketPoint F)
  add_buckets action [] cur = cur
  add_buckets action (b ∷ bs) cur = add_buckets action bs (add_bucket action b cur)

  -- A histogram with no bucket does not touch `act.bucket`.
  unfoldable pub process_histogram : Metric F → MetricsAction F → Option (MetricsAction F)
  process_histogram metric act = elim metric.buckets [
    | [] ↦ some act
    | s ∷ samples ↦ elim act.bucket [
      | none ↦ none
      | some b ↦ some (record act {
        bucket =
            some (record b { cur_bucket = add_buckets act.action_func (s ∷ samples) b.cur_bucket });
      })
    ]
  ]

  -- The count of the bucket alone: the cumulative count less the one of the bucket before. The
  -- loop runs from the last bucket to the first, so the one before is not changed yet.
  abbrev pub alone : Option F → F → F
  alone none count = count
  alone (some before) count = num.sub count before

  unfoldable pub alone_all : Option F → List (BucketPoint F) → List (BucketPoint F)
  alone_all before [] = []
  alone_all before (b ∷ bs) =
      record b { cumulative_count = alone before b.cumulative_count }
      ∷ alone_all (some b.cumulative_count) bs

  -- Whether one of the counts is not at least itself.
  unfoldable pub some_nan : List (BucketPoint F) → Bool
  some_nan [] = false
  some_nan (b ∷ bs) = not (num.at_least b.cumulative_count b.cumulative_count) || some_nan bs

  -- The deltas against the counts of the last poll, point by point; `none` is the index out of
  -- range where the last poll had fewer buckets.
  unfoldable pub deltas :
      List (BucketPoint F)
      → List (BucketPoint F)
      → Option (Bool × (List (BucketPoint F) × List (BucketPoint F)))
  deltas [] last = some (false, ([], last))
  deltas (b ∷ bs) [] = none
  deltas (b ∷ bs) (l ∷ ls) =
      let up = num.at_least b.cumulative_count l.cumulative_count in
      elim (deltas bs ls) [
        | none ↦ none
        | some (reset, (cur, last)) ↦ some (
          not up || reset,
          (
            (if up
                  then record b { cumulative_count = num.sub b.cumulative_count l.cumulative_count }
                  else b)
                ∷ cur,
            record l { cumulative_count = b.cumulative_count } ∷ last,
          ),
        )
      ]

  -- The body of `postProcessingHistogram`'s loop where there are buckets: whether a reset was
  -- detected, whether there was a last poll, and the new points. A shared point that gets a delta
  -- gets its count back, as the last count.
  unfoldable pub post_buckets : BucketPoints F → Option (Bool × (Bool × BucketPoints F))
  post_buckets b =
      let cur = alone_all none b.cur_bucket in
      elim b.last_bucket [
        | unset ↦
            some (false, (false, record { last_bucket = shared (length cur); cur_bucket = cur }))
        | shared n ↦
            if ltb n (length cur)
            then none
            else some (some_nan cur, (true, record b { cur_bucket = cur }))
        | own last ↦ elim (deltas cur last) [
          | none ↦ none
          | some (reset, (cur', last')) ↦
              some (reset, (true, record { last_bucket = own last'; cur_bucket = cur' }))
        ]
      ]

  -- The loop, with its two flags: reset detected, no last bucket.
  unfoldable pub post_histogram :
      Bool → Bool → List (MetricsAction F) → Option (Bool × List (MetricsAction F))
  post_histogram reset no_last [] = some (reset || no_last, [])
  post_histogram reset no_last (act ∷ acts) = elim act.bucket [
    | none ↦ none
    | some b ↦ elim b.cur_bucket [
      | [] ↦ elim (post_histogram reset no_last acts) [
        | none ↦ none
        | some (r, rest) ↦ some (r, act ∷ rest)
      ]
      | p ∷ ps ↦ elim (post_buckets b) [
        | none ↦ none
        | some (r, (had_last, b')) ↦
            elim (post_histogram (reset || r) (no_last && not had_last) acts) [
              | none ↦ none
              | some (r', rest) ↦ some (r', record act { bucket = some b' } ∷ rest)
            ]
      ]
    ]
  ]

  unfoldable pub post_processing_histogram :
      List (MetricsAction F) → Option (Bool × List (MetricsAction F))
  post_processing_histogram acts = post_histogram false true acts

-- `make([]*bucketPoint, 0)`: a shared last bucket keeps its points.
unfoldable pub reset_bucket : {F : Type 0} → BucketPoints F → BucketPoints F
reset_bucket b = record {
  last_bucket = elim b.last_bucket [
    | unset ↦ unset
    | shared n ↦ own (take n b.cur_bucket)
    | own last ↦ own last
  ];
  cur_bucket = [];
}
