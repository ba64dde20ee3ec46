-- ===== src/Publisher/Polls.antt =====
-- A minute of the publisher: the data published since the last push, and the push.
use amazon_vpc_cni_k8s.Prelude.{
  ℕ, zero, suc, ◌-◌, ◌≤◌, ◌≡◌, refl, sym, ap, ◌∙◌, Bool, List, [], ◌∷◌, ◌++◌, map, length, sum_by,
  All, arith, length-append, some,
}
use mathlib.Core.List.{append-nil, append_assoc, flatten, map-append}
use amazon_vpc_cni_k8s.Prelude.Actions.{ok, ◌>>=◌, ◌>>◌, pure, call, rest, for_each, bind_ok}
use amazon_vpc_cni_k8s.Publisher.{
  MetricDatum, PutMetricDataInput, Slice, CloudWatchPublisher, make, append, publish, push, dated,
  push_local, local_metric_data_size,
}
use amazon_vpc_cni_k8s.Publisher.Batches.{Fits, entries, missing, rounds, push-Sent}
use amazon_vpc_cni_k8s.Publisher.Slices.{nils}

length-map : {A B : Type 0} (f : A → B) (xs : List A) → length (map f xs) ≡ length xs
length-map f [] = refl
length-map f (x ∷ xs) = ap suc (length-map f xs)

length-flatten : {A : Type 0} (xss : List (List A)) → length (flatten xss) ≡ sum_by length xss
unfolding flatten
length-flatten [] = refl
length-flatten (xs ∷ xss) = omega (arith, length-append xs (flatten xss), length-flatten xss)

module _ {N : Type 0} where
  -- A queue with nothing in it, as `New` and `pushLocal` leave it.
  abbrev pub IsFresh : CloudWatchPublisher N → Type 0
  IsFresh p = p.local_metric_data ≡ make local_metric_data_size

module _ {N : Type 0} (grow : ℕ → ℕ) where
  queued : List (MetricDatum N) → CloudWatchPublisher N → CloudWatchPublisher N
  queued ds p = record p {
    local_metric_data = record {
      elems = p.local_metric_data.elems ++ map (dated p) ds;
      spare = p.local_metric_data.spare - length ds;
    };
  }

  append_room :
      (xs : List (MetricDatum N)) (n : ℕ) (d : MetricDatum N)
      → 1 ≤ n
      → append grow (record { elems = xs; spare = n }) d
        ≡ record { elems = xs ++ (d ∷ []); spare = n - 1 }
  unfolding append
  append_room xs zero d h = absurd (omega (arith, h))
  append_room xs (suc n) d h = let e : suc n - 1 ≡ n = omega arith in rw e refl

  queued_nil : (p : CloudWatchPublisher N) → queued [] p ≡ p
  unfolding queued
  queued_nil p =
      let e : p.local_metric_data.spare - 0 ≡ p.local_metric_data.spare = omega arith in
      rw (append-nil p.local_metric_data.elems, e) refl

  queued_append :
      (ds es : List (MetricDatum N)) (p : CloudWatchPublisher N)
      → queued es (queued ds p) ≡ queued (ds ++ es) p
  unfolding queued dated
  queued_append ds es p =
      let n = p.local_metric_data.spare in
      let e : n - length ds - length es ≡ n - length (ds ++ es) =
        omega (arith, length-append ds es) in
      rw
        (
          e,
          map-append (dated p) ds es,
          append_assoc p.local_metric_data.elems (map (dated p) ds) (map (dated p) es),
        )
        refl

  publish_lem :
      (ds : List (MetricDatum N)) (p : CloudWatchPublisher N)
      → length ds ≤ p.local_metric_data.spare
      → publish grow ds p ≡ (ok tt, queued ds p)
  unfolding publish for_each queued pure ◌>>=◌ rest dated
  publish_lem [] p h = ap (λ q. (ok tt, q)) (sym (queued_nil p))
  publish_lem (d ∷ ds) p h =
      let m = p.local_metric_data in
      rw (append_room m.elems m.spare (dated p d) (omega (arith, h))) (
        publish_lem ds (queued (d ∷ []) p) (omega (arith, h))
        ∙ ap (λ q. (ok tt, q)) (queued_append (d ∷ []) ds p))

  publishes_lem :
      (calls : List (List (MetricDatum N))) (p : CloudWatchPublisher N)
      → sum_by length calls ≤ p.local_metric_data.spare
      → for_each (publish grow) calls p ≡ (ok tt, queued (flatten calls) p)
  unfolding for_each pure ◌>>=◌ queued flatten
  publishes_lem [] p h = ap (λ q. (ok tt, q)) (sym (queued_nil p))
  publishes_lem (ds ∷ calls) p h =
      let e = publish_lem ds p (omega (arith, h)) in
      bind_ok (publish grow ds) (λ _. for_each (publish grow) calls) p tt (ap (λ r. r.0) e)
      ∙ ap (λ r. for_each (publish grow) calls r.1) e
      ∙ publishes_lem calls (queued ds p) (omega (arith, h))
      ∙ ap (λ q. (ok tt, q)) (queued_append ds (flatten calls) p)

  polled : List (List (MetricDatum N)) → CloudWatchPublisher N → Slice (MetricDatum N)
  polled calls p = record {
    elems = map (dated p) (flatten calls);
    spare = 100 - length (flatten calls);
  }

  push_local_lem :
      (put_metric_data : List (PutMetricDataInput N) → Bool) (calls : List (List (MetricDatum N)))
      (p : CloudWatchPublisher N)
      → IsFresh p
      → sum_by length calls ≤ 100
      → (for_each (publish grow) calls >> push_local put_metric_data) p
        ≡ push put_metric_data (polled calls p) p
  unfolding make push_local call ◌>>=◌ queued polled
  push_local_lem put calls p fresh h =
      let e = publishes_lem calls p (rw fresh h) in
      bind_ok (for_each (publish grow) calls) (λ _. push_local put) p tt (ap (λ r. r.0) e)
      ∙ ap (λ r. push_local put r.1) e
      ∙ ap
          (λ (m : Slice (MetricDatum N)).
            push put
              (record {
                elems = m.elems ++ map (dated p) (flatten calls);
                spare = m.spare - length (flatten calls);
              })
              (record p { local_metric_data = make 100 }))
          fresh
      ∙ ap
          (λ (m : Slice (MetricDatum N)).
            push put (polled calls p) (record p { local_metric_data = m }))
          (sym fresh)

  length-polled :
      (calls : List (List (MetricDatum N))) (p : CloudWatchPublisher N)
      → length (polled calls p).elems ≡ sum_by length calls
  unfolding polled
  length-polled calls p = length-map (dated p) (flatten calls) ∙ length-flatten calls

  polled-Fits :
      (calls : List (List (MetricDatum N))) (p : CloudWatchPublisher N)
      → sum_by length calls ≤ 100
      → Fits (polled calls p)
  unfolding polled
  polled-Fits calls p h =
      omega (arith, h, length-map (dated p) (flatten calls), length-flatten calls)

  -- Where at most 100 data are published after the queue was emptied, in any calls, the next push
  -- puts every one of them once, in order and with the cluster's dimension, in requests of exactly
  -- 20 entries, nil after the last datum, without a panic, and empties the queue.
  pub push_local_delivers :
      (put_metric_data : List (PutMetricDataInput N) → Bool) (calls : List (List (MetricDatum N)))
      (p : CloudWatchPublisher N)
      → IsFresh p
      → sum_by length calls ≤ 100
      → let r = (for_each (publish grow) calls >> push_local put_metric_data) p in
        (rs : List (PutMetricDataInput N)) × (r
          ≡ (ok tt, record p { cloudwatch_client = p.cloudwatch_client ++ rs }))
        × (length rs ≡ rounds (sum_by length calls))
        × All (λ r. length r.metric_data ≡ 20) rs
        × (entries rs
            ≡ map some (map (dated p) (flatten calls)) ++ nils (missing (sum_by length calls)))
  unfolding polled
  push_local_delivers put calls p fresh h =
      let l = length-polled calls p in
      let f : Fits (polled calls p) = polled-Fits calls p h in
      let (rs, e, (n, full, c)) = push-Sent put (polled calls p) p f in
      (
        rs,
        push_local_lem put calls p fresh h ∙ e,
        n ∙ ap rounds l,
        full,
        c ∙ ap (λ n. map some (map (dated p) (flatten calls)) ++ nils (missing n)) l,
      )
