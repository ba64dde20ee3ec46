-- ===== src/Publisher/Batches.antt =====
-- What the requests of `push` carry.
use amazon_vpc_cni_k8s.Prelude.{
  ℕ, zero, suc, ◌+◌, ◌-◌, ◌*◌, ◌/◌, ◌≤◌, ◌<◌, ◌≡◌, refl, sym, ap, ◌∙◌, leb, Bool, Bool-cases, inl,
  inr, Option, some, List, [], ◌∷◌, ◌++◌, map, length, All, ℕ_discrete, if◌then◌else◌, arith, ◌↔◌,
}
use native.Mathlib.Decide.{dec_le}
use mathlib.Core.List.{append-nil, append_assoc}
use amazon_vpc_cni_k8s.Prelude.Actions.{Answer, ok, crashed, crash_not_ok, ◌>>=◌, pure, crash, call}
use amazon_vpc_cni_k8s.Publisher.{
  MetricDatum, PutMetricDataInput, Slice, CloudWatchPublisher, padded, up_to, drop, after, min,
  send, push_loop, push, cloudwatch_metric_namespace,
}
use amazon_vpc_cni_k8s.Publisher.Slices.{
  nils, leb_of_le, length-padded, length-drop, nils-add, padded-drop, drop-min,
}

-- How many requests `n` data need.
abbrev pub rounds : ℕ → ℕ
rounds n = (n + 19) / 20

-- How many entries of the last request are left over.
abbrev pub missing : ℕ → ℕ
missing n = 20 * rounds n - n

missing-step : (n : ℕ) → 0 < n → (20 - n) + missing (n - 20) ≡ missing n
missing-step n h = omega (arith, h)

-- The array behind the slice has room for the last request.
abbrev pub Fits : {A : Type 0} → Slice A → Type 0
Fits s = 20 * rounds (length s.elems) ≤ length s.elems + s.spare

unfoldable pub entries : {N : Type 0} → List (PutMetricDataInput N) → List (Option (MetricDatum N))
entries [] = []
entries (r ∷ rs) = r.metric_data ++ entries rs

module _ {N : Type 0} where
  -- The requests that carry the slice: full ones, with the data in order and nil after them.
  abbrev Carry : Slice (MetricDatum N) → List (PutMetricDataInput N) → Type 0
  Carry s rs =
      (length rs ≡ rounds (length s.elems))
      × All (λ r. length r.metric_data ≡ 20) rs
      × (entries rs ≡ map some s.elems ++ nils (missing (length s.elems)))

  -- The code ends and has put such requests.
  abbrev Sent :
      Slice (MetricDatum N)
      → CloudWatchPublisher N
      → Answer (Unit {0}) (Unit {0}) × CloudWatchPublisher N
      → Type 0
  Sent s p r =
      (rs : List (PutMetricDataInput N)) × (r
        ≡ (ok tt, record p { cloudwatch_client = p.cloudwatch_client ++ rs }))
      × Carry s rs

  -- The first request of a slice.
  first : Slice (MetricDatum N) → PutMetricDataInput N
  first s = record { namespace = cloudwatch_metric_namespace; metric_data = padded 20 s.elems }

  -- What is left of it.
  left : Slice (MetricDatum N) → Slice (MetricDatum N)
  left s = record { elems = drop 20 s.elems; spare = s.spare }

  entries-first :
      (s : Slice (MetricDatum N)) (rs : List (PutMetricDataInput N))
      → 0 < length s.elems
      → entries rs ≡ map some (left s).elems ++ nils (missing (length (left s).elems))
      → entries (first s ∷ rs) ≡ map some s.elems ++ nils (missing (length s.elems))
  unfolding first left entries
  entries-first s rs h e =
      rw
        (
          e,
          sym (
              append_assoc (padded 20 s.elems) (map some (drop 20 s.elems))
                (nils (missing (length (drop 20 s.elems))))),
          padded-drop 20 s.elems,
          append_assoc (map some s.elems) (nils (20 - length s.elems))
              (nils (missing (length (drop 20 s.elems)))),
          nils-add {A = MetricDatum N} (20 - length s.elems) (missing (length (drop 20 s.elems))),
          length-drop 20 s.elems,
          missing-step (length s.elems) h,
        )
        refl

  Carry-first :
      (s : Slice (MetricDatum N)) (rs : List (PutMetricDataInput N))
      → 0 < length s.elems
      → Carry (left s) rs
      → Carry s (first s ∷ rs)
  unfolding first left entries
  Carry-first s rs h (n, full, e) = (
    omega (arith, h, n, length-drop 20 s.elems),
    (length-padded 20 s.elems, full),
    entries-first s rs h e,
  )

  after-left : (s : Slice (MetricDatum N)) → after (min 20 (length s.elems)) s ≡ left s
  unfolding after left
  after-left s = rw (drop-min 20 s.elems) refl

  left-Fits : (s : Slice (MetricDatum N)) → 0 < length s.elems → Fits s → Fits (left s)
  unfolding left
  left-Fits s h f = rw (length-drop 20 s.elems) (omega (arith, f, h))

  left-not_Fits :
      (s : Slice (MetricDatum N))
      → length s.elems + s.spare < 20 * rounds (length s.elems)
      → 20 ≤ length s.elems + s.spare
      → length (left s).elems + (left s).spare < 20 * rounds (length (left s).elems)
  unfolding left
  left-not_Fits s h room = rw (length-drop 20 s.elems) (omega (arith, h, room))

  module _ (put_metric_data : List (PutMetricDataInput N) → Bool) where
    round_of :
        (fuel : ℕ) (xs : List (MetricDatum N)) (n : ℕ) (p : CloudWatchPublisher N)
        → 0 < length xs
        → let s : Slice (MetricDatum N) = record { elems = xs; spare = n } in
          push_loop put_metric_data (suc fuel) s p ≡ (
            if leb 20 (length xs + n)
            then push_loop put_metric_data fuel
                (after (min 20 (length xs)) s)
                (record p { cloudwatch_client = p.cloudwatch_client ++ (first s ∷ []) })
            else (crashed, p))
    unfolding push_loop up_to send call crash ◌>>=◌ first
    round_of fuel [] n p h = absurd (omega (arith, h))
    round_of fuel (x ∷ xs) n p h = elim (Bool-cases (leb 20 (length (x ∷ xs) + n))) [
      | inl e ↦ rw (e, push_loop, up_to) refl
      | inr e ↦ rw (e, push_loop, up_to) refl
    ]

    push_loop_round :
        (fuel : ℕ) (s : Slice (MetricDatum N)) (p : CloudWatchPublisher N)
        → 0 < length s.elems
        → push_loop put_metric_data (suc fuel) s p ≡ (
            if leb 20 (length s.elems + s.spare)
            then push_loop put_metric_data fuel
                (left s)
                (record p { cloudwatch_client = p.cloudwatch_client ++ (first s ∷ []) })
            else (crashed, p))
    push_loop_round fuel s p h = rw (sym (after-left s)) (round_of fuel s.elems s.spare p h)

    nothing_left :
        (fuel : ℕ) (xs : List (MetricDatum N)) (n : ℕ) (p : CloudWatchPublisher N)
        → length xs ≤ 0
        → Sent
            (record { elems = xs; spare = n })
            p
            (push_loop put_metric_data fuel (record { elems = xs; spare = n }) p)
    unfolding push_loop pure nils entries
    nothing_left zero [] n p h = ([], rw (append-nil p.cloudwatch_client) refl, (refl, tt, refl))
    nothing_left (suc fuel) [] n p h =
        ([], rw (append-nil p.cloudwatch_client) refl, (refl, tt, refl))
    nothing_left fuel (x ∷ xs) n p h = absurd (omega (arith, h))

    Sent-round :
        (fuel : ℕ) (s : Slice (MetricDatum N)) (p : CloudWatchPublisher N)
        → 0 < length s.elems
        → Fits s
        → (let q = record p { cloudwatch_client = p.cloudwatch_client ++ (first s ∷ []) } in
            Sent (left s) q (push_loop put_metric_data fuel (left s) q))
        → Sent s p (push_loop put_metric_data (suc fuel) s p)
    Sent-round fuel s p h f (rs, e, c) = (
      first s ∷ rs,
      rw
          (
            push_loop_round fuel s p h,
            leb_of_le 20 (length s.elems + s.spare) (omega (arith, f, h)),
            e,
            append_assoc p.cloudwatch_client (first s ∷ []) rs,
          )
          refl,
      Carry-first s rs h c,
    )

    push_loop-Sent :
        (fuel : ℕ) (s : Slice (MetricDatum N)) (p : CloudWatchPublisher N)
        → length s.elems ≤ fuel
        → Fits s
        → Sent s p (push_loop put_metric_data fuel s p)
    unfolding left
    push_loop-Sent zero s p le f = nothing_left 0 s.elems s.spare p le
    push_loop-Sent (suc fuel) s p le f = elim (ℕ_discrete (length s.elems) 0) [
      | yes e ↦ nothing_left (suc fuel) s.elems s.spare p (omega (arith, e))
      | no n ↦
          let h : 0 < length s.elems = omega (arith, n) in
          Sent-round fuel s p h f (
            push_loop-Sent fuel (left s)
              (record p { cloudwatch_client = p.cloudwatch_client ++ (first s ∷ []) })
              (omega (arith, length-drop 20 s.elems, le, h)) (left-Fits s h f))
    ]

    push_loop-panics :
        (fuel : ℕ) (s : Slice (MetricDatum N)) (p : CloudWatchPublisher N)
        → length s.elems ≤ fuel
        → length s.elems + s.spare < 20 * rounds (length s.elems)
        → (push_loop put_metric_data fuel s p).0 ≡ crashed
    unfolding left
    push_loop-panics zero s p le h = absurd (omega (arith, le, h))
    push_loop-panics (suc fuel) s p le h = elim (Bool-cases (leb 20 (length s.elems + s.spare))) [
      | inl e ↦
          rw (push_loop_round fuel s p (omega (arith, h)), e)
            (push_loop-panics fuel (left s)
              (record p { cloudwatch_client = p.cloudwatch_client ++ (first s ∷ []) })
              (omega (arith, length-drop 20 s.elems, le, h))
              (left-not_Fits s h (ground (arith, e))))
      | inr e ↦ rw (push_loop_round fuel s p (omega (arith, h)), e) refl
    ]

    -- `push` puts a slice whose array has room for full requests: ⌈n / 20⌉ requests of exactly 20
    -- entries, which carry the data in order, and nil in the entries of the last that are left.
    pub push-Sent :
        (s : Slice (MetricDatum N)) (p : CloudWatchPublisher N)
        → Fits s
        → Sent s p (push put_metric_data s p)
    unfolding push
    push-Sent s p f = push_loop-Sent (length s.elems) s p (omega arith) f

    Sent-no_panic :
        (s : Slice (MetricDatum N)) (p : CloudWatchPublisher N)
        → Fits s
        → ¬ ((push put_metric_data s p).0 ≡ crashed)
    Sent-no_panic s p f h = let e = ap (λ r. r.0) (push-Sent s p f).1 in crash_not_ok (sym h ∙ e)

    -- `push` panics exactly when the slice's array has no room for the last request's 20 entries.
    pub push_panics_iff :
        (s : Slice (MetricDatum N)) (p : CloudWatchPublisher N)
        → ((push put_metric_data s p).0 ≡ crashed)
          ↔ (length s.elems + s.spare < 20 * rounds (length s.elems))
    unfolding push
    push_panics_iff s p = (
      λ h. elim (dec_le (20 * rounds (length s.elems)) (length s.elems + s.spare)) [
        | yes f ↦ absurd (Sent-no_panic s p f h)
        | no n ↦ omega (arith, n)
      ],
      λ h. push_loop-panics (length s.elems) s p (omega arith) h,
    )
