-- ===== src/K8sapi/Requeue.antt =====
-- How often pkg/k8sapi/discovery.go tries a key again.
use amazon_vpc_cni_k8s.Prelude.{ℕ, zero, suc, ◌%◌, ltb, ◌≡◌, String, some, if◌then◌else◌, arith}
use amazon_vpc_cni_k8s.K8sapi.{WorkQueue, PodError, handle_err}

module _ {Q : Type 0} (queue : WorkQueue Q) where
  -- What the rate limiter documents of its counts.
  pub record Counts : Type 0 where
    pub forgets : (k : String) (q : Q) → queue.num_requeues k (queue.forget k q) ≡ 0
    pub counts :
        (k : String) (q : Q)
        → queue.num_requeues k (queue.add_rate_limited k q) ≡ suc (queue.num_requeues k q)

  -- `n` updates of a key that fail, one after the other.
  unfoldable pub failures : PodError → String → ℕ → Q → Q
  failures e key zero q = q
  failures e key (suc n) q = handle_err queue (some e) key (failures e key n q)

  handle_err-num_requeues :
      (laws : Counts) (e : PodError) (key : String) (q : Q)
      → queue.num_requeues key (handle_err queue (some e) key q)
        ≡ (if ltb (queue.num_requeues key q) 5 then suc (queue.num_requeues key q) else 0)
  unfolding handle_err
  handle_err-num_requeues laws e key q = ground (arith, laws.forgets key q, laws.counts key q)

  -- A key with no requeue counted that then fails n times in a row has n % 6 requeues counted: each
  -- of five failures in a row adds one, the sixth clears the count, and there are never more than 5.
  pub failures-num_requeues :
      (laws : Counts) (e : PodError) (key : String) (n : ℕ) (q : Q)
      → queue.num_requeues key q ≡ 0
      → queue.num_requeues key (failures e key n q) ≡ n % 6
  unfolding failures
  failures-num_requeues laws e key zero q h = omega (arith, h)
  failures-num_requeues laws e key (suc n) q h =
      rw
        (
          handle_err-num_requeues laws e key (failures e key n q),
          failures-num_requeues laws e key n q h,
        )
        (ground arith)
