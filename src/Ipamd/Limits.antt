-- ===== src/Ipamd/Limits.antt =====
-- ipamd/ipamd.go: the marks of the warm pool, and the settings.
use amazon_vpc_cni_k8s.Prelude.{
  ℕ, ◌*◌, ◌+◌, ℤ, pos, negsuc, ◌≤ℤ◌, ◌+ℤ◌, ◌-ℤ◌, ◌*ℤ◌, String, ◌≡◌, refl, ◌⊎◌, true, false, Option,
  none, some, arith, List, [], ◌∷◌, Dict, lookup, string_discrete, insert, lookup-insert, Instant,
  second, time_sub-lt, if◌then◌else◌, suc, zero, pos-+ℤ, pos-*ℤ, ltb_ℤ, leb_ℤ, eqb_ℤ, ◌||◌, ◌&&◌,
  ltb,
}
use amazon_vpc_cni_k8s.Ipamd.{
  IpamContext, available, ip_target_state, node_ip_pool_too_low, node_ip_pool_too_high,
  should_remove_extra_enis, get_max_eni, get_warm_ip_target, get_warm_eni_target, cool_all,
  freed_at, is_member, ip_reconcile_cooldown,
}

-- What a pool with less than `t` ENIs' worth of free addresses lacks to have one more than `t`.
low_bound :
    (free : ℤ) (m t : ℕ)
    → (ltb_ℤ free (pos (suc m * t)) || (eqb_ℤ (pos t) (pos 0) && eqb_ℤ free (pos 0))) ≡ true
    → leb_ℤ (pos ((t + 1) * suc m)) free ≡ false
low_bound (pos f) m zero h = ground arith
low_bound (pos f) m (suc t) h = ground arith
low_bound (negsuc f) m t h = ground arith

low_pool :
    (free limit target : ℤ) (m t : ℕ)
    → limit ≡ pos (suc m)
    → target ≡ pos t
    → (ltb_ℤ free (limit *ℤ target) || (eqb_ℤ target (pos 0) && eqb_ℤ free (pos 0))) ≡ true
    → leb_ℤ ((target +ℤ pos 1) *ℤ limit) free ≡ false
low_pool free limit target m t e f h =
    rw (f, e, pos-+ℤ t 1, pos-*ℤ (t + 1) (suc m))
      (low_bound free m t (rw (f, e, pos-*ℤ (suc m) t) at h))

-- Without a warm target a mark is not decided by it.
off :
    {W : Type 0} (c : IpamContext W)
    → c.warm_ip_target ≡ pos 0
    → (ip_target_state c).enabled ≡ false
unfolding ip_target_state
off c h = ground arith

module _ {W : Type 0} (c : IpamContext W) where
  -- The shortage and the excess are never negative, and one of them is zero. With a warm target the
  -- free addresses and the shortage together are the target and the excess together; without one
  -- both are zero and the target is zero.
  pub ip_target_state_lem :
      let t = ip_target_state c in
      (pos 0 ≤ℤ t.short)
      × (pos 0 ≤ℤ t.over)
      × ((t.short ≡ pos 0) ⊎ (t.over ≡ pos 0))
      × (t.enabled ≡ true → available c +ℤ t.short ≡ c.warm_ip_target +ℤ t.over)
      × (t.enabled ≡ false → (t.short ≡ pos 0) × (t.over ≡ pos 0) × (c.warm_ip_target ≡ pos 0))
  unfolding ip_target_state ◌+ℤ◌ ◌-ℤ◌
  ip_target_state_lem = ground arith

  -- The pool is never too low and too high at once.
  pub not_low_and_high : node_ip_pool_too_low c ≡ true → node_ip_pool_too_high c ≡ false
  unfolding node_ip_pool_too_low node_ip_pool_too_high
  not_low_and_high low = ground (arith, ip_target_state_lem)

  -- Without a warm address target, a pool that is too low is not asked to give up an ENI, provided
  -- that an ENI takes at least one address and the target of ENIs is not negative.
  pub low_keeps_enis :
      (m t : ℕ)
      → c.max_ips_per_eni ≡ pos (suc m)
      → c.warm_eni_target ≡ pos t
      → c.warm_ip_target ≡ pos 0
      → node_ip_pool_too_low c ≡ true
      → should_remove_extra_enis c ≡ false
  unfolding node_ip_pool_too_low should_remove_extra_enis
  low_keeps_enis m t limit target none_set low = rw (off c none_set) (
      low_pool (available c) c.max_ips_per_eni c.warm_eni_target m t limit target
        (rw (off c none_set) at low))

-- When `getMaxENI` answers, with the limit of the instance type known, the answer is at most that
-- limit, and it is the limit itself or at least 1.
pub get_max_eni-le :
    (setting : Option String) (limit n : ℤ)
    → get_max_eni setting (some limit) ≡ some n
    → (n ≤ℤ limit) × ((n ≡ limit) ⊎ (pos 1 ≤ℤ n))
unfolding get_max_eni
get_max_eni-le none limit n h = ground arith
get_max_eni-le (some s) limit n h = ground arith

-- Whatever the environment variables hold, the warm targets are never negative.
pub warm_targets_nonneg :
    (a b : Option String) → (pos 0 ≤ℤ get_warm_ip_target a) × (pos 0 ≤ℤ get_warm_eni_target b)
unfolding get_warm_ip_target get_warm_eni_target
warm_targets_nonneg none none = omega arith
warm_targets_nonneg none (some t) = ground arith
warm_targets_nonneg (some s) none = ground arith
warm_targets_nonneg (some s) (some t) = ground arith

cool_all-lookup :
    (expiry : Instant) (ips : List String) (ip : String) (cache : Dict String Instant)
    → lookup string_discrete ip (cool_all expiry ips cache)
      ≡ (if is_member ip ips then some expiry else lookup string_discrete ip cache)
unfolding cool_all is_member
cool_all-lookup expiry [] ip cache = refl
cool_all-lookup expiry (j ∷ ips) ip cache = ground (
  arith,
  cool_all-lookup expiry ips ip (insert string_discrete j expiry cache),
  lookup-insert string_discrete j ip expiry cache,
)

-- Once the cache has been given some addresses at one instant, each of them is found in it, and
-- counts as recently freed at exactly the readings of the clock less than 60 seconds later,
-- whatever the cache held before.
pub freed_at-cool_all :
    (then_ now : Instant) (ips : List String) (ip : String) (cache : Dict String Instant)
    → is_member ip ips ≡ true
    → freed_at now ip (cool_all (then_ + ip_reconcile_cooldown) ips cache)
      ≡ (true, ltb now (then_ + 60 * second))
unfolding freed_at
freed_at-cool_all then_ now ips ip cache member = ground (
  arith,
  cool_all-lookup (then_ + ip_reconcile_cooldown) ips ip cache,
  time_sub-lt now (then_ + ip_reconcile_cooldown) 0,
)
