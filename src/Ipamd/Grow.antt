-- ===== src/Ipamd/Grow.antt =====
-- ipamd/ipamd.go: getting more addresses and ENIs from EC2, and the round that keeps the pool
-- between its marks.
use amazon_vpc_cni_k8s.Prelude.{
  ℕ, ℤ, pos, ◌-ℤ◌, ltb_ℤ, eqb_ℤ, String, Bool, true, false, ◌&&◌, Option, none, some, [], length,
  if◌then◌else◌, second, ◌*◌,
}
use amazon_vpc_cni_k8s.Datastore.{EniIpPool, get_eni_needs_ip, get_enis}
use amazon_vpc_cni_k8s.Ipamd.Context.{Env, M, EniConfigSpec, ◌>>=◌, ◌>>◌, pure, gets, call, modify}
use amazon_vpc_cni_k8s.Ipamd.Targets.{
  ip_target_state, node_ip_pool_too_low, node_ip_pool_too_high, should_remove_extra_enis,
}
use amazon_vpc_cni_k8s.Ipamd.Setup.{
  get_eni_addresses, add_eni_addresses_to_data_store, wait_eni_attached, setup_eni,
}
use amazon_vpc_cni_k8s.Ipamd.Shrink.{decrease_ip_pool, try_free_eni}

abbrev pub decrease_ip_pool_interval : ℕ
decrease_ip_pool_interval = 30 * second

module _ {W : Type 0} (env : Env W) where
  unfoldable pub update_last_node_ip_pool_action : M W (Unit {0})
  update_last_node_ip_pool_action = do
    now ← call env.now
    modify λ c. record c { last_node_ip_pool_action = now }

  -- The security groups and the subnet to ask for; `none` is an error.
  unfoldable pub pod_eni_config : M W (Option EniConfigSpec)
  pod_eni_config = gets (λ c. c.use_custom_networking) >>= λ custom. elim custom [
    | true ↦ call env.my_eni_config
    | false ↦ pure (some (record { security_groups = []; subnet = "" }))
  ]

  -- Once EC2 has made the ENI: its addresses, its attachment and its entry in the store.
  unfoldable pub adopt_eni : String → M W (Unit {0})
  adopt_eni eni = do
    c ← gets (λ c. c)
    _ ← call (
        env.alloc_ip_addresses eni
          (if (ip_target_state c).enabled then (ip_target_state c).short else c.max_ips_per_eni))
    attached ← wait_eni_attached env eni
    elim attached [ none ↦ pure tt | some metadata ↦ setup_eni env eni metadata >>= λ _. pure tt ]

  unfoldable pub try_allocate_eni : M W (Unit {0})
  unfolding pod_eni_config adopt_eni
  try_allocate_eni = do
    config ← pod_eni_config
    elim config [
      | none ↦ pure tt
      | some cfg ↦ do
        custom ← gets (λ c. c.use_custom_networking)
        answer ← call (env.alloc_eni custom cfg.security_groups cfg.subnet)
        elim answer [ none ↦ pure tt | some eni ↦ adopt_eni eni ]
    ]

  -- All that the ENI can take, or else one.
  unfoldable pub alloc_all_or_one : String → ℤ → M W Bool
  alloc_all_or_one eni missing = call (env.alloc_ip_addresses eni missing) >>= λ done. elim done [
    | true ↦ pure true
    | false ↦ call (env.alloc_ip_addresses eni (pos 1))
  ]

  unfoldable pub fill_eni : EniIpPool → M W Bool
  unfolding alloc_all_or_one
  fill_eni eni = do
    limit ← gets (λ c. c.max_ips_per_eni)
    done ← alloc_all_or_one eni.id (limit -ℤ pos (length eni.ipv4_addresses))
    elim done [
      | false ↦ pure false
      | true ↦ do
        answer ← get_eni_addresses env eni.id
        elim answer [
          | none ↦ pure true
          | some (addrs, _) ↦ add_eni_addresses_to_data_store env addrs eni.id >>= λ _. pure true
        ]
    ]

  -- Whether the pool was increased; the error is only logged.
  unfoldable pub try_assign_ips : M W Bool
  unfolding fill_eni
  try_assign_ips = do
    c ← gets (λ c. c)
    if (ip_target_state c).enabled && eqb_ℤ (ip_target_state c).short (pos 0)
        then pure false
        else elim (get_eni_needs_ip c.data_store c.max_ips_per_eni c.use_custom_networking) [
          | none ↦ pure false
          | some eni ↦
              if ltb_ℤ (pos (length eni.ipv4_addresses)) c.max_ips_per_eni
              then fill_eni eni
              else pure false
        ]

  unfoldable pub increase_ip_pool : M W (Unit {0})
  unfolding try_assign_ips try_allocate_eni update_last_node_ip_pool_action
  increase_ip_pool = do
    t ← gets ip_target_state
    if t.enabled && eqb_ℤ t.short (pos 0) then pure tt else do
      increased ← try_assign_ips
      if increased then update_last_node_ip_pool_action else do
        c ← gets (λ c. c)
        if ltb_ℤ (get_enis c.data_store) c.max_eni
            then (try_allocate_eni >> update_last_node_ip_pool_action)
            else pure tt

  unfoldable pub update_ip_pool_if_required : M W (Unit {0})
  unfolding increase_ip_pool
  update_ip_pool_if_required = do
    low ← gets node_ip_pool_too_low
    high ← gets node_ip_pool_too_high
    if low
        then increase_ip_pool
        else (if high then decrease_ip_pool env decrease_ip_pool_interval else pure tt)
    extra ← gets should_remove_extra_enis
    if extra then try_free_eni env else pure tt
