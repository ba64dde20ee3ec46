-- ===== src/Ipamd/Keeps/Pool.antt =====
-- ipamd/ipamd.go: shrinking and growing the pool.
use amazon_vpc_cni_k8s.Prelude.{
  if◌then◌else◌, ℕ, ℤ, pos, ltb_ℤ, length, true, false, String, none, some, List, [], ◌∷◌, Dict,
  Option,
}
use amazon_vpc_cni_k8s.Datastore.{DataStore, EniIpPool, ok, err, get_eni_needs_ip}
use amazon_vpc_cni_k8s.Datastore.History.{step, dels_ip, removes_unused}
use amazon_vpc_cni_k8s.Ipamd.{
  IpamContext, Env, pure, delete_ips, unassign_ips_from, unassign_loop, try_unassign_ips_from_all,
  decrease_ip_pool, try_free_eni, update_last_node_ip_pool_action, pod_eni_config, adopt_eni,
  try_allocate_eni, alloc_all_or_one, fill_eni, try_assign_ips, increase_ip_pool,
  update_ip_pool_if_required, decrease_ip_pool_interval,
}
use amazon_vpc_cni_k8s.Ipamd.Keeps.{
  PoolStable, Keeps, pure-Keeps, gets-Keeps, call-Keeps, modify-Keeps, bind-Keeps, on_store-Keeps,
  if-Keeps,
}
use amazon_vpc_cni_k8s.Ipamd.Keeps.Setup

module _ {W : Type 0} (env : Env W) (P : DataStore → Type 0) (stable : PoolStable P) where
  delete_ips-Keeps : (eni : String) (ips : List String) → Keeps {W = W} P (delete_ips eni ips)
  unfolding delete_ips step
  delete_ips-Keeps eni [] = pure-Keeps P _
  delete_ips-Keeps eni (ip ∷ ips) =
      let rest = delete_ips-Keeps eni ips in
      bind-Keeps P _ _ (on_store-Keeps P _ (λ ds p. stable ds (0, dels_ip eni ip) tt p))
        λ answer. bind-Keeps P _ _ rest λ kept. pure-Keeps P _

  unassign_ips_from-Keeps : (eni : String) → Keeps P (unassign_ips_from env eni)
  unfolding unassign_ips_from
  unassign_ips_from-Keeps eni = bind-Keeps P _ _ (gets-Keeps P _) (elim [
    | none ↦ pure-Keeps P _
    | some [] ↦ pure-Keeps P _
    | some (ip ∷ ips) ↦ bind-Keeps P _ _ (delete_ips-Keeps eni (ip ∷ ips)) λ deleted.
        bind-Keeps P _ _ (call-Keeps P _)
          λ _. bind-Keeps P _ _ (Setup.cooldown_add-Keeps env P stable deleted) λ _. pure-Keeps P _
  ])

  unassign_loop-Keeps : (pools : Dict String EniIpPool) → Keeps P (unassign_loop env pools)
  unfolding unassign_loop
  unassign_loop-Keeps [] = pure-Keeps P _
  unassign_loop-Keeps ((eni, pool) ∷ rest) =
      let later = unassign_loop-Keeps rest in
      bind-Keeps P _ _ (unassign_ips_from-Keeps eni)
        (elim [ true ↦ later | false ↦ pure-Keeps P _ ])

  try_unassign-Keeps : Keeps P (try_unassign_ips_from_all env)
  unfolding try_unassign_ips_from_all
  try_unassign-Keeps =
      bind-Keeps P _ _ (gets-Keeps P _) λ t.
        if-Keeps P _ _ _ (bind-Keeps P _ _ (gets-Keeps P _) unassign_loop-Keeps) (pure-Keeps P _)

  decrease-Keeps : (interval : ℕ) → Keeps P (decrease_ip_pool env interval)
  unfolding decrease_ip_pool
  decrease-Keeps interval = bind-Keeps P _ _ (call-Keeps P _) λ now.
      bind-Keeps P _ _ (gets-Keeps P _) λ last.
        if-Keeps P _ _ _ (pure-Keeps P _)
          (bind-Keeps P _ _ try_unassign-Keeps λ _. modify-Keeps P _ (λ c p. p))

  try_free_eni-Keeps : Keeps P (try_free_eni env)
  unfolding try_free_eni step
  try_free_eni-Keeps = bind-Keeps P _ _ (call-Keeps P _) λ now.
      bind-Keeps P _ _ (gets-Keeps P _) λ target.
        bind-Keeps P _ _ (on_store-Keeps P _ (λ ds p. stable ds (now, removes_unused target) tt p))
          (elim [
            | err _ ↦ pure-Keeps P _
            | ok eni ↦
                if-Keeps P _ _ _ (pure-Keeps P _)
                  (bind-Keeps P _ _ (call-Keeps P _) λ _. pure-Keeps P _)
          ])

  update_last-Keeps : Keeps P (update_last_node_ip_pool_action env)
  unfolding update_last_node_ip_pool_action
  update_last-Keeps = bind-Keeps P _ _ (call-Keeps P _) λ now. modify-Keeps P _ (λ c p. p)

  adopt_eni-Keeps : (eni : String) → Keeps P (adopt_eni env eni)
  unfolding adopt_eni
  adopt_eni-Keeps eni = bind-Keeps P _ _ (gets-Keeps P _) λ c.
      bind-Keeps P _ _ (call-Keeps P _) λ _.
        bind-Keeps P _ _ (Setup.wait_eni_attached-Keeps env P stable eni) (elim [
          | none ↦ pure-Keeps P _
          | some m ↦ bind-Keeps P _ _ (Setup.setup_eni-Keeps env P stable eni m) λ _. pure-Keeps P _
        ])

  pod_eni_config-Keeps : Keeps P (pod_eni_config env)
  unfolding pod_eni_config
  pod_eni_config-Keeps =
      bind-Keeps P _ _ (gets-Keeps P _) (elim [ true ↦ call-Keeps P _ | false ↦ pure-Keeps P _ ])

  try_allocate_eni-Keeps : Keeps P (try_allocate_eni env)
  unfolding try_allocate_eni
  try_allocate_eni-Keeps = bind-Keeps P _ _ pod_eni_config-Keeps (elim [
    | none ↦ pure-Keeps P _
    | some cfg ↦ bind-Keeps P _ _ (gets-Keeps P _) λ custom.
        bind-Keeps P _ _ (call-Keeps P _)
          (elim [ none ↦ pure-Keeps P _ | some eni ↦ adopt_eni-Keeps eni ])
  ])

  alloc_all_or_one-Keeps : (eni : String) (missing : ℤ) → Keeps P (alloc_all_or_one env eni missing)
  unfolding alloc_all_or_one
  alloc_all_or_one-Keeps eni missing =
      bind-Keeps P _ _ (call-Keeps P _) (elim [ true ↦ pure-Keeps P _ | false ↦ call-Keeps P _ ])

  fill_eni-Keeps : (eni : EniIpPool) → Keeps P (fill_eni env eni)
  unfolding fill_eni
  fill_eni-Keeps eni = bind-Keeps P _ _ (gets-Keeps P _) λ limit.
      bind-Keeps P _ _ (alloc_all_or_one-Keeps eni.id _) (elim [
        | false ↦ pure-Keeps P _
        | true ↦ bind-Keeps P _ _ (Setup.get_eni_addresses-Keeps env P stable eni.id) (elim [
          | none ↦ pure-Keeps P _
          | some (addrs, ip) ↦
              bind-Keeps P _ _ (Setup.add_eni_addresses-Keeps env P stable addrs eni.id)
                λ _. pure-Keeps P _
        ])
      ])

  fill_found-Keeps :
      (c : IpamContext W) (found : Option EniIpPool)
      → Keeps {W = W} P (elim found [
        | none ↦ pure false
        | some eni ↦
            if ltb_ℤ (pos (length eni.ipv4_addresses)) c.max_ips_per_eni
            then fill_eni env eni
            else pure false
      ])
  fill_found-Keeps c none = pure-Keeps P _
  fill_found-Keeps c (some eni) = if-Keeps P _ _ _ (fill_eni-Keeps eni) (pure-Keeps P _)

  try_assign_ips-Keeps : Keeps P (try_assign_ips env)
  unfolding try_assign_ips
  try_assign_ips-Keeps = bind-Keeps P _ _ (gets-Keeps P _) λ c.
      if-Keeps P _ _ _ (pure-Keeps P _) (
        fill_found-Keeps c
          (get_eni_needs_ip c.data_store c.max_ips_per_eni c.use_custom_networking))

  increase-Keeps : Keeps P (increase_ip_pool env)
  unfolding increase_ip_pool
  increase-Keeps = bind-Keeps P _ _ (gets-Keeps P _) λ t. if-Keeps P _ _ _ (pure-Keeps P _) (
      bind-Keeps P _ _ try_assign_ips-Keeps λ increased. if-Keeps P _ _ _ update_last-Keeps (
        bind-Keeps P _ _ (gets-Keeps P _) λ c.
          if-Keeps P _ _ _ (bind-Keeps P _ _ try_allocate_eni-Keeps λ _. update_last-Keeps)
            (pure-Keeps P _)))

  pub update_ip_pool-Keeps : Keeps P (update_ip_pool_if_required env)
  unfolding update_ip_pool_if_required
  update_ip_pool-Keeps = bind-Keeps P _ _ (gets-Keeps P _) λ low.
      bind-Keeps P _ _ (gets-Keeps P _) λ high.
        bind-Keeps P _ _
          (if-Keeps P low (increase_ip_pool env) _ increase-Keeps (
            if-Keeps P high (decrease_ip_pool env decrease_ip_pool_interval) (pure tt)
              (decrease-Keeps _) (pure-Keeps P tt)))
          λ _.
            bind-Keeps P _ _ (gets-Keeps P _)
              λ extra. if-Keeps P _ _ _ try_free_eni-Keeps (pure-Keeps P _)
