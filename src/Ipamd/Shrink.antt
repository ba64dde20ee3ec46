-- ===== src/Ipamd/Shrink.antt =====
-- ipamd/ipamd.go: handing addresses and ENIs back to EC2.
use amazon_vpc_cni_k8s.Prelude.{
  ℕ, pos, leb_ℤ, ltb_ℤ, String, Bool, true, false, ◌&&◌, Option, none, some, List, [], ◌∷◌, Dict,
  lookup, string_discrete, length, take, if◌then◌else◌, time_sub, pos_part,
}
use amazon_vpc_cni_k8s.Datastore.{
  AddressInfo, EniIpPool, PodIpInfo, same, ok, err, get_pod_infos, get_eni_infos,
  del_ipv4_address_from_store, remove_unused_eni_from_store,
}
use amazon_vpc_cni_k8s.Ipamd.Context.{
  Env, M, IpamContext, ◌>>=◌, ◌>>◌, pure, gets, call, on_store, modify,
}
use amazon_vpc_cni_k8s.Ipamd.Targets.{min, ip_target_state}
use amazon_vpc_cni_k8s.Ipamd.Cooldown.{cooldown_add}

unfoldable pub is_member : String → List String → Bool
is_member x [] = false
is_member x (y ∷ ys) = if same x y then true else is_member x ys

-- `set.Add`
unfoldable pub set_add : String → List String → List String
unfolding is_member
set_add x s = if is_member x s then s else x ∷ s

-- `s.Difference(t)`
unfoldable pub difference : List String → List String → List String
difference [] t = []
difference (x ∷ s) t = if is_member x t then difference s t else x ∷ difference s t

unfoldable pub used_ips : Dict String PodIpInfo → List String
unfolding set_add
used_ips [] = []
used_ips ((key, pod) ∷ rest) = set_add pod.ip (used_ips rest)

unfoldable pub allocated_ips : Dict String AddressInfo → List String
unfolding set_add
allocated_ips [] = []
allocated_ips ((key, ip) ∷ rest) = set_add ip.address (allocated_ips rest)

module _ {W : Type 0} where
  -- `none` is the error of an ENI that the store does not have.
  unfoldable pub freeable_ips : IpamContext W → String → Option (List String)
  freeable_ips c eni = elim (lookup string_discrete eni (get_eni_infos c.data_store).eni_ip_pools) [
    | none ↦ none
    | some pool ↦
        let available_ips =
          difference (allocated_ips pool.ipv4_addresses) (used_ips (get_pod_infos c.data_store)) in
        let num_freeable = min (ip_target_state c).over (pos (length available_ips)) in
        some (take (pos_part num_freeable) available_ips)
  ]

  -- The loop over `toDelete`: the addresses that the store let go.
  unfoldable pub delete_ips : String → List String → M W (List String)
  delete_ips eni [] = pure []
  delete_ips eni (ip ∷ ips) = on_store (λ ds. del_ipv4_address_from_store ds eni ip) >>= λ answer.
      delete_ips eni ips >>= λ rest. pure (elim answer [ ok _ ↦ ip ∷ rest | err _ ↦ rest ])

module _ {W : Type 0} (env : Env W) where
  -- One round of the loop of `tryUnassignIPsFromAll`; `false` ends the loop.
  unfoldable pub unassign_ips_from : String → M W Bool
  unassign_ips_from eni = gets (λ c. freeable_ips c eni) >>= λ answer. elim answer [
    | none ↦ pure false
    | some [] ↦ pure true
    | some (ip ∷ ips) ↦ do
      deleted ← delete_ips eni (ip ∷ ips)
      _ ← call (env.dealloc_ip_addresses eni deleted)
      cooldown_add env deleted
      pure true
  ]

  unfoldable pub unassign_loop : Dict String EniIpPool → M W (Unit {0})
  unassign_loop [] = pure tt
  unassign_loop ((eni, pool) ∷ rest) =
      unassign_ips_from eni >>= λ more. elim more [ true ↦ unassign_loop rest | false ↦ pure tt ]

  unfoldable pub try_unassign_ips_from_all : M W (Unit {0})
  try_unassign_ips_from_all = gets ip_target_state >>= λ t.
      if t.enabled && ltb_ℤ (pos 0) t.over
      then (gets (λ c. (get_eni_infos c.data_store).eni_ip_pools) >>= unassign_loop)
      else pure tt

  unfoldable pub decrease_ip_pool : ℕ → M W (Unit {0})
  decrease_ip_pool interval = do
    now ← call env.now
    last ← gets (λ c. c.last_decrease_ip_pool)
    if leb_ℤ (time_sub now last) (pos interval)
        then pure tt
        else (try_unassign_ips_from_all
            >> modify λ c. record c { last_decrease_ip_pool = now; last_node_ip_pool_action = now })

  -- The answer of EC2 is only logged. `err` is the store's panic.
  unfoldable pub try_free_eni : M W (Unit {0})
  try_free_eni = do
    now ← call env.now
    target ← gets (λ c. c.warm_ip_target)
    answer ← on_store (λ ds. remove_unused_eni_from_store ds target now)
    elim answer [
      | err _ ↦ pure tt
      | ok eni ↦ if same eni "" then pure tt else (call (env.free_eni eni) >>= λ _. pure tt)
    ]
