-- ===== src/Ipamd/Reconcile.antt =====
-- ipamd/ipamd.go: bringing the store in line with what is attached to the instance.
use amazon_vpc_cni_k8s.Prelude.{
  ℕ, ◌*◌, pos, leb_ℤ, String, string_discrete, Bool, true, false, none, some, List, [], ◌∷◌, Dict,
  remove, lookup, if◌then◌else◌, second, time_sub,
}
use amazon_vpc_cni_k8s.Datastore.{
  AddressInfo, EniIpPool, same, ok, err, duplicate_ip, get_eni_infos, get_eni_ip_pools,
  add_ipv4_address_from_store, del_ipv4_address_from_store, remove_eni_from_data_store,
}
use amazon_vpc_cni_k8s.Ipamd.Context.{
  Env, M, EniMetadata, Ec2Address, ◌>>=◌, ◌>>◌, pure, gets, call, on_store, modify,
}
use amazon_vpc_cni_k8s.Ipamd.Cooldown.{recently_freed, cooldown_remove}
use amazon_vpc_cni_k8s.Ipamd.Setup.{get_eni_addresses, setup_eni}

abbrev pub node_ip_pool_reconcile_interval : ℕ
node_ip_pool_reconcile_interval = 60 * second

unfoldable pub has_address : String → List Ec2Address → Bool
has_address ip [] = false
has_address ip (a ∷ rest) = if same ip a.private_ip_address then true else has_address ip rest

-- A missing entry of a Go map reads as the empty string.
unfoldable pub primary_ip_of : String → Dict String String → String
primary_ip_of eni m = elim (lookup string_discrete eni m) [ none ↦ "" | some ip ↦ ip ]

module _ {W : Type 0} (env : Env W) where
  -- Whether an address is to be left out for now: it was handed back lately, or EC2 does not say
  -- that it belongs to the ENI.
  unfoldable pub verify_with_ec2 : String → String → M W Bool
  unfolding has_address
  verify_with_ec2 eni ip = do
    answer ← get_eni_addresses env eni
    elim answer [
      | none ↦ pure true
      | some (addrs, _) ↦
          if has_address ip addrs then (cooldown_remove env ip >> pure false) else pure true
    ]

  unfoldable pub is_cooling_down : String → String → M W Bool
  unfolding verify_with_ec2
  is_cooling_down eni ip = recently_freed env ip >>= λ r.
      if r.0 then (if r.1 then pure true else verify_with_ec2 eni ip) else pure false

  -- The mark phase, over the addresses of the metadata; it answers the pool's unmarked entries.
  unfoldable pub mark_ips :
      Dict String AddressInfo → List String → String → M W (Dict String AddressInfo)
  unfolding primary_ip_of is_cooling_down
  mark_ips ip_pool [] eni = pure ip_pool
  mark_ips ip_pool (ip ∷ ips) eni = gets (λ c. primary_ip_of eni c.primary_ip) >>= λ primary.
      elim (same ip primary) [
        | true ↦ mark_ips ip_pool ips eni
        | false ↦ is_cooling_down eni ip >>= λ skip. elim skip [
          | true ↦ mark_ips ip_pool ips eni
          | false ↦ on_store (λ ds. add_ipv4_address_from_store ds eni ip) >>= λ answer.
              mark_ips
                (elim answer [ err duplicate_ip ↦ remove string_discrete ip ip_pool | _ ↦ ip_pool ])
                ips eni
        ]
      ]

  -- The sweep phase.
  unfoldable pub sweep_ips : Dict String AddressInfo → String → M W (Unit {0})
  sweep_ips [] eni = pure tt
  sweep_ips ((ip, addr) ∷ rest) eni =
      on_store (λ ds. del_ipv4_address_from_store ds eni ip) >>= λ _. sweep_ips rest eni

  unfoldable pub eni_ip_pool_reconcile :
      Dict String AddressInfo → EniMetadata → String → M W (Unit {0})
  unfolding mark_ips sweep_ips
  eni_ip_pool_reconcile ip_pool attached eni =
      mark_ips ip_pool attached.local_ipv4s eni >>= λ left. sweep_ips left eni

  unfoldable pub mark_enis : Dict String EniIpPool → List EniMetadata → M W (Dict String EniIpPool)
  unfolding eni_ip_pool_reconcile
  mark_enis cur_enis [] = pure cur_enis
  mark_enis cur_enis (attached ∷ rest) =
      gets (λ c. get_eni_ip_pools c.data_store attached.eni_id) >>= λ answer. elim answer [
        | ok ip_pool ↦
            eni_ip_pool_reconcile ip_pool attached attached.eni_id
            >> mark_enis (remove string_discrete attached.eni_id cur_enis) rest
        | err _ ↦ setup_eni env attached.eni_id attached >>= λ _. mark_enis cur_enis rest
      ]

  unfoldable pub sweep_enis : Dict String EniIpPool → M W (Unit {0})
  sweep_enis [] = pure tt
  sweep_enis ((eni, pool) ∷ rest) =
      on_store (λ ds. remove_eni_from_data_store ds eni) >>= λ _. sweep_enis rest

  unfoldable pub node_ip_pool_reconcile : ℕ → M W (Unit {0})
  unfolding mark_enis sweep_enis
  node_ip_pool_reconcile interval = do
    now ← call env.now
    last ← gets (λ c. c.last_node_ip_pool_action)
    if leb_ℤ (time_sub now last) (pos interval)
        then pure tt
        else (call env.get_attached_enis >>= λ answer. elim answer [
          | none ↦ pure tt
          | some attached ↦ do
            cur_enis ← gets (λ c. (get_eni_infos c.data_store).eni_ip_pools)
            left ← mark_enis cur_enis attached
            sweep_enis left
            modify λ c. record c { last_node_ip_pool_action = now }
        ])
