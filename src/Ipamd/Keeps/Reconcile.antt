-- ===== src/Ipamd/Keeps/Reconcile.antt =====
-- ipamd/ipamd.go: the reconciliation, and the loop of the daemon.
use amazon_vpc_cni_k8s.Prelude.{
  inl, inr, Bool-cases, ℕ, zero, suc, if◌then◌else◌, true, false, String, none, some, List, [], ◌∷◌,
  Dict,
}
use amazon_vpc_cni_k8s.Datastore.{DataStore, AddressInfo, EniIpPool, ok, err, same}
use amazon_vpc_cni_k8s.Datastore.History.{step, dels_ip, removes_eni}
use amazon_vpc_cni_k8s.Ipamd.{
  Env, EniMetadata, pure, verify_with_ec2, is_cooling_down, mark_ips, sweep_ips,
  eni_ip_pool_reconcile, mark_enis, sweep_enis, node_ip_pool_reconcile, manager_rounds,
}
use amazon_vpc_cni_k8s.Ipamd.Keeps.{
  PoolStable, Keeps, pure-Keeps, gets-Keeps, call-Keeps, pause-Keeps, modify-Keeps, bind-Keeps,
  on_store-Keeps, if-Keeps,
}
use amazon_vpc_cni_k8s.Ipamd.Keeps.Setup
use amazon_vpc_cni_k8s.Ipamd.Keeps.Pool

module _ {W : Type 0} (env : Env W) (P : DataStore → Type 0) (stable : PoolStable P) where
  verify-Keeps : (eni ip : String) → Keeps P (verify_with_ec2 env eni ip)
  unfolding verify_with_ec2
  verify-Keeps eni ip = bind-Keeps P _ _ (Setup.get_eni_addresses-Keeps env P stable eni) (elim [
    | none ↦ pure-Keeps P _
    | some (addrs, primary) ↦
        if-Keeps P _ _ _
          (bind-Keeps P _ _ (Setup.cooldown_remove-Keeps env P stable ip) λ _. pure-Keeps P _)
          (pure-Keeps P _)
  ])

  is_cooling_down-Keeps : (eni ip : String) → Keeps P (is_cooling_down env eni ip)
  unfolding is_cooling_down
  is_cooling_down-Keeps eni ip = bind-Keeps P _ _ (Setup.recently_freed-Keeps env P stable ip) λ r.
      if-Keeps P r.0 (if r.1 then pure true else verify_with_ec2 env eni ip) (pure false)
        (if-Keeps P r.1 (pure true) _ (pure-Keeps P true) (verify-Keeps eni ip))
        (pure-Keeps P false)

  mark_from-Keeps :
      (ips : List String) (pool : Dict String AddressInfo) (eni : String)
      → Keeps P (mark_ips env pool ips eni)
  unfolding mark_ips
  mark_from-Keeps [] pool eni = pure-Keeps P _
  mark_from-Keeps (ip ∷ ips) pool eni =
      let later = mark_from-Keeps ips in
      bind-Keeps P _ _ (gets-Keeps P _) λ primary. elim (Bool-cases (same ip primary)) [
        | inl yes_primary ↦ rw yes_primary (later pool eni)
        | inr other ↦ rw other (
            bind-Keeps P _ _ (is_cooling_down-Keeps eni ip) (elim [
              | true ↦ later pool eni
              | false ↦
                  bind-Keeps P _ _ (Setup.add_ip-Keeps env P stable eni ip) λ answer. later _ eni
            ]))
      ]

  sweep_ips-Keeps :
      (pool : Dict String AddressInfo) (eni : String) → Keeps P (sweep_ips env pool eni)
  unfolding sweep_ips step
  sweep_ips-Keeps [] eni = pure-Keeps P _
  sweep_ips-Keeps ((ip, addr) ∷ rest) eni =
      let later = sweep_ips-Keeps rest eni in
      bind-Keeps P _ _ (on_store-Keeps P _ (λ ds p. stable ds (0, dels_ip eni ip) tt p)) λ _. later

  eni_reconcile-Keeps :
      (pool : Dict String AddressInfo) (m : EniMetadata) (eni : String)
      → Keeps P (eni_ip_pool_reconcile env pool m eni)
  unfolding eni_ip_pool_reconcile
  eni_reconcile-Keeps pool m eni =
      bind-Keeps P _ _ (mark_from-Keeps m.local_ipv4s pool eni) λ left. sweep_ips-Keeps left eni

  mark_enis-Keeps :
      (attached : List EniMetadata) (cur : Dict String EniIpPool)
      → Keeps P (mark_enis env cur attached)
  unfolding mark_enis
  mark_enis-Keeps [] cur = pure-Keeps P _
  mark_enis-Keeps (m ∷ rest) cur =
      let later = mark_enis-Keeps rest in
      bind-Keeps P _ _ (gets-Keeps P _) (elim [
        | ok pool ↦ bind-Keeps P _ _ (eni_reconcile-Keeps pool m m.eni_id) λ _. later _
        | err e ↦ bind-Keeps P _ _ (Setup.setup_eni-Keeps env P stable m.eni_id m) λ _. later cur
      ])

  sweep_enis-Keeps : (pools : Dict String EniIpPool) → Keeps P (sweep_enis env pools)
  unfolding sweep_enis step
  sweep_enis-Keeps [] = pure-Keeps P _
  sweep_enis-Keeps ((eni, pool) ∷ rest) =
      let later = sweep_enis-Keeps rest in
      bind-Keeps P _ _ (on_store-Keeps P _ (λ ds p. stable ds (0, removes_eni eni) tt p)) λ _. later

  reconcile-Keeps : (interval : ℕ) → Keeps P (node_ip_pool_reconcile env interval)
  unfolding node_ip_pool_reconcile
  reconcile-Keeps interval = bind-Keeps P _ _ (call-Keeps P _) λ now.
      bind-Keeps P _ _ (gets-Keeps P _) λ last. if-Keeps P _ _ _ (pure-Keeps P _) (
        bind-Keeps P _ _ (call-Keeps P _) (elim [
          | none ↦ pure-Keeps P _
          | some attached ↦ bind-Keeps P _ _ (gets-Keeps P _) λ cur.
              bind-Keeps P _ _ (mark_enis-Keeps attached cur)
                λ left. bind-Keeps P _ _ (sweep_enis-Keeps left) λ _. modify-Keeps P _ (λ c p. p)
        ]))

  -- A property that every call of the store keeps holds after any number of rounds of the loop of
  -- `StartNodeIPPoolManager`, whatever EC2, its metadata service and the clock answer.
  pub manager_rounds-Keeps : (n : ℕ) → Keeps P (manager_rounds env n)
  unfolding manager_rounds
  manager_rounds-Keeps zero = pure-Keeps P _
  manager_rounds-Keeps (suc n) =
      let later = manager_rounds-Keeps n in
      bind-Keeps P _ _ (pause-Keeps P env _) λ _.
        bind-Keeps P _ _ (Pool.update_ip_pool-Keeps env P stable) λ _.
          bind-Keeps P _ _ (pause-Keeps P env _)
            λ _. bind-Keeps P _ _ (reconcile-Keeps _) λ _. later
