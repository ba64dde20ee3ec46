-- ===== src/Ipamd/Keeps/Setup.antt =====
-- ipamd/ipamd.go: setting up ENIs, and the cooldown cache.
use amazon_vpc_cni_k8s.Prelude.{
  inl, inr, Bool-cases, ℕ, zero, suc, String, none, some, List, [], ◌∷◌,
}
use amazon_vpc_cni_k8s.Datastore.{DataStore, add_ipv4_address_from_store, same}
use amazon_vpc_cni_k8s.Datastore.History.{step, adds_eni, adds_ip}
use amazon_vpc_cni_k8s.Ipamd.{
  Env, EniMetadata, Ec2Address, on_store, get_eni_addresses, eni_attach_time,
  add_eni_addresses_from, add_eni_addresses_to_data_store, setup_network, store_addresses,
  setup_eni, attached_now, wait_rounds, wait_eni_attached, cooldown_add, cooldown_remove,
  recently_freed,
}
use amazon_vpc_cni_k8s.Ipamd.Keeps.{
  PoolStable, Keeps, pure-Keeps, gets-Keeps, call-Keeps, pause-Keeps, modify-Keeps, bind-Keeps,
  on_store-Keeps, if-Keeps,
}

module _ {W : Type 0} (env : Env W) (P : DataStore → Type 0) (stable : PoolStable P) where
  pub add_ip-Keeps :
      (eni ip : String) → Keeps {W = W} P (on_store (λ ds. add_ipv4_address_from_store ds eni ip))
  unfolding step
  add_ip-Keeps eni ip = on_store-Keeps P _ (λ ds p. stable ds (0, adds_ip eni ip) tt p)

  pub get_eni_addresses-Keeps : (eni : String) → Keeps P (get_eni_addresses env eni)
  unfolding get_eni_addresses
  get_eni_addresses-Keeps eni = bind-Keeps P _ _ (call-Keeps P _) (λ a. pure-Keeps P _)

  add_from-Keeps :
      (ip : String) (addrs : List Ec2Address) (eni : String)
      → Keeps P (add_eni_addresses_from env ip addrs eni)
  unfolding add_eni_addresses_from
  add_from-Keeps ip [] eni = pure-Keeps P ip
  add_from-Keeps ip (a ∷ rest) eni = elim (Bool-cases a.primary) [
    | inl is_primary ↦ rw is_primary (add_from-Keeps a.private_ip_address rest eni)
    | inr secondary ↦
        rw secondary (
          bind-Keeps P _ _ (add_ip-Keeps eni a.private_ip_address)
            (λ _. add_from-Keeps ip rest eni))
  ]

  pub add_eni_addresses-Keeps :
      (addrs : List Ec2Address) (eni : String)
      → Keeps P (add_eni_addresses_to_data_store env addrs eni)
  unfolding add_eni_addresses_to_data_store
  add_eni_addresses-Keeps addrs eni = add_from-Keeps "" addrs eni

  setup_network-Keeps :
      (eni : String) (m : EniMetadata) (ip : String) → Keeps P (setup_network env eni m ip)
  unfolding setup_network
  setup_network-Keeps eni m ip = if-Keeps P _ _ _ (call-Keeps P _) (pure-Keeps P _)

  store_addresses-Keeps :
      (eni : String) (addrs : List Ec2Address) → Keeps P (store_addresses env eni addrs)
  unfolding store_addresses
  store_addresses-Keeps eni addrs =
      bind-Keeps P _ _ (add_eni_addresses-Keeps addrs eni)
        λ primary. bind-Keeps P _ _ (modify-Keeps P _ (λ c p. p)) λ _. pure-Keeps P none

  pub setup_eni-Keeps : (eni : String) (m : EniMetadata) → Keeps P (setup_eni env eni m)
  unfolding setup_eni step
  setup_eni-Keeps eni m = bind-Keeps P _ _ (get_eni_addresses-Keeps eni) (elim [
    | none ↦ pure-Keeps P _
    | some (addrs, ip) ↦ bind-Keeps P _ _ (call-Keeps P env.now) λ now.
        bind-Keeps P _ _
          (on_store-Keeps P _ λ ds p.
            stable ds (now, adds_eni eni m.device_number (same eni env.get_primary_eni)) tt p)
          λ _.
            bind-Keeps P _ _ (setup_network-Keeps eni m ip)
              (elim [ some e ↦ pure-Keeps P _ | none ↦ store_addresses-Keeps eni addrs ])
  ])

  attached_now-Keeps : (eni : String) → Keeps P (attached_now env eni)
  unfolding attached_now
  attached_now-Keeps eni = bind-Keeps P _ _ (call-Keeps P _) (λ a. pure-Keeps P _)

  wait_rounds-Keeps : (left : ℕ) (eni : String) → Keeps P (wait_rounds env left eni)
  unfolding wait_rounds
  wait_rounds-Keeps zero eni = attached_now-Keeps eni
  wait_rounds-Keeps (suc left) eni =
      let again = wait_rounds-Keeps left eni in
      bind-Keeps P _ _ (attached_now-Keeps eni) (elim [
        | some m ↦ pure-Keeps P _
        | none ↦ bind-Keeps P _ _ (pause-Keeps P env eni_attach_time) λ _. again
      ])

  pub wait_eni_attached-Keeps : (eni : String) → Keeps P (wait_eni_attached env eni)
  unfolding wait_eni_attached
  wait_eni_attached-Keeps eni = wait_rounds-Keeps 5 eni

  pub cooldown_add-Keeps : (ips : List String) → Keeps P (cooldown_add env ips)
  unfolding cooldown_add
  cooldown_add-Keeps ips = bind-Keeps P _ _ (call-Keeps P _) λ now. modify-Keeps P _ (λ c p. p)

  pub cooldown_remove-Keeps : (ip : String) → Keeps P (cooldown_remove env ip)
  unfolding cooldown_remove
  cooldown_remove-Keeps ip = modify-Keeps P _ (λ c p. p)

  pub recently_freed-Keeps : (ip : String) → Keeps P (recently_freed env ip)
  unfolding recently_freed
  recently_freed-Keeps ip = bind-Keeps P _ _ (call-Keeps P _) λ now. gets-Keeps P _
