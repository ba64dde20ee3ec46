-- ===== src/Datastore/Ownership/Serves.antt =====
-- ENIs and addresses that enter and leave the store of ipamd/datastore/data_store.go, against a fixed
-- map of the pods and fixed numbers of holders.
use amazon_vpc_cni_k8s.Prelude.{
  ℕ, ◌∙◌, ◌≤◌, pos, ℤ, String, string_discrete, ◌≡◌, refl, inl, inr, Bool, some, [], ◌∷◌, Instant,
  Dict, insert, remove, lookup, total_of, arith, Option-cases, Bool-cases, Each-lookup,
  total_of-insert_new, total_of-insert_old, total_of-remove, eqb_ℤ, eqb_ℤ→eq,
}
use amazon_vpc_cni_k8s.Datastore.{
  PodKey, PodIpInfo, AddressInfo, EniIpPool, DataStore, new_pool, new_address, add_eni,
  add_ipv4_address_from_store, del_ipv4_address_from_store, remove_eni_from_data_store,
  remove_unused_eni_from_store, get_deletable_eni,
}
use amazon_vpc_cni_k8s.Datastore.Invariant.{PoolIsValid, IsValid, used_count, in_use}
use amazon_vpc_cni_k8s.Datastore.Invariant.Addresses.{
  add_eni-IsValid, add_ipv4_address_from_store-IsValid, del_ipv4_address_from_store-IsValid,
}
use amazon_vpc_cni_k8s.Datastore.Invariant.Enis.{
  remove_unused_eni_from_store-IsValid, remove_eni_from_data_store-IsValid, get_deletable_eni_lem,
}
use amazon_vpc_cni_k8s.Datastore.Ownership.{holds, held_on, held}

-- The store is valid, its map of the pods is `pods`, and each address is marked as assigned on as
-- many ENIs as `n` says.
pub record Serves (pods : Dict PodKey PodIpInfo) (n : String → ℕ) (ds : DataStore) : Type 0 where
  pub valid : IsValid ds
  pub kept : ds.pods_ip ≡ pods
  pub held_as : (ip : String) → held ip ds.eni_ip_pools ≡ n ip

held_on-le : (ip : String) (m : Dict String AddressInfo) → total_of (holds ip) m ≤ total_of in_use m
held_on-le ip [] = omega arith
held_on-le ip ((j, a) ∷ m) = ground (arith, held_on-le ip m)

module _ (pods : Dict PodKey PodIpInfo) (n : String → ℕ) where
  -- An ENI is written back with as many holders of each address.
  rewritten :
      (ds ds' : DataStore) (id : String) (e e' : EniIpPool)
      → Serves pods n ds
      → IsValid ds'
      → lookup string_discrete id ds.eni_ip_pools ≡ some e
      → ds'.eni_ip_pools ≡ insert string_discrete id e' ds.eni_ip_pools
      → ds'.pods_ip ≡ ds.pods_ip
      → ((ip : String) → held_on ip e' ≡ held_on ip e)
      → Serves pods n ds'
  rewritten ds ds' id e e' b v found q kept same_holders = record {
    valid = v;
    kept = kept ∙ b.kept;
    held_as = λ ip. rw q (
        omega (
          arith,
          b.held_as ip,
          same_holders ip,
          total_of-insert_old string_discrete (held_on ip) id e' e ds.eni_ip_pools found,
        ));
  }

  -- An ENI without pods is taken out.
  taken_out :
      (ds ds' : DataStore) (id : String) (e : EniIpPool)
      → Serves pods n ds
      → IsValid ds'
      → lookup string_discrete id ds.eni_ip_pools ≡ some e
      → e.assigned_ipv4_addresses ≡ pos 0
      → ds'.eni_ip_pools ≡ remove string_discrete id ds.eni_ip_pools
      → ds'.pods_ip ≡ ds.pods_ip
      → Serves pods n ds'
  taken_out ds ds' id e b v found unused q kept = record {
    valid = v;
    kept = kept ∙ b.kept;
    held_as = λ ip. rw q (
        omega (
          arith,
          b.held_as ip,
          held_on-le ip e.ipv4_addresses,
          none_used,
          total_of-remove string_discrete (held_on ip) id e ds.eni_ip_pools found,
        ));
  }
    where
      none_used : used_count e ≡ 0
      none_used = ground (
        arith,
        (Each-lookup string_discrete PoolIsValid id e ds.eni_ip_pools b.valid.pools found).counted,
        unused,
      )

  pub add_eni-Serves :
      (ds : DataStore) (id : String) (dev : ℤ) (primary : Bool) (now : Instant)
      → Serves pods n ds
      → Serves pods n (add_eni ds id dev primary now).0
  unfolding add_eni lookup
  add_eni-Serves ds id dev primary now b =
      elim (Option-cases (lookup string_discrete id ds.eni_ip_pools)) [
        | inr (e, dup) ↦ rw (dup, add_eni) b
        | inl new ↦
            let v = add_eni-IsValid ds id dev primary now b.valid in
            rw (new, add_eni)
              (record {
                valid = rw (new, add_eni) at v;
                kept = b.kept;
                held_as = λ ip. omega (
                  arith,
                  b.held_as ip,
                  total_of-insert_new string_discrete (held_on ip) id (new_pool id dev primary now)
                      ds.eni_ip_pools new,
                );
              })
      ]

  pub add_ip-Serves :
      (ds : DataStore) (id ip : String)
      → Serves pods n ds
      → Serves pods n (add_ipv4_address_from_store ds id ip).0
  unfolding add_ipv4_address_from_store
  add_ip-Serves ds id ip b = elim (Option-cases (lookup string_discrete id ds.eni_ip_pools)) [
    | inl missing ↦ rw (missing, add_ipv4_address_from_store) b
    | inr (e, found) ↦ elim (Option-cases (lookup string_discrete ip e.ipv4_addresses)) [
      | inr (a, dup) ↦ rw (found, dup, add_ipv4_address_from_store) b
      | inl new ↦
          let v = add_ipv4_address_from_store-IsValid ds id ip b.valid in
          rw (found, new, add_ipv4_address_from_store)
            (rewritten ds _ id e _ b (rw (found, new, add_ipv4_address_from_store) at v) found refl
              refl
              (λ q. omega (
                arith,
                total_of-insert_new string_discrete (holds q) ip (new_address ip) e.ipv4_addresses
                    new,
              )))
    ]
  ]

  pub del_ip-Serves :
      (ds : DataStore) (id ip : String)
      → Serves pods n ds
      → Serves pods n (del_ipv4_address_from_store ds id ip).0
  unfolding del_ipv4_address_from_store
  del_ip-Serves ds id ip b = elim (Option-cases (lookup string_discrete id ds.eni_ip_pools)) [
    | inl missing ↦ rw (missing, del_ipv4_address_from_store) b
    | inr (e, found) ↦ elim (Option-cases (lookup string_discrete ip e.ipv4_addresses)) [
      | inl gone ↦ rw (found, gone, del_ipv4_address_from_store) b
      | inr (a, has) ↦ elim (Bool-cases a.assigned) [
        | inl used ↦ rw (found, has, used, del_ipv4_address_from_store) b
        | inr free ↦
            let v = del_ipv4_address_from_store-IsValid ds id ip b.valid in
            rw (found, has, free, del_ipv4_address_from_store)
              (rewritten ds _ id e _ b (rw (found, has, free, del_ipv4_address_from_store) at v)
                found refl refl
                (λ q.
                  ground
                    (arith, total_of-remove string_discrete (holds q) ip a e.ipv4_addresses has)))
      ]
    ]
  ]

  pub remove_unused-Serves :
      (ds : DataStore) (target : ℤ) (now : Instant)
      → Serves pods n ds
      → Serves pods n (remove_unused_eni_from_store ds target now).0
  unfolding remove_unused_eni_from_store
  remove_unused-Serves ds target now b = elim (Option-cases (get_deletable_eni ds target now)) [
    | inl kept ↦ rw (kept, remove_unused_eni_from_store) b
    | inr (e, chosen) ↦
        let (fit, found) = get_deletable_eni_lem ds target now e b.valid chosen in
        let v = remove_unused_eni_from_store-IsValid ds target now b.valid in
        rw (chosen, found, remove_unused_eni_from_store)
          (taken_out ds _ e.id e b (rw (chosen, found, remove_unused_eni_from_store) at v) found
            fit.unused refl refl)
  ]

  pub remove_eni-Serves :
      (ds : DataStore) (id : String)
      → Serves pods n ds
      → Serves pods n (remove_eni_from_data_store ds id).0
  unfolding remove_eni_from_data_store
  remove_eni-Serves ds id b = elim (Option-cases (lookup string_discrete id ds.eni_ip_pools)) [
    | inl unknown ↦ rw (unknown, remove_eni_from_data_store) b
    | inr (e, found) ↦ elim (Bool-cases (eqb_ℤ e.assigned_ipv4_addresses (pos 0))) [
      | inr used ↦ rw (found, used, remove_eni_from_data_store) b
      | inl unused ↦
          let v = remove_eni_from_data_store-IsValid ds id b.valid in
          rw (found, unused, remove_eni_from_data_store)
            (taken_out ds _ id e b (rw (found, unused, remove_eni_from_data_store) at v) found
              (eqb_ℤ→eq _ _ unused) refl refl)
    ]
  ]
