-- ===== src/Datastore/Invariant/Assign.antt =====
-- `AssignPodIPv4Address` and `UnassignPodIPv4Address` of
-- ipamd/datastore/data_store.go, and the counts.
use amazon_vpc_cni_k8s.Prelude.{
  ◌+◌, ◌≤◌, pos, ◌+ℤ◌, ◌-ℤ◌, pos-+ℤ, pos--ℤ, String, string_discrete, ◌≡◌, refl, ap, ◌∙◌, inl, inr,
  true, false, some, Instant, insert, if◌then◌else◌, lookup, total_of, arith, Option-cases,
  insert-Distinct, remove-Distinct, Each-insert, Each-lookup, total_of-insert_old, total_of-lookup,
  length-insert_old,
}
use amazon_vpc_cni_k8s.Datastore.{
  AddressInfo, EniIpPool, DataStore, PodKey, K8sPodInfo, pod_key, pod_key_discrete, Slot, find_slot,
  find_assigned, increment_assigned_count, occupy, record_pod, take_slot,
  assign_pod_ipv4_address_unsafe, assign_pod_ipv4_address, release_slot, unassign_pod_ipv4_address,
}
use amazon_vpc_cni_k8s.Datastore.Invariant.{in_use, used_count, PoolIsValid, IsValid}
use amazon_vpc_cni_k8s.Datastore.Invariant.Addresses.{replace-IsValid}
use amazon_vpc_cni_k8s.Datastore.Invariant.Slots.{IsIn, find_slot_lem, find_assigned_lem}

pub address_kept :
    (k : String) (e : EniIpPool) (a : AddressInfo)
    → PoolIsValid k e
    → (j : String) → lookup string_discrete j e.ipv4_addresses ≡ some a
    → a.address ≡ j
address_kept k e a v j found =
    Each-lookup string_discrete (λ i b. b.address ≡ i) j a e.ipv4_addresses v.addressed found

increment_assigned_count-IsValid :
    (ds : DataStore) (slot : Slot)
    → IsValid ds
    → IsIn ds.eni_ip_pools slot
    → slot.addr.assigned ≡ false
    → IsValid (increment_assigned_count ds slot)
unfolding increment_assigned_count
increment_assigned_count-IsValid ds slot v at free =
    replace-IsValid ds _ slot.eni_key slot.eni _ v at.eni_found
      (record {
        keyed = e_valid.keyed;
        counted =
            ap (λ z. z +ℤ pos 1) e_valid.counted ∙ (pos-+ℤ _ _ ∙ ap pos (omega (arith, used)));
        distinct =
            insert-Distinct string_discrete slot.addr_key _ slot.eni.ipv4_addresses
              e_valid.distinct;
        addressed =
            Each-insert string_discrete (λ k a. a.address ≡ k) slot.addr_key _
              slot.eni.ipv4_addresses
              (address_kept slot.eni_key slot.eni slot.addr e_valid slot.addr_key at.addr_found)
              e_valid.addressed;
      })
      refl v.pods_distinct v.total_counted
      (omega (
        arith,
        length-insert_old string_discrete slot.addr_key taken slot.addr slot.eni.ipv4_addresses
            at.addr_found,
      ))
      (ap (λ z. z +ℤ pos 1) v.assigned_counted ∙ pos-+ℤ _ _) (omega (arith, used))
  where
    e_valid : PoolIsValid slot.eni_key slot.eni
    e_valid =
        Each-lookup string_discrete PoolIsValid slot.eni_key slot.eni ds.eni_ip_pools v.pools
          at.eni_found

    taken : AddressInfo
    taken = record (slot.addr) { assigned = true }

    used :
        total_of in_use (insert string_discrete slot.addr_key taken slot.eni.ipv4_addresses)
        ≡ used_count slot.eni + 1
    used = ground (
      arith,
      total_of-insert_old string_discrete in_use slot.addr_key taken slot.addr
          slot.eni.ipv4_addresses at.addr_found,
    )

occupy-IsValid :
    (ds : DataStore) (slot : Slot)
    → IsValid ds
    → IsIn ds.eni_ip_pools slot
    → IsValid (occupy ds slot)
unfolding occupy
occupy-IsValid ds slot v at =
    (elim slot.addr.assigned
        as (λ b.
          slot.addr.assigned ≡ b → IsValid (if b then ds else increment_assigned_count ds slot)) [
            | true ↦ λ _. v
            | false ↦ λ free. increment_assigned_count-IsValid ds slot v at free
          ])
      refl

record_pod-IsValid :
    (ds : DataStore) (key : PodKey) (slot : Slot) → IsValid ds → IsValid (record_pod ds key slot)
record_pod-IsValid ds key slot v = record {
  distinct = v.distinct;
  pools = v.pools;
  total_counted = v.total_counted;
  assigned_counted = v.assigned_counted;
  pods_distinct = insert-Distinct pod_key_discrete key _ ds.pods_ip v.pods_distinct;
}

pub assign_pod_ipv4_address-IsValid :
    (ds : DataStore) (pod : K8sPodInfo) (now : Instant)
    → IsValid ds
    → IsValid (assign_pod_ipv4_address ds pod now).0
unfolding assign_pod_ipv4_address assign_pod_ipv4_address_unsafe take_slot
assign_pod_ipv4_address-IsValid ds pod now v =
    elim (Option-cases (lookup pod_key_discrete (pod_key pod) ds.pods_ip)) [
      | inr (info, known) ↦ rw (known, assign_pod_ipv4_address) (ground arith)
      | inl new ↦ elim (Option-cases (find_slot pod.ip now ds.eni_ip_pools)) [
        | inl full ↦ rw (new, full, assign_pod_ipv4_address, assign_pod_ipv4_address_unsafe) v
        | inr (slot, found) ↦
            rw (new, found, assign_pod_ipv4_address, assign_pod_ipv4_address_unsafe)
              (record_pod-IsValid (occupy ds slot) (pod_key pod) slot (
                occupy-IsValid ds slot v
                  (find_slot_lem pod.ip now ds.eni_ip_pools slot v.distinct v.pools found).0))
      ]
    ]

release_slot-IsValid :
    (ds : DataStore) (key : PodKey) (slot : Slot) (now : Instant)
    → IsValid ds
    → IsIn ds.eni_ip_pools slot
    → slot.addr.assigned ≡ true
    → IsValid (release_slot ds key slot now)
unfolding release_slot
release_slot-IsValid ds key slot now v at held =
    replace-IsValid ds _ slot.eni_key slot.eni _ v at.eni_found
      (record {
        keyed = e_valid.keyed;
        counted =
            ap (λ z. z -ℤ pos 1) e_valid.counted
            ∙ (pos--ℤ _ _ (omega (arith, used)) ∙ ap pos (omega (arith, used)));
        distinct =
            insert-Distinct string_discrete slot.addr_key _ slot.eni.ipv4_addresses
              e_valid.distinct;
        addressed =
            Each-insert string_discrete (λ k a. a.address ≡ k) slot.addr_key _
              slot.eni.ipv4_addresses
              (address_kept slot.eni_key slot.eni slot.addr e_valid slot.addr_key at.addr_found)
              e_valid.addressed;
      })
      refl (remove-Distinct pod_key_discrete key ds.pods_ip v.pods_distinct) v.total_counted
      (omega (
        arith,
        length-insert_old string_discrete slot.addr_key freed slot.addr slot.eni.ipv4_addresses
            at.addr_found,
      ))
      (ap (λ z. z -ℤ pos 1) v.assigned_counted ∙ pos--ℤ _ _ (omega (arith, used, in_total)))
      (omega (arith, used, in_total))
  where
    e_valid : PoolIsValid slot.eni_key slot.eni
    e_valid =
        Each-lookup string_discrete PoolIsValid slot.eni_key slot.eni ds.eni_ip_pools v.pools
          at.eni_found

    freed : AddressInfo
    freed = record (slot.addr) { assigned = false; unassigned_time = now }

    used :
        total_of in_use (insert string_discrete slot.addr_key freed slot.eni.ipv4_addresses) + 1
        ≡ used_count slot.eni
    used = ground (
      arith,
      total_of-insert_old string_discrete in_use slot.addr_key freed slot.addr
          slot.eni.ipv4_addresses at.addr_found,
    )

    in_total : used_count slot.eni ≤ total_of used_count ds.eni_ip_pools
    in_total =
        total_of-lookup string_discrete used_count slot.eni_key slot.eni ds.eni_ip_pools
          at.eni_found

pub unassign_pod_ipv4_address-IsValid :
    (ds : DataStore) (pod : K8sPodInfo) (now : Instant)
    → IsValid ds
    → IsValid (unassign_pod_ipv4_address ds pod now).0
unfolding unassign_pod_ipv4_address
unassign_pod_ipv4_address-IsValid ds pod now v =
    elim (Option-cases (lookup pod_key_discrete (pod_key pod) ds.pods_ip)) [
      | inl unknown ↦ rw (unknown, unassign_pod_ipv4_address) v
      | inr (info, known) ↦ elim (Option-cases (find_assigned info.ip ds.eni_ip_pools)) [
        | inl lost ↦ rw (known, lost, unassign_pod_ipv4_address) v
        | inr (slot, found) ↦
            let at = find_assigned_lem info.ip ds.eni_ip_pools slot v.distinct found in
            rw (known, found, unassign_pod_ipv4_address)
              (release_slot-IsValid ds (pod_key pod) slot now v at.0 at.2)
      ]
    ]
