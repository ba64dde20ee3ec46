-- ===== src/Datastore/History/Gauges.antt =====
-- The Prometheus gauges that the store's methods set, against the store's own counters.
use amazon_vpc_cni_k8s.Prelude.{
  ◌-ℤ◌, pos, ◌≡◌, ◌≢◌, refl, ap, inl, inr, String, string_discrete, some, lookup, length, Instant,
  arith, Option-cases, Bool-cases, length-insert_old, insert, ◌∙◌, sym, true, false, if◌then◌else◌,
  ◌+ℤ◌, total_of-lookup,
}
use amazon_vpc_cni_k8s.Datastore.{
  EniIpPool, DataStore, K8sPodInfo, Slot, pod_key, pod_key_discrete, add_eni,
  add_ipv4_address_from_store, del_ipv4_address_from_store, assign_pod_ipv4_address,
  assign_pod_ipv4_address_unsafe, take_slot, occupy, increment_assigned_count, find_slot,
  find_assigned, unassign_pod_ipv4_address, release_slot, remove_unused_eni_from_store,
  remove_eni_from_data_store,
}
use amazon_vpc_cni_k8s.Datastore.Invariant.{IsValid, address_count}
use amazon_vpc_cni_k8s.Datastore.Invariant.Slots.{IsIn, find_slot_lem, find_assigned_lem}
use amazon_vpc_cni_k8s.Datastore.History.{
  Call, adds_eni, adds_ip, dels_ip, assigns, unassigns, removes_unused, removes_eni, step,
}

pub record InSync (ds : DataStore) : Type 0 where
  pub enis : ds.gauges.enis ≡ pos (length ds.eni_ip_pools)
  pub total_ips : ds.gauges.total_ips ≡ ds.total
  pub assigned_ips : ds.gauges.assigned_ips ≡ ds.assigned

-- An ENI that is in the store is written back.
replaced :
    (ds : DataStore) (id : String) (e e' : EniIpPool)
    → InSync ds
    → lookup string_discrete id ds.eni_ip_pools ≡ some e
    → ds.gauges.enis ≡ pos (length (insert string_discrete id e' ds.eni_ip_pools))
replaced ds id e e' s found =
    s.enis ∙ ap pos (sym (length-insert_old string_discrete id e' e ds.eni_ip_pools found))

add_ip-InSync :
    (ds : DataStore) (id ip : String) → InSync ds → InSync (add_ipv4_address_from_store ds id ip).0
unfolding add_ipv4_address_from_store
add_ip-InSync ds id ip s = elim (Option-cases (lookup string_discrete id ds.eni_ip_pools)) [
  | inl missing ↦ rw (missing, add_ipv4_address_from_store) s
  | inr (e, found) ↦ elim (Option-cases (lookup string_discrete ip e.ipv4_addresses)) [
    | inr (a, dup) ↦ rw (found, dup, add_ipv4_address_from_store) s
    | inl new ↦
        rw (found, new, add_ipv4_address_from_store)
          (record {
            enis = replaced ds id e _ s found;
            total_ips = refl;
            assigned_ips = s.assigned_ips;
          })
  ]
]

del_ip-InSync :
    (ds : DataStore) (id ip : String) → InSync ds → InSync (del_ipv4_address_from_store ds id ip).0
unfolding del_ipv4_address_from_store
del_ip-InSync ds id ip s = elim (Option-cases (lookup string_discrete id ds.eni_ip_pools)) [
  | inl missing ↦ rw (missing, del_ipv4_address_from_store) s
  | inr (e, found) ↦ elim (Option-cases (lookup string_discrete ip e.ipv4_addresses)) [
    | inl gone ↦ rw (found, gone, del_ipv4_address_from_store) s
    | inr (a, has) ↦ elim (Bool-cases a.assigned) [
      | inl used ↦ rw (found, has, used, del_ipv4_address_from_store) s
      | inr free ↦
          rw (found, has, free, del_ipv4_address_from_store)
            (record {
              enis = replaced ds id e _ s found;
              total_ips = refl;
              assigned_ips = s.assigned_ips;
            })
    ]
  ]
]

occupy-InSync :
    (ds : DataStore) (slot : Slot) → IsIn ds.eni_ip_pools slot → InSync ds → InSync (occupy ds slot)
unfolding occupy increment_assigned_count
occupy-InSync ds slot at s =
    (elim slot.addr.assigned as (λ b. InSync (if b then ds else increment_assigned_count ds slot)) [
      | true ↦ s
      | false ↦ record {
        enis = replaced ds slot.eni_key slot.eni _ s at.eni_found;
        total_ips = s.total_ips;
        assigned_ips = refl;
      }
    ])

assign-InSync :
    (ds : DataStore) (pod : K8sPodInfo) (now : Instant)
    → IsValid ds
    → InSync ds
    → InSync (assign_pod_ipv4_address ds pod now).0
unfolding assign_pod_ipv4_address assign_pod_ipv4_address_unsafe take_slot
assign-InSync ds pod now v s =
    elim (Option-cases (lookup pod_key_discrete (pod_key pod) ds.pods_ip)) [
      | inr (info, known) ↦ rw (known, assign_pod_ipv4_address) (ground arith)
      | inl new ↦ elim (Option-cases (find_slot pod.ip now ds.eni_ip_pools)) [
        | inl full ↦ rw (new, full, assign_pod_ipv4_address, assign_pod_ipv4_address_unsafe) s
        | inr (slot, found) ↦
            let at = (find_slot_lem pod.ip now ds.eni_ip_pools slot v.distinct v.pools found).0 in
            let t = occupy-InSync ds slot at s in
            rw (new, found, assign_pod_ipv4_address, assign_pod_ipv4_address_unsafe)
              (record { enis = t.enis; total_ips = t.total_ips; assigned_ips = t.assigned_ips })
      ]
    ]

unassign-InSync :
    (ds : DataStore) (pod : K8sPodInfo) (now : Instant)
    → IsValid ds
    → InSync ds
    → InSync (unassign_pod_ipv4_address ds pod now).0
unfolding unassign_pod_ipv4_address release_slot
unassign-InSync ds pod now v s =
    elim (Option-cases (lookup pod_key_discrete (pod_key pod) ds.pods_ip)) [
      | inl unknown ↦ rw (unknown, unassign_pod_ipv4_address) s
      | inr (info, known) ↦ elim (Option-cases (find_assigned info.ip ds.eni_ip_pools)) [
        | inl lost ↦ rw (known, lost, unassign_pod_ipv4_address) s
        | inr (slot, found) ↦
            let at = (find_assigned_lem info.ip ds.eni_ip_pools slot v.distinct found).0 in
            rw (known, found, unassign_pod_ipv4_address)
              (record {
                enis = replaced ds slot.eni_key slot.eni _ s at.eni_found;
                total_ips = s.total_ips;
                assigned_ips = refl;
              })
      ]
    ]

-- Every call but `RemoveENIFromDataStore` keeps the gauges of a valid store equal to the number
-- of its ENIs, to its total of addresses and to its number of assigned addresses.
pub step-InSync :
    (ds : DataStore) (now : Instant) (c : Call)
    → IsValid ds
    → InSync ds
    → ((id : String) → c ≢ removes_eni id)
    → InSync (step ds (now, c))
unfolding step add_eni remove_unused_eni_from_store
step-InSync ds now (adds_eni id dev primary) v s other = ground arith
step-InSync ds now (adds_ip id ip) v s other = add_ip-InSync ds id ip s
step-InSync ds now (dels_ip id ip) v s other = del_ip-InSync ds id ip s
step-InSync ds now (assigns pod) v s other = assign-InSync ds pod now v s
step-InSync ds now (unassigns pod) v s other = unassign-InSync ds pod now v s
step-InSync ds now (removes_unused target) v s other = ground arith
step-InSync ds now (removes_eni id) v s other = absurd (other id refl)

-- `RemoveENIFromDataStore` does not set the gauge of the total: when, on a valid store whose gauges
-- are in line with it, it takes out an ENI without assigned addresses, the gauge is above the
-- store's new total by the number of the ENI's addresses.
pub remove_eni-stale :
    (ds : DataStore) (id : String) (e : EniIpPool)
    → IsValid ds
    → InSync ds
    → lookup string_discrete id ds.eni_ip_pools ≡ some e
    → e.assigned_ipv4_addresses ≡ pos 0
    → let ds' = (remove_eni_from_data_store ds id).0 in
      ds'.gauges.total_ips ≡ ds'.total +ℤ pos (length e.ipv4_addresses)
unfolding remove_eni_from_data_store ◌+ℤ◌ ◌-ℤ◌
remove_eni-stale ds id e v s found unused =
    ground (arith, total_of-lookup string_discrete address_count id e ds.eni_ip_pools found)
