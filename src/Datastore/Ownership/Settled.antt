-- ===== src/Datastore/Ownership/Settled.antt =====
-- What a request for a named address leaves of the other pods and of the addresses, in
-- ipamd/datastore/data_store.go.
use amazon_vpc_cni_k8s.Prelude.{
  sym, String, string_discrete, ◌≡◌, ◌≢◌, refl, ◌⊎◌, inl, inr, true, none, some, [], ◌∷◌, Dict,
  Instant, insert, lookup, lookup-insert, arith, Option-cases, total_of, total_of-insert_old, pos,
  ◌+ℤ◌,
}
use amazon_vpc_cni_k8s.Datastore.{
  AddressInfo, EniIpPool, DataStore, K8sPodInfo, PodKey, PodIpInfo, Slot, pod_key, pod_key_discrete,
  find_address, find_slot, increment_assigned_count, take_slot, assign_pod_ipv4_address,
  assign_pod_ipv4_address_unsafe,
}
use amazon_vpc_cni_k8s.Datastore.Invariant.{IsValid}
use amazon_vpc_cni_k8s.Datastore.Invariant.Slots.{IsIn}
use amazon_vpc_cni_k8s.Datastore.Ownership.{pods_with}
use amazon_vpc_cni_k8s.Datastore.Ownership.Pods.{entry, occupy_free, increment-pods}
use amazon_vpc_cni_k8s.Datastore.Ownership.Plain.{is_at, listed_on, listed}
use amazon_vpc_cni_k8s.Datastore.Ownership.Named.{Agrees, named_slot}

find_address-none :
    (ip : String) (now : Instant) (m : Dict String AddressInfo)
    → find_address ip now m ≡ none
    → total_of (is_at ip) m ≡ 0
unfolding find_address
find_address-none ip now [] h = refl
find_address-none ip now ((k, a) ∷ m) h = ground (arith, find_address-none ip now m)

find_slot-none :
    (ip : String) (now : Instant) (pools : Dict String EniIpPool)
    → ip ≢ ""
    → find_slot ip now pools ≡ none
    → listed ip pools ≡ 0
unfolding find_slot
find_slot-none ip now [] named h = refl
find_slot-none ip now ((k, e) ∷ pools) named h =
    ground (arith, find_slot-none ip now pools named, find_address-none ip now e.ipv4_addresses)

increment-listed :
    (ds : DataStore) (slot : Slot) (q : String)
    → IsIn ds.eni_ip_pools slot
    → listed q (increment_assigned_count ds slot).eni_ip_pools ≡ listed q ds.eni_ip_pools
unfolding increment_assigned_count
increment-listed ds slot q at = ground (
  arith,
  total_of-insert_old string_discrete (listed_on q) slot.eni_key
      (record (slot.eni) {
        assigned_ipv4_addresses = slot.eni.assigned_ipv4_addresses +ℤ pos 1;
        ipv4_addresses =
            insert string_discrete slot.addr_key (record (slot.addr) { assigned = true })
              slot.eni.ipv4_addresses;
      })
      slot.eni ds.eni_ip_pools at.eni_found,
  total_of-insert_old string_discrete (is_at q) slot.addr_key
      (record (slot.addr) { assigned = true }) slot.addr slot.eni.ipv4_addresses at.addr_found,
)

-- The store has the address that the pod names for the pod, or no ENI lists it.
abbrev pub IsSettled : DataStore → K8sPodInfo → Type 0
IsSettled ds pod =
    ((info : PodIpInfo) × (lookup pod_key_discrete (pod_key pod) ds.pods_ip ≡ some info)
      × (info.ip ≡ pod.ip))
    ⊎ (listed pod.ip ds.eni_ip_pools ≡ 0)

-- The same addresses are listed, and no other pod is added, changed or lost.
abbrev pub LeavesOthers : PodKey → DataStore → DataStore → Type 0
LeavesOthers key ds ds' =
    ((q : String) → listed q ds'.eni_ip_pools ≡ listed q ds.eni_ip_pools)
    × ((k : PodKey)
        → k ≢ key
        → lookup pod_key_discrete k ds'.pods_ip ≡ lookup pod_key_discrete k ds.pods_ip)

pub assign_named-IsSettled :
    (ds : DataStore) (pod : K8sPodInfo) (now : Instant)
    → IsValid ds
    → Agrees ds
    → pod.ip ≢ ""
    → pods_with pod.ip ds.pods_ip ≡ 0
    → lookup pod_key_discrete (pod_key pod) ds.pods_ip ≡ none
    → let ds' = (assign_pod_ipv4_address ds pod now).0 in
      IsSettled ds' pod × LeavesOthers (pod_key pod) ds ds'
unfolding assign_pod_ipv4_address assign_pod_ipv4_address_unsafe take_slot
assign_named-IsSettled ds pod now v agrees named none_has new =
    elim (Option-cases (find_slot pod.ip now ds.eni_ip_pools)) [
      | inl full ↦
          rw (new, full, assign_pod_ipv4_address, assign_pod_ipv4_address_unsafe)
            (
              inr (find_slot-none pod.ip now ds.eni_ip_pools named full),
              ((λ q. refl), λ k ne. refl),
            )
      | inr (slot, found) ↦
          let (at, free, same_ip) = named_slot ds pod now slot v agrees named none_has found in
          let l = λ (k : PodKey).
            lookup-insert pod_key_discrete (pod_key pod) k (entry slot) ds.pods_ip in
          rw
            (
              new,
              found,
              assign_pod_ipv4_address,
              assign_pod_ipv4_address_unsafe,
              occupy_free ds slot free,
              increment-pods ds slot,
            )
            (
              inl (entry slot, ground (arith, l (pod_key pod)), sym same_ip),
              ((λ q. increment-listed ds slot q at), λ k ne. ground (arith, l k, ne)),
            )
    ]
