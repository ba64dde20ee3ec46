-- ===== src/Datastore/Ownership/Named.antt =====
-- Requests that name an address, of ipamd/datastore/data_store.go, as the recovery of the running
-- pods makes them.
use amazon_vpc_cni_k8s.Prelude.{
  ◌+◌, ◌≤◌, String, ◌≡◌, ◌≢◌, refl, inl, inr, false, none, some, Instant, insert, lookup, arith,
  Option-cases, total_of-insert_new,
}
use amazon_vpc_cni_k8s.Datastore.{
  DataStore, K8sPodInfo, PodKey, PodIpInfo, Slot, pod_key, pod_key_discrete, find_slot, take_slot,
  assign_pod_ipv4_address, assign_pod_ipv4_address_unsafe,
}
use amazon_vpc_cni_k8s.Datastore.Invariant.{IsValid}
use amazon_vpc_cni_k8s.Datastore.Invariant.Slots.{IsIn, find_slot_lem}
use amazon_vpc_cni_k8s.Datastore.Ownership.{pods_with, held}
use amazon_vpc_cni_k8s.Datastore.Ownership.Pods.{
  is_for, entry, slot_held, occupy_free, increment-pods, taken-backed,
}

-- As many pods have an address as there are ENIs on which it is marked as assigned.
abbrev pub Agrees : DataStore → Type 0
Agrees ds = (ip : String) → pods_with ip ds.pods_ip ≡ held ip ds.eni_ip_pools

-- The slot is that of the name, and is free.
pub named_slot :
    (ds : DataStore) (pod : K8sPodInfo) (now : Instant) (slot : Slot)
    → IsValid ds
    → Agrees ds
    → pod.ip ≢ ""
    → pods_with pod.ip ds.pods_ip ≡ 0
    → find_slot pod.ip now ds.eni_ip_pools ≡ some slot
    → IsIn ds.eni_ip_pools slot × (slot.addr.assigned ≡ false) × (pod.ip ≡ slot.addr.address)
named_slot ds pod now slot v agrees named none_has found =
    let (at, suits) = find_slot_lem pod.ip now ds.eni_ip_pools slot v.distinct v.pools found in
    let same_ip : pod.ip ≡ slot.addr.address = elim suits [
      | inl e ↦ e
      | inr (free, empty, cooled) ↦ absurd (named empty)
    ] in
    (at, ground (arith, same_ip, slot_held ds slot pod.ip at, agrees pod.ip), same_ip)

-- What a request for the address `ip` may do to the map of the pods.
abbrev pub GivesOnly : String → DataStore → DataStore → Type 0
GivesOnly ip ds ds' =
    ((q : String) → q ≢ ip → pods_with q ds'.pods_ip ≡ pods_with q ds.pods_ip)
    × (pods_with ip ds'.pods_ip ≤ pods_with ip ds.pods_ip + 1)

pods_with-insert :
    (ds : DataStore) (key : PodKey) (info : PodIpInfo) (ip q : String)
    → ip ≡ info.ip
    → lookup pod_key_discrete key ds.pods_ip ≡ none
    → (q ≢ ip → pods_with q (insert pod_key_discrete key info ds.pods_ip) ≡ pods_with q ds.pods_ip)
      × (pods_with q (insert pod_key_discrete key info ds.pods_ip) ≤ pods_with q ds.pods_ip + 1)
pods_with-insert ds key info ip q e new =
    let t = total_of-insert_new pod_key_discrete (is_for q) key info ds.pods_ip new in
    (λ ne. ground (arith, t, e, ne), ground (arith, t))

pub assign_named-Agrees :
    (ds : DataStore) (pod : K8sPodInfo) (now : Instant)
    → IsValid ds
    → Agrees ds
    → pod.ip ≢ ""
    → pods_with pod.ip ds.pods_ip ≡ 0
    → let ds' = (assign_pod_ipv4_address ds pod now).0 in Agrees ds' × GivesOnly pod.ip ds ds'
unfolding assign_pod_ipv4_address assign_pod_ipv4_address_unsafe take_slot
assign_named-Agrees ds pod now v agrees named none_has =
    elim (Option-cases (lookup pod_key_discrete (pod_key pod) ds.pods_ip)) [
      | inr (info, known) ↦ (
        λ ip. rw (known, assign_pod_ipv4_address) (ground (arith, agrees ip)),
        (
          (λ q ne. rw (known, assign_pod_ipv4_address) (ground arith)),
          rw (known, assign_pod_ipv4_address) (ground arith),
        ),
      )
      | inl new ↦ elim (Option-cases (find_slot pod.ip now ds.eni_ip_pools)) [
        | inl full ↦
            rw (new, full, assign_pod_ipv4_address, assign_pod_ipv4_address_unsafe)
              (agrees, ((λ q ne. refl), omega arith))
        | inr (slot, found) ↦
            let (at, free, same_ip) = named_slot ds pod now slot v agrees named none_has found in
            let only =
              λ (q : String). pods_with-insert ds (pod_key pod) (entry slot) pod.ip q same_ip new in
            rw
              (
                new,
                found,
                assign_pod_ipv4_address,
                assign_pod_ipv4_address_unsafe,
                occupy_free ds slot free,
                increment-pods ds slot,
              )
              (
                λ ip. taken-backed ds (pod_key pod) slot ip (agrees ip) at free new,
                ((λ q. (only q).0), (only pod.ip).1),
              )
      ]
    ]
