-- ===== src/Datastore/Ownership/Plain.antt =====
-- ipamd/datastore/data_store.go: the owners of the addresses after any calls in which no request
-- names an address that a pod has. Only the recovery of the running pods, at the start, names any.
use amazon_vpc_cni_k8s.Prelude.{
  ℕ, ◌+◌, ◌≤◌, ℤ, String, string_discrete, ◌≡◌, ◌≢◌, refl, inl, inr, false, none, some, List, [],
  ◌∷◌, Instant, Dict, lookup, Each, total_of, arith, Option-cases, total_of-lookup,
  lookup-remove_self, if◌then◌else◌, lookup-insert, lookup-remove_ne, Distinct, total_of-gap,
  total_of_mono,
}
use amazon_vpc_cni_k8s.Datastore.{
  AddressInfo, EniIpPool, DataStore, K8sPodInfo, PodKey, PodIpInfo, Slot, ok, pod_key,
  pod_key_discrete, same, find_slot, find_assigned, occupy, take_slot, release_slot,
  assign_pod_ipv4_address, assign_pod_ipv4_address_unsafe, unassign_pod_ipv4_address,
}
use amazon_vpc_cni_k8s.Datastore.Invariant.{IsValid, PoolIsValid, in_use}
use amazon_vpc_cni_k8s.Datastore.Invariant.Slots.{IsIn, find_assigned_lem}
use amazon_vpc_cni_k8s.Datastore.History.{
  Call, adds_eni, adds_ip, dels_ip, assigns, unassigns, removes_unused, removes_eni, step, run,
}
use amazon_vpc_cni_k8s.Datastore.Ownership.{pods_with, holds, held_on, held, IsBacked}
use amazon_vpc_cni_k8s.Datastore.Ownership.Addresses.{
  add_eni-IsBacked, add_ip-IsBacked, del_ip-IsBacked, remove_unused-IsBacked, remove_eni-IsBacked,
}
use amazon_vpc_cni_k8s.Datastore.Ownership.Pods.{
  assign-IsBacked, unassign-IsBacked, is_for, AsksFree, free_slot, slot_addressed,
}

-- An added address has a name, and an assign names no address, or one that no pod has at the time.
abbrev pub IsAllowed : DataStore → Call → Type 0
IsAllowed ds (assigns pod) = AsksFree ds pod
IsAllowed ds (adds_ip id ip) = ip ≢ ""
IsAllowed ds _ = Unit {0}

-- So is each call in the store that it meets.
abbrev pub AreAllowed : DataStore → List (Instant × Call) → Type 0
AreAllowed ds [] = Unit {0}
AreAllowed ds (c ∷ cs) = IsAllowed ds c.1 × AreAllowed (step ds c) cs

step-IsBacked :
    (ds : DataStore) (now : Instant) (c : Call)
    → IsAllowed ds c
    → IsBacked ds
    → IsBacked (step ds (now, c))
unfolding step
step-IsBacked ds now (adds_eni id dev primary) p b = add_eni-IsBacked ds id dev primary now b
step-IsBacked ds now (adds_ip id ip) p b = add_ip-IsBacked ds id ip p b
step-IsBacked ds now (dels_ip id ip) p b = del_ip-IsBacked ds id ip b
step-IsBacked ds now (assigns pod) p b = assign-IsBacked ds pod now p b
step-IsBacked ds now (unassigns pod) p b = unassign-IsBacked ds pod now b
step-IsBacked ds now (removes_unused target) p b = remove_unused-IsBacked ds target now b
step-IsBacked ds now (removes_eni id) p b = remove_eni-IsBacked ds id b

-- From a backed store, after calls in which every added address has a name that is not empty and
-- every assign, at the time of its call, names no address or one that no pod has, the store is
-- backed: each address is held by as many pods as there are ENIs on which it is marked as assigned.
-- Nothing is said of an assign that names an address that a pod has.
pub run-IsBacked :
    (ds : DataStore) (cs : List (Instant × Call))
    → AreAllowed ds cs
    → IsBacked ds
    → IsBacked (run ds cs)
unfolding run
run-IsBacked ds [] p b = b
run-IsBacked ds ((now, c) ∷ cs) p b =
    run-IsBacked (step ds (now, c)) cs p.1 (step-IsBacked ds now c p.0 b)

-- The mark on the one entry of an address.
holds-lookup :
    (ip : String) (m : Dict String AddressInfo)
    → Distinct string_discrete m
    → Each (λ k a. a.address ≡ k) m
    → total_of (holds ip) m ≡ elim (lookup string_discrete ip m) [ none ↦ 0 | some a ↦ in_use a ]
unfolding lookup
holds-lookup ip [] d n = refl
holds-lookup ip ((j, a) ∷ m) d n = ground (arith, holds-lookup ip m d.1 n.1)

held_found :
    (ip : String) (pools : Dict String EniIpPool)
    → Each PoolIsValid pools
    → find_assigned ip pools ≡ none
    → held ip pools ≡ 0
unfolding find_assigned
held_found ip [] v h = refl
held_found ip ((key, e) ∷ pools) v h =
    ground
      (arith, held_found ip pools v.1, holds-lookup ip e.ipv4_addresses v.0.distinct v.0.addressed)

-- A valid store, in which the one address is backed, lets go of the pod.
pub unassign_served :
    (ds : DataStore) (pod : K8sPodInfo) (now : Instant) (info : PodIpInfo)
    → IsValid ds
    → pods_with info.ip ds.pods_ip ≡ held info.ip ds.eni_ip_pools
    → lookup pod_key_discrete (pod_key pod) ds.pods_ip ≡ some info
    → let r = unassign_pod_ipv4_address ds pod now in
      (dev : ℤ) × (r.1 ≡ ok (info.ip, dev))
      × (lookup pod_key_discrete (pod_key pod) r.0.pods_ip ≡ none)
      × ((other : PodKey)
          → other ≢ pod_key pod
          → lookup pod_key_discrete other r.0.pods_ip ≡ lookup pod_key_discrete other ds.pods_ip)
unfolding unassign_pod_ipv4_address release_slot
unassign_served ds pod now info v backed known =
    elim (Option-cases (find_assigned info.ip ds.eni_ip_pools)) [
      | inl lost ↦ absurd (
          ground (
            arith,
            backed,
            held_found info.ip ds.eni_ip_pools v.pools lost,
            total_of-lookup pod_key_discrete (is_for info.ip) (pod_key pod) info ds.pods_ip known,
          ))
      | inr (slot, found) ↦
          let (at, same_ip, used) =
            find_assigned_lem info.ip ds.eni_ip_pools slot v.distinct found in
          (
            slot.eni.device_number,
            rw (known, found, unassign_pod_ipv4_address)
                (ground (arith, slot_addressed ds slot v at)),
            rw (known, found, unassign_pod_ipv4_address)
                (lookup-remove_self pod_key_discrete (pod_key pod) ds.pods_ip v.pods_distinct),
            λ other ne.
                rw (known, found, unassign_pod_ipv4_address)
                  (lookup-remove_ne pod_key_discrete (pod_key pod) other ds.pods_ip ne),
          )
    ]

-- On a backed store `UnassignPodIPv4Address` of a pod that the store knows always succeeds, with
-- the address that the store has for the pod, and the store forgets the pod and no other.
pub unassign_total :
    (ds : DataStore) (pod : K8sPodInfo) (now : Instant) (info : PodIpInfo)
    → IsBacked ds
    → lookup pod_key_discrete (pod_key pod) ds.pods_ip ≡ some info
    → let r = unassign_pod_ipv4_address ds pod now in
      (dev : ℤ) × (r.1 ≡ ok (info.ip, dev))
      × (lookup pod_key_discrete (pod_key pod) r.0.pods_ip ≡ none)
      × ((other : PodKey)
          → other ≢ pod_key pod
          → lookup pod_key_discrete other r.0.pods_ip ≡ lookup pod_key_discrete other ds.pods_ip)
unassign_total ds pod now info b known =
    unassign_served ds pod now info b.valid (b.backed info.ip) known

abbrev pub is_at : String → AddressInfo → ℕ
is_at ip a = if same a.address ip then 1 else 0

abbrev pub listed_on : String → EniIpPool → ℕ
listed_on ip e = total_of (is_at ip) e.ipv4_addresses

-- The number of ENIs that list an address.
abbrev pub listed : String → Dict String EniIpPool → ℕ
listed ip = total_of (listed_on ip)

holds-le : (ip : String) (a : AddressInfo) → holds ip a ≤ is_at ip a
holds-le ip a = ground arith

free_address_unheld :
    (ip : String) (ds : DataStore) (slot : Slot)
    → IsIn ds.eni_ip_pools slot
    → slot.addr.assigned ≡ false
    → slot.addr.address ≡ ip
    → held ip ds.eni_ip_pools + 1 ≤ listed ip ds.eni_ip_pools
free_address_unheld ip ds slot at free named = ground (
  arith,
  total_of-gap string_discrete (holds ip) (is_at ip) slot.addr_key slot.addr slot.eni.ipv4_addresses
      (holds-le ip) at.addr_found,
  total_of-gap string_discrete (held_on ip) (listed_on ip) slot.eni_key slot.eni ds.eni_ip_pools
      (λ e. total_of_mono string_discrete (holds ip) (is_at ip) e.ipv4_addresses (holds-le ip))
      at.eni_found,
)

-- On a backed store that lists no address on two ENIs, the address that a pod unknown to the store
-- is given, when its request names none, was held by no pod before, and afterwards the store has
-- it for this pod.
pub assign_exclusive :
    (ds : DataStore) (pod : K8sPodInfo) (now : Instant) (ip : String) (dev : ℤ)
    → IsBacked ds
    → ((q : String) → listed q ds.eni_ip_pools ≤ 1)
    → pod.ip ≡ ""
    → lookup pod_key_discrete (pod_key pod) ds.pods_ip ≡ none
    → (assign_pod_ipv4_address ds pod now).1 ≡ ok (ip, dev)
    → (pods_with ip ds.pods_ip ≡ 0)
      × (lookup pod_key_discrete (pod_key pod) (assign_pod_ipv4_address ds pod now).0.pods_ip
          ≡ some (record { ip = ip; device_number = dev }))
unfolding assign_pod_ipv4_address assign_pod_ipv4_address_unsafe take_slot lookup
assign_exclusive ds pod now ip dev b unique any new given =
    elim (Option-cases (find_slot pod.ip now ds.eni_ip_pools)) [
      | inl full ↦ absurd (ground arith)
      | inr (slot, found) ↦
          let (at, free) = free_slot ds pod now slot b (inl any) found in
          (
            ground (arith, unique ip, b.backed ip, free_address_unheld ip ds slot at free),
            ground (
              arith,
              lookup-insert pod_key_discrete (pod_key pod) (pod_key pod)
                  (record { ip = slot.addr.address; device_number = slot.eni.device_number })
                  (occupy ds slot).pods_ip,
            ),
          )
    ]
