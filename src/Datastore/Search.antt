-- ===== src/Datastore/Search.antt =====
-- The search of `assignPodIPv4AddressUnsafe` in ipamd/datastore/data_store.go.
use amazon_vpc_cni_k8s.Prelude.{
  ◌+◌, ◌<◌, ◌≤◌, String, string_discrete, ◌≡◌, ◌≢◌, inl, inr, true, false, none, some, [], ◌∷◌,
  Instant, Dict, lookup, ℤ, ◌↔◌, ◌*◌, Each, total_of, length, arith, second, time_sub-gt,
  Option-cases,
}
use amazon_vpc_cni_k8s.Datastore.{
  AddressInfo, EniIpPool, DataStore, K8sPodInfo, pod_key, pod_key_discrete, Slot, find_address,
  find_slot, ok, err, take_slot, no_available_ip, assign_pod_ipv4_address,
  assign_pod_ipv4_address_unsafe, address_cooling_period,
}
use amazon_vpc_cni_k8s.Datastore.Invariant.{PoolIsValid, IsValid, in_use}
use amazon_vpc_cni_k8s.Datastore.Invariant.Slots.{IsIn, Suits, find_slot_lem}

find_address_complete :
    (ip : String) (now : Instant) (m : Dict String AddressInfo) (k : String) (a : AddressInfo)
    → find_address ip now m ≡ none
    → lookup string_discrete k m ≡ some a
    → ¬ Suits ip now a
unfolding find_address lookup
find_address_complete ip now [] k a h found = λ s. cc
find_address_complete ip now ((j, b) ∷ m) k a h found =
    λ s. ground (arith, find_address_complete ip now m k a)

pub in_use_le : (m : Dict String AddressInfo) → total_of in_use m ≤ length m
in_use_le [] = omega arith
in_use_le ((j, b) ∷ m) = ground (arith, in_use_le m)

-- Where all addresses are assigned no free one is found.
all_used :
    (m : Dict String AddressInfo) (k : String) (a : AddressInfo)
    → length m ≤ total_of in_use m
    → lookup string_discrete k m ≡ some a
    → a.assigned ≡ true
unfolding lookup
all_used [] k a h found = cc
all_used ((j, b) ∷ m) k a h found = ground (arith, all_used m k a, in_use_le m)

find_slot_complete :
    (ip : String) (now : Instant) (pools : Dict String EniIpPool) (j : String) (e : EniIpPool)
    (k : String) (a : AddressInfo)
    → Each PoolIsValid pools
    → find_slot ip now pools ≡ none
    → lookup string_discrete j pools ≡ some e
    → lookup string_discrete k e.ipv4_addresses ≡ some a
    → a.address ≢ ""
    → ¬ Suits ip now a
unfolding find_slot lookup
find_slot_complete ip now [] j e k a v h found at named = λ s. cc
find_slot_complete ip now ((key, eni) ∷ pools) j e k a v h found at named = λ s. ground (
  arith,
  find_slot_complete ip now pools j e k a v.1,
  find_address_complete ip now eni.ipv4_addresses k a,
  all_used e.ipv4_addresses k a,
)

-- No address of the store is the empty string, which stands for "any address" in a request.
abbrev pub AllNamed : DataStore → Type 0
AllNamed ds =
    (j : String) (e : EniIpPool) (k : String) (a : AddressInfo)
    → lookup string_discrete j ds.eni_ip_pools ≡ some e
    → lookup string_discrete k e.ipv4_addresses ≡ some a
    → a.address ≢ ""

-- No address of the store is the one that the request names; nor, if it names none, free and
-- handed back more than `addressCoolingPeriod` ago.
abbrev pub NoneSuits : DataStore → String → Instant → Type 0
NoneSuits ds ip now =
    (j : String) (e : EniIpPool) (k : String) (a : AddressInfo)
    → lookup string_discrete j ds.eni_ip_pools ≡ some e
    → lookup string_discrete k e.ipv4_addresses ≡ some a
    → ¬ Suits ip now a

-- In a valid store whose addresses all have a name, a request of a pod that the store does not
-- know fails, with "no available IP addresses", exactly when no address of any ENI suits it.
pub assign_fails_iff :
    (ds : DataStore) (pod : K8sPodInfo) (now : Instant)
    → IsValid ds
    → AllNamed ds
    → lookup pod_key_discrete (pod_key pod) ds.pods_ip ≡ none
    → ((assign_pod_ipv4_address ds pod now).1 ≡ err no_available_ip) ↔ NoneSuits ds pod.ip now
unfolding assign_pod_ipv4_address assign_pod_ipv4_address_unsafe take_slot
assign_fails_iff ds pod now v named new =
    elim (Option-cases (find_slot pod.ip now ds.eni_ip_pools)) [
      | inl full ↦ (
        λ _ j e k a found at.
            find_slot_complete pod.ip now ds.eni_ip_pools j e k a v.pools full found at
              (named j e k a found at),
        λ _. rw (new, full, assign_pod_ipv4_address, assign_pod_ipv4_address_unsafe),
      )
      | inr (slot, found) ↦
          let (at, suits) =
            find_slot_lem pod.ip now ds.eni_ip_pools slot v.distinct v.pools found in
          (
            λ failed. absurd (ground arith),
            λ none_suits. absurd (
                none_suits slot.eni_key slot.eni slot.addr_key slot.addr at.eni_found at.addr_found
                  suits),
          )
    ]

-- In a valid store whose addresses all have a name, the address that a pod unknown to the store is
-- given, when its request names none, is one of an ENI of the store with the device number that is
-- answered; it was free, and had been handed back more than 30 seconds before.
pub assign_cooled :
    (ds : DataStore) (pod : K8sPodInfo) (now : Instant) (ip : String) (dev : ℤ)
    → IsValid ds
    → AllNamed ds
    → lookup pod_key_discrete (pod_key pod) ds.pods_ip ≡ none
    → pod.ip ≡ ""
    → (assign_pod_ipv4_address ds pod now).1 ≡ ok (ip, dev)
    → (slot : Slot) × IsIn ds.eni_ip_pools slot
      × (slot.addr.address ≡ ip)
      × (slot.eni.device_number ≡ dev)
      × (slot.addr.assigned ≡ false)
      × (slot.addr.unassigned_time + 30 * second < now)
unfolding assign_pod_ipv4_address assign_pod_ipv4_address_unsafe take_slot
assign_cooled ds pod now ip dev v named new any given =
    elim (Option-cases (find_slot pod.ip now ds.eni_ip_pools)) [
      | inl full ↦ absurd (ground arith)
      | inr (slot, found) ↦
          let (at, suits) =
            find_slot_lem pod.ip now ds.eni_ip_pools slot v.distinct v.pools found in
          let has_name =
            named slot.eni_key slot.eni slot.addr_key slot.addr at.eni_found at.addr_found in
          (
            slot,
            at,
            ground arith,
            ground arith,
            ground arith,
            ground (arith, time_sub-gt now slot.addr.unassigned_time address_cooling_period),
          )
    ]
