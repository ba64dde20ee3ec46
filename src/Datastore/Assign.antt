-- ===== src/Datastore/Assign.antt =====
-- ipamd/datastore/data_store.go: giving an address to a pod, and taking it back.
use amazon_vpc_cni_k8s.Prelude.{
  pos, ◌+ℤ◌, ◌-ℤ◌, ℤ, ltb_ℤ, eqb_ℤ, String, string_discrete, Bool, true, false, not, ◌&&◌,
  if◌then◌else◌, Option, none, some, [], ◌∷◌, Dict, insert, remove, lookup, length, Instant,
  time_sub,
}
use amazon_vpc_cni_k8s.Datastore.Types.{
  AddressInfo, EniIpPool, DataStore, PodKey, K8sPodInfo, Result, ok, err, multiple_ips,
  no_available_ip, unknown_pod, unknown_pod_ip, pod_key_discrete, address_cooling_period,
}
use amazon_vpc_cni_k8s.Datastore.Addresses.{pod_key}
use amazon_vpc_cni_k8s.Prelude.{same}

-- The `eni` and `addr` that the two loops hold when they stop, with the keys that lead to them.
pub record Slot : Type 0 where
  pub eni_key : String
  pub eni : EniIpPool
  pub addr_key : String
  pub addr : AddressInfo

-- An address that was handed back within the cooling period is not given to another pod.
abbrev pub is_cooled : Instant → AddressInfo → Bool
is_cooled now addr = ltb_ℤ (pos address_cooling_period) (time_sub now addr.unassigned_time)

-- The inner loop, over the addresses of one ENI.
unfoldable pub find_address :
    String → Instant → Dict String AddressInfo → Option (String × AddressInfo)
find_address ip now [] = none
find_address ip now ((key, addr) ∷ rest) =
    if same ip addr.address
    then some (key, addr)
    else if not addr.assigned && same ip "" && is_cooled now addr
    then some (key, addr)
    else find_address ip now rest

abbrev pub is_exhausted : EniIpPool → Bool
is_exhausted eni = eqb_ℤ (pos (length eni.ipv4_addresses)) eni.assigned_ipv4_addresses

-- The outer loop, over the ENIs.
unfoldable pub find_slot : String → Instant → Dict String EniIpPool → Option Slot
find_slot ip now [] = none
find_slot ip now ((key, eni) ∷ rest) =
    let later = find_slot ip now rest in
    if same ip "" && is_exhausted eni
    then later
    else elim (find_address ip now eni.ipv4_addresses) [
      | none ↦ later
      | some (addr_key, addr) ↦
          some (record { eni_key = key; eni = eni; addr_key = addr_key; addr = addr })
    ]

unfoldable pub increment_assigned_count : DataStore → Slot → DataStore
increment_assigned_count ds slot = record ds {
  assigned = ds.assigned +ℤ pos 1;
  gauges = record (ds.gauges) { assigned_ips = ds.assigned +ℤ pos 1 };
  eni_ip_pools =
      insert string_discrete slot.eni_key
        (record eni {
          assigned_ipv4_addresses = eni.assigned_ipv4_addresses +ℤ pos 1;
          ipv4_addresses =
              insert string_discrete slot.addr_key (record (slot.addr) { assigned = true })
                eni.ipv4_addresses;
        })
        ds.eni_ip_pools;
}
  where
    open slot use {eni}

-- The body of the loops once an address has been found.
unfoldable pub occupy : DataStore → Slot → DataStore
occupy ds slot = if slot.addr.assigned then ds else increment_assigned_count ds slot

abbrev pub record_pod : DataStore → PodKey → Slot → DataStore
record_pod ds key slot = record ds {
  pods_ip =
      insert pod_key_discrete key
        (record { ip = slot.addr.address; device_number = slot.eni.device_number }) ds.pods_ip;
}

unfoldable pub take_slot : DataStore → PodKey → Slot → DataStore × Result (String × ℤ)
unfolding occupy
take_slot ds key slot =
    (record_pod (occupy ds slot) key slot, ok (slot.addr.address, slot.eni.device_number))

unfoldable pub assign_pod_ipv4_address_unsafe :
    DataStore → K8sPodInfo → Instant → DataStore × Result (String × ℤ)
assign_pod_ipv4_address_unsafe ds pod now = elim (find_slot pod.ip now ds.eni_ip_pools) [
  | none ↦ (ds, err no_available_ip)
  | some slot ↦ take_slot ds (pod_key pod) slot
]

unfoldable pub assign_pod_ipv4_address :
    DataStore → K8sPodInfo → Instant → DataStore × Result (String × ℤ)
assign_pod_ipv4_address ds pod now = elim (lookup pod_key_discrete (pod_key pod) ds.pods_ip) [
  | some ip_addr ↦
      if same ip_addr.ip pod.ip && not (same pod.ip "")
      then (ds, ok (ip_addr.ip, ip_addr.device_number))
      else (ds, err multiple_ips)
  | none ↦ assign_pod_ipv4_address_unsafe ds pod now
]

-- The loop of `UnassignPodIPv4Address`: the first ENI on which the address is assigned.
unfoldable pub find_assigned : String → Dict String EniIpPool → Option Slot
find_assigned ip [] = none
find_assigned ip ((key, eni) ∷ rest) = elim (lookup string_discrete ip eni.ipv4_addresses) [
  | none ↦ find_assigned ip rest
  | some addr ↦
      if addr.assigned
      then some (record { eni_key = key; eni = eni; addr_key = ip; addr = addr })
      else find_assigned ip rest
]

unfoldable pub release_slot : DataStore → PodKey → Slot → Instant → DataStore
release_slot ds key slot now = record ds {
  assigned = ds.assigned -ℤ pos 1;
  gauges = record (ds.gauges) { assigned_ips = ds.assigned -ℤ pos 1 };
  eni_ip_pools =
      insert string_discrete slot.eni_key
        (record eni {
          assigned_ipv4_addresses = eni.assigned_ipv4_addresses -ℤ pos 1;
          last_unassigned_time = now;
          ipv4_addresses =
              insert string_discrete slot.addr_key
                (record (slot.addr) { assigned = false; unassigned_time = now }) eni.ipv4_addresses;
        })
        ds.eni_ip_pools;
  pods_ip = remove pod_key_discrete key ds.pods_ip;
}
  where
    open slot use {eni}

unfoldable pub unassign_pod_ipv4_address :
    DataStore → K8sPodInfo → Instant → DataStore × Result (String × ℤ)
unassign_pod_ipv4_address ds pod now = elim (lookup pod_key_discrete (pod_key pod) ds.pods_ip) [
  | none ↦ (ds, err unknown_pod)
  | some ip_addr ↦ elim (find_assigned ip_addr.ip ds.eni_ip_pools) [
    | none ↦ (ds, err unknown_pod_ip)
    | some slot ↦
        (release_slot ds (pod_key pod) slot now, ok (slot.addr.address, slot.eni.device_number))
  ]
]
