-- ===== src/Datastore/Addresses.antt =====
-- ipamd/datastore/data_store.go: a new store, and the ENIs and addresses that enter and leave it.
use amazon_vpc_cni_k8s.Prelude.{
  pos, ◌+ℤ◌, ◌-ℤ◌, ℤ, String, string_discrete, Bool, false, if◌then◌else◌, none, some, [], Dict,
  insert, remove, lookup, length, Instant,
}
use amazon_vpc_cni_k8s.Datastore.Types.{
  AddressInfo, EniIpPool, DataStore, Gauges, Result, ok, err, duplicated_eni, duplicate_ip,
  unknown_ip, ip_in_use, unknown_eni, add_ip_unknown_eni, K8sPodInfo, PodKey,
}

abbrev pub pod_key : K8sPodInfo → PodKey
pod_key pod = record { name = pod.name; namespace = pod.namespace; container = pod.container }

unfoldable pub new_data_store : Gauges → DataStore
new_data_store g = record {
  total = pos 0;
  assigned = pos 0;
  eni_ip_pools = [];
  pods_ip = [];
  gauges = g;
}

abbrev pub new_pool : String → ℤ → Bool → Instant → EniIpPool
new_pool eni_id device_number is_primary now = record {
  create_time = now;
  last_unassigned_time = 0;
  is_primary = is_primary;
  id = eni_id;
  device_number = device_number;
  assigned_ipv4_addresses = pos 0;
  ipv4_addresses = [];
}

unfoldable pub add_eni : DataStore → String → ℤ → Bool → Instant → DataStore × Result (Unit {0})
add_eni ds eni_id device_number is_primary now =
    elim (lookup string_discrete eni_id ds.eni_ip_pools) [
      | some _ ↦ (ds, err duplicated_eni)
      | none ↦
          let pools =
            insert string_discrete eni_id (new_pool eni_id device_number is_primary now)
              ds.eni_ip_pools in
          (
            record ds {
              eni_ip_pools = pools;
              gauges = record (ds.gauges) { enis = pos (length pools) };
            },
            ok tt,
          )
    ]

abbrev pub new_address : String → AddressInfo
new_address ipv4 = record { address = ipv4; assigned = false; unassigned_time = 0 }

-- `ds.eniIPPools[eniID].IPv4Addresses = addrs`, which is how a write to the map that the pool
-- points to is seen from the store.
abbrev pub set_addresses :
    String → EniIpPool → Dict String AddressInfo → Dict String EniIpPool → Dict String EniIpPool
set_addresses eni_id eni addrs pools =
    insert string_discrete eni_id (record eni { ipv4_addresses = addrs }) pools

unfoldable pub add_ipv4_address_from_store :
    DataStore → String → String → DataStore × Result (Unit {0})
add_ipv4_address_from_store ds eni_id ipv4 = elim (lookup string_discrete eni_id ds.eni_ip_pools) [
  | none ↦ (ds, err add_ip_unknown_eni)
  | some cur_eni ↦ elim (lookup string_discrete ipv4 cur_eni.ipv4_addresses) [
    | some _ ↦ (ds, err duplicate_ip)
    | none ↦ (
      record ds {
        total = ds.total +ℤ pos 1;
        gauges = record (ds.gauges) { total_ips = ds.total +ℤ pos 1 };
        eni_ip_pools =
            set_addresses eni_id cur_eni
              (insert string_discrete ipv4 (new_address ipv4) cur_eni.ipv4_addresses)
              ds.eni_ip_pools;
      },
      ok tt,
    )
  ]
]

unfoldable pub del_ipv4_address_from_store :
    DataStore → String → String → DataStore × Result (Unit {0})
del_ipv4_address_from_store ds eni_id ipv4 = elim (lookup string_discrete eni_id ds.eni_ip_pools) [
  | none ↦ (ds, err unknown_eni)
  | some cur_eni ↦ elim (lookup string_discrete ipv4 cur_eni.ipv4_addresses) [
    | none ↦ (ds, err unknown_ip)
    | some ip_addr ↦ if ip_addr.assigned then (ds, err ip_in_use) else (
      record ds {
        total = ds.total -ℤ pos 1;
        gauges = record (ds.gauges) { total_ips = ds.total -ℤ pos 1 };
        eni_ip_pools =
            set_addresses eni_id cur_eni (remove string_discrete ipv4 cur_eni.ipv4_addresses)
              ds.eni_ip_pools;
      },
      ok tt,
    )
  ]
]
