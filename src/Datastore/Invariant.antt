-- ===== src/Datastore/Invariant.antt =====
-- The counters of ipamd/datastore/data_store.go against the maps that they count.
pub mod Addresses
pub mod Slots
pub mod Assign
pub mod Enis
use amazon_vpc_cni_k8s.Prelude.{
  ℕ, pos, String, string_discrete, ◌≡◌, refl, if◌then◌else◌, Dict, Distinct, Each, total_of, length,
}
use amazon_vpc_cni_k8s.Datastore.{
  AddressInfo, EniIpPool, DataStore, pod_key_discrete, Gauges, new_data_store,
}

abbrev pub in_use : AddressInfo → ℕ
in_use a = if a.assigned then 1 else 0

abbrev pub used_count : EniIpPool → ℕ
used_count e = total_of in_use e.ipv4_addresses

abbrev pub address_count : EniIpPool → ℕ
address_count e = length e.ipv4_addresses

-- An ENI knows its own key, counts its assigned addresses, and its addresses know their keys.
pub record PoolIsValid (key : String) (e : EniIpPool) : Type 0 where
  pub keyed : e.id ≡ key
  pub counted : e.assigned_ipv4_addresses ≡ pos (used_count e)
  pub distinct : Distinct string_discrete e.ipv4_addresses
  pub addressed : Each (λ k a. a.address ≡ k) e.ipv4_addresses

-- The store's two totals are the sums over its ENIs.
pub record IsValid (ds : DataStore) : Type 0 where
  pub distinct : Distinct string_discrete ds.eni_ip_pools
  pub pools : Each PoolIsValid ds.eni_ip_pools
  pub total_counted : ds.total ≡ pos (total_of address_count ds.eni_ip_pools)
  pub assigned_counted : ds.assigned ≡ pos (total_of used_count ds.eni_ip_pools)
  pub pods_distinct : Distinct pod_key_discrete ds.pods_ip

pub new_data_store-IsValid : (g : Gauges) → IsValid (new_data_store g)
unfolding new_data_store
new_data_store-IsValid g = record {
  distinct = tt;
  pools = tt;
  total_counted = refl;
  assigned_counted = refl;
  pods_distinct = tt;
}
