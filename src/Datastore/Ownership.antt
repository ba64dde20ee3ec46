-- ===== src/Datastore/Ownership.antt =====
-- Who holds which address: the map of the pods of ipamd/datastore/data_store.go against the marks
-- on the addresses.
pub mod Serves
pub mod Addresses
pub mod Pods
pub mod Plain
pub mod Named
pub mod Settled
use amazon_vpc_cni_k8s.Prelude.{
  ℕ, String, string_discrete, ◌≡◌, Bool, ◌&&◌, none, if◌then◌else◌, Dict, lookup, Each, total_of,
}
use amazon_vpc_cni_k8s.Datastore.{AddressInfo, EniIpPool, DataStore, PodKey, PodIpInfo, same}
use amazon_vpc_cni_k8s.Datastore.Invariant.{IsValid}

-- The number of pods that the map gives the address.
abbrev pub pods_with : String → Dict PodKey PodIpInfo → ℕ
pods_with ip = total_of (λ info. if same info.ip ip then 1 else 0)

abbrev pub holds : String → AddressInfo → ℕ
holds ip a = if a.assigned && same a.address ip then 1 else 0

abbrev pub held_on : String → EniIpPool → ℕ
held_on ip e = total_of (holds ip) e.ipv4_addresses

-- The number of ENIs on which the address is marked as assigned.
abbrev pub held : String → Dict String EniIpPool → ℕ
held ip = total_of (held_on ip)

-- A valid store with no address of an empty name, in which as many pods have an address as there
-- are ENIs on which it is marked as assigned.
pub record IsBacked (ds : DataStore) : Type 0 where
  pub valid : IsValid ds
  pub named : Each (λ _ e. lookup string_discrete "" e.ipv4_addresses ≡ none) ds.eni_ip_pools
  pub backed : (ip : String) → pods_with ip ds.pods_ip ≡ held ip ds.eni_ip_pools
