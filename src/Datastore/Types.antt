-- ===== src/Datastore/Types.antt =====
-- The data of ipamd/datastore/data_store.go, and `K8SPodInfo` of pkg/k8sapi/discovery.go.
use amazon_vpc_cni_k8s.Prelude.{
  ℕ, ℤ, String, string_discrete, Bool, Dict, Instant, second, minute, ◌*◌,
}

abbrev pub min_life_time : ℕ
min_life_time = 1 * minute

abbrev pub address_eni_cooling_period : ℕ
address_eni_cooling_period = 1 * minute

abbrev pub address_cooling_period : ℕ
address_cooling_period = 30 * second

pub record AddressInfo : Type 0 where
  pub address : String
  pub assigned : Bool
  pub unassigned_time : Instant

pub record EniIpPool : Type 0 where
  pub create_time : Instant
  pub last_unassigned_time : Instant
  pub is_primary : Bool
  pub id : String
  pub device_number : ℤ
  pub assigned_ipv4_addresses : ℤ
  pub ipv4_addresses : Dict String AddressInfo

pub record PodKey : Type 0 where
  pub name : String
  pub namespace : String
  pub container : String

pub record PodIpInfo : Type 0 where
  pub ip : String
  pub device_number : ℤ

-- The package's Prometheus gauges, as last set.
pub record Gauges : Type 0 where
  pub enis : ℤ
  pub total_ips : ℤ
  pub assigned_ips : ℤ

pub record DataStore : Type 0 where
  pub total : ℤ
  pub assigned : ℤ
  pub eni_ip_pools : Dict String EniIpPool
  pub pods_ip : Dict PodKey PodIpInfo
  pub gauges : Gauges

pub record EniInfos : Type 0 where
  pub total_ips : ℤ
  pub assigned_ips : ℤ
  pub eni_ip_pools : Dict String EniIpPool

pub record K8sPodInfo : Type 0 where
  pub name : String
  pub namespace : String
  pub container : String
  pub ip : String
  pub uid : String

-- `nil_dereference` is the panic of a field access through a nil pointer.
pub data Error : Type 0 where
  duplicated_eni duplicate_ip unknown_ip ip_in_use eni_in_use unknown_eni : Error
  add_ip_unknown_eni multiple_ips no_available_ip unknown_pod unknown_pod_ip : Error
  nil_dereference : Error

pub data Result {ℓ} (A : Type ℓ) : Type ℓ where
  ok : A → Result A
  err : Error → Result A

unfoldable pub pod_key_discrete : Discrete PodKey
pod_key_discrete = hlevel string_discrete
