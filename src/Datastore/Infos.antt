-- ===== src/Datastore/Infos.antt =====
-- ipamd/datastore/data_store.go: what the store tells the rest of the daemon.
use Prim.Native.String
use amazon_vpc_cni_k8s.Prelude.{
  ℤ, pos, String, string_discrete, none, some, [], ◌∷◌, Dict, insert, lookup, length,
}
use amazon_vpc_cni_k8s.Datastore.Types.{
  AddressInfo, DataStore, EniInfos, PodKey, PodIpInfo, Result, ok, err, unknown_eni,
}

unfoldable pub info_key : PodKey → String
info_key k =
    String.◌++◌ k.name (String.◌++◌ "_" (String.◌++◌ k.namespace (String.◌++◌ "_" k.container)))

-- The loop of `GetPodInfos`, over the map that it fills.
unfoldable pub pod_infos_onto :
    Dict String PodIpInfo → Dict PodKey PodIpInfo → Dict String PodIpInfo
pod_infos_onto infos [] = infos
pod_infos_onto infos ((key, info) ∷ rest) =
    pod_infos_onto (insert string_discrete (info_key key) info infos) rest

unfoldable pub get_pod_infos : DataStore → Dict String PodIpInfo
unfolding pod_infos_onto info_key
get_pod_infos ds = pod_infos_onto [] ds.pods_ip

unfoldable pub get_eni_infos : DataStore → EniInfos
get_eni_infos ds = record {
  total_ips = ds.total;
  assigned_ips = ds.assigned;
  eni_ip_pools = ds.eni_ip_pools;
}

unfoldable pub get_enis : DataStore → ℤ
get_enis ds = pos (length ds.eni_ip_pools)

unfoldable pub get_eni_ip_pools : DataStore → String → Result (Dict String AddressInfo)
get_eni_ip_pools ds eni = elim (lookup string_discrete eni ds.eni_ip_pools) [
  | none ↦ err unknown_eni
  | some pool ↦ ok pool.ipv4_addresses
]
