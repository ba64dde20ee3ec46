-- ===== src/Awsutils/InstanceType.antt =====
-- pkg/awsutils/awsutils.go: the limits of the instance type, as the daemon asks for them.
use amazon_vpc_cni_k8s.Prelude.{ℤ, pos, ◌-ℤ◌, String, string_discrete, Option, none, some, lookup}
use amazon_vpc_cni_k8s.Awsutils.Enis.{instance_enis_available}
use amazon_vpc_cni_k8s.Awsutils.Ips.{instance_ips_available}

-- `GetENILimit`, for the type of the instance; `none` is the error of an unknown type.
unfoldable pub get_eni_limit : String → Option ℤ
get_eni_limit instance_type = elim (lookup string_discrete instance_type instance_enis_available) [
  | none ↦ none
  | some limit ↦ some (pos limit)
]

-- `GetENIipLimit`: the interface's own address is not given to a pod.
unfoldable pub get_eni_ip_limit : String → Option ℤ
get_eni_ip_limit instance_type =
    elim (lookup string_discrete instance_type instance_ips_available) [
      | none ↦ none
      | some limit ↦ some (pos limit -ℤ pos 1)
    ]
