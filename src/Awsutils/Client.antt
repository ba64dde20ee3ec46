-- ===== src/Awsutils/Client.antt =====
-- pkg/awsutils/awsutils.go: the client's cache, what it calls, and how its methods fail.
use amazon_vpc_cni_k8s.Prelude.{
  ℕ, ◌*◌, ℤ, String, Bool, true, false, Option, none, some, List, second,
}
use amazon_vpc_cni_k8s.Prelude.Actions
pub use amazon_vpc_cni_k8s.Prelude.Actions.{ok, failed, crashed}
unfoldable pub use amazon_vpc_cni_k8s.Prelude.Actions.{
  ◌>>=◌, ◌>>◌, pure, fail, crash, call, attempt, rest,
}

abbrev pub max_eni_delete_retries : ℕ
max_eni_delete_retries = 20

abbrev pub max_enis : ℕ
max_enis = 128

abbrev pub retry_delete_eni_internal : ℕ
retry_delete_eni_internal = 5 * second

-- `EC2InstanceMetadataCache`, without the clients, and without `currentENIs`, which is only logged.
pub record Cache : Type 0 where
  pub security_groups : List String
  pub subnet_id : String
  pub local_ipv4 : String
  pub instance_id : String
  pub instance_type : String
  pub vpc_ipv4_cidr : String
  pub vpc_ipv4_cidrs : List String
  pub primary_eni : String
  pub primary_eni_mac : String
  pub availability_zone : String
  pub region : String
  pub account_id : String

-- `ENIMetadata`
pub record EniMetadata : Type 0 where
  pub eni_id : String
  pub mac : String
  pub device_number : ℤ
  pub subnet_ipv4_cidr : String
  pub local_ipv4s : List String

-- `ec2.NetworkInterfacePrivateIpAddress`, read by `aws.BoolValue` and `aws.StringValue`.
pub record Ec2Address : Type 0 where
  pub primary : Bool
  pub private_ip_address : String

-- An interface as EC2 describes it. `none` is an attachment that is nil.
pub record NetworkInterface : Type 0 where
  pub private_ip_addresses : List Ec2Address
  pub attachment : Option String

pub data DescribeAnswer : Type 0 where
  not_found describe_failed : DescribeAnswer
  interfaces : List NetworkInterface → DescribeAnswer

pub data AssignAnswer : Type 0 where
  assigned limit_exceeded assign_failed : AssignAnswer

-- What the client calls: the metadata service, EC2 and the clock. `none` and `false` are errors.
-- An instance is described by the device indexes of its interfaces' attachments.
pub record Ec2 (W : Type 0) : Type 0 where
  pub get_metadata : String → W → Option String × W
  pub describe_instances : String → W → Option (List (List (List (Option ℤ)))) × W
  pub create_network_interface : String → List String → String → W → Option String × W
  pub create_tags : String → List (String × String) → W → Bool × W
  pub attach_network_interface : ℤ → String → String → W → Option String × W
  pub modify_network_interface_attribute : String → String → W → Bool × W
  pub detach_network_interface : String → W → Bool × W
  pub delete_network_interface : String → W → Bool × W
  pub describe_network_interfaces : String → W → DescribeAnswer × W
  pub assign_private_ip_addresses : String → ℤ → W → AssignAnswer × W
  pub unassign_private_ip_addresses : String → List String → W → Bool × W
  pub sleep : ℕ → W → W

pub data AwsError : Type 0 where
  eni_not_found other_error : AwsError

-- A method of the client.
abbrev pub Action : Type 0 → Type 0 → Type 0
Action W A = Actions.Action W AwsError A

abbrev pub Answer : Type 0 → Type 0
Answer A = Actions.Answer AwsError A

-- A call whose error ends the method.
unfoldable pub must : {W A : Type 0} → (W → Option A × W) → Action W A
must f w = (elim (f w).0 [ none ↦ failed other_error | some a ↦ ok a ], (f w).1)

unfoldable pub done : {W : Type 0} → (W → Bool × W) → Action W (Unit {0})
done f w = (elim (f w).0 [ false ↦ failed other_error | true ↦ ok tt ], (f w).1)
