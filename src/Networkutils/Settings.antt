-- ===== src/Networkutils/Settings.antt =====
-- pkg/networkutils/network.go: the settings that the environment gives.
use amazon_vpc_cni_k8s.Prelude.{
  ℕ, ◌^◌, ◌-◌, ◌==◌, ltb, ◌||◌, if◌then◌else◌, ℤ, pos, negsuc, String, same, Bool, true, false,
  Option, none, some, List, [], ◌∷◌, parse_bool, parse_int, split_on,
}
use amazon_vpc_cni_k8s.Netlink.{Net}

abbrev pub default_connmark : ℕ
default_connmark = 0x80

pub data SnatType : Type 0 where
  sequential_snat random_hash_snat random_prng_snat : SnatType

-- The fields of `linuxNetwork` that are settings.
pub record LinuxNetwork : Type 0 where
  pub use_external_snat : Bool
  pub exclude_snat_cidrs : List String
  pub type_of_snat : SnatType
  pub node_port_support_enabled : Bool
  pub main_eni_mark : ℕ

-- The CIDRs that parse, as `net` prints their networks.
unfoldable pub valid_cidrs : Net → List String → List String
valid_cidrs net [] = []
valid_cidrs net (c ∷ cs) = elim (net.parse_cidr c) [
  | none ↦ valid_cidrs net cs
  | some n ↦ net.ip_net_string n ∷ valid_cidrs net cs
]

unfoldable pub mark_of : Option ℤ → ℕ
mark_of none = default_connmark
mark_of (some (negsuc _)) = default_connmark
mark_of (some (pos n)) = if ltb (2 ^ 32 - 1) n || n == 0 then default_connmark else n

-- `getenv` is `os.Getenv`.
module _ (getenv : String → String) where
  unfoldable pub get_bool_env_var : String → Bool → Bool
  get_bool_env_var name default_value =
      if same (getenv name) ""
      then default_value
      else elim (parse_bool (getenv name)) [ none ↦ default_value | some b ↦ b ]

  unfoldable pub external_snat : Bool
  unfolding get_bool_env_var
  external_snat = get_bool_env_var "AWS_VPC_K8S_CNI_EXTERNALSNAT" false

  unfoldable pub get_exclude_snat_cidrs : Net → List String
  unfolding external_snat valid_cidrs
  get_exclude_snat_cidrs net =
      if external_snat
      then []
      else if same (getenv "AWS_VPC_K8S_CNI_EXCLUDE_SNAT_CIDRS") ""
      then []
      else valid_cidrs net (split_on (λ c. c == b',') (getenv "AWS_VPC_K8S_CNI_EXCLUDE_SNAT_CIDRS"))

  unfoldable pub type_of_snat : SnatType
  type_of_snat =
      let value = getenv "AWS_VPC_K8S_CNI_RANDOMIZESNAT" in
      if same value ""
      then random_hash_snat
      else if same value "prng"
      then random_prng_snat
      else if same value "none"
      then sequential_snat
      else random_hash_snat

  unfoldable pub node_port_support_enabled : Bool
  unfolding get_bool_env_var
  node_port_support_enabled = get_bool_env_var "AWS_VPC_CNI_NODE_PORT_SUPPORT" true

  unfoldable pub get_connmark : ℕ
  unfolding mark_of
  get_connmark =
      if same (getenv "AWS_VPC_K8S_CNI_CONNMARK") ""
      then default_connmark
      else mark_of (parse_int 64 (getenv "AWS_VPC_K8S_CNI_CONNMARK"))

  -- `New`, as far as settings go.
  unfoldable pub new_linux_network : Net → LinuxNetwork
  unfolding external_snat get_exclude_snat_cidrs type_of_snat node_port_support_enabled get_connmark
  new_linux_network net = record {
    use_external_snat = external_snat;
    exclude_snat_cidrs = get_exclude_snat_cidrs net;
    type_of_snat = type_of_snat;
    node_port_support_enabled = node_port_support_enabled;
    main_eni_mark = get_connmark;
  }
