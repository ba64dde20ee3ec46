-- ===== src/Introspect.antt =====
-- ipamd/introspect.go: what the daemon tells of its state over HTTP, and GetConfigForDebug of
-- ipamd/ipamd.go and pkg/networkutils/network.go.
pub mod Settings
mod Tests
use amazon_vpc_cni_k8s.Prelude.{
  ℕ, ℤ, String, same, string_discrete, Bool, true, false, Option, none, some, List, [], ◌∷◌, map,
  if◌then◌else◌, Dict, lookup, parse_bool,
}
use amazon_vpc_cni_k8s.Datastore.{DataStore, EniInfos, PodIpInfo, get_eni_infos, get_pod_infos}
use amazon_vpc_cni_k8s.Eniconfig.{EniConfigController, EniConfigInfo, getter}
use amazon_vpc_cni_k8s.Ipamd.{get_warm_ip_target, get_warm_eni_target, use_custom_network_cfg}
use amazon_vpc_cni_k8s.Netlink.{Net}
use amazon_vpc_cni_k8s.Networkutils.{
  SnatType, external_snat, get_exclude_snat_cidrs, node_port_support_enabled, get_connmark,
  type_of_snat,
}

abbrev pub default_introspection_bind_address : String
default_introspection_bind_address = "127.0.0.1:61679"

-- The maps of `GetConfigForDebug`, a field for each variable.
pub record NetworkDebug : Type 0 where
  pub external_snat : Bool
  pub exclude_snat_cidrs : List String
  pub node_port_support : Bool
  pub connmark : ℕ
  pub randomize_snat : SnatType

pub record IpamdDebug : Type 0 where
  pub warm_ip_target : ℤ
  pub warm_eni_target : ℤ
  pub custom_network_cfg : Bool

-- `os.Getenv` of `os.LookupEnv`.
abbrev pub getenv_of : (String → Option String) → String → String
getenv_of lookup_env name = elim (lookup_env name) [ none ↦ "" | some s ↦ s ]

module _ (lookup_env : String → Option String) where
  -- `networkutils.GetConfigForDebug`
  unfoldable pub network_config_for_debug : Net → NetworkDebug
  network_config_for_debug net =
      let getenv = getenv_of lookup_env in
      record {
        external_snat = external_snat getenv;
        exclude_snat_cidrs = get_exclude_snat_cidrs getenv net;
        node_port_support = node_port_support_enabled getenv;
        connmark = get_connmark getenv;
        randomize_snat = type_of_snat getenv;
      }

  -- `GetConfigForDebug` of the daemon.
  unfoldable pub ipamd_config_for_debug : IpamdDebug
  ipamd_config_for_debug = record {
    warm_ip_target = get_warm_ip_target (lookup_env "WARM_IP_TARGET");
    warm_eni_target = get_warm_eni_target (lookup_env "WARM_ENI_TARGET");
    custom_network_cfg =
        use_custom_network_cfg (getenv_of lookup_env "AWS_VPC_K8S_CNI_CUSTOM_NETWORK_CFG");
  }

  unfoldable pub get_env_bool_with_default : String → Bool → Bool
  get_env_bool_with_default env_name def =
      let value = getenv_of lookup_env env_name in
      if same value "" then def else elim (parse_bool value) [ none ↦ def | some b ↦ b ]

  unfoldable pub disable_introspection : Bool
  disable_introspection = get_env_bool_with_default "DISABLE_INTROSPECTION" false

  unfoldable pub bind_address : String
  bind_address = elim (lookup_env "INTROSPECTION_BIND_ADDRESS") [
    | none ↦ default_introspection_bind_address
    | some addr ↦ addr
  ]

-- What a handler puts into JSON.
pub data Document : Type 0 where
  commands : List String → Document
  eni_infos : EniInfos → Document
  pod_infos : Dict String PodIpInfo → Document
  eni_configs : EniConfigInfo → Document
  network_settings : NetworkDebug → Document
  ipamd_settings : IpamdDebug → Document

pub data Response : Type 0 where
  written : String → Response
  internal_server_error : Response

-- `json.Marshal`, `none` an error.
module _ (marshal : Document → Option String) where
  -- The body that each of the handlers has.
  unfoldable pub answer : Document → Response
  answer document = elim (marshal document) [
    | none ↦ internal_server_error
    | some json ↦ written json
  ]

  module _ (lookup_env : String → Option String) (net : Net) where
    unfoldable pub server_functions : DataStore → EniConfigController → Dict String Document
    server_functions store config =
        ("/v1/enis", eni_infos (get_eni_infos store))
        ∷ ("/v1/eni-configs", eni_configs (getter lookup_env config))
        ∷ ("/v1/pods", pod_infos (get_pod_infos store))
        ∷ (
          "/v1/networkutils-env-settings",
          network_settings (network_config_for_debug lookup_env net),
        )
        ∷ ("/v1/ipamd-env-settings", ipamd_settings (ipamd_config_for_debug lookup_env))
        ∷ []

    unfoldable pub paths : Dict String Document → List String
    paths [] = []
    paths ((path, document) ∷ functions) = path ∷ paths functions

    -- A request of a path: the multiplexer gives all but the known paths to the default handler,
    -- which writes what there was of its document.
    unfoldable pub serve : DataStore → EniConfigController → String → Response
    serve store config path =
        let functions = server_functions store config in
        elim (lookup string_discrete path functions) [
          | some document ↦ answer document
          | none ↦ elim (marshal (commands (paths functions))) [
            | none ↦ written ""
            | some json ↦ written json
          ]
        ]
