-- ===== src/Introspect/Settings.antt =====
-- The settings that ipamd/introspect.go reports.
use amazon_vpc_cni_k8s.Prelude.{String, ◌≡◌, refl, Bool, Option}
use amazon_vpc_cni_k8s.Netlink.{Net}
use amazon_vpc_cni_k8s.Networkutils.{new_linux_network, get_bool_env_var}
use amazon_vpc_cni_k8s.Introspect.{getenv_of, network_config_for_debug, get_env_bool_with_default}

module _ (lookup_env : String → Option String) where
  -- The report of the network's settings is that of the settings in force, for the same environment.
  pub network_config-new_linux_network :
      (net : Net)
      → let n = new_linux_network (getenv_of lookup_env) net in
        let d = network_config_for_debug lookup_env net in
        (d.external_snat ≡ n.use_external_snat)
        × (d.exclude_snat_cidrs ≡ n.exclude_snat_cidrs)
        × (d.node_port_support ≡ n.node_port_support_enabled)
        × (d.connmark ≡ n.main_eni_mark)
        × (d.randomize_snat ≡ n.type_of_snat)
  unfolding network_config_for_debug new_linux_network
  network_config-new_linux_network net = (refl, refl, refl, refl, refl)

  -- The daemon reads a Boolean variable as the network code does.
  pub get_env_bool_lem :
      (name : String) (def : Bool)
      → get_env_bool_with_default lookup_env name def
        ≡ get_bool_env_var (getenv_of lookup_env) name def
  unfolding get_env_bool_with_default get_bool_env_var
  get_env_bool_lem name def = refl
