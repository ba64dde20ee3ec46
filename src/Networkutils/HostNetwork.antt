-- ===== src/Networkutils/HostNetwork.antt =====
-- pkg/networkutils/network.go: SetupHostNetwork.
use amazon_vpc_cni_k8s.Prelude.{
  ℕ, ◌+◌, ◌&&◌, ◌++◌, not, pos, String, same, Bool, true, false, Option, none, some, List, [], ◌∷◌,
  if◌then◌else◌, codes, is_prefix, decimal,
}
use Prim.Native.String
use amazon_vpc_cni_k8s.Prelude.Actions.{◌>>=◌, ◌>>◌, pure, fail, crash, attempt, error_of, for_each}
use amazon_vpc_cni_k8s.Netlink.{
  Action, Error, other_error, Net, Ip, IpNet, Rule, NetLink, main_routing_table,
  contains_no_such_rule, contain_chain_exist_err, wrapped, unless,
}
use amazon_vpc_cni_k8s.Networkutils.Settings.{LinuxNetwork}
use amazon_vpc_cni_k8s.Networkutils.RuleList.{host_rule_priority}
use amazon_vpc_cni_k8s.Networkutils.IptablesRules.{
  IptablesRule, Iptables, all_cidrs, chains_from, iptable_rules,
}

-- What else SetupHostNetwork calls: `net.Interfaces` (names and hardware addresses), `iptables.New`,
-- `encoding/csv` with a blank as its separator, and the files of /proc/sys, named by their paths.
pub record NodeHost (W : Type 0) : Type 0 where
  pub net : Net
  pub interfaces : Action W Error (List (String × String))
  pub new_iptables : Action W Error (Iptables W)
  pub read_csv : String → Option (List String)
  pub open_file : String → Action W Error (Unit {0})
  pub write_string : String → String → Action W Error (Unit {0})
  pub close_file : String → Action W Error (Unit {0})

unfoldable pub interface_with :
    {W : Type 0} → String → List (String × String) → Action W Error String
interface_with mac [] = fail other_error
interface_with mac ((name, addr) ∷ rest) =
    let later = interface_with mac rest in if same mac addr then pure name else later

-- `ruleSpec[2:]`: fewer than two words are a panic.
unfoldable pub without_action : {W : Type 0} → List String → Action W Error (List String)
without_action (_ ∷ _ ∷ words) = pure words
without_action _ = crash

module _ {W : Type 0} (host : NodeHost W) where
  unfoldable pub find_primary_interface_name : String → Action W Error String
  unfolding interface_with
  find_primary_interface_name mac = wrapped host.interfaces >>= interface_with mac

  -- A write that fails is the error, whatever closing the file answers.
  unfoldable pub set_proc_sys : String → String → Action W Error (Unit {0})
  set_proc_sys key value =
      host.open_file key
      >> (error_of (host.write_string key value) >>= elim [
        | none ↦ host.close_file key
        | some e ↦ attempt (host.close_file key) >>= λ _. fail e
      ])

  -- The rules of one chain, to be deleted.
  unfoldable pub rules_of_chain : String → ℕ → List String → Action W Error (List IptablesRule)
  unfolding without_action
  rules_of_chain chain i [] = pure []
  rules_of_chain chain i (rule ∷ rules) = elim (host.read_csv rule) [
    | none ↦ fail other_error
    | some spec ↦ do
      words ← without_action spec
      more ← rules_of_chain chain (i + 1) rules
      pure (
          record {
            name = String.◌++◌ "[" (String.◌++◌ (decimal i) (String.◌++◌ "] " chain));
            should_exist = false;
            table = "nat";
            chain = chain;
            rule = words;
          }
          ∷ more)
  ]

  unfoldable pub rules_of_chains : Iptables W → List String → Action W Error (List IptablesRule)
  unfolding rules_of_chain
  rules_of_chains ipt [] = pure []
  rules_of_chains ipt (chain ∷ chains) =
      let others = rules_of_chains ipt chains in
      if is_prefix (codes "AWS-SNAT-CHAIN") (codes chain)
      then (wrapped (ipt.list "nat" chain) >>= λ rules.
          rules_of_chain chain 0 rules >>= λ here. others >>= λ more. pure (here ++ more))
      else others

  unfoldable pub list_current_snat_rules : Iptables W → Action W Error (List IptablesRule)
  unfolding rules_of_chains
  list_current_snat_rules ipt = wrapped (ipt.list_chains "nat") >>= rules_of_chains ipt

module _ {W : Type 0} where
  unfoldable pub correct_rule : Iptables W → IptablesRule → Bool → Action W Error (Unit {0})
  correct_rule ipt r exists =
      if not exists && r.should_exist
      then wrapped (ipt.append r.table r.chain r.rule)
      else if exists && not r.should_exist
      then wrapped (ipt.delete r.table r.chain r.rule)
      else pure tt

  unfoldable pub apply_rule : Iptables W → IptablesRule → Action W Error (Unit {0})
  unfolding correct_rule
  apply_rule ipt r = wrapped (ipt.exists r.table r.chain r.rule) >>= correct_rule ipt r

  unfoldable pub make_chain : Iptables W → String → Action W Error (Unit {0})
  make_chain ipt chain = unless contain_chain_exist_err (ipt.new_chain "nat" chain)

  unfoldable pub host_rule : NetLink W → IpNet → Rule
  host_rule nl vpc_cidr = record (nl.new_rule) {
    dst = some vpc_cidr;
    table = main_routing_table;
    priority = host_rule_priority;
    invert = true;
  }

  unfoldable pub main_eni_rule : NetLink W → LinuxNetwork → Rule
  main_eni_rule nl n = record (nl.new_rule) {
    mark = pos n.main_eni_mark;
    mask = pos n.main_eni_mark;
    table = main_routing_table;
    priority = host_rule_priority;
  }

module _ {W : Type 0} (host : NodeHost W) (n : LinuxNetwork) where
  -- The name of the primary interface, its reverse path filter made loose.
  unfoldable pub loose_interface : String → Action W Error String
  unfolding find_primary_interface_name set_proc_sys
  loose_interface primary_mac = do
    intf ← wrapped (find_primary_interface_name host primary_mac)
    filtered ← wrapped (
        set_proc_sys host (String.◌++◌ "/proc/sys/net/ipv4/conf/" (String.◌++◌ intf "/rp_filter"))
          "2")
    pure intf

  -- "eth0" where node ports are not supported.
  unfoldable pub primary_interface : String → Action W Error String
  unfolding loose_interface
  primary_interface primary_mac =
      if n.node_port_support_enabled then loose_interface primary_mac else pure "eth0"

  -- The chains, and the rules given those that stand in them now.
  unfoldable pub correct_tables :
      IpNet
      → List String
      → String
      → String
      → Iptables W
      → List IptablesRule
      → Action W Error (Unit {0})
  unfolding make_chain apply_rule all_cidrs chains_from iptable_rules
  correct_tables vpc_cidr vpc_cidrs primary_addr primary_intf ipt current =
      let cidrs = all_cidrs vpc_cidrs n.exclude_snat_cidrs in
      for_each (make_chain ipt) (chains_from 0 cidrs)
      >> for_each (apply_rule ipt) (
          iptable_rules n ipt.has_random_fully primary_addr (host.net.ip_net_string vpc_cidr)
            primary_intf cidrs current)

  unfoldable pub with_iptables :
      IpNet → List String → String → String → Iptables W → Action W Error (Unit {0})
  unfolding list_current_snat_rules correct_tables
  with_iptables vpc_cidr vpc_cidrs primary_addr primary_intf ipt =
      wrapped (list_current_snat_rules host ipt)
      >>= correct_tables vpc_cidr vpc_cidrs primary_addr primary_intf ipt

  unfoldable pub setup_iptables : IpNet → List String → String → String → Action W Error (Unit {0})
  unfolding with_iptables
  setup_iptables vpc_cidr vpc_cidrs primary_addr primary_intf =
      wrapped host.new_iptables >>= with_iptables vpc_cidr vpc_cidrs primary_addr primary_intf

module _ {W : Type 0} (nl : NetLink W) (host : NodeHost W) (n : LinuxNetwork) where
  unfoldable pub mark_main_eni : Action W Error (Unit {0})
  unfolding main_eni_rule
  mark_main_eni =
      if n.node_port_support_enabled then wrapped (nl.rule_add (main_eni_rule nl n)) else pure tt

  unfoldable pub setup_host_network : IpNet → List String → String → Ip → Action W Error (Unit {0})
  unfolding primary_interface setup_iptables host_rule main_eni_rule mark_main_eni
  setup_host_network vpc_cidr vpc_cidrs primary_mac primary_addr = do
    cleaned ← unless contains_no_such_rule (nl.rule_del (host_rule nl vpc_cidr))
    primary_intf ← primary_interface host n primary_mac
    renewed ← unless contains_no_such_rule (nl.rule_del (main_eni_rule nl n))
    marked ← mark_main_eni
    setup_iptables host n vpc_cidr vpc_cidrs (host.net.ip_string primary_addr) primary_intf
