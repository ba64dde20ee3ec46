-- ===== src/Driver.antt =====
-- plugins/routed-eni/driver/driver.go: the network of one pod.
pub mod Teardown
pub mod RuleLists
pub mod SetupRules
pub mod RoundTrip
mod Tests
use amazon_vpc_cni_k8s.Prelude.{
  ℕ, ltb, if◌then◌else◌, ℤ, pos, negsuc, String, Bool, true, false, Option, none, some, List, [],
  ◌∷◌,
}
use amazon_vpc_cni_k8s.Prelude.Actions.{◌>>=◌, ◌>>◌, pure, fail, attempt, error_of, for_each}
use amazon_vpc_cni_k8s.Netlink.{
  Action, Error, Net, Ip, IpNet, Link, Route, scope_link, Veth, Neigh, Rule, NetLink,
  main_routing_table, ethernet_mtu, contains_no_such_rule, is_route_exists_error, wrapped, unless,
}
use amazon_vpc_cni_k8s.Networkutils.{delete_rule_list_by_src}

abbrev pub to_container_rule_priority : ℤ
to_container_rule_priority = pos 512

abbrev pub from_container_rule_priority : ℤ
from_container_rule_priority = pos 1536

abbrev pub full_mask : Ip
full_mask = 255 ∷ 255 ∷ 255 ∷ 255 ∷ []

-- The dummy next hop, 169.254.1.1.
abbrev pub gateway : IpNet
gateway = record { ip = 169 ∷ 254 ∷ 1 ∷ 1 ∷ []; mask = full_mask }

abbrev pub route_to : ℤ → IpNet → Route
route_to index dst = record {
  link_index = index;
  scope = scope_link;
  dst = some dst;
  src = none;
  gw = none;
  table = pos 0;
}

-- The pod's address alone.
abbrev pub host_addr : IpNet → IpNet
host_addr addr = record { ip = addr.ip; mask = full_mask }

-- `createVethPairContext`, without its interfaces.
pub record VethPair : Type 0 where
  pub cont_veth_name : String
  pub host_veth_name : String
  pub addr : IpNet

-- The packages `ns` and `ip`: code runs in the namespace of a path, with the descriptor of the
-- host's.
pub record Namespaces (W : Type 0) : Type 0 where
  pub with_net_ns_path : String → (ℤ → Action W Error (Unit {0})) → Action W Error (Unit {0})
  pub add_default_route : Ip → Link → Action W Error (Unit {0})

abbrev pub is_positive : ℤ → Bool
is_positive (pos n) = ltb 0 n
is_positive (negsuc n) = false

module _ {W : Type 0} (nl : NetLink W) where
  unfoldable pub run : Namespaces W → VethPair → ℤ → Action W Error (Unit {0})
  run ns ctx host_ns = do
    made ←
        nl.link_add
          (record { name = ctx.cont_veth_name; mtu = ethernet_mtu; peer_name = ctx.host_veth_name })
    host_veth ← wrapped (nl.link_by_name ctx.host_veth_name)
    host_up ← wrapped (nl.link_set_up host_veth)
    cont_veth ← wrapped (nl.link_by_name ctx.cont_veth_name)
    cont_up ← wrapped (nl.link_set_up cont_veth)
    gateway_route ← wrapped (nl.route_replace (route_to cont_veth.index gateway))
    default_route ← wrapped (ns.add_default_route gateway.ip cont_veth)
    addressed ← wrapped (nl.addr_add cont_veth ctx.addr)
    arp ← wrapped (
        nl.neigh_add (record {
          link_index = cont_veth.index;
          ip = gateway.ip;
          hardware_addr = host_veth.hardware_addr;
        }))
    wrapped (nl.link_set_ns_fd host_veth host_ns)

  unfoldable pub container_rule : Bool → IpNet → ℤ → ℤ → Rule
  container_rule is_to_container addr priority table = record (nl.new_rule) {
    dst = if is_to_container then some addr else nl.new_rule.dst;
    src = if is_to_container then nl.new_rule.src else some addr;
    table = table;
    priority = priority;
  }

  unfoldable pub add_container_rule : Bool → IpNet → ℤ → ℤ → Action W Error (Unit {0})
  unfolding container_rule
  add_container_rule is_to_container addr priority table =
      unless contains_no_such_rule
        (nl.rule_del (container_rule is_to_container addr priority table))
      >> wrapped (nl.rule_add (container_rule is_to_container addr priority table))

  -- A CIDR that does not parse leaves the rule without a destination.
  unfoldable pub pod_rule_to : Net → IpNet → ℤ → String → Rule
  pod_rule_to net addr table cidr = record (nl.new_rule) {
    src = some addr;
    dst = net.parse_cidr cidr;
    table = table;
    priority = from_container_rule_priority;
  }

  unfoldable pub from_container_rules :
      Net → IpNet → ℤ → List String → Bool → Action W Error (Unit {0})
  unfolding add_container_rule pod_rule_to
  from_container_rules net addr table vpc_cidrs use_external_snat =
      if use_external_snat
      then wrapped (add_container_rule false addr from_container_rule_priority table)
      else for_each
          (λ cidr. unless is_route_exists_error (nl.rule_add (pod_rule_to net addr table cidr)))
          vpc_cidrs

  -- A veth of this name from before is deleted.
  unfoldable pub clean_old_veth : String → Action W Error (Unit {0})
  clean_old_veth host_veth_name =
      attempt (nl.link_by_name host_veth_name)
      >>= elim [ none ↦ pure tt | some old ↦ wrapped (nl.link_del old) ]

  -- The rules of the pod: to it, and from it where it is not on the primary ENI.
  unfoldable pub container_rules : Net → IpNet → ℤ → List String → Bool → Action W Error (Unit {0})
  unfolding add_container_rule from_container_rules
  container_rules net addr table vpc_cidrs use_external_snat =
      wrapped (add_container_rule true addr to_container_rule_priority main_routing_table)
      >> (if is_positive table
          then from_container_rules net addr table vpc_cidrs use_external_snat
          else pure tt)

  unfoldable pub setup_ns :
      Net → Namespaces W → VethPair → String → ℤ → List String → Bool → Action W Error (Unit {0})
  unfolding clean_old_veth run container_rules
  setup_ns net ns ctx netns_path table vpc_cidrs use_external_snat = do
    cleaned ← clean_old_veth ctx.host_veth_name
    made ← wrapped (ns.with_net_ns_path netns_path (run ns ctx))
    host_veth ← wrapped (nl.link_by_name ctx.host_veth_name)
    up ← wrapped (nl.link_set_up host_veth)
    routed ← wrapped (nl.route_replace (route_to host_veth.index (host_addr ctx.addr)))
    container_rules net ctx.addr table vpc_cidrs use_external_snat

  -- The errors of the first and of the last call are only logged.
  unfoldable pub tear_down_ns : IpNet → ℤ → Action W Error (Unit {0})
  unfolding delete_rule_list_by_src
  tear_down_ns addr table = do
    to_container ← attempt (
        nl.rule_del
          (record (nl.new_rule) { dst = some addr; priority = to_container_rule_priority }))
    from_container ←
        (if is_positive table then wrapped (delete_rule_list_by_src nl addr) else pure tt)
    host_route ← attempt (nl.route_del (route_to (pos 0) (host_addr addr)))
    pure tt
