-- ===== src/Networkutils/RuleList.antt =====
-- pkg/networkutils/network.go: the rules of a source address.
use amazon_vpc_cni_k8s.Prelude.{
  if◌then◌else◌, ℤ, pos, String, Bool, false, Option, none, some, List, [], ◌∷◌, ◌++◌,
}
use amazon_vpc_cni_k8s.Prelude.Actions.{◌>>=◌, ◌>>◌, pure, for_each}
use amazon_vpc_cni_k8s.Netlink.{
  Action, Error, Net, IpNet, Rule, NetLink, ip_equal, contains_no_such_rule, wrapped, unless,
}

abbrev pub to_pod_rule_priority : ℤ
to_pod_rule_priority = pos 512

abbrev pub host_rule_priority : ℤ
host_rule_priority = pos 1024

abbrev pub from_pod_rule_priority : ℤ
from_pod_rule_priority = pos 1536

unfoldable pub is_from : IpNet → Rule → Bool
is_from src rule = elim rule.src [ none ↦ false | some n ↦ ip_equal n.ip src.ip ]

-- It has no error.
unfoldable pub get_rule_list_by_src : List Rule → IpNet → List Rule
unfolding is_from
get_rule_list_by_src [] src = []
get_rule_list_by_src (rule ∷ rules) src =
    let rest = get_rule_list_by_src rules src in if is_from src rule then rule ∷ rest else rest

-- The table of the last rule, 0 where there is none.
unfoldable pub last_table : ℤ → List Rule → ℤ
last_table table [] = table
last_table table (rule ∷ rules) = last_table rule.table rules

module _ {W : Type 0} (nl : NetLink W) where
  unfoldable pub delete_rule : Rule → Action W Error (Unit {0})
  delete_rule rule = unless contains_no_such_rule (nl.rule_del rule)

  unfoldable pub delete_rule_list_by_src : IpNet → Action W Error (Unit {0})
  unfolding delete_rule
  delete_rule_list_by_src src = do
    rule_list ← nl.rule_list
    for_each delete_rule (get_rule_list_by_src rule_list src)

  unfoldable pub pod_rule : IpNet → ℤ → Option IpNet → Rule
  pod_rule src table dst = record (nl.new_rule) {
    src = some src;
    dst = dst;
    table = table;
    priority = from_pod_rule_priority;
  }

  -- A CIDR that does not parse leaves the rule without a destination.
  unfoldable pub add_pod_rules :
      Net → List String → IpNet → ℤ → List String → Bool → Action W Error (Unit {0})
  unfolding pod_rule
  add_pod_rules net exclude_snat_cidrs src table to_cidrs requires_snat =
      if requires_snat
      then for_each (λ cidr. wrapped (nl.rule_add (pod_rule src table (net.parse_cidr cidr))))
          (to_cidrs ++ exclude_snat_cidrs)
      else wrapped (nl.rule_add (pod_rule src table nl.new_rule.dst))

  -- What comes after the old rules are deleted: nothing where there were none.
  unfoldable pub renew_rules :
      Net → List String → List Rule → IpNet → List String → Bool → Action W Error (Unit {0})
  unfolding add_pod_rules
  renew_rules net exclude_snat_cidrs [] src to_cidrs requires_snat = pure tt
  renew_rules net exclude_snat_cidrs (r ∷ rs) src to_cidrs requires_snat =
      add_pod_rules net exclude_snat_cidrs src (last_table (pos 0) (r ∷ rs)) to_cidrs requires_snat

  unfoldable pub update_rule_list_by_src :
      Net → List String → List Rule → IpNet → List String → Bool → Action W Error (Unit {0})
  unfolding delete_rule renew_rules
  update_rule_list_by_src net exclude_snat_cidrs rule_list src to_cidrs requires_snat =
      let src_rule_list = get_rule_list_by_src rule_list src in
      for_each delete_rule src_rule_list
      >> renew_rules net exclude_snat_cidrs src_rule_list src to_cidrs requires_snat
