-- ===== src/Driver/Tests.antt =====
-- Runs of plugins/routed-eni/driver.
use amazon_vpc_cni_k8s.Prelude.{
  ◌≡◌, ◌≢◌, ℤ, true, false, none, arith, All, refl, pos, some, List, [], ◌∷◌,
}
use amazon_vpc_cni_k8s.Netlink.{ok, Net, IpNet, Rule, wrapped, unless}
use amazon_vpc_cni_k8s.Prelude.Actions.{◌>>=◌, pure, for_each}
use amazon_vpc_cni_k8s.Netlink.Kernel.{remove_first, from_source}
use amazon_vpc_cni_k8s.Netlink.Tests.{kernel, kernel_keeps, covers, covers_priority→eq}
use amazon_vpc_cni_k8s.Networkutils.{get_rule_list_by_src}
use amazon_vpc_cni_k8s.Networkutils.Sources.{rules_not_from}
use amazon_vpc_cni_k8s.Driver.{
  tear_down_ns, container_rules, to_container_rule_priority, from_container_rule_priority,
}
use amazon_vpc_cni_k8s.Driver.RoundTrip.{tear_down_ns-container_rules}
use amazon_vpc_cni_k8s.Driver.SetupRules.{NamesRules}
use amazon_vpc_cni_k8s.Driver.Teardown.{to_container_rule, tear_down_ns_lem}

abbrev pod : IpNet
pod = record { ip = 10 ∷ 0 ∷ 0 ∷ 7 ∷ []; mask = 255 ∷ 255 ∷ 255 ∷ 255 ∷ [] }

abbrev rules : List Rule
rules =
    record (kernel.new_rule) {
      dst = some pod;
      table = pos 254;
      priority = to_container_rule_priority;
    }
    ∷ record (kernel.new_rule) {
      src = some pod;
      table = pos 2;
      priority = from_container_rule_priority;
    }
    ∷ []

tear_down_ns_lem_example :
    let t = tear_down_ns kernel pod (pos 2) rules in
    (t.0 ≡ ok tt)
    × (get_rule_list_by_src t.1 pod ≡ [])
    × (t.1 ≡ rules_not_from pod (remove_first (covers (to_container_rule kernel pod)) rules))
tear_down_ns_lem_example =
    tear_down_ns_lem kernel (λ w. w) covers kernel_keeps pod (pos 2) rules refl

-- An ADD on a table with a rule of another pod.
abbrev other_rules : List Rule
other_rules =
    record (kernel.new_rule) {
      dst = some (record { ip = 10 ∷ 0 ∷ 0 ∷ 8 ∷ []; mask = 255 ∷ 255 ∷ 255 ∷ 255 ∷ [] });
      table = pos 254;
      priority = to_container_rule_priority;
    }
    ∷ []

abbrev net : Net
net = record {
  parse_cidr = λ s. none;
  parse_ip = λ s. [];
  ip_string = λ ip. "";
  ip_net_string = λ n. "";
}

any_table :
    (r s : Rule) (t : ℤ)
    → r.table ≡ pos 0
    → covers (record r { table = t }) s ≡ true
    → covers r s ≡ true
any_table r s t _ h = h

never_refused :
    (r : Rule) (w : List Rule) → (kernel.rule_add r w).0 ≢ ok tt → (kernel.rule_add r w).1 ≡ w
never_refused r w h = absurd (h refl)

kernel-NamesRules : NamesRules kernel (λ w. w) covers
kernel-NamesRules = record {
  no_priority = refl;
  no_source = refl;
  same_priority = λ r s h n. covers_priority→eq r.priority s.priority (ground arith) n;
  any_table = any_table;
  refused = never_refused;
}

no_rule_from_pod : All (λ s. from_source pod s ≡ false) other_rules
unfolding from_source
no_rule_from_pod = (refl, tt)

no_rule_to_pod : All (λ s. covers (to_container_rule kernel pod) s ≡ false) other_rules
no_rule_to_pod = (refl, tt)

rules_made :
    (container_rules kernel net pod (pos 2) ("10.0.0.0/16" ∷ []) false other_rules).0 ≡ ok tt
unfolding container_rules from_source ◌>>=◌ wrapped unless for_each pure
rules_made = refl

tear_down_ns-container_rules_example :
    let u = (container_rules kernel net pod (pos 2) ("10.0.0.0/16" ∷ []) false other_rules).1 in
    let t = tear_down_ns kernel pod (pos 2) u in (t.0 ≡ ok tt) × (t.1 ≡ other_rules)
tear_down_ns-container_rules_example =
    tear_down_ns-container_rules kernel (λ w. w) covers kernel_keeps kernel-NamesRules pod net
      (pos 2) ("10.0.0.0/16" ∷ []) false other_rules refl no_rule_from_pod no_rule_to_pod rules_made
