-- ===== src/Networkutils/Tests.antt =====
-- Runs of pkg/networkutils.
use amazon_vpc_cni_k8s.Prelude.{
  ℕ, ◌+◌, ◌≤◌, ◌<◌, ◌≡◌, refl, ◌⊎◌, same, String, string_discrete, if◌then◌else◌, true, false, not,
  ◌&&◌, ◌++◌, none, some, List, [], ◌∷◌, length, arith, pos, decimal, digits_before, digit,
  hexadecimal,
}
use mathlib.Core.List.{Perm}
use amazon_vpc_cni_k8s.Prelude.Actions.{◌>>=◌, pure, for_each}
use amazon_vpc_cni_k8s.Netlink.{ok, Net, IpNet, Rule, ip_equal, wrapped, unless}
use amazon_vpc_cni_k8s.Netlink.Tests.{kernel, kernel_keeps, covers}
use amazon_vpc_cni_k8s.Networkutils
use amazon_vpc_cni_k8s.Networkutils.{
  setup_iptables, NodeHost, IptablesRule, LinuxNetwork, random_hash_snat, all_cidrs, snat_rules,
  is_from, get_rule_list_by_src, delete_rule_list_by_src, uint32, increment_ipv4_addr,
  update_rule_list_by_src,
}
use amazon_vpc_cni_k8s.Networkutils.TableTests.{tables, tables_keep, count}
use amazon_vpc_cni_k8s.Networkutils.Tables.{is_among}
use amazon_vpc_cni_k8s.Networkutils.Present.{setup_iptables_present}
use amazon_vpc_cni_k8s.Networkutils.Snat.{snat_rules_lem}
use amazon_vpc_cni_k8s.Networkutils.Packets.{Packet, changes_source, is_within_one}
use amazon_vpc_cni_k8s.Networkutils.Sources.{rules_not_from, delete_rule_list_by_src_lem}
use amazon_vpc_cni_k8s.Networkutils.Updates.{update_rule_list_by_src_lem}
use amazon_vpc_cni_k8s.Networkutils.Bounds.{increment_ipv4_addr_lem}

abbrev pub node : LinuxNetwork
node = record {
  use_external_snat = false;
  exclude_snat_cidrs = "192.168.0.0/16" ∷ [];
  type_of_snat = random_hash_snat;
  node_port_support_enabled = false;
  main_eni_mark = 0x80;
}

abbrev to_vpc : Packet
to_vpc = record { is_within = λ cidr. same cidr "10.0.0.0/16"; is_local = false }

snat_rules_lem_example :
    let cidrs = all_cidrs ("10.0.0.0/16" ∷ []) ("192.168.0.0/16" ∷ []) in
    changes_source to_vpc (snat_rules node true "10.0.0.5" cidrs) (length cidrs + 2) "POSTROUTING"
    ≡ (not node.use_external_snat
        && not to_vpc.is_local
        && not (is_within_one to_vpc (("10.0.0.0/16" ∷ []) ++ ("192.168.0.0/16" ∷ []))))
snat_rules_lem_example =
    snat_rules_lem to_vpc node true "10.0.0.5" ("10.0.0.0/16" ∷ []) ("192.168.0.0/16" ∷ [])

abbrev address : ℕ → IpNet
address n = record { ip = 10 ∷ 0 ∷ 0 ∷ n ∷ []; mask = 255 ∷ 255 ∷ 255 ∷ 255 ∷ [] }

abbrev rule_from : ℕ → Rule
rule_from n = record (kernel.new_rule) {
  src = some (address n);
  priority = pos 1536;
  table = pos 2;
}

abbrev rules : List Rule
rules = rule_from 7 ∷ rule_from 8 ∷ rule_from 7 ∷ []

abbrev no_net : Net
no_net = record {
  parse_cidr = λ cidr. none;
  parse_ip = λ ip. [];
  ip_string = λ ip. "10.0.0.5";
  ip_net_string = λ n. "10.0.0.0/16";
}

delete_rule_list_by_src_lem_example :
    let d = delete_rule_list_by_src kernel (address 7) rules in
    (d.0 ≡ ok tt) × (d.1 ≡ rules_not_from (address 7) rules)
delete_rule_list_by_src_lem_example =
    delete_rule_list_by_src_lem kernel (λ w. w) covers kernel_keeps (address 7) rules

abbrev vpc : IpNet
vpc = record { ip = 10 ∷ 0 ∷ 0 ∷ 0 ∷ []; mask = 255 ∷ 255 ∷ 0 ∷ 0 ∷ [] }

abbrev excluded : IpNet
excluded = record { ip = 192 ∷ 168 ∷ 0 ∷ 0 ∷ []; mask = 255 ∷ 255 ∷ 0 ∷ 0 ∷ [] }

abbrev two_nets : Net
two_nets = record (no_net) {
  parse_cidr = λ cidr. some (if same cidr "10.0.0.0/16" then vpc else excluded);
}

from_address : get_rule_list_by_src rules (address 7) ≡ (rule_from 7 ∷ []) ++ rule_from 7 ∷ []
unfolding get_rule_list_by_src is_from ip_equal
from_address = refl

abbrev vpc_cidrs : List String
vpc_cidrs = "10.0.0.0/16" ∷ []

abbrev excluded_cidrs : List String
excluded_cidrs = "192.168.0.0/16" ∷ []

updated :
    (update_rule_list_by_src kernel two_nets excluded_cidrs rules
      (address 7)
      vpc_cidrs
      true
      rules).0
    ≡ ok tt
unfolding update_rule_list_by_src Networkutils.renew_rules Networkutils.add_pod_rules
    Networkutils.delete_rule get_rule_list_by_src is_from ip_equal for_each ◌>>=◌ wrapped unless
    pure
updated = refl

abbrev rule_to : IpNet → Rule
rule_to dst = record (rule_from 7) { dst = some dst }

update_rule_list_by_src_lem_example :
    let u =
      update_rule_list_by_src kernel two_nets excluded_cidrs rules
        (address 7)
        vpc_cidrs
        true
        rules in
    (rules_not_from (address 7) u.1 ≡ rules_not_from (address 7) rules)
    × Perm (get_rule_list_by_src u.1 (address 7)) (rule_to vpc ∷ rule_to excluded ∷ [])
unfolding string_discrete
update_rule_list_by_src_lem_example =
    update_rule_list_by_src_lem kernel (λ w. w) covers kernel_keeps (address 7) two_nets
      excluded_cidrs vpc_cidrs true rules (rule_from 7 ∷ []) (rule_from 7) from_address updated

increment_ipv4_addr_lem_example :
    ((increment_ipv4_addr (10 ∷ 0 ∷ 0 ∷ 255 ∷ []) ≡ none) × (uint32 10 0 0 255 ≡ 4294967295))
    ⊎ ((e : ℕ) × (f : ℕ) × (g : ℕ) × (h : ℕ) × (increment_ipv4_addr (10 ∷ 0 ∷ 0 ∷ 255 ∷ [])
          ≡ some (e ∷ f ∷ g ∷ h ∷ []))
        × (e < 256)
        × (f < 256)
        × (g < 256)
        × (h < 256)
        × (uint32 e f g h ≡ uint32 10 0 0 255 + 1))
increment_ipv4_addr_lem_example =
    increment_ipv4_addr_lem 10 0 0 255 (omega arith) (omega arith) (omega arith) (omega arith)

abbrev host : NodeHost (List IptablesRule)
host = record {
  net = no_net;
  interfaces = λ w. (ok [], w);
  new_iptables = λ w. (ok tables, w);
  read_csv = λ text. none;
  open_file = λ path w. (ok tt, w);
  write_string = λ path text w. (ok tt, w);
  close_file = λ path w. (ok tt, w);
}

abbrev first : IptablesRule
first = record {
  name = "";
  should_exist = true;
  table = "nat";
  chain = "POSTROUTING";
  rule = "-m" ∷ "comment" ∷ "--comment" ∷ "AWS SNAT CHAIN" ∷ "-j" ∷ "AWS-SNAT-CHAIN-0" ∷ [];
}

first_wanted :
    is_among first
      (snat_rules node true "10.0.0.5" (all_cidrs ("10.0.0.0/16" ∷ []) node.exclude_snat_cidrs))
    ≡ true
unfolding snat_rules Networkutils.first_rule all_cidrs string_discrete
first_wanted = refl

set_up : (setup_iptables host node (address 0) ("10.0.0.0/16" ∷ []) "10.0.0.5" "eth0" []).0 ≡ ok tt
unfolding setup_iptables Networkutils.with_iptables Networkutils.correct_tables
    Networkutils.list_current_snat_rules Networkutils.rules_of_chains Networkutils.make_chain
    Networkutils.apply_rule Networkutils.correct_rule all_cidrs Networkutils.chains_from
    Networkutils.chain_name Networkutils.iptable_rules Networkutils.snat_rules
    Networkutils.rules_from Networkutils.first_rule Networkutils.cidr_rule Networkutils.last_rule
    Networkutils.snat_words Networkutils.random_flag Networkutils.stale_rules
    Networkutils.connmark_rules Networkutils.old_snat_rule hexadecimal decimal digits_before digit
    string_discrete for_each ◌>>=◌ wrapped unless pure
set_up = refl

setup_iptables_present_example :
    1
    ≤ count first (setup_iptables host node (address 0) ("10.0.0.0/16" ∷ []) "10.0.0.5" "eth0" []).1
setup_iptables_present_example =
    setup_iptables_present host node tables count tables_keep (address 0) ("10.0.0.0/16" ∷ [])
      "10.0.0.5" "eth0" first refl first_wanted [] refl set_up
